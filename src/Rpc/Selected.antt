-- ===== src/Rpc/Selected.antt =====
-- Which messages a replay is of.
use cosmos_swap.Prelude.{
  ◌≡◌, ◌≢◌, ◌⊎◌, inl, inr, true, false, Bool, List, [], ◌∷◌, ◌++◌, Bytes, ok, arith, Result-cases,
  Bool-cases,
}
use cosmos_swap.Rpc.{EthMsg, Msg, TxResult, Node}
use cosmos_swap.Rpc.Replay.{ethereum_msgs, collect, is_ignored}
use native.Mathlib.Decide.{ℕ_discrete}

module _ (n : Node) where
  -- A transaction that succeeded or exceeded the block's gas, and one that did neither
  abbrev pub IsReplayed : TxResult → Type 0
  IsReplayed r = (r.code ≡ 0) ⊎ (n.says_block_gas_exceeded r.log ≡ true)

  abbrev pub IsLeftOut : TxResult → Type 0
  IsLeftOut r = (r.code ≢ 0) × (n.says_block_gas_exceeded r.log ≡ false)

  -- The messages of Ethereum of the transactions that succeeded or exceeded the block's gas, in order.
  unfoldable pub Selects : List Bytes → List TxResult → List EthMsg → Type 0
  Selects [] results ms = ms ≡ []
  Selects (tx ∷ txs) [] ms = ⊥
  Selects (tx ∷ txs) (r ∷ results) ms =
      (IsReplayed r
        × (msgs : List Msg) × (rest : List EthMsg) × (n.decode_tx tx ≡ ok msgs)
        × (ms ≡ ethereum_msgs msgs ++ rest)
        × Selects txs results rest)
      ⊎ (IsLeftOut r × Selects txs results ms)

  ignored-cases :
      (r : TxResult)
      → ((is_ignored n r ≡ true) × IsLeftOut r) ⊎ ((is_ignored n r ≡ false) × IsReplayed r)
  ignored-cases r = elim (Bool-cases (n.says_block_gas_exceeded r.log)) [
    | inl y ↦ inr (ground (arith, y), inr y)
    | inr y ↦ elim (ℕ_discrete r.code 0) [
      | yes z ↦ inr (ground (arith, y, z), inl z)
      | no z ↦ inl (ground (arith, y, z), (z, y))
    ]
  ]

  pub collect-Selects :
      (txs : List Bytes) (results : List TxResult) (flag : Bool) (ms : List EthMsg)
      → collect n txs results ≡ ok (flag, ms)
      → Selects txs results ms
  unfolding collect Selects
  collect-Selects [] results flag ms e = ground (arith, e)
  collect-Selects (tx ∷ txs) [] flag ms e = ground (arith, e)
  collect-Selects (tx ∷ txs) (r ∷ results) flag ms e = elim (ignored-cases r) [
    | inl (y, out) ↦ inr (out, collect-Selects txs results flag ms (ground (arith, e, y)))
    | inr (y, taken) ↦ elim (Result-cases (n.decode_tx tx)) [
      | inr (x, z) ↦ absurd (ground (arith, e, y, z))
      | inl (msgs, z) ↦ elim (Result-cases (collect n txs results)) [
        | inr (x, u) ↦ absurd (ground (arith, e, y, z, u))
        | inl ((flag', rest), u) ↦ inl (
          taken,
          msgs,
          rest,
          z,
          ground (arith, e, y, z, u),
          collect-Selects txs results flag' rest u,
        )
      ]
    ]
  ]
