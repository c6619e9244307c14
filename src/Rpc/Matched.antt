-- ===== src/Rpc/Matched.antt =====
-- The receipts of a replayed block match its messages one by one.
use mathlib.Core.Path.{subst}
use cosmos_swap.Prelude.{
  ℕ, suc, ◌≡◌, refl, sym, ap, ◌∙◌, ok-injective, Bool, ◌&&◌, List, [], ◌∷◌, ok, length, arith, inl,
  inr, Result-cases, Bool-cases, if◌then◌else◌,
}
use cosmos_swap.Rpc.{
  add64, sub64, EthMsg, BlockDetail, MsgEthereumTxResponse, ReplayBlockRequest, Receipt, Node,
}
use cosmos_swap.Rpc.Replay.{
  context_height, replayed_receipts, replayed_receipt, reverted, revert_last, request, replay_msgs,
  replay_block,
}
use cosmos_swap.Rpc.Execution.{EvmKeeper, Serves, length-execute_replay}

-- From an index and the gas used before it, there is one receipt for each message: under its hash, at its
-- index, with the gas used up to it.
abbrev pub Matched : ℕ → ℕ → List EthMsg → List Receipt → Type 0
Matched i gas [] [] = Unit
Matched i gas [] (r ∷ rs) = ⊥
Matched i gas (m ∷ ms) [] = ⊥
Matched i gas (m ∷ ms) (r ∷ rs) =
    (r.transaction_hash ≡ m.hash)
    × (r.transaction_index ≡ i)
    × (r.cumulative_gas_used ≡ add64 gas r.gas_used)
    × Matched (suc i) r.cumulative_gas_used ms rs

pub add64_assoc : (a b c : ℕ) → add64 (add64 a b) c ≡ add64 a (add64 b c)
add64_assoc a b c = omega arith

module _ (n : Node) where
  pub replayed_receipts-Matched :
      (d : BlockDetail) (i gas : ℕ) (msgs : List EthMsg) (rsps : List MsgEthereumTxResponse)
      (rs : List Receipt)
      → length rsps ≡ length msgs
      → replayed_receipts n d i gas msgs rsps ≡ ok rs
      → Matched i gas msgs rs
  unfolding replayed_receipts replayed_receipt
  replayed_receipts-Matched d i gas [] [] [] l e = tt
  replayed_receipts-Matched d i gas [] [] (r ∷ rs) l e = cc
  replayed_receipts-Matched d i gas [] (x ∷ rsps) rs l e = cc
  replayed_receipts-Matched d i gas (m ∷ msgs) [] rs l e = absurd (omega arith)
  replayed_receipts-Matched d i gas (m ∷ msgs) (x ∷ rsps) rs l e =
      elim (Result-cases (n.unpack_tx_data m)) [
        | inr (y, u) ↦ ground (arith, e, u)
        | inl (t, u) ↦ elim (Result-cases (n.sender m)) [
          | inr (y, v) ↦ ground (arith, e, u, v)
          | inl (from, v) ↦
              elim (Result-cases (replayed_receipts n d (suc i) (add64 gas x.gas_used) msgs rsps)) [
                | inr (y, w) ↦ ground (arith, e, u, v, w)
                | inl (rest, w) ↦
                    let h =
                      replayed_receipts-Matched d (suc i) (add64 gas x.gas_used) msgs rsps rest
                        (omega arith) w in
                    let first = replayed_receipt n d x i (add64 gas x.gas_used) m from t in
                    let same : first ∷ rest ≡ rs = ground (arith, e, u, v, w) in
                    subst (Matched i gas (m ∷ msgs)) same (refl, refl, refl, h)
              ]
        ]
      ]

  revert_last-Matched :
      (i gas : ℕ) (msgs : List EthMsg) (rs rs' : List Receipt)
      → Matched i gas msgs rs
      → revert_last n msgs rs ≡ ok rs'
      → Matched i gas msgs rs'
  unfolding revert_last reverted
  revert_last-Matched i gas [] [] rs' h e = cc
  revert_last-Matched i gas [] (r ∷ rs) rs' h e = absurd h
  revert_last-Matched i gas (m ∷ msgs) [] rs' h e = absurd h
  revert_last-Matched i gas (m ∷ []) (r ∷ []) rs' h e =
      let refunded = sub64 m.gas r.gas_used in
      subst (Matched i gas (m ∷ [])) (ok-injective e)
        (h.0, h.1, (ap (λ x. add64 x refunded) h.2) ∙ add64_assoc gas r.gas_used refunded, tt)
  revert_last-Matched i gas (m ∷ m' ∷ msgs) (r ∷ []) rs' h e = absurd h.3
  revert_last-Matched i gas (m ∷ msgs) (r ∷ r' ∷ rs) rs' h e =
      elim (Result-cases (revert_last n msgs (r' ∷ rs))) [
        | inr (x, y) ↦ ground (arith, e, y)
        | inl (rest, y) ↦
            let k = revert_last-Matched (suc i) r.cumulative_gas_used msgs (r' ∷ rs) rest h.3 y in
            let same : r ∷ rest ≡ rs' = ground (arith, e, y) in
            subst (Matched i gas (m ∷ msgs)) same (h.0, h.1, h.2, k)
      ]

  -- A replay of messages that succeeds has responses and receipts for them, and reverts the last one if
  -- the block's gas was exceeded.
  pub answered :
      (d : BlockDetail) (up limit : Bool) (m : EthMsg) (ms : List EthMsg) (rs : List Receipt)
      → replay_msgs n d up limit (m ∷ ms) ≡ ok rs
      → (rsps : List MsgEthereumTxResponse) × (receipts : List Receipt) × (n.replay_block
            (context_height d.block.height)
            (request d (m ∷ ms))
          ≡ ok rsps)
        × (replayed_receipts n d 0 0 (m ∷ ms) rsps ≡ ok receipts)
        × ((if limit && up then revert_last n (m ∷ ms) receipts else ok receipts) ≡ ok rs)
  unfolding replay_msgs
  answered d up limit m ms rs e =
      elim (Result-cases (n.replay_block (context_height d.block.height) (request d (m ∷ ms)))) [
        | inr (y, u) ↦ ground (arith, e, u)
        | inl (rsps, u) ↦ elim (Result-cases (replayed_receipts n d 0 0 (m ∷ ms) rsps)) [
          | inr (y, v) ↦ ground (arith, e, u, v)
          | inl (receipts, v) ↦ (rsps, receipts, u, v, ground (arith, e, u, v))
        ]
      ]

  module _
      (one_each : (height : ℕ) (req : ReplayBlockRequest) (rsps : List MsgEthereumTxResponse)
        → n.replay_block height req ≡ ok rsps
        → length rsps ≡ length req.msgs) where
    pub replay_msgs-Matched :
        (d : BlockDetail) (up limit : Bool) (msgs : List EthMsg) (rs : List Receipt)
        → replay_msgs n d up limit msgs ≡ ok rs
        → Matched 0 0 msgs rs
    unfolding replay_msgs
    replay_msgs-Matched d up limit [] rs e = subst (Matched 0 0 []) (ok-injective e) tt
    replay_msgs-Matched d up limit (m ∷ ms) rs e =
        let a = answered d up limit m ms rs e in
        let l = one_each (context_height d.block.height) (request d (m ∷ ms)) a.0 a.2 in
        let k = replayed_receipts-Matched d 0 0 (m ∷ ms) a.0 a.1 l a.3 in
        elim (Bool-cases (limit && up)) [
          | inl t ↦ revert_last-Matched 0 0 (m ∷ ms) a.1 rs k (rw t at a.4)
          | inr f ↦ subst (Matched 0 0 (m ∷ ms)) (ok-injective (rw f at a.4)) k
        ]

module _ (k : EvmKeeper) (state_at : ℕ → k.State) (n : Node) (serves : Serves k state_at n) where
  pub one_each :
      (height : ℕ) (req : ReplayBlockRequest) (rsps : List MsgEthereumTxResponse)
      → n.replay_block height req ≡ ok rsps
      → length rsps ≡ length req.msgs
  one_each height req rsps e =
      length-execute_replay k req (state_at height) rsps (sym (serves height req) ∙ e)
