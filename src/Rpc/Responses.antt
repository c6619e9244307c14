-- ===== src/Rpc/Responses.antt =====
-- A message whose response is what its recorded receipt says gets that receipt from a replay.
use mathlib.Core.Path.{subst}
use cosmos_swap.Prelude.{
  ℕ, suc, ◌+◌, ◌≡◌, refl, sym, ap, ◌∙◌, ok-injective, Bool, true, false, not, some, List, [], ◌∷◌,
  ◌++◌, Bytes, ok, length, get_elem?, arith, inl, inr, Result-cases, Option-cases, nat_eq,
}
use cosmos_swap.Rpc.{
  add64, EthMsg, Msg, ethereum, TxData, TxResult, ParsedTx, BlockDetail, MsgEthereumTxResponse,
  Receipt, Node,
}
use cosmos_swap.Rpc.Receipts.{receipt_of, message_receipt, message_receipts}
use cosmos_swap.Rpc.Replay.{ethereum_msgs, replayed_receipts, replayed_receipt}
use cosmos_swap.Rpc.Matched.{add64_assoc}

-- The response that a receipt is of
abbrev pub response_of : Receipt → MsgEthereumTxResponse
response_of r = record { logs = r.logs; failed = not r.successful; gas_used = r.gas_used }

abbrev pub responses : List Receipt → List MsgEthereumTxResponse
responses [] = []
responses (r ∷ rs) = response_of r ∷ responses rs

-- The data of a message unpacks as the transaction that it is, under the hash that it states.
abbrev pub UnpacksAsStated : Node → Type 0
UnpacksAsStated n =
    (m : EthMsg) (t : TxData)
    → n.as_transaction m ≡ some t
    → (n.unpack_tx_data m ≡ ok t) × (t.hash ≡ m.hash)

not-not : (b : Bool) → not (not b) ≡ b
not-not true = refl
not-not false = refl

module _ (n : Node) (unpacks : UnpacksAsStated n) (d : BlockDetail) where
  same_receipt :
      (r : TxResult) (p : ParsedTx) (i cumulative gas : ℕ) (m : EthMsg) (from : Bytes) (t : TxData)
      → t.hash ≡ m.hash
      → let x = receipt_of n d r p i cumulative gas m from t in
        let y : MsgEthereumTxResponse = record {
          logs = x.logs;
          failed = not x.successful;
          gas_used = x.gas_used;
        } in
        replayed_receipt n d y i (add64 cumulative gas) m from t ≡ x
  unfolding receipt_of replayed_receipt
  same_receipt r p i cumulative gas m from t h =
      let x = receipt_of n d r p i cumulative gas m from t in
      ground (arith, h, not-not x.successful)

  receipt_gas :
      (r : TxResult) (p : ParsedTx) (i cumulative gas : ℕ) (m : EthMsg) (from : Bytes) (t : TxData)
      → (receipt_of n d r p i cumulative gas m from t).gas_used ≡ p.gas_used
  unfolding receipt_of
  receipt_gas r p i cumulative gas m from t = refl

  message_receipt-replayed :
      (r : TxResult) (parsed : List ParsedTx) (k i cumulative gas : ℕ) (m : EthMsg) (x : Receipt)
      (used : ℕ)
      → message_receipt n d r parsed k i cumulative gas m ≡ ok (x, used)
      → (msgs : List EthMsg) (rsps : List MsgEthereumTxResponse) (rs : List Receipt)
      → replayed_receipts n d (suc i) (add64 cumulative used) msgs rsps ≡ ok rs
      → replayed_receipts n d i (add64 cumulative gas) (m ∷ msgs) (response_of x ∷ rsps)
        ≡ ok (x ∷ rs)
  unfolding message_receipt replayed_receipts
  message_receipt-replayed r parsed k i cumulative gas m x used e msgs rsps rs h =
      elim (Option-cases (get_elem? parsed k)) [
        | inl y ↦ ground (arith, e, y)
        | inr (p, y) ↦ elim (Result-cases (n.sender m)) [
          | inr (z, u) ↦ ground (arith, e, y, u)
          | inl (from, u) ↦ elim (Option-cases (n.as_transaction m)) [
            | inl v ↦ ground (arith, e, y, u, v)
            | inr (t, v) ↦
                let stated = unpacks m t v in
                let all : (
                  receipt_of n d r p i cumulative (add64 gas p.gas_used) m from t,
                  add64 gas p.gas_used,
                )
                    ≡ (x, used) =
                  ground (arith, e, y, u, v) in
                let is_x : receipt_of n d r p i cumulative (add64 gas p.gas_used) m from t ≡ x =
                  ap (λ (w : Receipt × ℕ). w.0) all in
                let is_used : add64 gas p.gas_used ≡ used = ap (λ (w : Receipt × ℕ). w.1) all in
                let gas_of : x.gas_used ≡ p.gas_used =
                  sym (ap (λ (w : Receipt). w.gas_used) is_x)
                  ∙ receipt_gas r p i cumulative (add64 gas p.gas_used) m from t in
                let step : add64 (add64 cumulative gas) x.gas_used ≡ add64 cumulative used =
                  ap (add64 (add64 cumulative gas)) gas_of
                  ∙ add64_assoc cumulative gas p.gas_used
                  ∙ ap (add64 cumulative) is_used in
                let same : replayed_receipt n d (response_of x) i (add64 cumulative used) m from t
                    ≡ x =
                  cc (
                    same_receipt r p i cumulative (add64 gas p.gas_used) m from t stated.1,
                    is_x,
                    is_used,
                  ) in
                rw (stated.0, u, step, h, same) refl
          ]
        ]
      ]

  pub message_receipts-replayed :
      (r : TxResult) (parsed : List ParsedTx) (k i cumulative gas : ℕ) (ms : List Msg)
      (rs : List Receipt) (used : ℕ)
      → message_receipts n d r parsed k i cumulative gas ms ≡ ok (rs, used)
      → (later : List EthMsg) (rest : List Receipt)
      → replayed_receipts n d (i + length rs) (add64 cumulative used) later (responses rest)
        ≡ ok rest
      → replayed_receipts n d i
          (add64 cumulative gas)
          (ethereum_msgs ms ++ later)
          (responses (rs ++ rest))
        ≡ ok (rs ++ rest)
  unfolding message_receipts ethereum_msgs
  message_receipts-replayed r parsed k i cumulative gas [] rs used e later rest h =
      let none_left : [] ≡ rs = ap (λ (w : List Receipt × ℕ). w.0) (ok-injective e) in
      let same : gas ≡ used = ap (λ (w : List Receipt × ℕ). w.1) (ok-injective e) in
      let at_i : i + length rs ≡ i = omega (arith, ap length none_left) in
      subst
        (λ (w : List Receipt).
          replayed_receipts n d i (add64 cumulative gas) later (responses (w ++ rest))
          ≡ ok (w ++ rest))
        none_left (rw (at_i, sym same) at h)
  message_receipts-replayed r parsed k i cumulative gas (Msg.other ∷ ms) rs used e later rest h = cc
  message_receipts-replayed r parsed k i cumulative gas (ethereum m ∷ ms) rs used e later rest h =
      elim (Result-cases (message_receipt n d r parsed k i cumulative gas m)) [
        | inr (x, y) ↦ ground (arith, e, y)
        | inl (first, y) ↦
            elim (Result-cases
              (message_receipts n d r parsed (suc k) (suc i) cumulative first.1 ms)) [
                | inr (x, z) ↦ ground (arith, e, y, z)
                | inl (others, z) ↦
                    let is_rs : first.0 ∷ others.0 ≡ rs = ground (arith, e, y, z) in
                    let is_used : others.1 ≡ used = ground (arith, e, y, z) in
                    let at_i : i + length rs ≡ suc i + length others.0 =
                      omega (arith, ap length is_rs) in
                    let ih =
                      message_receipts-replayed r parsed (suc k) (suc i) cumulative first.1 ms
                        others.0 others.1 z later rest (rw (at_i, sym is_used) at h) in
                    let all =
                      message_receipt-replayed r parsed k i cumulative gas m first.0 first.1 y
                        (ethereum_msgs ms ++ later) (responses (others.0 ++ rest))
                        (others.0 ++ rest) ih in
                    subst
                      (λ (w : List Receipt).
                        replayed_receipts n d i (add64 cumulative gas)
                          (m ∷ (ethereum_msgs ms ++ later)) (responses (w ++ rest))
                        ≡ ok (w ++ rest))
                      is_rs all
              ]
      ]
