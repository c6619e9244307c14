-- ===== src/Rpc/Reverted.antt =====
-- The last receipt of a replayed block whose gas was exceeded.
use mathlib.Core.Path.{subst}
use cosmos_swap.Prelude.{
  ℕ, suc, ◌%◌, ◌<◌, ◌≡◌, refl, ok-injective, true, false, List, [], ◌∷◌, ok, length, arith, u64_mod,
  inl, inr, Result-cases,
}
use cosmos_swap.Rpc.{
  add64, sub64, EthMsg, BlockDetail, BlockNumberOrHash, MsgEthereumTxResponse, ReplayBlockRequest,
  Receipt, Node, get_block_detail,
}
use cosmos_swap.Rpc.Replay.{
  collect, context_height, replayed_receipts, replayed_receipt, reverted, revert_last, request,
  replay_msgs, replay_block,
}
use cosmos_swap.Rpc.Execution.{EvmKeeper, Serves}
use cosmos_swap.Rpc.Matched.{Matched, replayed_receipts-Matched, answered, one_each}

-- The last receipt is of a failure without logs, which has used up its message's gas limit.
abbrev pub EndsReverted : List EthMsg → List Receipt → Type 0
EndsReverted (m ∷ []) (r ∷ []) =
    (r.successful ≡ false) × (r.logs ≡ []) × (r.gas_used ≡ m.gas % u64_mod)
EndsReverted (m ∷ m' ∷ ms) (r ∷ rs) = EndsReverted (m' ∷ ms) rs
EndsReverted _ _ = ⊥

add64-sub64 : (a b : ℕ) → b < u64_mod → add64 b (sub64 a b) ≡ a % u64_mod
add64-sub64 a b h = omega arith

-- Responses whose gas is a `uint64`
abbrev pub AreBounded : List MsgEthereumTxResponse → Type 0
AreBounded [] = Unit
AreBounded (r ∷ rs) = (r.gas_used < u64_mod) × AreBounded rs

-- Receipts whose gas is a `uint64`
abbrev pub ReceiptsAreBounded : List Receipt → Type 0
ReceiptsAreBounded [] = Unit
ReceiptsAreBounded (r ∷ rs) = (r.gas_used < u64_mod) × ReceiptsAreBounded rs

module _ (n : Node) where
  revert_last-EndsReverted :
      (i gas : ℕ) (msgs : List EthMsg) (rs rs' : List Receipt)
      → Matched i gas msgs rs
      → ReceiptsAreBounded rs
      → revert_last n msgs rs ≡ ok rs'
      → EndsReverted msgs rs'
  unfolding revert_last reverted
  revert_last-EndsReverted i gas [] [] rs' h b e = cc
  revert_last-EndsReverted i gas [] (r ∷ rs) rs' h b e = absurd h
  revert_last-EndsReverted i gas (m ∷ msgs) [] rs' h b e = absurd h
  revert_last-EndsReverted i gas (m ∷ []) (r ∷ []) rs' h b e =
      subst (EndsReverted (m ∷ [])) (ok-injective e) (refl, refl, add64-sub64 m.gas r.gas_used b.0)
  revert_last-EndsReverted i gas (m ∷ m' ∷ msgs) (r ∷ []) rs' h b e = absurd h.3
  revert_last-EndsReverted i gas (m ∷ []) (r ∷ r' ∷ rs) rs' h b e = absurd h.3
  revert_last-EndsReverted i gas (m ∷ m' ∷ msgs) (r ∷ r' ∷ rs) rs' h b e =
      elim (Result-cases (revert_last n (m' ∷ msgs) (r' ∷ rs))) [
        | inr (x, y) ↦ ground (arith, e, y)
        | inl (rest, y) ↦
            let k =
              revert_last-EndsReverted (suc i) r.cumulative_gas_used (m' ∷ msgs) (r' ∷ rs) rest h.3
                b.1 y in
            let same : r ∷ rest ≡ rs' = ground (arith, e, y) in
            subst (EndsReverted (m ∷ m' ∷ msgs)) same k
      ]

  replayed_receipts-bounded :
      (d : BlockDetail) (i gas : ℕ) (msgs : List EthMsg) (rsps : List MsgEthereumTxResponse)
      (rs : List Receipt)
      → AreBounded rsps
      → replayed_receipts n d i gas msgs rsps ≡ ok rs
      → ReceiptsAreBounded rs
  unfolding replayed_receipts replayed_receipt
  replayed_receipts-bounded d i gas msgs [] rs b e = subst ReceiptsAreBounded (ok-injective e) tt
  replayed_receipts-bounded d i gas [] (x ∷ rsps) rs b e = cc
  replayed_receipts-bounded d i gas (m ∷ msgs) (x ∷ rsps) rs b e =
      elim (Result-cases (n.unpack_tx_data m)) [
        | inr (y, u) ↦ ground (arith, e, u)
        | inl (t, u) ↦ elim (Result-cases (n.sender m)) [
          | inr (y, v) ↦ ground (arith, e, u, v)
          | inl (from, v) ↦
              elim (Result-cases (replayed_receipts n d (suc i) (add64 gas x.gas_used) msgs rsps)) [
                | inr (y, w) ↦ ground (arith, e, u, v, w)
                | inl (rest, w) ↦
                    let h =
                      replayed_receipts-bounded d (suc i) (add64 gas x.gas_used) msgs rsps rest b.1
                        w in
                    let first = replayed_receipt n d x i (add64 gas x.gas_used) m from t in
                    let same : first ∷ rest ≡ rs = ground (arith, e, u, v, w) in
                    subst ReceiptsAreBounded same (b.0, h)
              ]
        ]
      ]

  module _
      (each : (height : ℕ) (req : ReplayBlockRequest) (rsps : List MsgEthereumTxResponse)
        → n.replay_block height req ≡ ok rsps
        → length rsps ≡ length req.msgs) where
    pub replay_msgs-EndsReverted :
        ((height : ℕ) (req : ReplayBlockRequest) (rsps : List MsgEthereumTxResponse)
          → n.replay_block height req ≡ ok rsps
          → AreBounded rsps)
        → (d : BlockDetail) (m : EthMsg) (ms : List EthMsg) (rs : List Receipt)
        → replay_msgs n d true true (m ∷ ms) ≡ ok rs
        → EndsReverted (m ∷ ms) rs
    replay_msgs-EndsReverted bounded d m ms rs e =
        let a = answered n d true true m ms rs e in
        let height = context_height d.block.height in
        let l = each height (request d (m ∷ ms)) a.0 a.2 in
        let k = replayed_receipts-Matched n d 0 0 (m ∷ ms) a.0 a.1 l a.3 in
        let b =
          replayed_receipts-bounded d 0 0 (m ∷ ms) a.0 a.1
            (bounded height (request d (m ∷ ms)) a.0 a.2) a.3 in
        revert_last-EndsReverted 0 0 (m ∷ ms) a.1 rs k b a.4

module _ (k : EvmKeeper) (state_at : ℕ → k.State) (n : Node) (serves : Serves k state_at n) where
  -- After the upgrade, where a transaction of the block exceeded the block's gas and there are messages of
  -- Ethereum, the last receipt of a replay that succeeds is of a failure without logs that has used up its
  -- message's gas limit, if the node answers by the keeper and with gas below 2^64.
  pub replay_block-EndsReverted :
      ((height : ℕ) (req : ReplayBlockRequest) (rsps : List MsgEthereumTxResponse)
        → n.replay_block height req ≡ ok rsps
        → AreBounded rsps)
      → (b : BlockNumberOrHash) (rs : List Receipt) (d : BlockDetail) (m : EthMsg)
        (ms : List EthMsg)
      → get_block_detail n b ≡ ok d
      → collect n d.block.txs d.tx_results ≡ ok (true, m ∷ ms)
      → replay_block n b true ≡ ok rs
      → EndsReverted (m ∷ ms) rs
  unfolding replay_block
  replay_block-EndsReverted bounded b rs d m ms e found h =
      replay_msgs-EndsReverted n (one_each k state_at n serves) bounded d m ms rs
        (ground (arith, e, found, h))
