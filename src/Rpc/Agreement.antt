-- ===== src/Rpc/Agreement.antt =====
-- The two ways to a block's receipts agree.
use mathlib.Core.Path.{subst}
use cosmos_swap.Prelude.{
  ℕ, ◌+◌, ◌≡◌, ◌≢◌, refl, ap, ok-injective, Bool, true, false, List, [], ◌∷◌, ◌++◌, Bytes, ok,
  length, arith, inl, inr, Result-cases, nat_eq,
}
use cosmos_swap.Rpc.{
  add64, EthMsg, Msg, TxResult, ParsedTx, BlockDetail, BlockNumberOrHash, Receipt, Node,
  get_block_detail,
}
use cosmos_swap.Rpc.Receipts.{
  message_receipts, transaction_receipts, decoded_receipts, block_receipts,
  get_transaction_receipts_by_block,
}
use cosmos_swap.Rpc.Replay.{
  ethereum_msgs, collect, replayed_receipts, request, context_height, replay_msgs, replay_block,
}
use cosmos_swap.Rpc.Responses.{responses, UnpacksAsStated, message_receipts-replayed}

-- Each transaction has run and succeeded, and has a message of Ethereum.
abbrev pub AllSucceeded : Node → List Bytes → List TxResult → Type 0
AllSucceeded n [] results = Unit
AllSucceeded n (tx ∷ txs) [] = Unit
AllSucceeded n (tx ∷ txs) (r ∷ results) =
    (r.code ≡ 0)
    × (n.success_or_exceeds r ≡ true)
    × ((msgs : List Msg) → n.decode_tx tx ≡ ok msgs → n.parse_tx_result r msgs ≢ ok [])
    × AllSucceeded n txs results

module _ (n : Node) (unpacks : UnpacksAsStated n) (d : BlockDetail) where
  decoded :
      (r : TxResult) (i cumulative : ℕ) (tx : Bytes) (first : List Receipt × ℕ)
      → ((msgs : List Msg) → n.decode_tx tx ≡ ok msgs → n.parse_tx_result r msgs ≢ ok [])
      → decoded_receipts n d r i cumulative tx ≡ ok first
      → (msgs : List Msg) × (parsed : List ParsedTx) × (n.decode_tx tx ≡ ok msgs)
        × (message_receipts n d r parsed 0 i cumulative 0 msgs ≡ ok first)
  unfolding decoded_receipts transaction_receipts
  decoded r i cumulative tx first nonempty e = elim (Result-cases (n.decode_tx tx)) [
    | inr (x, y) ↦ ground (arith, e, y)
    | inl (msgs, y) ↦ elim (Result-cases (n.parse_tx_result r msgs)) [
      | inr (x, z) ↦ ground (arith, e, y, z)
      | inl ([], z) ↦ absurd (nonempty msgs y z)
      | inl (p ∷ ps, z) ↦ (msgs, p ∷ ps, y, ground (arith, e, y, z))
    ]
  ]

  block_receipts-replayed :
      (i cumulative : ℕ) (txs : List Bytes) (results : List TxResult) (rs : List Receipt)
      → AllSucceeded n txs results
      → block_receipts n d i cumulative txs results ≡ ok rs
      → (msgs : List EthMsg) × (collect n txs results ≡ ok (false, msgs))
        × (replayed_receipts n d i (add64 cumulative 0) msgs (responses rs) ≡ ok rs)
  unfolding block_receipts collect replayed_receipts
  block_receipts-replayed i cumulative [] results rs a e = (
    [],
    refl,
    subst
        (λ (w : List Receipt). replayed_receipts n d i (add64 cumulative 0) [] (responses w) ≡ ok w)
        (ok-injective e) refl,
  )
  block_receipts-replayed i cumulative (tx ∷ txs) [] rs a e = cc
  block_receipts-replayed i cumulative (tx ∷ txs) (r ∷ results) rs a e =
      elim (Result-cases (decoded_receipts n d r i cumulative tx)) [
        | inr (x, y) ↦ ground (arith, e, a.1, y)
        | inl (first, y) ↦
            let j = i + length first.0 in
            elim (Result-cases (block_receipts n d j (add64 cumulative first.1) txs results)) [
              | inr (x, z) ↦ ground (arith, e, a.1, y, z)
              | inl (rest, z) ↦
                  let is_rs : first.0 ++ rest ≡ rs = ground (arith, e, a.1, y, z) in
                  let ih =
                    block_receipts-replayed j (add64 cumulative first.1) txs results rest a.3 z in
                  let c = decoded r i cumulative tx first a.2 y in
                  let gas : add64 (add64 cumulative first.1) 0 ≡ add64 cumulative first.1 =
                    omega arith in
                  let all =
                    message_receipts-replayed n unpacks d r c.1 0 i cumulative 0 c.0 first.0 first.1
                      c.3 ih.0 rest (rw gas at ih.2) in
                  (
                    ethereum_msgs c.0 ++ ih.0,
                    rw (a.0, c.2, ih.1) refl,
                    subst
                        (λ (w : List Receipt).
                          replayed_receipts n d i (add64 cumulative 0) (ethereum_msgs c.0 ++ ih.0)
                            (responses w)
                          ≡ ok w)
                        is_rs all,
                  )
            ]
      ]

none_replayed :
    (n : Node) (d : BlockDetail) (rs : List Receipt)
    → replayed_receipts n d 0 0 [] (responses rs) ≡ ok rs
    → [] ≡ rs
unfolding replayed_receipts
none_replayed n d [] e = refl
none_replayed n d (r ∷ rs) e = cc

-- Where every transaction of a block has run and succeeded and has messages of Ethereum, a replay whose
-- responses are what the recorded receipts say gives those very receipts, before and after the upgrade, if the
-- data of a message unpacks as the transaction that it is, under the hash that it states.
pub replay_block-recorded :
    (n : Node) (b : BlockNumberOrHash) (d : BlockDetail) (post_upgrade : Bool) (rs : List Receipt)
    → UnpacksAsStated n
    → get_block_detail n b ≡ ok d
    → AllSucceeded n d.block.txs d.tx_results
    → get_transaction_receipts_by_block n b ≡ ok rs
    → ((msgs : List EthMsg)
        → collect n d.block.txs d.tx_results ≡ ok (false, msgs)
        → n.replay_block (context_height d.block.height) (request d msgs) ≡ ok (responses rs))
    → replay_block n b post_upgrade ≡ ok rs
unfolding get_transaction_receipts_by_block replay_block replay_msgs
replay_block-recorded n b d up rs unpacks e all h answers =
    let recorded : block_receipts n d 0 0 d.block.txs d.tx_results ≡ ok rs = rw e at h in
    let c = block_receipts-replayed n unpacks d 0 0 d.block.txs d.tx_results rs all recorded in
    rw (e, c.1) (replayed c.0 c.2 (answers c.0 c.1))
  where
    replayed :
        (msgs : List EthMsg)
        → replayed_receipts n d 0 0 msgs (responses rs) ≡ ok rs
        → n.replay_block (context_height d.block.height) (request d msgs) ≡ ok (responses rs)
        → replay_msgs n d up false msgs ≡ ok rs
    replayed [] k a = ap ok (none_replayed n d rs k)
    replayed (m ∷ ms) k a = rw (a, k) refl
