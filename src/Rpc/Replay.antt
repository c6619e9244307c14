-- ===== src/Rpc/Replay.antt =====
-- `ReplayBlock` of x/cronos/rpc/api.go.
use cosmos_swap.Prelude.{
  ℕ, suc, ◌-◌, Bool, false, not, ◌||◌, ◌&&◌, none, List, [], ◌∷◌, ◌++◌, Bytes, Result, ok, err,
  nat_eq, ◌==◌, leb, if◌then◌else◌,
}
use cosmos_swap.Rpc.{
  add64, sub64, EthMsg, Msg, ethereum, TxData, TxResult, BlockDetail, BlockNumberOrHash,
  MsgEthereumTxResponse, ReplayBlockRequest, ApiError, index_out_of_range, node_error, not_decoded,
  Receipt, Node, or_error, ◌>>=◌, get_block_detail, contract_address_of, price_of,
}

-- The messages of Ethereum
unfoldable pub ethereum_msgs : List Msg → List EthMsg
ethereum_msgs [] = []
ethereum_msgs (Msg.other ∷ ms) = ethereum_msgs ms
ethereum_msgs (ethereum m ∷ ms) = m ∷ ethereum_msgs ms

-- The height whose state the block is replayed on
unfoldable pub context_height : ℕ → ℕ
context_height height = if leb height 1 then 1 else height - 1

-- The query of a block's messages
abbrev pub request : BlockDetail → List EthMsg → ReplayBlockRequest
request d msgs = record {
  msgs = msgs;
  block_number = d.block.height;
  block_time = d.block.time;
  block_hash = d.block.hash;
}

module _ (n : Node) where
  abbrev pub is_exceeded : TxResult → Bool
  is_exceeded r = not (r.code == 0) && n.says_block_gas_exceeded r.log

  abbrev pub is_ignored : TxResult → Bool
  is_ignored r = not (r.code == 0) && not (n.says_block_gas_exceeded r.log)

  -- The loop over the transactions: whether one exceeded the block's gas, and the messages
  unfoldable pub collect : List Bytes → List TxResult → Result ApiError (Bool × List EthMsg)
  collect [] results = ok (false, [])
  collect (tx ∷ txs) [] = err index_out_of_range
  collect (tx ∷ txs) (r ∷ results) =
      let rest = collect txs results in
      let taken = or_error not_decoded (n.decode_tx tx) >>= λ msgs.
      rest >>= λ found. ok (is_exceeded r || found.0, ethereum_msgs msgs ++ found.1) in
      if is_ignored r then rest else taken

  module _ (d : BlockDetail) where
    unfoldable pub replayed_receipt :
        MsgEthereumTxResponse → ℕ → ℕ → EthMsg → Bytes → TxData → Receipt
    replayed_receipt r tx_index cumulative m from t = record {
      successful = not r.failed;
      cumulative_gas_used = cumulative;
      logs_bloom = n.bloom r.logs;
      logs = r.logs;
      transaction_hash = m.hash;
      contract_address = contract_address_of n from t;
      gas_used = r.gas_used;
      block_hash = d.block.hash;
      block_number = d.block.height;
      transaction_index = tx_index;
      from = from;
      to = t.to;
      tx_type = t.tx_type;
      effective_gas_price = price_of n m t d.base_fee;
    }

    -- The loop over the responses, which indexes the messages
    unfoldable pub replayed_receipts :
        ℕ → ℕ → List EthMsg → List MsgEthereumTxResponse → Result ApiError (List Receipt)
    replayed_receipts tx_index cumulative msgs [] = ok []
    replayed_receipts tx_index cumulative [] (r ∷ rs) = err index_out_of_range
    replayed_receipts tx_index cumulative (m ∷ msgs) (r ∷ rs) =
        or_error node_error (n.unpack_tx_data m) >>= λ t.
        or_error node_error (n.sender m) >>= λ from.
        let cumulative' = add64 cumulative r.gas_used in
        replayed_receipts (suc tx_index) cumulative' msgs rs >>= λ rest.
        ok (replayed_receipt r tx_index cumulative' m from t ∷ rest)

  -- The receipt of a transaction that is always reverted since the upgrade, and pays for its gas limit
  unfoldable pub reverted : EthMsg → Receipt → Receipt
  reverted m r =
      let refunded = sub64 m.gas r.gas_used in
      record r {
        successful = false;
        logs = [];
        logs_bloom = n.bloom [];
        contract_address = none;
        gas_used = add64 r.gas_used refunded;
        cumulative_gas_used = add64 r.cumulative_gas_used refunded;
      }

  -- Change the last receipt, by the message at its index
  unfoldable pub revert_last : List EthMsg → List Receipt → Result ApiError (List Receipt)
  revert_last msgs [] = err index_out_of_range
  revert_last [] (r ∷ rs) = err index_out_of_range
  revert_last (m ∷ msgs) (r ∷ []) = ok (reverted m r ∷ [])
  revert_last (m ∷ msgs) (r ∷ r' ∷ rs) = revert_last msgs (r' ∷ rs) >>= λ rest. ok (r ∷ rest)

  unfoldable pub replay_msgs :
      BlockDetail → Bool → Bool → List EthMsg → Result ApiError (List Receipt)
  replay_msgs d post_upgrade limit_exceeded [] = ok []
  replay_msgs d post_upgrade limit_exceeded (m ∷ ms) = do
    let msgs = m ∷ ms
    rsp ← or_error node_error (n.replay_block (context_height d.block.height) (request d msgs))
    receipts ← replayed_receipts d 0 0 msgs rsp
    if limit_exceeded && post_upgrade then revert_last msgs receipts else ok receipts

  -- `ReplayBlock`
  unfoldable pub replay_block : BlockNumberOrHash → Bool → Result ApiError (List Receipt)
  replay_block b post_upgrade = do
    d ← get_block_detail n b
    found ← collect d.block.txs d.tx_results
    replay_msgs d post_upgrade found.0 found.1
