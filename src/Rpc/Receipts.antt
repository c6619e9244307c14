-- ===== src/Rpc/Receipts.antt =====
-- `GetTransactionReceiptsByBlock` of x/cronos/rpc/api.go.
use cosmos_swap.Prelude.{
  ℕ, suc, ◌+◌, not, ◌||◌, List, [], ◌∷◌, ◌++◌, Bytes, String, Result, ok, err, nat_eq, ◌==◌, length,
  get_elem?, if◌then◌else◌,
}
use cosmos_swap.Rpc.{
  add64, EthMsg, Msg, ethereum, TxData, TxResult, ParsedTx, BlockDetail, BlockNumberOrHash,
  ApiError, wrong_number_of_tx_events, invalid_tx_type, index_out_of_range, nil_pointer, node_error,
  not_decoded, not_parsed, Receipt, Node, or_error, or_fail, ◌>>=◌, get_block_detail,
  contract_address_of, price_of,
}

-- The logs of a message, none if they do not decode
abbrev or_no_logs : Result String (List Bytes) → List Bytes
or_no_logs (ok logs) = logs
or_no_logs (err e) = []

module _ (n : Node) (d : BlockDetail) where
  -- The receipt of a message, from the gas of the transactions before and of its transaction up to it
  unfoldable pub receipt_of : TxResult → ParsedTx → ℕ → ℕ → ℕ → EthMsg → Bytes → TxData → Receipt
  receipt_of r parsed tx_index cumulative msg_cumulative m from t =
      let logs = or_no_logs (n.decode_logs r parsed.msg_index d.block.height) in
      record {
        successful = not (not (r.code == 0) || parsed.failed);
        cumulative_gas_used = add64 cumulative msg_cumulative;
        logs_bloom = n.bloom logs;
        logs = logs;
        transaction_hash = t.hash;
        contract_address = contract_address_of n from t;
        gas_used = parsed.gas_used;
        block_hash = d.block.hash;
        block_number = d.block.height;
        transaction_index = tx_index;
        from = from;
        to = t.to;
        tx_type = t.tx_type;
        effective_gas_price = price_of n m t d.base_fee;
      }

  -- The body of the loop over the messages of a transaction, for one of Ethereum
  unfoldable pub message_receipt :
      TxResult → List ParsedTx → ℕ → ℕ → ℕ → ℕ → EthMsg → Result ApiError (Receipt × ℕ)
  message_receipt r parsed msg_index tx_index cumulative msg_cumulative m = do
    p ← or_fail nil_pointer (get_elem? parsed msg_index)
    from ← or_error node_error (n.sender m)
    t ← or_fail nil_pointer (n.as_transaction m)
    let msg_cumulative' = add64 msg_cumulative p.gas_used
    ok (receipt_of r p tx_index cumulative msg_cumulative' m from t, msg_cumulative')

  -- That loop: the receipts, and the gas of the transaction
  unfoldable pub message_receipts :
      TxResult → List ParsedTx → ℕ → ℕ → ℕ → ℕ → List Msg → Result ApiError (List Receipt × ℕ)
  message_receipts r parsed msg_index tx_index cumulative msg_cumulative [] =
      ok ([], msg_cumulative)
  message_receipts r parsed msg_index tx_index cumulative msg_cumulative (Msg.other ∷ ms) =
      err invalid_tx_type
  message_receipts r parsed msg_index tx_index cumulative msg_cumulative (ethereum m ∷ ms) =
      message_receipt r parsed msg_index tx_index cumulative msg_cumulative m >>= λ first.
      message_receipts r parsed (suc msg_index) (suc tx_index) cumulative first.1 ms >>= λ rest.
      ok (first.0 ∷ rest.0, rest.1)

  -- The receipts of one transaction, and the gas used
  unfoldable pub transaction_receipts :
      TxResult → ℕ → ℕ → List Msg → List ParsedTx → Result ApiError (List Receipt × ℕ)
  transaction_receipts r tx_index cumulative msgs [] = ok ([], r.gas_used)
  transaction_receipts r tx_index cumulative msgs (p ∷ ps) =
      if length (p ∷ ps) == length msgs
      then message_receipts r (p ∷ ps) 0 tx_index cumulative 0 msgs
      else err wrong_number_of_tx_events

  unfoldable pub decoded_receipts : TxResult → ℕ → ℕ → Bytes → Result ApiError (List Receipt × ℕ)
  decoded_receipts r tx_index cumulative tx = do
    msgs ← or_error not_decoded (n.decode_tx tx)
    parsed ← or_error not_parsed (n.parse_tx_result r msgs)
    transaction_receipts r tx_index cumulative msgs parsed

  -- The loop over the transactions of the block
  unfoldable pub block_receipts :
      ℕ → ℕ → List Bytes → List TxResult → Result ApiError (List Receipt)
  block_receipts tx_index cumulative [] results = ok []
  block_receipts tx_index cumulative (tx ∷ txs) [] = err index_out_of_range
  block_receipts tx_index cumulative (tx ∷ txs) (r ∷ results) =
      let skipped = block_receipts tx_index cumulative txs results in
      let taken = decoded_receipts r tx_index cumulative tx >>= λ first.
      block_receipts (tx_index + length first.0) (add64 cumulative first.1) txs results >>= λ rest.
      ok (first.0 ++ rest) in
      if n.success_or_exceeds r then taken else skipped

-- `GetTransactionReceiptsByBlock`
unfoldable pub get_transaction_receipts_by_block :
    Node → BlockNumberOrHash → Result ApiError (List Receipt)
get_transaction_receipts_by_block n b = do
  d ← get_block_detail n b
  block_receipts n d 0 0 d.block.txs d.tx_results
