-- ===== src/Rpc.antt =====
-- x/cronos/rpc/api.go: the receipts of a block's transactions, as the node recorded them and by replaying
-- them. The node, the codecs and the signatures are parameters. Texts of JSON, such as the field names of a
-- receipt, are fields of a record; numbers of blocks are not negative.
pub mod Receipts
pub mod Replay
pub mod Execution
pub mod Selected
pub mod Matched
pub mod Reverted
pub mod Responses
pub mod Agreement
mod Tests
use cosmos_swap.Prelude.{
  ℕ, ◌+◌, ◌-◌, ◌%◌, Bool, not, ◌||◌, Option, none, some, List, [], String, Bytes, Result, ok, err,
  u64_mod, nat_eq, ◌==◌, if◌then◌else◌,
}
use cosmos_swap.Prelude.Time.{Time}

-- `uint64` addition and subtraction
abbrev pub add64 : ℕ → ℕ → ℕ
add64 a b = (a + b) % u64_mod

abbrev pub sub64 : ℕ → ℕ → ℕ
sub64 a b = (a + u64_mod - b) % u64_mod

-- A decoded `MsgEthereumTx`: its hash, its packed data and its gas limit (`GetGas`)
pub record EthMsg : Type 0 where
  pub hash : Bytes
  pub packed : Bytes
  pub gas : ℕ

pub data Msg : Type 0 where
  ethereum : EthMsg → Msg
  other : Msg

-- The transaction data of a message
pub record TxData : Type 0 where
  pub hash : Bytes
  pub to : Option Bytes
  pub nonce : ℕ
  pub tx_type : ℕ

-- `abci.ExecTxResult`
pub record TxResult : Type 0 where
  pub code : ℕ
  pub gas_used : ℕ
  pub log : Bytes
  pub result_data : Bytes
  pub events : List (Bytes × Bytes)

pub record ParsedTx : Type 0 where
  pub msg_index : ℕ
  pub gas_used : ℕ
  pub failed : Bool

pub record Block : Type 0 where
  pub height : ℕ
  pub time : Time
  pub hash : Bytes
  pub txs : List Bytes

-- What `getBlockDetail` finds; the results of the block and its base fee
pub record BlockDetail : Type 0 where
  pub block : Block
  pub tx_results : List TxResult
  pub base_fee : Option ℕ

-- `BlockNumberOrHash`
pub record BlockNumberOrHash : Type 0 where
  pub block_number : Option ℕ
  pub block_hash : Option Bytes

pub record MsgEthereumTxResponse : Type 0 where
  pub logs : List Bytes
  pub failed : Bool
  pub gas_used : ℕ

pub record ReplayBlockRequest : Type 0 where
  pub msgs : List EthMsg
  pub block_number : ℕ
  pub block_time : Time
  pub block_hash : Bytes

pub data ApiError : Type 0 where
  both_nil wrong_number_of_tx_events invalid_tx_type index_out_of_range nil_pointer : ApiError
  node_error : String → ApiError
  not_decoded : String → ApiError
  not_parsed : String → ApiError

pub record Receipt : Type 0 where
  pub successful : Bool  -- status
  pub cumulative_gas_used : ℕ
  pub logs_bloom : Bytes
  pub logs : List Bytes
  pub transaction_hash : Bytes
  pub contract_address : Option Bytes
  pub gas_used : ℕ
  pub block_hash : Bytes
  pub block_number : ℕ
  pub transaction_index : ℕ
  pub from : Bytes
  pub to : Option Bytes
  pub tx_type : ℕ
  pub effective_gas_price : Option ℕ

pub record Node : Type 0 where
  -- the backend
  pub block_by_hash : Bytes → Result String Block
  pub block_by_number : ℕ → Result String Block
  pub block_result_by_number : ℕ → Result String (List TxResult)
  pub base_fee : List TxResult → Result String (Option ℕ)
  -- the decoder of transactions, and what a result says of a transaction's messages
  pub decode_tx : Bytes → Result String (List Msg)
  pub success_or_exceeds : TxResult → Bool  -- `TxSuccessOrExceedsBlockGasLimit`
  pub parse_tx_result : TxResult → List Msg → Result String (List ParsedTx)
  pub decode_logs : TxResult → ℕ → ℕ → Result String (List Bytes)
  pub says_block_gas_exceeded : Bytes → Bool  -- the log contains ExceedBlockGasLimitError
  -- messages: `AsTransaction`, `UnpackTxData`, `GetSenderLegacy`, the price of the fee
  pub as_transaction : EthMsg → Option TxData  -- nil if the data does not unpack
  pub unpack_tx_data : EthMsg → Result String TxData
  pub sender : EthMsg → Result String Bytes
  pub effective_gas_price : EthMsg → Option ℕ → ℕ
  pub create_address : Bytes → ℕ → Bytes
  pub bloom : List Bytes → Bytes  -- `BytesToBloom(LogsBloom(logs))`
  -- the query ReplayBlock in the context of a height
  pub replay_block : ℕ → ReplayBlockRequest → Result String (List MsgEthereumTxResponse)

-- A result of the node, with its error wrapped
abbrev pub or_error : {A : Type 0} → (String → ApiError) → Result String A → Result ApiError A
or_error wrap (ok a) = ok a
or_error wrap (err e) = err (wrap e)

abbrev pub or_fail : {A : Type 0} → ApiError → Option A → Result ApiError A
or_fail e (some a) = ok a
or_fail e none = err e

infixl 5 ◌>>=◌
abbrev pub ◌>>=◌ : {A B : Type 0} → Result ApiError A → (A → Result ApiError B) → Result ApiError B
ok a >>= f = f a
err e >>= f = err e

abbrev pub dynamic_fee_tx_type : ℕ
dynamic_fee_tx_type = 2

module _ (n : Node) where
  abbrev block_of : Option Bytes → Option ℕ → Result ApiError Block
  block_of (some hash) number = or_error node_error (n.block_by_hash hash)
  block_of none (some number) = or_error node_error (n.block_by_number number)
  block_of none none = err both_nil

  -- `getBlock`
  unfoldable pub get_block : BlockNumberOrHash → Result ApiError Block
  get_block b = block_of b.block_hash b.block_number

  -- `getBlockDetail`
  unfoldable pub get_block_detail : BlockNumberOrHash → Result ApiError BlockDetail
  get_block_detail b = do
    block ← get_block b
    results ← or_error node_error (n.block_result_by_number block.height)
    fee ← or_error node_error (n.base_fee results)
    ok (record { block = block; tx_results = results; base_fee = fee })

  abbrev created : Bytes → TxData → Option Bytes → Option Bytes
  created from t none = some (n.create_address from t.nonce)
  created from t (some to) = none

  -- `receipt["contractAddress"]` of a transaction
  unfoldable pub contract_address_of : Bytes → TxData → Option Bytes
  contract_address_of from t = created from t t.to

  -- `receipt["effectiveGasPrice"]`
  unfoldable pub price_of : EthMsg → TxData → Option ℕ → Option ℕ
  price_of m t fee =
      if t.tx_type == dynamic_fee_tx_type then some (n.effective_gas_price m fee) else none
