-- ===== src/Relayer/Clients/Ethereum.antt =====
-- relayer/pkg/ethereum_client/client.go, but for the construction of the client. The logger is left out;
-- the node, the ABIs and the keys are go-ethereum's.
use cosmos_swap.Prelude.{
  ℕ, ◌%◌, nat_eq, none, some, List, [], ◌∷◌, ◌++◌, String, Bytes, ◌==◌, u64_mod, if◌then◌else◌,
  Result, ok, err, pure, raise, ◌>>=◌, ◌>>◌, Action,
}
use cosmos_swap.Prelude.Int.{ℤ, pos}
use cosmos_swap.Prelude.Time.{to_int64}
use cosmos_swap.Relayer.Service.{EthereumOrder}

pub record Log : Type 0 where
  pub tx_hash : String
  pub log_data : Bytes

pub record EscrowCreated : Type 0 where
  pub escrow : String
  pub maker : String
  pub taker : String
  pub secret_hash : String
  pub timelock : ℕ

pub record EscrowInfo : Type 0 where
  pub deposited_amount : ℕ
  pub token_address : String
  pub status : ℕ  -- uint8
  pub created_at : ℕ

-- The calls of contracts that the client packs; what the ABI packs of structs is their bytes.
pub data Call : Type 0 where
  deploy_dst : Bytes → ℕ → Call
  withdraw : String → Bytes → Bytes → Call
  cancel : String → Bytes → Call
  fill_order_args : Bytes → Bytes → ℕ → ℕ → Bytes → Call

-- `types.Transaction`, with the call that its data packs
pub record Transaction : Type 0 where
  pub nonce : ℕ
  pub to : String
  pub value : ℕ
  pub gas_limit : ℕ
  pub gas_price : ℕ
  pub input : Bytes

-- The node, which answers by the transactions it got so far, and the code of the ABIs and keys.
pub record Node : Type 0 where
  pub filter_logs : List Transaction → String → ℤ → Result String (List Log)
  pub unpack_escrow_created : Bytes → Result String EscrowCreated
  pub escrow_info : List Transaction → String → Result String EscrowInfo
  pub pending_nonce : List Transaction → Result String ℕ
  pub suggest_gas_price : List Transaction → Result String ℕ
  pub pack : Call → Result String Bytes
  pub sign : Transaction → Result String String  -- the hash of the signed transaction
  pub send : List Transaction → Transaction → Result String (Unit {0})
  pub keccak : String → Bytes
  pub gas_limit : ℕ  -- of the configuration

-- `statusMap`, whose missing keys give the empty string
unfoldable pub status_name : ℕ → String
status_name status =
    if status == 0
    then "Active"
    else if status == 1
    then "Withdrawn"
    else if status == 2
    then "Cancelled"
    else ""

module _ (n : Node) where
  abbrev pub M : Type 0 → Type 0
  M A = Action (List Transaction) String A

  abbrev pub from_result : {A : Type 0} → Result String A → M A
  from_result (ok a) = pure a
  from_result (err e) = raise e

  -- The order of an event, with the details that its escrow gives.
  abbrev pub order_of : Log → EscrowCreated → EscrowInfo → EthereumOrder
  order_of log event info = record {
    id = log.tx_hash;
    maker = event.maker;
    taker = event.taker;
    secret_hash = event.secret_hash;
    timelock = event.timelock % u64_mod;
    src_chain_id = "";
    src_asset = "";
    src_amount = none;
    deposited_amount = some (pos info.deposited_amount);
    token_address = info.token_address;
    status = status_name info.status;
    created_at = info.created_at % u64_mod;
    escrow_address = event.escrow;
  }

  abbrev pub with_info :
      Log → EscrowCreated → Result String EscrowInfo → Result String EthereumOrder
  with_info log event (err e) = err e
  with_info log event (ok info) = ok (order_of log event info)

  abbrev pub with_event :
      List Transaction → Log → Result String EscrowCreated → Result String EthereumOrder
  with_event sent log (err e) = err e
  with_event sent log (ok event) = with_info log event (n.escrow_info sent event.escrow)

  unfoldable pub parse_escrow_created_event : List Transaction → Log → Result String EthereumOrder
  parse_escrow_created_event sent log = with_event sent log (n.unpack_escrow_created log.log_data)

  -- An event that does not parse is skipped.
  abbrev pub add_parsed : Result String EthereumOrder → List EthereumOrder → List EthereumOrder
  add_parsed (ok order) orders = order ∷ orders
  add_parsed (err e) orders = orders

  unfoldable pub parse_logs : List Transaction → List Log → List EthereumOrder
  parse_logs sent [] = []
  parse_logs sent (log ∷ logs) =
      add_parsed (parse_escrow_created_event sent log) (parse_logs sent logs)

  abbrev pub parsed :
      List Transaction → Result String (List Log) → Result String (List EthereumOrder)
  parsed sent (err e) = err e
  parsed sent (ok logs) = ok (parse_logs sent logs)

  unfoldable pub get_escrow_orders :
      List Transaction → String → ℕ → Result String (List EthereumOrder)
  get_escrow_orders sent factory from_block =
      parsed sent (n.filter_logs sent factory (to_int64 from_block))

  -- What the four operations share: the options, the packed call, the signature, the sending.
  unfoldable pub transact : String → ℕ → Call → M String
  transact to value call = do
    nonce ← (λ sent. from_result (n.pending_nonce sent) sent)
    gas_price ← (λ sent. from_result (n.suggest_gas_price sent) sent)
    input ← from_result (n.pack call)
    let tx : Transaction = record {
      nonce = nonce;
      to = to;
      value = value;
      gas_limit = n.gas_limit;
      gas_price = gas_price;
      input = input;
    }
    hash ← from_result (n.sign tx)
    (λ sent. from_result (n.send sent tx) sent)
    (λ sent. (ok hash, sent ++ tx ∷ []))

  unfoldable pub create_destination_escrow : String → Bytes → ℕ → ℕ → M String
  create_destination_escrow resolver immutables cancellation value =
      transact resolver value (deploy_dst immutables cancellation)

  -- The secret goes to the contract hashed.
  unfoldable pub withdraw_from_escrow : String → String → String → Bytes → M String
  withdraw_from_escrow resolver escrow secret immutables =
      transact resolver 0 (withdraw escrow (n.keccak secret) immutables)

  unfoldable pub cancel_escrow : String → String → Bytes → M String
  cancel_escrow resolver escrow immutables = transact resolver 0 (cancel escrow immutables)

  unfoldable pub fill_limit_order : String → Bytes → Bytes → ℕ → ℕ → Bytes → M String
  fill_limit_order lop order signature amount traits args =
      transact lop 0 (fill_order_args order signature amount traits args)
