-- ===== src/Relayer/Clients/Cronos.antt =====
-- relayer/pkg/cronos_client/client.go, but for the construction of the client. The logger is left out; the
-- node, the codecs and the signing are those of the SDK.
use cosmos_swap.Prelude.{
  Option, none, ℕ, ◌+◌, ◌%◌, nat_eq, Bool, List, [], ◌∷◌, ◌++◌, String, string_eq, Bytes, ◌==◌,
  u64_mod, if◌then◌else◌, Result, ok, err, pure, raise, gets, modify, raise_if, ◌>>=◌, ◌>>◌, Action,
}
use cosmos_swap.Prelude.Int.{ℤ, pos, ltb_ℤ}
use cosmos_swap.Prelude.Time.{to_int64}
use cosmos_swap.Relayer.Service.{CronosOrder}

pub data Query : Type 0 where
  escrow_list : String → ℕ → Query
  escrow : Query
  current_price : Query

pub record CreateEscrowParams : Type 0 where
  pub maker : String
  pub taker : String
  pub secret_hash : String
  pub timelock : ℕ
  pub dst_chain_id : String
  pub dst_asset : String
  pub dst_amount : String
  pub initial_price : String
  pub price_decay_rate : String
  pub minimum_price : String
  pub allow_partial_fill : Bool
  pub minimum_fill_amount : String
  pub label : String

pub record CreateDestEscrowParams : Type 0 where
  pub taker : String
  pub maker : String
  pub secret_hash : String
  pub timelock : ℕ
  pub src_chain_id : String
  pub src_escrow_address : String
  pub expected_amount : String
  pub label : String

pub data Execute : Type 0 where
  create_source_escrow : CreateEscrowParams → Execute
  create_destination_escrow : CreateDestEscrowParams → Execute
  withdraw : String → Execute
  partial_withdraw : String → String → Execute
  cancel : Execute

-- An entry of the list of escrows
pub record EscrowEntry : Type 0 where
  pub address : String
  pub escrow_type : String
  pub salt : String

-- `wasmtypes.MsgExecuteContract` without funds, which no operation sends
pub record ExecuteMsg : Type 0 where
  pub sender : String
  pub contract : String
  pub msg : Bytes

-- What a signed transaction holds.
pub record Transaction : Type 0 where
  pub msg : ExecuteMsg
  pub gas_limit : ℕ
  pub fee : String × ℤ
  pub account_number : ℕ
  pub sequence : ℕ

-- The node answers by the transactions that it got so far.
pub record Node : Type 0 where
  pub abci_query : List Transaction → String → Bytes → Result String Bytes
  pub account : List Transaction → Result String (ℕ × ℕ)  -- its number and sequence
  pub marshal_query : Query → Bytes
  pub marshal_execute : Execute → Bytes
  pub unmarshal_list : Bytes → Result String (List EscrowEntry)
  pub unmarshal_order : Bytes → Result String CronosOrder
  pub unmarshal_price : Bytes → Result String String
  -- `ParseDecCoin` of the configured gas price, and the fee of an amount of gas, truncated
  pub gas_price : Result String (String × (ℤ → ℤ))
  -- `tx.SignWithPrivKey` with a key, or nil, and the encoding; a panic is an error too
  pub sign : Option Bytes → Transaction → Result String Bytes
  -- `BroadcastTxSync`: the code and the hash
  pub broadcast : List Transaction → Bytes → Result String (ℕ × String)
  pub sender : String
  pub gas_limit : ℕ  -- of the configuration

pub record Client : Type 0 where
  pub account_number : ℕ
  pub sequence : ℕ
  pub sent : List Transaction  -- that the node took, the last one last

module _ (n : Node) where
  abbrev pub M : Type 0 → Type 0
  M A = Action Client String A

  abbrev pub from_result : {A : Type 0} → Result String A → M A
  from_result (ok a) = pure a
  from_result (err e) = raise e

  -- The address of the contract is not part of the query.
  unfoldable pub query_contract : String → Query → M Bytes
  query_contract contract q c =
      from_result (n.abci_query c.sent "store/wasm/key" (n.marshal_query q)) c

  unfoldable pub get_escrow_details : String → M CronosOrder
  get_escrow_details address = do
    bz ← query_contract address escrow
    from_result (n.unmarshal_order bz)

  -- A source escrow gives an order, whose id is the salt; one whose details fail is skipped.
  abbrev pub add_details :
      EscrowEntry → Result String CronosOrder × Client → List CronosOrder → List CronosOrder
  add_details entry (ok order, c) orders = record order { id = entry.salt } ∷ orders
  add_details entry (err e, c) orders = orders

  unfoldable pub orders_of : List EscrowEntry → Client → List CronosOrder
  orders_of [] c = []
  orders_of (entry ∷ entries) c =
      let rest = orders_of entries c in
      if entry.escrow_type == "Source"
      then add_details entry (get_escrow_details entry.address c) rest
      else rest

  unfoldable pub get_escrow_orders : String → String → ℕ → M (List CronosOrder)
  get_escrow_orders factory start_after limit = do
    bz ← query_contract factory (escrow_list start_after limit)
    entries ← from_result (n.unmarshal_list bz)
    gets (orders_of entries)

  unfoldable pub get_current_price : String → M String
  get_current_price address = do
    bz ← query_contract address current_price
    from_result (n.unmarshal_price bz)

  unfoldable pub update_account_info : M (Unit {0})
  update_account_info = do
    account ← (λ c. from_result (n.account c.sent) c)
    modify (λ c. record c { account_number = account.0; sequence = account.1 })

  -- `sdk.NewCoin` panics on a fee below zero. The transaction of a message, signed with the number and sequence that the client knows.
  abbrev pub transaction_of : ExecuteMsg → String × (ℤ → ℤ) → Client → Transaction
  transaction_of msg price c = record {
    msg = msg;
    gas_limit = n.gas_limit;
    fee = (price.0, price.1 (to_int64 n.gas_limit));
    account_number = c.account_number;
    sequence = c.sequence;
  }

  -- The node took the transaction, whatever its code; the sequence moves if the code is zero.
  abbrev pub after_broadcast : Transaction → ℕ × String → M String
  after_broadcast tx r c =
      if r.0 == 0
      then (ok r.1, record c { sequence = (c.sequence + 1) % u64_mod; sent = c.sent ++ tx ∷ [] })
      else (err "transaction failed", c)

  -- The code passes nil for the private key.
  unfoldable pub broadcast_signed : Transaction → M String
  broadcast_signed tx = do
    bz ← from_result (n.sign none tx)
    r ← (λ c. from_result (n.broadcast c.sent bz) c)
    after_broadcast tx r

  unfoldable pub broadcast_tx : ExecuteMsg → M String
  broadcast_tx msg = do
    update_account_info
    price ← from_result n.gas_price
    tx ← gets (transaction_of msg price)
    raise_if (ltb_ℤ tx.fee.1 (pos 0)) "panic"
    broadcast_signed tx

  unfoldable pub execute_contract : String → Execute → M String
  execute_contract contract e =
      broadcast_tx (record { sender = n.sender; contract = contract; msg = n.marshal_execute e })

  unfoldable pub create_source : String → CreateEscrowParams → M String
  create_source factory params = execute_contract factory (create_source_escrow params)

  unfoldable pub create_destination : String → CreateDestEscrowParams → M String
  create_destination factory params = execute_contract factory (create_destination_escrow params)

  unfoldable pub withdraw_from_escrow : String → String → M String
  withdraw_from_escrow address secret = execute_contract address (withdraw secret)

  unfoldable pub partial_withdraw_from_escrow : String → String → String → M String
  partial_withdraw_from_escrow address secret amount =
      execute_contract address (partial_withdraw secret amount)

  unfoldable pub cancel_escrow : String → M String
  cancel_escrow address = execute_contract address cancel
