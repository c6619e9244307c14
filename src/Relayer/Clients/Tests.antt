-- ===== src/Relayer/Clients/Tests.antt =====
-- The clients on concrete answers of a node, and the theorems applied there.
use cosmos_swap.Prelude.{
  ℕ, ◌≡◌, ◌≢◌, ◌⊎◌, ◌≤◌, ◌*◌, ◌/◌, zero, suc, refl, Bool, false, none, some, List, [], ◌∷◌, codes,
  ok, err, Option, Result, String, Bytes, arith,
}
use cosmos_swap.Prelude.Int.{pos}
use cosmos_swap.Prelude.Time.{unix}
use cosmos_swap.Relayer.Service.{CronosOrder, EthereumOrder}
use cosmos_swap.Relayer.Clients.Ethereum
use cosmos_swap.Relayer.Clients.Cronos
use cosmos_swap.Relayer.Clients.Ethereum.{parse_logs, parse_escrow_created_event, status_name}
use cosmos_swap.Relayer.Clients.Waiting.{
  Poll, found, not_found, Outcome, wait_for_transaction, IsFrom, period,
  wait_for_transaction-returns,
}
use cosmos_swap.Relayer.Clients.Cronos.{
  Client, CreateEscrowParams, CreateDestEscrowParams, create_source, create_destination,
  withdraw_from_escrow, partial_withdraw_from_escrow, cancel_escrow, get_escrow_orders,
  get_escrow_details, query_contract, orders_of,
}
use cosmos_swap.Relayer.Clients.Account.{
  SendsNothing, AllLike, transactions-SendsNothing, get_escrow_orders-AllLike,
}
use cosmos_swap.Relayer.Clients.Reported.{AllUnknown, get_escrow_orders-AllUnknown}

-- The receipt, 7, is there from the second tick on, and the `select` never sees the context's end.
abbrev polls : ℕ → Poll ℕ
polls zero = not_found
polls (suc k) = found 7

abbrev never : ℕ → Bool
never k = false

-- A timeout of 5 seconds
abbrev timeout : ℕ
timeout = 5_000_000_000

polls-expired : (k : ℕ) → timeout ≤ suc k * period → polls k ≢ not_found
polls-expired zero h e = absurd (omega (arith, h))
polls-expired (suc k) h e = absurd (ground (arith, e))

wait_for_transaction-returns_example :
    (o : Outcome ℕ) × (wait_for_transaction polls never timeout ≡ some o)
    × IsFrom polls never (timeout / period) o
wait_for_transaction-returns_example =
    wait_for_transaction-returns polls never timeout polls-expired

abbrev ethereum : Ethereum.Node
ethereum = record {
  filter_logs = λ sent factory from. ok (record { tx_hash = "0x01"; log_data = [] } ∷ []);
  unpack_escrow_created = λ bz. ok (record {
    escrow = "0x02";
    maker = "0x03";
    taker = "0x04";
    secret_hash = "0x05";
    timelock = 100;
  });
  escrow_info = λ sent escrow.
      ok (record { deposited_amount = 5; token_address = "0x06"; status = 2; created_at = 50 });
  pending_nonce = λ sent. ok 1;
  suggest_gas_price = λ sent. ok 1;
  pack = λ call. ok [];
  sign = λ tx. ok "0x07";
  send = λ sent tx. ok tt;
  keccak = λ secret. codes secret;
  gas_limit = 300_000;
}

abbrev reported : List EthereumOrder
reported =
    record {
      id = "0x01";
      maker = "0x03";
      taker = "0x04";
      secret_hash = "0x05";
      timelock = 100;
      src_chain_id = "";
      src_asset = "";
      src_amount = none;
      deposited_amount = some (pos 5);
      token_address = "0x06";
      status = "Cancelled";
      created_at = 50;
      escrow_address = "0x02";
    }
    ∷ []

filtered : Ethereum.get_escrow_orders ethereum [] "0x00" 9 ≡ ok reported
unfolding Ethereum.get_escrow_orders parse_logs parse_escrow_created_event status_name
filtered = refl

get_escrow_orders-AllUnknown_example : AllUnknown (unix (pos 60)) reported
get_escrow_orders-AllUnknown_example =
    get_escrow_orders-AllUnknown ethereum (unix (pos 60)) [] "0x00" 9 reported filtered

abbrev details : CronosOrder
details = record {
  id = "";
  maker = "m";
  taker = "t";
  secret_hash = "h";
  timelock = 100;
  dst_chain_id = "1";
  dst_asset = "ETH";
  dst_amount = "5";
  deposited_amount = "7";
  deposited_denom = "basecro";
  status = "active";
  created_at = 50;
  initial_price = "";
  price_decay_rate = "";
  minimum_price = "";
  allow_partial_fill = false;
  filled_amount = "0";
  remaining_amount = "7";
  minimum_fill_amount = "";
}

-- A signature needs a key.
abbrev unsigned : Option Bytes → Result String Bytes
unsigned none = err "nil pointer"
unsigned (some key) = ok []

abbrev cronos : Cronos.Node
cronos = record {
  abci_query = λ sent path bz. ok bz;
  account = λ sent. ok (4, 11);
  marshal_query = λ q. [];
  marshal_execute = λ e. [];
  unmarshal_list = λ bz. ok (
      record { address = "a"; escrow_type = "Source"; salt = "s" }
      ∷ record { address = "b"; escrow_type = "Source"; salt = "t" }
      ∷ []);
  unmarshal_order = λ bz. ok details;
  unmarshal_price = λ bz. ok "1";
  gas_price = ok ("basecro", λ n. n);
  sign = λ key tx. unsigned key;
  broadcast = λ sent bz. ok (0, "ff");
  sender = "relayer";
  gas_limit = 200_000;
}

abbrev client : Client
client = record { account_number = 4; sequence = 3; sent = [] }

abbrev source : CreateEscrowParams
source = record {
  maker = "m";
  taker = "t";
  secret_hash = "h";
  timelock = 100;
  dst_chain_id = "1";
  dst_asset = "ETH";
  dst_amount = "5";
  initial_price = "";
  price_decay_rate = "";
  minimum_price = "";
  allow_partial_fill = false;
  minimum_fill_amount = "";
  label = "l";
}

abbrev destination : CreateDestEscrowParams
destination = record {
  taker = "t";
  maker = "m";
  secret_hash = "h";
  timelock = 100;
  src_chain_id = "1";
  src_escrow_address = "0x02";
  expected_amount = "5";
  label = "l";
}

transactions-SendsNothing_example :
    SendsNothing cronos (create_source cronos "f" source)
    × SendsNothing cronos (create_destination cronos "f" destination)
    × SendsNothing cronos (withdraw_from_escrow cronos "a" "s")
    × SendsNothing cronos (partial_withdraw_from_escrow cronos "a" "s" "1")
    × SendsNothing cronos (cancel_escrow cronos "a")
transactions-SendsNothing_example =
    transactions-SendsNothing cronos (λ tx. ("nil pointer", refl)) "f" "a" "s" "1" source
      destination

abbrev orders : List CronosOrder
orders = record details { id = "s" } ∷ record details { id = "t" } ∷ []

listed : (get_escrow_orders cronos "f" "" 50 client).0 ≡ ok orders
unfolding get_escrow_orders orders_of get_escrow_details query_contract
listed = refl

get_escrow_orders-AllLike_example : (orders ≡ []) ⊎ ((o : CronosOrder) × AllLike cronos o orders)
get_escrow_orders-AllLike_example = get_escrow_orders-AllLike cronos "f" "" 50 client orders listed
