-- ===== src/Relayer/Service.antt =====
-- relayer/cmd/relayer/main.go: the service that scans the chains for orders, converts them and hands
-- them to the order manager; with the orders as the two clients report them
-- (relayer/pkg/cronos_client/client.go, relayer/pkg/ethereum_client/client.go).
use cosmos_swap.Prelude.{
  ℕ, nat_eq, ◌+◌, ◌-◌, ◌*◌, Bool, true, false, ◌&&◌, Option, none, some, List, [], ◌∷◌, String,
  string_eq, ◌==◌, codes, if◌then◌else◌, leb, Result, ok, err,
}
use cosmos_swap.Prelude.Int.{ℤ, pos, sub_ℕ, leb_ℤ}
use cosmos_swap.Prelude.Time.{Time, unix, to_int64}
use cosmos_swap.Relayer.Types.{
  Order, OrderType, OrderStatus, cronos_to_ethereum, ethereum_to_cronos, pending, active, matched,
  completed, cancelled, expired, failed, AssetInfo, DutchAuctionParams, PartialFillParams,
}
use cosmos_swap.Relayer.Manager.{Manager, add_order}
pub mod Convert
pub mod Scan

-- `cronos_client.EscrowOrder`; amounts are decimal texts.
pub record CronosOrder : Type 0 where
  pub id : String
  pub maker : String
  pub taker : String
  pub secret_hash : String
  pub timelock : ℕ
  pub dst_chain_id : String
  pub dst_asset : String
  pub dst_amount : String
  pub deposited_amount : String
  pub deposited_denom : String
  pub status : String
  pub created_at : ℕ
  pub initial_price : String
  pub price_decay_rate : String
  pub minimum_price : String
  pub allow_partial_fill : Bool
  pub filled_amount : String
  pub remaining_amount : String
  pub minimum_fill_amount : String

-- `ethereum_client.EscrowOrder`
pub record EthereumOrder : Type 0 where
  pub id : String
  pub maker : String
  pub taker : String
  pub secret_hash : String
  pub timelock : ℕ
  pub src_chain_id : String
  pub src_asset : String
  pub src_amount : Option ℤ
  pub deposited_amount : Option ℤ
  pub token_address : String
  pub status : String
  pub created_at : ℕ
  pub escrow_address : String

-- `order_manager.OrderStatus(s)`
unfoldable pub to_status : String → OrderStatus
to_status s =
    if s == "pending"
    then pending
    else if s == "active"
    then active
    else if s == "matched"
    then matched
    else if s == "completed"
    then completed
    else if s == "cancelled"
    then cancelled
    else if s == "expired"
    then expired
    else if s == "failed"
    then failed
    else OrderStatus.other s

-- `new(big.Int).SetString(s, 10)`: an optional sign and one digit or more.
digits : ℕ → List ℕ → Option ℕ
digits acc [] = some acc
digits acc (d ∷ ds) =
    let rest = digits (acc * 10 + (d - b'0')) ds in if leb b'0' d && leb d b'9' then rest else none

number : List ℕ → Option ℕ
unfolding digits
number [] = none
number (d ∷ ds) = digits 0 (d ∷ ds)

abbrev as_positive : Option ℕ → Option ℤ
as_positive none = none
as_positive (some n) = some (pos n)

abbrev as_negative : Option ℕ → Option ℤ
as_negative none = none
as_negative (some n) = some (sub_ℕ 0 n)

parse_codes : List ℕ → Option ℤ
unfolding number
parse_codes [] = none
parse_codes (c ∷ cs) =
    if c == b'-'
    then as_negative (number cs)
    else if c == b'+'
    then as_positive (number cs)
    else as_positive (number (c ∷ cs))

unfoldable pub parse_big : String → Option ℤ
unfolding parse_codes
parse_big s = parse_codes (codes s)

-- An asset that a conversion has not set.
abbrev pub no_asset : AssetInfo
no_asset = record { symbol = ""; address = ""; amount = none; decimals = 0 }

abbrev pub asset : String → Option ℤ → AssetInfo
asset symbol none = no_asset
asset symbol (some amount) = record {
  symbol = symbol;
  address = "";
  amount = some amount;
  decimals = 18;
}

-- The auction of a Cronos order, if it names an initial price that is a number.
abbrev pub auction_of : ℤ → CronosOrder → Option ℤ → Option DutchAuctionParams
auction_of duration o none = none
auction_of duration o (some initial) = some (record {
  initial_price = some initial;
  minimum_price = parse_big o.minimum_price;
  decay_rate = parse_big o.price_decay_rate;
  start_time = unix (to_int64 o.created_at);
  duration = duration;
})

abbrev pub initial_price_of : CronosOrder → Option ℤ
initial_price_of o = if o.initial_price == "" then none else parse_big o.initial_price

abbrev pub partial_fill_of : CronosOrder → Option PartialFillParams
partial_fill_of o =
    if o.allow_partial_fill
    then some (record {
      allow_partial_fill = true;
      minimum_fill_amount = parse_big o.minimum_fill_amount;
      filled_amount = parse_big o.filled_amount;
      remaining_amount = parse_big o.remaining_amount;
    })
    else none

-- `convertCronosOrderToOrder`, with `config.DutchAuction.MaxAuctionDuration`
unfoldable pub convert_cronos : ℤ → Time → CronosOrder → Order
unfolding to_status parse_big
convert_cronos max_duration now o = record {
  id = o.id;
  type = cronos_to_ethereum;
  status = to_status o.status;
  source_chain = "cronos";
  destination_chain = o.dst_chain_id;
  maker = o.maker;
  taker = o.taker;
  secret_hash = o.secret_hash;
  secret = "";
  timelock = o.timelock;
  source_asset = asset o.deposited_denom (parse_big o.deposited_amount);
  destination_asset = asset o.dst_asset (parse_big o.dst_amount);
  source_escrow_addr = "";
  dest_escrow_addr = "";
  dutch_auction = auction_of max_duration o (initial_price_of o);
  current_price = initial_price_of o;
  partial_fill = partial_fill_of o;
  created_at = unix (to_int64 o.created_at);
  updated_at = now;
  expires_at = unix (to_int64 o.timelock);
  source_tx_hash = "";
  dest_tx_hash = "";
  retry_count = 0;
  last_error = "";
}

-- `convertEthereumOrderToOrder`
unfoldable pub convert_ethereum : Time → EthereumOrder → Order
unfolding to_status
convert_ethereum now o = record {
  id = o.id;
  type = ethereum_to_cronos;
  status = to_status o.status;
  source_chain = "ethereum";
  destination_chain = o.src_chain_id;
  maker = o.maker;
  taker = o.taker;
  secret_hash = o.secret_hash;
  secret = "";
  timelock = o.timelock;
  source_asset = record {
    symbol = "ETH";
    address = o.token_address;
    amount = o.deposited_amount;
    decimals = 18;
  };
  destination_asset = record {
    symbol = o.src_asset;
    address = "";
    amount = o.src_amount;
    decimals = 18;
  };
  source_escrow_addr = o.escrow_address;
  dest_escrow_addr = "";
  dutch_auction = none;
  current_price = none;
  partial_fill = none;
  created_at = unix (to_int64 o.created_at);
  updated_at = now;
  expires_at = unix (to_int64 o.timelock);
  source_tx_hash = "";
  dest_tx_hash = "";
  retry_count = 0;
  last_error = "";
}

pub record Service : Type 0 where
  pub manager : Manager
  pub last_cronos_block : ℤ  -- int64
  pub last_ethereum_block : ℕ  -- uint64

add_all : {A : Type 0} → (A → Order) → List A → Manager → Manager
add_all convert [] m = m
add_all convert (x ∷ xs) m = add_all convert xs (add_order (convert x) m)

-- `scanCronosOrders`, with what the client answers to `GetLatestBlock` and to `GetEscrowOrders`.
-- The query asks for the first 50 escrows, whatever was seen before.
unfoldable pub scan_cronos :
    ℤ → Time → Result String ℤ → Result String (List CronosOrder) → Service → Result String Service
unfolding add_all
scan_cronos max_duration now latest orders s = elim latest [
  | err e ↦ err e
  | ok block ↦ if leb_ℤ block s.last_cronos_block then ok s else elim orders [
    | err e ↦ err e
    | ok os ↦ ok (record s {
      manager = add_all (convert_cronos max_duration now) os s.manager;
      last_cronos_block = block;
    })
  ]
]

-- `scanEthereumOrders`; the query asks for the events from the last block seen on.
unfoldable pub scan_ethereum :
    Time
    → Result String ℕ
    → (ℕ → Result String (List EthereumOrder))
    → Service
    → Result String Service
unfolding add_all
scan_ethereum now latest orders s = elim latest [
  | err e ↦ err e
  | ok block ↦
      if leb block s.last_ethereum_block then ok s else elim (orders s.last_ethereum_block) [
        | err e ↦ err e
        | ok os ↦ ok (record s {
          manager = add_all (convert_ethereum now) os s.manager;
          last_ethereum_block = block;
        })
      ]
]
