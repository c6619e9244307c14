-- ===== src/Relayer/Types.antt =====
-- relayer/pkg/order_manager/manager.go: the order and its parts. A `*big.Int` that may be nil is an
-- optional integer.
use cosmos_swap.Prelude.{ℕ, Bool, Option, String}
use cosmos_swap.Prelude.Int.{ℤ}
use cosmos_swap.Prelude.Time.{Time}

-- Go's `type OrderType string`; `other` is any string that is none of the constants.
pub data OrderType : Type 0 where
  cronos_to_ethereum ethereum_to_cronos : OrderType
  other : String → OrderType

-- Go's `type OrderStatus string`, likewise.
pub data OrderStatus : Type 0 where
  pending active matched completed cancelled expired failed : OrderStatus
  other : String → OrderStatus

pub record AssetInfo : Type 0 where
  pub symbol : String
  pub address : String
  pub amount : Option ℤ
  pub decimals : ℕ

pub record DutchAuctionParams : Type 0 where
  pub initial_price : Option ℤ
  pub minimum_price : Option ℤ
  pub decay_rate : Option ℤ
  pub start_time : Time
  pub duration : ℤ  -- nanoseconds, an int64

pub record PartialFillParams : Type 0 where
  pub allow_partial_fill : Bool
  pub minimum_fill_amount : Option ℤ
  pub filled_amount : Option ℤ
  pub remaining_amount : Option ℤ

pub record Order : Type 0 where
  pub id : String
  pub type : OrderType
  pub status : OrderStatus
  pub source_chain : String
  pub destination_chain : String
  pub maker : String
  pub taker : String
  pub secret_hash : String
  pub secret : String
  pub timelock : ℕ  -- uint64
  pub source_asset : AssetInfo
  pub destination_asset : AssetInfo
  pub source_escrow_addr : String
  pub dest_escrow_addr : String
  pub dutch_auction : Option DutchAuctionParams
  pub current_price : Option ℤ
  pub partial_fill : Option PartialFillParams
  pub created_at : Time
  pub updated_at : Time
  pub expires_at : Time
  pub source_tx_hash : String
  pub dest_tx_hash : String
  pub retry_count : ℕ
  pub last_error : String
