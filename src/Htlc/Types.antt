-- ===== src/Htlc/Types.antt =====
-- x/htlc-com/types: the contract, the errors, the messages and the keys; and the keeper's events.
use cosmos_swap.Prelude.{ℕ, Bool, String, Bytes, codes}
use cosmos_swap.Prelude.Int.{ℤ}
use cosmos_swap.Prelude.Time.{Time}
use cosmos_swap.Sdk.{Coins}

pub record Htlc : Type 0 where
  pub id : ℕ  -- uint64
  pub sender : Bytes
  pub receiver : Bytes
  pub amount : Coins
  pub hash_lock : Bytes
  pub time_lock : Time
  pub claimed : Bool
  pub refunded : Bool

-- The registered errors; the errors of the SDK that the messages and the bank return; and a panic
-- (a stored value that does not decode).
pub data Error : Type 0 where
  invalid_hash_lock invalid_time_lock htlc_not_found htlc_claimed htlc_refunded : Error
  invalid_preimage unauthorized_claimer htlc_not_expired unauthorized_refunder : Error
  htlc_expired : Error
  invalid_address invalid_coins invalid_request : Error
  bank_error : String → Error
  panic : Error

abbrev pub module_name : String
module_name = "htlc"

abbrev pub key_next_htlc_id : Bytes
key_next_htlc_id = codes "next_htlc_id"

abbrev pub key_prefix_htlc : Bytes
key_prefix_htlc = codes "htlc/"

pub record MsgCreateHtlc : Type 0 where
  pub sender : Bytes
  pub receiver : Bytes
  pub amount : Coins
  pub hash_lock : Bytes
  pub time_lock : ℤ  -- int64, a Unix timestamp

pub record MsgClaimHtlc : Type 0 where
  pub claimer : Bytes
  pub htlc_id : ℕ
  pub preimage : Bytes

pub record MsgRefundHtlc : Type 0 where
  pub refunder : Bytes
  pub htlc_id : ℕ

-- The events that the keeper emits, with the values that it formats into their attributes.
pub data Event : Type 0 where
  create_htlc : Bytes → Bytes → ℕ → Coins → Bytes → ℤ → Event
  claim_htlc : ℕ → Bytes → Coins → Event
  refund_htlc : ℕ → Bytes → Coins → Event
