-- ===== src/Relayer/Service/Convert.antt =====
-- The conversion of the orders that the chains report.
use text.Mathlib.TextEquality.{eq_iff}
use cosmos_swap.Prelude.{◌≡◌, ◌≢◌, refl, sym, false, none, some, String, string_eq, err, arith}
use cosmos_swap.Prelude.Int.{ℤ, pos, ltb_ℤ}
use cosmos_swap.Prelude.Time.{Time, sub_time, unix, to_int64}
use cosmos_swap.Relayer.Types.{
  OrderStatus, pending, active, matched, completed, cancelled, expired, failed,
}
use cosmos_swap.Relayer.Auction.{nil_pointer, calculate, decayed}
use cosmos_swap.Relayer.Manager.{update_price}
use cosmos_swap.Relayer.Manager.Unmatched.{IsUnmatched}
use cosmos_swap.Relayer.Service.{
  CronosOrder, EthereumOrder, to_status, parse_big, convert_cronos, convert_ethereum,
  initial_price_of,
}

-- `string(status)`
abbrev pub from_status : OrderStatus → String
from_status pending = "pending"
from_status active = "active"
from_status matched = "matched"
from_status completed = "completed"
from_status cancelled = "cancelled"
from_status expired = "expired"
from_status failed = "failed"
from_status (OrderStatus.other s) = s

-- The status of an order is the text that the chain reported.
pub from_status-to_status : (s : String) → from_status (to_status s) ≡ s
unfolding to_status
from_status-to_status s = ground (
  arith,
  eq_iff s "pending",
  eq_iff s "active",
  eq_iff s "matched",
  eq_iff s "completed",
  eq_iff s "cancelled",
  eq_iff s "expired",
  eq_iff s "failed",
)

to_status_ne :
    (s : String)
    → s ≢ "matched"
    → s ≢ "completed"
    → (to_status s ≢ matched) × (to_status s ≢ completed)
to_status_ne s m c = (
  λ e. m (rw e at (sym (from_status-to_status s))),
  λ e. c (rw e at (sym (from_status-to_status s))),
)

-- A converted order of Cronos has no destination escrow, and is neither matched nor completed unless the chain
-- reports that very status.
pub convert_cronos-IsUnmatched :
    (d : ℤ) (now : Time) (o : CronosOrder)
    → o.status ≢ "matched"
    → o.status ≢ "completed"
    → IsUnmatched (convert_cronos d now o)
unfolding convert_cronos
convert_cronos-IsUnmatched d now o m c = let (a, b) = to_status_ne o.status m c in (refl, a, b)

-- A converted order of Ethereum has no destination escrow, and is neither matched nor completed
-- unless the chain reports that very status.
pub convert_ethereum-IsUnmatched :
    (now : Time) (o : EthereumOrder)
    → o.status ≢ "matched"
    → o.status ≢ "completed"
    → IsUnmatched (convert_ethereum now o)
unfolding convert_ethereum
convert_ethereum-IsUnmatched now o m c = let (a, b) = to_status_ne o.status m c in (refl, a, b)

-- A converted order of Cronos whose initial price is a number and whose decay rate is not makes a
-- price update at a time within its auction panic.
pub incomplete_auction_panics :
    (d : ℤ) (now later : Time) (o : CronosOrder) {initial : ℤ}
    → initial_price_of o ≡ some initial
    → parse_big o.price_decay_rate ≡ none
    → ltb_ℤ (sub_time later (unix (to_int64 o.created_at))) (pos 0) ≡ false
    → ltb_ℤ d (sub_time later (unix (to_int64 o.created_at))) ≡ false
    → update_price later (convert_cronos d now o) ≡ err nil_pointer
unfolding update_price convert_cronos calculate decayed
incomplete_auction_panics d now later o i r a b = ground arith
