-- ===== src/Relayer/Manager.antt =====
-- relayer/pkg/order_manager/manager.go: the order manager. Orders are shared by pointer: a pointer
-- is a position in `heap`, the map and the channels hold pointers, and a write through one is seen
-- through all. Each event is one turn of one of the manager's goroutines or one call of its client;
-- a run is any sequence of them.
use cosmos_swap.Prelude.{
  ℕ, zero, suc, ◌+◌, Bool, true, false, Option, none, some, List, [], ◌∷◌, ◌++◌, String, string_eq,
  ◌==◌, if◌then◌else◌, ltb, length, get_elem?, set, Result, ok, err,
}
use cosmos_swap.Prelude.Int.{ℤ}
use cosmos_swap.Prelude.Map.{lookup, insert, erase}
use cosmos_swap.Prelude.Time.{Time}
use cosmos_swap.Relayer.Types.{Order}
use cosmos_swap.Relayer.Auction.{Panic, ◌>>=◌, Sign, less, equal, greater, cmp, calculate}
use cosmos_swap.Relayer.Orders.{
  Call, Contracts, Replies, process_new, process_update, is_removed, expire, match_order,
}
pub mod Shape
pub mod Preserved
pub mod Runs
pub mod Unmatched
pub mod Duplicates
pub mod Overlap
pub mod Below
pub mod Owned
pub mod Exclusive
mod Tests

pub record Manager : Type 0 where
  pub heap : List Order
  pub active_orders : List (String × ℕ)
  pub new_orders : List ℕ  -- newOrdersChan
  pub update_orders : List ℕ  -- updateOrdersChan
  pub completed_orders : List ℕ
  pub sent : List Call

-- The capacity of each channel.
abbrev pub capacity : ℕ
capacity = 100

-- `NewOrderManager`
abbrev pub new_manager : Manager
new_manager = record {
  heap = [];
  active_orders = [];
  new_orders = [];
  update_orders = [];
  completed_orders = [];
  sent = [];
}

-- A send in a `select` with a default: a full channel drops the value.
abbrev pub try_send : ℕ → List ℕ → List ℕ
try_send p ch = if ltb (length ch) capacity then ch ++ p ∷ [] else ch

-- `AddOrder`, of an order that its caller has just allocated.
unfoldable pub add_order : Order → Manager → Manager
add_order o m = record m {
  heap = m.heap ++ o ∷ [];
  new_orders = try_send (length m.heap) m.new_orders;
}

-- `GetOrder`
unfoldable pub get_order : String → Manager → Option Order
get_order id m = elim (lookup id m.active_orders) [ none ↦ none | some p ↦ get_elem? m.heap p ]

pointees : List Order → List (String × ℕ) → List Order
pointees h [] = []
pointees h ((_, p) ∷ a) = elim (get_elem? h p) [ none ↦ pointees h a | some o ↦ o ∷ pointees h a ]

-- `GetActiveOrders`
unfoldable pub get_active_orders : Manager → List Order
unfolding pointees
get_active_orders m = pointees m.heap m.active_orders

-- Write an order back through its pointer and note the calls.
abbrev pub put : ℕ → Order × List Call → Manager → Manager
put p (o, log) m = record m { heap = set m.heap p o; sent = log }

-- `processNewOrders`, after an order was received.
abbrev pub register : ℕ → Order × List Call → Manager → Manager
register p (o, log) m =
    let m' = put p (o, log) m in record m' { active_orders = insert o.id p m.active_orders }

-- The removal at the end of `processOrderUpdates`.
abbrev pub retire : ℕ → Order × List Call → Manager → Manager
retire p (o, log) m =
    let m' = put p (o, log) m in
    if is_removed o.status
    then record m' {
      active_orders = erase o.id m.active_orders;
      completed_orders = try_send p m.completed_orders;
    }
    else m'

-- Change every order of the map through its pointer.
pub each : (Order → Order) → List (String × ℕ) → List Order → List Order
each f [] h = h
each f ((_, p) ∷ a) h = each f a (elim (get_elem? h p) [ none ↦ h | some o ↦ set h p (f o) ])

-- The price update of one order.
abbrev pub set_price : Sign → Option ℤ → Order → Order
set_price equal q o = o
set_price _ q o = record o { current_price = q }

unfoldable pub update_price : Time → Order → Result Panic Order
update_price now o = elim o.dutch_auction [
  | none ↦ ok o
  | some a ↦ do q ← calculate a now; s ← cmp q o.current_price; ok (set_price s q o)
]

pub each_price : Time → List (String × ℕ) → List Order → Result Panic (List Order)
each_price now [] h = ok h
each_price now ((_, p) ∷ a) h = elim (get_elem? h p) [
  | none ↦ each_price now a h
  | some o ↦ do o' ← update_price now o; each_price now a (set h p o')
]

pub data Event : Type 0 where
  -- `AddOrder`, called by the service with an order that it has converted
  add : Order → Event
  -- a turn of `processNewOrders` and of `processOrderUpdates`, with the chains' answers
  new_order : Replies → Event
  order_update : Replies → Time → Event
  -- the tickers: `checkOrderTimeouts` (and `syncOrderStates`, which does nothing yet),
  -- `updateDutchAuctionOrderPrices`, and the service's `matchOrders`
  timeouts : Time → Event
  prices : Time → Event
  match_orders : Event

module _ (c : Contracts) where
  receive_new : Replies → List ℕ → Manager → Manager
  receive_new reply [] m = m
  receive_new reply (p ∷ rest) m =
      let m' = record m { new_orders = rest } in
      elim (get_elem? m.heap p) [
        | none ↦ m'
        | some o ↦ register p (process_new c reply o m.sent) m'
      ]

  receive_update : Replies → Time → List ℕ → Manager → Manager
  receive_update reply now [] m = m
  receive_update reply now (p ∷ rest) m =
      let m' = record m { update_orders = rest } in
      elim (get_elem? m.heap p) [
        | none ↦ m'
        | some o ↦ retire p (process_update c reply now o m.sent) m'
      ]

  unfoldable pub step : Event → Manager → Result Panic Manager
  unfolding receive_new receive_update each each_price
  step (add o) m = ok (add_order o m)
  step (new_order reply) m = ok (receive_new reply m.new_orders m)
  step (order_update reply now) m = ok (receive_update reply now m.update_orders m)
  step (timeouts now) m = ok (record m { heap = each (expire now) m.active_orders m.heap })
  step (prices now) m = do h ← each_price now m.active_orders m.heap; ok (record m { heap = h })
  step match_orders m = ok (record m { heap = each match_order m.active_orders m.heap })

  -- A run stops at a panic, which ends the process.
  unfoldable pub run : List Event → Manager → Result Panic Manager
  run [] m = ok m
  run (e ∷ es) m = do m' ← step e m; run es m'
