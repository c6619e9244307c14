-- ===== src/Relayer/Manager/Overlap.antt =====
-- relayer/pkg/order_manager/manager.go: turns that overlap. A handler that waits for a chain holds the order
-- that it received, while the other goroutines and the service go on: a turn of `processNewOrders` and one of
-- `processOrderUpdates` are each split where their handler waits.
use cosmos_swap.Prelude.{
  ℕ, suc, String, Option, none, some, List, [], ◌∷◌, Result, ok, err, get_elem?,
}
use cosmos_swap.Prelude.Time.{Time}
use cosmos_swap.Relayer.Types.{Order, OrderStatus, matched, failed}
use cosmos_swap.Relayer.Auction.{Panic, ◌>>=◌}
use cosmos_swap.Relayer.Orders.{
  Contracts, Replies, expire, match_order, handle_new_order, handle_order_update,
}
use cosmos_swap.Relayer.Manager.{
  Manager, new_manager, add_order, register, retire, each, each_price,
}

-- An order in the hands of a handler: as it was when the handler read it, what the chains answer at that time,
-- and what the handler will return for it
pub record Held : Type 0 where
  pub pointer : ℕ
  pub seen : Order
  pub replies : Replies
  pub answer : Result String Order

pub record Overlapped : Type 0 where
  pub manager : Manager
  pub new_held : Option Held
  pub update_held : Option Held

abbrev pub idle : Overlapped
idle = record { manager = new_manager; new_held = none; update_held = none }

-- What is written to an order, as it is by now, after `handleNewOrder`
unfoldable pub written_new : Result String Order → Order → Order
written_new (ok o') o = record o { dest_tx_hash = o'.dest_tx_hash; status = o'.status }
written_new (err e) o = record o { status = failed; last_error = e }

-- and after `handleOrderUpdate`, which writes only where the order was matched
abbrev pub written_swap : OrderStatus → Order → Order → Order
written_swap matched o' o = record o { source_tx_hash = o'.source_tx_hash; status = o'.status }
written_swap _ o' o = o

unfoldable pub written_update : Time → Order → Result String Order → Order → Order
written_update now seen (ok o') o = record (written_swap seen.status o' o) { updated_at = now }
written_update now seen (err e) o = record o {
  retry_count = suc o.retry_count;
  last_error = e;
  updated_at = now;
}

pub data Turn : Type 0 where
  add : Order → Turn
  -- `processNewOrders` receives an order and sends its transaction; then the chain's answer is there
  receive_new new_answered : Turn
  -- the same of `processOrderUpdates`
  receive_update : Turn
  update_answered : Time → Turn
  timeouts prices : Time → Turn
  match_orders : Turn

module _ (c : Contracts) (reply : Replies) where
  unfoldable pub hold_new : List ℕ → Overlapped → Overlapped
  hold_new [] x = x
  hold_new (p ∷ rest) x =
      let m = record x.manager { new_orders = rest } in
      elim (get_elem? m.heap p) [
        | none ↦ record x { manager = m }
        | some o ↦
            (let (r, log) = handle_new_order c reply o m.sent in
              record x {
                manager = record m { sent = log };
                new_held = some (record { pointer = p; seen = o; replies = reply; answer = r });
              })
      ]

  unfoldable pub hold_update : List ℕ → Overlapped → Overlapped
  hold_update [] x = x
  hold_update (p ∷ rest) x =
      let m = record x.manager { update_orders = rest } in
      elim (get_elem? m.heap p) [
        | none ↦ record x { manager = m }
        | some o ↦
            (let (r, log) = handle_order_update c reply o m.sent in
              record x {
                manager = record m { sent = log };
                update_held = some (record { pointer = p; seen = o; replies = reply; answer = r });
              })
      ]

-- The rest of a turn of `processNewOrders`
unfoldable pub release_new : Held → Manager → Manager
release_new h m = elim (get_elem? m.heap h.pointer) [
  | none ↦ m
  | some o ↦ register h.pointer (written_new h.answer o, m.sent) m
]

-- and of `processOrderUpdates`
unfoldable pub release_update : Time → Held → Manager → Manager
release_update now h m = elim (get_elem? m.heap h.pointer) [
  | none ↦ m
  | some o ↦ retire h.pointer (written_update now h.seen h.answer o, m.sent) m
]

module _ (c : Contracts) where
  abbrev pub receive_new_if_free : Replies → Option Held → Overlapped → Overlapped
  receive_new_if_free reply none x = hold_new c reply x.manager.new_orders x
  receive_new_if_free reply (some h) x = x

  abbrev pub receive_update_if_free : Replies → Option Held → Overlapped → Overlapped
  receive_update_if_free reply none x = hold_update c reply x.manager.update_orders x
  receive_update_if_free reply (some h) x = x

  abbrev pub end_new : Option Held → Overlapped → Overlapped
  end_new none x = x
  end_new (some h) x = record x { manager = release_new h x.manager; new_held = none }

  abbrev pub end_update : Time → Option Held → Overlapped → Overlapped
  end_update now none x = x
  end_update now (some h) x = record x {
    manager = release_update now h x.manager;
    update_held = none;
  }

  abbrev with_heap : Overlapped → List Order → Overlapped
  with_heap x h = record x { manager = record x.manager { heap = h } }

  -- The answers of the chains at the time that each transaction is sent
  unfoldable pub turn : Replies → Turn → Overlapped → Result Panic Overlapped
  turn reply (add o) x = ok (record x { manager = add_order o x.manager })
  turn reply receive_new x = ok (receive_new_if_free reply x.new_held x)
  turn reply new_answered x = ok (end_new x.new_held x)
  turn reply receive_update x = ok (receive_update_if_free reply x.update_held x)
  turn reply (update_answered now) x = ok (end_update now x.update_held x)
  turn reply (timeouts now) x =
      ok (with_heap x (each (expire now) x.manager.active_orders x.manager.heap))
  turn reply (prices now) x = do
    h ← each_price now x.manager.active_orders x.manager.heap
    ok (with_heap x h)
  turn reply match_orders x =
      ok (with_heap x (each match_order x.manager.active_orders x.manager.heap))

  unfoldable pub turns : List (Replies × Turn) → Overlapped → Result Panic Overlapped
  turns [] x = ok x
  turns ((reply, t) ∷ ts) x = do x' ← turn reply t x; turns ts x'
