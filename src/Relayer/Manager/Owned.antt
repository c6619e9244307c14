-- ===== src/Relayer/Manager/Owned.antt =====
-- An order that a handler holds is in nobody else's hands.
use mathlib.Core.Path.{subst}
use cosmos_swap.Prelude.{
  ℕ, suc, ◌<◌, ◌≡◌, refl, sym, ◌∙◌, Option, none, some, List, [], ◌∷◌, string_eq, length, get_elem?,
  arith,
}
use cosmos_swap.Relayer.Types.{Order}
use cosmos_swap.Relayer.Orders.{Call, Contracts, Replies, handle_new_order}
use cosmos_swap.Relayer.Manager.{Manager, add_order, try_send}
use cosmos_swap.Relayer.Manager.Overlap.{Held, Overlapped, idle, written_new, hold_new, release_new}
use cosmos_swap.Relayer.Manager.Below.{
  AllBelow-mono, AllBelow-insert, Ascending-le, try_send-Ascending, length-set_lem,
  get_elem?_append, get_elem?_found, longer, AllBelow, Ascending, KeepsFrom,
}

module _ (c : Contracts) where
  -- The order that is held is as it was when it was read, and the answer is to its transaction; the map has
  -- only orders that came before it, and the channel those that come after it.
  abbrev pub Owned : Option Held → Manager → Type 0
  Owned none m = (lo : ℕ) × AllBelow lo m.active_orders × Ascending lo m.new_orders (length m.heap)
  Owned (some h) m =
      (get_elem? m.heap h.pointer ≡ some h.seen)
      × (h.answer ≡ (handle_new_order c h.replies h.seen []).0)
      × AllBelow h.pointer m.active_orders
      × Ascending (suc h.pointer) m.new_orders (length m.heap)
      × (h.pointer < length m.heap)

  pub record IsExclusive (x : Overlapped) : Type 0 where
    pub no_updates : x.manager.update_orders ≡ []
    pub no_update_held : x.update_held ≡ none
    pub owned : Owned x.new_held x.manager

  pub idle-IsExclusive : IsExclusive idle
  idle-IsExclusive = record {
    no_updates = refl;
    no_update_held = refl;
    owned = (0, tt, omega arith);
  }

  pub add-Owned : (h : Option Held) (m : Manager) (o : Order) → Owned h m → Owned h (add_order o m)
  unfolding add_order
  add-Owned none m o w = (
    w.0,
    w.1,
    subst (Ascending w.0 (try_send (length m.heap) m.new_orders)) (sym (longer m o))
        (try_send-Ascending w.0 m.new_orders (length m.heap) w.2),
  )
  add-Owned (some h) m o w = (
    get_elem?_append m.heap o h.pointer w.4 ∙ w.0,
    w.1,
    w.2,
    subst (Ascending (suc h.pointer) (try_send (length m.heap) m.new_orders)) (sym (longer m o))
        (try_send-Ascending (suc h.pointer) m.new_orders (length m.heap) w.3),
    omega (arith, longer m o, w.4),
  )

  pub heap-Owned :
      (h : Option Held) (m : Manager) (k : List Order)
      → ((b : ℕ) → AllBelow b m.active_orders → KeepsFrom b m.heap k)
      → Owned h m
      → Owned h (record m { heap = k })
  heap-Owned none m k keeps w =
      let e = keeps w.0 w.1 in (w.0, w.1, subst (Ascending w.0 m.new_orders) (sym e.0) w.2)
  heap-Owned (some h) m k keeps w =
      let e = keeps h.pointer w.2 in
      (
        e.1 h.pointer (omega arith) ∙ w.0,
        w.1,
        w.2,
        subst (Ascending (suc h.pointer) m.new_orders) (sym e.0) w.3,
        omega (arith, e.0, w.4),
      )

  answer_any_log :
      (reply : Replies) (o : Order) (log : List Call)
      → (handle_new_order c reply o log).0 ≡ (handle_new_order c reply o []).0
  unfolding handle_new_order
  answer_any_log reply o log = ground arith

  pub hold_new-IsExclusive :
      (reply : Replies) (x : Overlapped) (ps : List ℕ)
      → x.manager.new_orders ≡ ps
      → x.new_held ≡ none
      → IsExclusive x
      → IsExclusive (hold_new c reply ps x)
  unfolding hold_new
  hold_new-IsExclusive reply x [] e f w = w
  hold_new-IsExclusive reply x (p ∷ rest) e f w =
      let own = subst (λ (h : Option Held). Owned h x.manager) f w.owned in
      let up = subst (λ (ps : List ℕ). Ascending own.0 ps (length x.manager.heap)) e own.2 in
      let below : p < length x.manager.heap =
        omega (arith, Ascending-le (suc p) rest (length x.manager.heap) up.1) in
      let o = get_elem?_found x.manager.heap p below in
      rw (o.1, hold_new)
        (record {
          no_updates = w.no_updates;
          no_update_held = w.no_update_held;
          owned = (
            o.1,
            answer_any_log reply o.0 x.manager.sent,
            AllBelow-mono own.0 p x.manager.active_orders up.0 own.1,
            up.1,
            below,
          );
        })

  pub release_new-Owned : (h : Held) (m : Manager) → Owned (some h) m → Owned none (release_new h m)
  unfolding release_new
  release_new-Owned h m w =
      let o' = written_new h.answer h.seen in
      rw (w.0, release_new)
        (
          suc h.pointer,
          AllBelow-insert (suc h.pointer) h.pointer o'.id m.active_orders (omega arith)
              (AllBelow-mono h.pointer (suc h.pointer) m.active_orders (omega arith) w.2),
          subst (Ascending (suc h.pointer) m.new_orders) (sym (length-set_lem m.heap h.pointer o'))
              w.3,
        )

  pub add_order_updates :
      (o : Order) (m : Manager) → (add_order o m).update_orders ≡ m.update_orders
  unfolding add_order
  add_order_updates o m = refl

  pub release_new_updates :
      (h : Held) (m : Manager) → (release_new h m).update_orders ≡ m.update_orders
  unfolding release_new
  release_new_updates h m = ground arith
