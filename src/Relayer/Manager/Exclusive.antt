-- ===== src/Relayer/Manager/Exclusive.antt =====
-- However the turns overlap, a held order is exclusive.
use mathlib.Core.Path.{subst}
use cosmos_swap.Prelude.{
  ℕ, ◌≡◌, refl, sym, ap, ◌∙◌, Option, none, some, List, [], ◌∷◌, string_eq, get_elem?, ok, arith,
  Result-cases, inl, inr, ok-injective,
}
use cosmos_swap.Prelude.Time.{Time}
use cosmos_swap.Relayer.Types.{Order}
use cosmos_swap.Relayer.Orders.{
  Call, Contracts, Replies, expire, match_order, process_new, handle_new_order,
}
use cosmos_swap.Relayer.Manager.{Manager, register, each, each_price}
use cosmos_swap.Relayer.Manager.Overlap.{
  Held, Overlapped, idle, written_new, Turn, add, receive_new, new_answered, receive_update,
  update_answered, timeouts, prices, match_orders, hold_update, release_new, receive_new_if_free,
  end_new, receive_update_if_free, end_update, turn, turns,
}
use cosmos_swap.Relayer.Manager.Below.{each-KeepsFrom, each_price-KeepsFrom}
use cosmos_swap.Relayer.Manager.Owned.{
  IsExclusive, Owned, idle-IsExclusive, add-Owned, heap-Owned, hold_new-IsExclusive,
  release_new-Owned, add_order_updates, release_new_updates,
}

module _ (c : Contracts) where
  receive_new_if_free-IsExclusive :
      (reply : Replies) (h : Option Held) (x : Overlapped)
      → x.new_held ≡ h
      → IsExclusive c x
      → IsExclusive c (receive_new_if_free c reply h x)
  receive_new_if_free-IsExclusive reply none x n w =
      hold_new-IsExclusive c reply x x.manager.new_orders refl n w
  receive_new_if_free-IsExclusive reply (some h) x n w = w

  end_new-IsExclusive :
      (h : Option Held) (x : Overlapped)
      → x.new_held ≡ h
      → IsExclusive c x
      → IsExclusive c (end_new c h x)
  end_new-IsExclusive none x n w = w
  end_new-IsExclusive (some h) x n w = record {
    no_updates = release_new_updates c h x.manager ∙ w.no_updates;
    no_update_held = w.no_update_held;
    owned =
        release_new-Owned c h x.manager
          (subst (λ (o : Option Held). Owned c o x.manager) n w.owned);
  }

  nothing_to_hold :
      (reply : Replies) (x : Overlapped)
      → x.manager.update_orders ≡ []
      → hold_update c reply x.manager.update_orders x ≡ x
  unfolding hold_update
  nothing_to_hold reply x e = subst (λ (ps : List ℕ). hold_update c reply ps x ≡ x) (sym e) refl

  receive_update_if_free-IsExclusive :
      (reply : Replies) (h : Option Held) (ps : List ℕ) (x : Overlapped)
      → ps ≡ []
      → x.manager.update_orders ≡ ps
      → IsExclusive c x
      → IsExclusive c (receive_update_if_free c reply h x)
  unfolding hold_update
  receive_update_if_free-IsExclusive reply (some h) ps x e f w = w
  receive_update_if_free-IsExclusive reply none ps x e f w =
      subst (IsExclusive c) (sym (nothing_to_hold reply x (f ∙ e))) w

  end_update-IsExclusive :
      (now : Time) (h : Option Held) (x : Overlapped)
      → h ≡ none
      → IsExclusive c x
      → IsExclusive c (end_update c now h x)
  end_update-IsExclusive now none x n w = w
  end_update-IsExclusive now (some h) x n w = cc

  -- What is written after the answer is what an undivided turn makes of the order.
  written_new-process_new :
      (reply : Replies) (o : Order) (log : List Call)
      → written_new (handle_new_order c reply o log).0 o ≡ (process_new c reply o log).0
  unfolding written_new handle_new_order process_new
  written_new-process_new reply o log = ground arith

  release_new-process_new :
      (h : Held) (m : Manager)
      → get_elem? m.heap h.pointer ≡ some h.seen
      → h.answer ≡ (handle_new_order c h.replies h.seen []).0
      → release_new h m ≡ register h.pointer ((process_new c h.replies h.seen []).0, m.sent) m
  unfolding release_new
  release_new-process_new h m e a =
      rw (e, release_new)
        (ap (λ (o : Order). register h.pointer (o, m.sent) m)
          (ap (λ r. written_new r h.seen) a ∙ written_new-process_new h.replies h.seen []))

  turn-IsExclusive :
      (reply : Replies) (t : Turn) (x x' : Overlapped)
      → turn c reply t x ≡ ok x'
      → IsExclusive c x
      → IsExclusive c x'
  unfolding turn hold_update
  turn-IsExclusive reply (add o) x x' e w = subst (IsExclusive c) (ok-injective e) (record {
    no_updates = add_order_updates c o x.manager ∙ w.no_updates;
    no_update_held = w.no_update_held;
    owned = add-Owned c x.new_held x.manager o w.owned;
  })
  turn-IsExclusive reply receive_new x x' e w =
      subst (IsExclusive c) (ok-injective e)
        (receive_new_if_free-IsExclusive reply x.new_held x refl w)
  turn-IsExclusive reply new_answered x x' e w =
      subst (IsExclusive c) (ok-injective e) (end_new-IsExclusive x.new_held x refl w)
  turn-IsExclusive reply receive_update x x' e w = subst (IsExclusive c) (ok-injective e) (
      receive_update_if_free-IsExclusive reply x.update_held x.manager.update_orders x w.no_updates
        refl w)
  turn-IsExclusive reply (update_answered now) x x' e w =
      subst (IsExclusive c) (ok-injective e)
        (end_update-IsExclusive now x.update_held x w.no_update_held w)
  turn-IsExclusive reply (timeouts now) x x' e w = subst (IsExclusive c) (ok-injective e) (record {
    no_updates = w.no_updates;
    no_update_held = w.no_update_held;
    owned =
        heap-Owned c x.new_held x.manager (each (expire now) x.manager.active_orders x.manager.heap)
          (λ b. each-KeepsFrom (expire now) b x.manager.active_orders x.manager.heap) w.owned;
  })
  turn-IsExclusive reply (prices now) x x' e w =
      elim (Result-cases (each_price now x.manager.active_orders x.manager.heap)) [
        | inr (z, y) ↦ ground (arith, e, y)
        | inl (k, y) ↦ subst (IsExclusive c) (ground (arith, e, y)) (record {
          no_updates = w.no_updates;
          no_update_held = w.no_update_held;
          owned =
              heap-Owned c x.new_held x.manager k
                (λ b a. each_price-KeepsFrom now b x.manager.active_orders x.manager.heap k a y)
                w.owned;
        })
      ]
  turn-IsExclusive reply match_orders x x' e w = subst (IsExclusive c) (ok-injective e) (record {
    no_updates = w.no_updates;
    no_update_held = w.no_update_held;
    owned =
        heap-Owned c x.new_held x.manager (each match_order x.manager.active_orders x.manager.heap)
          (λ b. each-KeepsFrom match_order b x.manager.active_orders x.manager.heap) w.owned;
  })

  turns-IsExclusive :
      (ts : List (Replies × Turn)) (x x' : Overlapped)
      → turns c ts x ≡ ok x'
      → IsExclusive c x
      → IsExclusive c x'
  unfolding turns
  turns-IsExclusive [] x x' e w = subst (IsExclusive c) (ok-injective e) w
  turns-IsExclusive ((reply, t) ∷ ts) x x' e w = elim (Result-cases (turn c reply t x)) [
    | inr (z, y) ↦ ground (arith, e, y)
    | inl (k, y) ↦
        let e' : turns c ts k ≡ ok x' = ground (arith, e, y) in
        turns-IsExclusive ts k x' e' (turn-IsExclusive reply t x k y w)
  ]

  -- However the turns of the goroutines overlap, from a new manager: an order that processNewOrders holds while
  -- it waits for a chain is, when the answer comes, as it was when it was received, and what is then registered
  -- is what an undivided turn makes of it, with the chains' answers at the time that its transaction was sent.
  pub held_as_received :
      (ts : List (Replies × Turn)) (x : Overlapped) (h : Held)
      → turns c ts idle ≡ ok x
      → x.new_held ≡ some h
      → (get_elem? x.manager.heap h.pointer ≡ some h.seen)
        × (release_new h x.manager
            ≡ register h.pointer ((process_new c h.replies h.seen []).0, x.manager.sent) x.manager)
  held_as_received ts x h e n =
      let w = turns-IsExclusive ts idle x e (idle-IsExclusive c) in
      let own = subst (λ (o : Option Held). Owned c o x.manager) n w.owned in
      (own.0, release_new-process_new h x.manager own.0 own.1)
