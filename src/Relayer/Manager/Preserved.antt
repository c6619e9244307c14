-- ===== src/Relayer/Manager/Preserved.antt =====
-- Every event keeps the shape of the manager's state.
use mathlib.Core.Path.{subst}
use cosmos_swap.Prelude.{
  ok-injective, ℕ, ◌≡◌, refl, ◌∙◌, some, List, [], ◌∷◌, ◌++◌, string_eq, length, get_elem?, set, ok,
  arith, Result-cases, Option-cases, inl, inr, Bool-cases,
}
use text.Mathlib.TextEquality.{eq_iff}
use cosmos_swap.Prelude.Map.{lookup-insert, lookup-erase}
use cosmos_swap.Prelude.Time.{Time}
use cosmos_swap.Relayer.Types.{Order}
use cosmos_swap.Relayer.Orders.{
  Call, Contracts, Replies, process_new, process_update, is_removed, expire, match_order,
}
use cosmos_swap.Relayer.Orders.Effects.{process_new-id, process_update-id}
use cosmos_swap.Relayer.Manager.{
  Manager, Event, add, new_order, order_update, timeouts, prices, match_orders, add_order, register,
  retire, each, each_price, step, run, receive_new, receive_update,
}
use cosmos_swap.Relayer.Manager.Shape.{
  id_at, id_at-set, id_at-append, id_at-append_new, id_at-each, id_at-each_price, Keeps,
  Allocated-Keeps, try_send-Allocated, try_send_fits, IsWellFormed,
}

expire-id : (now : Time) (o : Order) → (expire now o).id ≡ o.id
unfolding expire
expire-id now o = ground arith

match_order-id : (o : Order) → (match_order o).id ≡ o.id
unfolding match_order
match_order-id o = ground arith

module _ (m : Manager) (wf : IsWellFormed m) where
  -- A new heap that keeps the ids keeps the shape.
  with_heap : (h : List Order) → Keeps m.heap h → IsWellFormed (record m { heap = h })
  with_heap h k = record {
    found = λ j p e. k p j (wf.found j p e);
    new_allocated = Allocated-Keeps m.heap h m.new_orders k wf.new_allocated;
    update_allocated = Allocated-Keeps m.heap h m.update_orders k wf.update_allocated;
    completed_allocated = Allocated-Keeps m.heap h m.completed_orders k wf.completed_allocated;
    new_fits = wf.new_fits;
    update_fits = wf.update_fits;
    completed_fits = wf.completed_fits;
  }

  add-IsWellFormed : (o : Order) → IsWellFormed (add_order o m)
  unfolding add_order
  add-IsWellFormed o =
      let w = with_heap (m.heap ++ o ∷ []) (id_at-append m.heap o) in
      record {
        found = w.found;
        new_allocated =
            try_send-Allocated (m.heap ++ o ∷ []) m.new_orders (length m.heap) o.id w.new_allocated
              (id_at-append_new m.heap o);
        update_allocated = w.update_allocated;
        completed_allocated = w.completed_allocated;
        new_fits = try_send_fits (length m.heap) m.new_orders wf.new_fits;
        update_fits = wf.update_fits;
        completed_fits = wf.completed_fits;
      }

  -- Writing an order back under the same id.
  put-Keeps :
      (p : ℕ) (o o' : Order)
      → get_elem? m.heap p ≡ some o
      → o'.id ≡ o.id
      → Keeps m.heap (set m.heap p o')
  put-Keeps p o o' e i q j h = id_at-set m.heap p o o' q e i ∙ h

  written :
      (p : ℕ) (o o' : Order)
      → get_elem? m.heap p ≡ some o
      → o'.id ≡ o.id
      → id_at (set m.heap p o') p ≡ some o'.id
  written p o o' e i = ground (arith, id_at-set m.heap p o o' p e i)

  register-IsWellFormed :
      (p : ℕ) (o o' : Order) (log : List Call)
      → get_elem? m.heap p ≡ some o
      → o'.id ≡ o.id
      → IsWellFormed (register p (o', log) m)
  register-IsWellFormed p o o' log e i =
      let w = with_heap (set m.heap p o') (put-Keeps p o o' e i) in
      record {
        found = λ j q h. ground (
          arith,
          lookup-insert o'.id j p m.active_orders,
          eq_iff o'.id j,
          written p o o' e i,
          w.found j q,
        );
        new_allocated = w.new_allocated;
        update_allocated = w.update_allocated;
        completed_allocated = w.completed_allocated;
        new_fits = wf.new_fits;
        update_fits = wf.update_fits;
        completed_fits = wf.completed_fits;
      }

  retire-IsWellFormed :
      (p : ℕ) (o o' : Order) (log : List Call)
      → get_elem? m.heap p ≡ some o
      → o'.id ≡ o.id
      → IsWellFormed (retire p (o', log) m)
  retire-IsWellFormed p o o' log e i =
      let w = with_heap (set m.heap p o') (put-Keeps p o o' e i) in
      elim (Bool-cases (is_removed o'.status)) [
        | inl y ↦ rw y (record {
          found = λ j q h.
              ground (arith, lookup-erase o'.id j m.active_orders, eq_iff o'.id j, w.found j q);
          new_allocated = w.new_allocated;
          update_allocated = w.update_allocated;
          completed_allocated =
              try_send-Allocated (set m.heap p o') m.completed_orders p o'.id w.completed_allocated
                (written p o o' e i);
          new_fits = wf.new_fits;
          update_fits = wf.update_fits;
          completed_fits = try_send_fits p m.completed_orders wf.completed_fits;
        })
        | inr n ↦ rw n (record {
          found = w.found;
          new_allocated = w.new_allocated;
          update_allocated = w.update_allocated;
          completed_allocated = w.completed_allocated;
          new_fits = wf.new_fits;
          update_fits = wf.update_fits;
          completed_fits = wf.completed_fits;
        })
      ]

module _ (c : Contracts) where
  receive_new-IsWellFormed :
      (reply : Replies) (m : Manager) (ps : List ℕ)
      → m.new_orders ≡ ps
      → IsWellFormed m
      → IsWellFormed (receive_new c reply ps m)
  unfolding receive_new
  receive_new-IsWellFormed reply m [] e wf = wf
  receive_new-IsWellFormed reply m (p ∷ rest) e wf =
      let m' = record m { new_orders = rest } in
      let wf' : IsWellFormed m' = record {
        found = wf.found;
        new_allocated = (rw e at wf.new_allocated).1;
        update_allocated = wf.update_allocated;
        completed_allocated = wf.completed_allocated;
        new_fits = ground (arith, wf.new_fits);
        update_fits = wf.update_fits;
        completed_fits = wf.completed_fits;
      } in
      elim (Option-cases (get_elem? m.heap p)) [
        | inl n ↦ rw (n, receive_new) wf'
        | inr (o, n) ↦
            rw (n, receive_new)
              (register-IsWellFormed m' wf' p o (process_new c reply o m.sent).0
                (process_new c reply o m.sent).1 n (process_new-id c reply o m.sent))
      ]

  receive_update-IsWellFormed :
      (reply : Replies) (now : Time) (m : Manager) (ps : List ℕ)
      → m.update_orders ≡ ps
      → IsWellFormed m
      → IsWellFormed (receive_update c reply now ps m)
  unfolding receive_update
  receive_update-IsWellFormed reply now m [] e wf = wf
  receive_update-IsWellFormed reply now m (p ∷ rest) e wf =
      let m' = record m { update_orders = rest } in
      let wf' : IsWellFormed m' = record {
        found = wf.found;
        new_allocated = wf.new_allocated;
        update_allocated = (rw e at wf.update_allocated).1;
        completed_allocated = wf.completed_allocated;
        new_fits = wf.new_fits;
        update_fits = ground (arith, wf.update_fits);
        completed_fits = wf.completed_fits;
      } in
      elim (Option-cases (get_elem? m.heap p)) [
        | inl n ↦ rw (n, receive_update) wf'
        | inr (o, n) ↦
            rw (n, receive_update)
              (retire-IsWellFormed m' wf' p o (process_update c reply now o m.sent).0
                (process_update c reply now o m.sent).1 n (process_update-id c reply o m.sent now))
      ]

  -- Every event that does not panic keeps the shape.
  pub step-IsWellFormed :
      (e : Event) (m m' : Manager) → step c e m ≡ ok m' → IsWellFormed m → IsWellFormed m'
  unfolding step
  step-IsWellFormed (add o) m m' h wf =
      subst IsWellFormed (ok-injective h) (add-IsWellFormed m wf o)
  step-IsWellFormed (new_order reply) m m' h wf =
      subst IsWellFormed (ok-injective h) (receive_new-IsWellFormed reply m m.new_orders refl wf)
  step-IsWellFormed (order_update reply now) m m' h wf =
      subst IsWellFormed (ok-injective h)
        (receive_update-IsWellFormed reply now m m.update_orders refl wf)
  step-IsWellFormed (timeouts now) m m' h wf = subst IsWellFormed (ok-injective h) (
      with_heap m wf (each (expire now) m.active_orders m.heap)
        (λ q i e. id_at-each (expire now) (expire-id now) m.active_orders m.heap q ∙ e))
  step-IsWellFormed (prices now) m m' h wf =
      elim (Result-cases (each_price now m.active_orders m.heap)) [
        | inl (k, y) ↦
            subst IsWellFormed (ground arith)
              (with_heap m wf k (λ q i e. id_at-each_price now m.active_orders m.heap k q y ∙ e))
        | inr (x, y) ↦ absurd (ground arith)
      ]
  step-IsWellFormed match_orders m m' h wf = subst IsWellFormed (ok-injective h) (
      with_heap m wf (each match_order m.active_orders m.heap)
        (λ q i e. id_at-each match_order match_order-id m.active_orders m.heap q ∙ e))

  -- Whatever the schedule, a run that does not panic takes a well-formed manager to a well-formed
  -- one: the map finds an order only under its id, every pointer in a channel points to an order, and
  -- no channel holds more than its capacity.
  pub run-IsWellFormed :
      (es : List Event) (m m' : Manager) → run c es m ≡ ok m' → IsWellFormed m → IsWellFormed m'
  unfolding run
  run-IsWellFormed [] m m' h wf = subst IsWellFormed (ok-injective h) wf
  run-IsWellFormed (e ∷ es) m m' h wf = elim (Result-cases (step c e m)) [
    | inl (k, y) ↦ run-IsWellFormed es k m' (rw y at h) (step-IsWellFormed e m k y wf)
    | inr (x, y) ↦ absurd (ground arith)
  ]
