-- ===== src/Relayer/Manager/Duplicates.antt =====
-- An order that is added again is handled again.
use cosmos_swap.Prelude.{◌≡◌, ◌∙◌, ap, refl, some, List, [], ◌∷◌, ◌++◌, ok, length, get_elem?}
use cosmos_swap.Relayer.Types.{Order}
use cosmos_swap.Relayer.Orders.{Contracts, Replies, process_new}
use cosmos_swap.Relayer.Orders.Effects.{creation, calls_of, process_new_sends}
use cosmos_swap.Relayer.Manager.{
  Manager, Event, add, new_order, add_order, register, step, run, receive_new,
}

get_elem?-append_new : (h : List Order) (o : Order) → get_elem? (h ++ o ∷ []) (length h) ≡ some o
get_elem?-append_new [] o = refl
get_elem?-append_new (x ∷ h) o = get_elem?-append_new h o

module _ (c : Contracts) where
  -- The state after an order is added to an idle queue and taken from it.
  abbrev pub handled : Replies → Order → Manager → Manager
  handled r o m =
      register (length m.heap) (process_new c r o m.sent)
        (record m { heap = m.heap ++ o ∷ []; new_orders = [] })

  pub step-handled :
      (r : Replies) (o : Order) (m : Manager)
      → m.new_orders ≡ []
      → step c (new_order r) (add_order o m) ≡ ok (handled r o m)
  unfolding step add_order receive_new
  step-handled r o m e = rw (e, receive_new) (rw (get_elem?-append_new m.heap o) refl)

  run-handled :
      (r : Replies) (o : Order) (es : List Event) (m : Manager)
      → m.new_orders ≡ []
      → run c (add o ∷ new_order r ∷ es) m ≡ run c es (handled r o m)
  unfolding run step add_order receive_new
  run-handled r o es m e = rw (e, receive_new) (rw (get_elem?-append_new m.heap o) refl)

  -- Adding an order twice to a manager with no new orders waiting, with a turn of
  -- `processNewOrders` after each, sends the creation of its escrow twice, whatever the answers.
  pub add_twice-sent :
      (o : Order) (r1 r2 : Replies) (m : Manager)
      → m.new_orders ≡ []
      → (m' : Manager) × (run c (add o ∷ new_order r1 ∷ add o ∷ new_order r2 ∷ []) m ≡ ok m')
        × (m'.sent ≡ (m.sent ++ calls_of (creation c o.type o)) ++ calls_of (creation c o.type o))
  unfolding run
  add_twice-sent o r1 r2 m e =
      let m1 = handled r1 o m in
      (
        handled r2 o m1,
        run-handled r1 o (add o ∷ new_order r2 ∷ []) m e ∙ (run-handled r2 o [] m1 refl ∙ refl),
        process_new_sends c r2 o _
            ∙ ap (λ l. l ++ calls_of (creation c o.type o)) (process_new_sends c r1 o m.sent),
      )
