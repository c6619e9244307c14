-- ===== src/Relayer/Manager/Runs.antt =====
-- What holds of every run of the manager from its start.
use mathlib.Core.Path.{subst}
use cosmos_swap.Prelude.{
  ℕ, ◌≡◌, refl, ap, sym, ◌∙◌, Bool, true, ◌&&◌, some, List, [], ◌∷◌, ◌++◌, String, string_eq,
  get_elem?, ok, arith, Result-cases, Option-cases, inl, inr, ok-injective,
}
use cosmos_swap.Prelude.Map.{lookup}
use cosmos_swap.Relayer.Types.{Order}
use cosmos_swap.Relayer.Orders.{Call, Contracts, Replies}
use cosmos_swap.Relayer.Orders.Effects.{is_create, creation, calls_of, process_new_sends}
use cosmos_swap.Relayer.Manager.{
  Manager, Event, new_order, order_update, prices, new_manager, add_order, get_order, step, run,
  receive_new, receive_update,
}
use cosmos_swap.Relayer.Manager.Shape.{IsWellFormed}
use cosmos_swap.Relayer.Manager.Preserved.{run-IsWellFormed}

pub new_manager-IsWellFormed : IsWellFormed new_manager
unfolding lookup
new_manager-IsWellFormed = record {
  found = λ j p e. cc;
  new_allocated = tt;
  update_allocated = tt;
  completed_allocated = tt;
  new_fits = omega arith;
  update_fits = omega arith;
  completed_fits = omega arith;
}

abbrev pub all_creates : List Call → Bool
all_creates [] = true
all_creates (c ∷ cs) = is_create c && all_creates cs

all_creates-append :
    (cs ds : List Call)
    → all_creates cs ≡ true
    → all_creates ds ≡ true
    → all_creates (cs ++ ds) ≡ true
all_creates-append [] ds h k = k
all_creates-append (c ∷ cs) ds h k = ground (arith, all_creates-append cs ds)

-- No update waits, nothing is reported as completed, and only escrow creations were sent.
pub record IsIdle (m : Manager) : Type 0 where
  pub no_updates : m.update_orders ≡ []
  pub none_completed : m.completed_orders ≡ []
  pub creates_only : all_creates m.sent ≡ true

creation-create : (c : Contracts) (o : Order) → all_creates (calls_of (creation c o.type o)) ≡ true
creation-create c o = ground arith

module _ (c : Contracts) where
  receive_new-IsIdle :
      (reply : Replies) (m : Manager) (ps : List ℕ) → IsIdle m → IsIdle (receive_new c reply ps m)
  unfolding receive_new
  receive_new-IsIdle reply m [] i = i
  receive_new-IsIdle reply m (p ∷ rest) i = elim (Option-cases (get_elem? m.heap p)) [
    | inl n ↦
        rw (n, receive_new)
          (record {
            no_updates = i.no_updates;
            none_completed = i.none_completed;
            creates_only = i.creates_only;
          })
    | inr (o, n) ↦
        rw (n, receive_new)
          (record {
            no_updates = i.no_updates;
            none_completed = i.none_completed;
            creates_only = rw (process_new_sends c reply o m.sent) (
                all_creates-append m.sent (calls_of (creation c o.type o)) i.creates_only
                  (creation-create c o));
          })
  ]

  step-IsIdle : (e : Event) (m m' : Manager) → step c e m ≡ ok m' → IsIdle m → IsIdle m'
  unfolding step add_order receive_update
  step-IsIdle (new_order reply) m m' h i =
      subst IsIdle (ok-injective h) (receive_new-IsIdle reply m m.new_orders i)
  step-IsIdle (order_update reply now) m m' h i =
      subst IsIdle (sym (ap (λ ps. receive_update c reply now ps m) i.no_updates) ∙ ok-injective h)
        i
  step-IsIdle (prices now) m m' h i = ground arith
  step-IsIdle _ m m' h i = ground arith

  run-IsIdle_from : (es : List Event) (m m' : Manager) → run c es m ≡ ok m' → IsIdle m → IsIdle m'
  unfolding run
  run-IsIdle_from [] m m' h i = subst IsIdle (ok-injective h) i
  run-IsIdle_from (e ∷ es) m m' h i = elim (Result-cases (step c e m)) [
    | inl (k, y) ↦ run-IsIdle_from es k m' (rw y at h) (step-IsIdle e m k y i)
    | inr (x, y) ↦ absurd (ground arith)
  ]

  -- In every run from a new manager, whatever its events, the update channel stays empty, no order
  -- is reported as completed, and every transaction sent creates an escrow: none is a withdrawal.
  pub run-IsIdle : (es : List Event) (m : Manager) → run c es new_manager ≡ ok m → IsIdle m
  run-IsIdle es m h =
      run-IsIdle_from es new_manager m h
        (record { no_updates = refl; none_completed = refl; creates_only = refl })

  -- In every run from a new manager `GetOrder` finds an order only under the order's own id.
  pub get_order-id :
      (es : List Event) (m : Manager) (id : String) (o : Order)
      → run c es new_manager ≡ ok m
      → get_order id m ≡ some o
      → o.id ≡ id
  unfolding get_order
  get_order-id es m id o h g = elim (Option-cases (lookup id m.active_orders)) [
    | inl n ↦ absurd (ground arith)
    | inr (p, n) ↦
        ground
          (arith, (run-IsWellFormed c es new_manager m h new_manager-IsWellFormed).found id p n)
  ]
