-- ===== src/Relayer/Manager/Unmatched.antt =====
-- Orders without a destination escrow are never matched, and so never completed, by any run.
use mathlib.Core.Path.{subst}
use mathlib.Core.Option.{some-injective}
use text.Mathlib.TextEquality.{eq_iff}
use cosmos_swap.Prelude.{
  ℕ, zero, suc, ◌≡◌, ◌≢◌, some, List, [], ◌∷◌, ◌++◌, String, string_eq, get_elem?, set, ok, arith,
  Result-cases, Option-cases, inl, inr, Bool-cases, ok-injective,
}
use cosmos_swap.Prelude.Time.{Time}
use cosmos_swap.Relayer.Types.{Order, matched, completed}
use cosmos_swap.Relayer.Orders.{
  Call, Contracts, Replies, process_new, process_update, is_removed, expire, match_order,
}
use cosmos_swap.Relayer.Manager.{
  Manager, Event, add, new_order, order_update, timeouts, prices, match_orders, add_order, retire,
  each, each_price, update_price, step, run, receive_new, receive_update,
}

-- An order that the service would need both escrow addresses of, and that lacks one.
abbrev pub IsUnmatched : Order → Type 0
IsUnmatched o = (o.dest_escrow_addr ≡ "") × (o.status ≢ matched) × (o.status ≢ completed)

abbrev pub AllUnmatched : List Order → Type 0
AllUnmatched [] = Unit
AllUnmatched (o ∷ os) = IsUnmatched o × AllUnmatched os

-- The orders that a list of events adds.
abbrev pub AddsUnmatched : List Event → Type 0
AddsUnmatched [] = Unit
AddsUnmatched (add o ∷ es) = IsUnmatched o × AddsUnmatched es
AddsUnmatched (_ ∷ es) = AddsUnmatched es

AllUnmatched-append :
    (h : List Order) (o : Order) → AllUnmatched h → IsUnmatched o → AllUnmatched (h ++ o ∷ [])
AllUnmatched-append [] o a u = (u, tt)
AllUnmatched-append (x ∷ h) o a u = (a.0, AllUnmatched-append h o a.1 u)

AllUnmatched-set :
    (h : List Order) (p : ℕ) (o : Order) → AllUnmatched h → IsUnmatched o → AllUnmatched (set h p o)
AllUnmatched-set [] p o a u = a
AllUnmatched-set (x ∷ h) zero o a u = (u, a.1)
AllUnmatched-set (x ∷ h) (suc p) o a u = (a.0, AllUnmatched-set h p o a.1 u)

AllUnmatched-get :
    (h : List Order) (p : ℕ) (o : Order) → AllUnmatched h → get_elem? h p ≡ some o → IsUnmatched o
AllUnmatched-get [] p o a e = cc
AllUnmatched-get (x ∷ h) zero o a e = subst IsUnmatched (some-injective _ _ e) a.0
AllUnmatched-get (x ∷ h) (suc p) o a e = AllUnmatched-get h p o a.1 e

expire-IsUnmatched : (now : Time) (o : Order) → IsUnmatched o → IsUnmatched (expire now o)
unfolding expire
expire-IsUnmatched now o u = ground arith

match_order-IsUnmatched : (o : Order) → IsUnmatched o → IsUnmatched (match_order o)
unfolding match_order
match_order-IsUnmatched o u = ground (arith, eq_iff o.dest_escrow_addr "")

update_price-IsUnmatched :
    (now : Time) (o o' : Order) → update_price now o ≡ ok o' → IsUnmatched o → IsUnmatched o'
unfolding update_price
update_price-IsUnmatched now o o' e u = ground arith

process_new-IsUnmatched :
    (c : Contracts) (reply : Replies) (o : Order) (log : List Call)
    → IsUnmatched o
    → IsUnmatched (process_new c reply o log).0
unfolding process_new
process_new-IsUnmatched c reply o log u = ground arith

process_update-IsUnmatched :
    (c : Contracts) (reply : Replies) (now : Time) (o : Order) (log : List Call)
    → IsUnmatched o
    → IsUnmatched (process_update c reply now o log).0
unfolding process_update
process_update-IsUnmatched c reply now o log u = ground arith

retire-AllUnmatched :
    (p : ℕ) (r : Order × List Call) (m : Manager)
    → AllUnmatched m.heap
    → IsUnmatched r.0
    → AllUnmatched (retire p r m).heap
retire-AllUnmatched p r m u i = elim (Bool-cases (is_removed r.0.status)) [
  | inl y ↦ rw y (AllUnmatched-set m.heap p r.0 u i)
  | inr n ↦ rw n (AllUnmatched-set m.heap p r.0 u i)
]

each-AllUnmatched :
    (f : Order → Order)
    → ((o : Order) → IsUnmatched o → IsUnmatched (f o))
    → (a : List (String × ℕ)) (h : List Order) → AllUnmatched h
    → AllUnmatched (each f a h)
unfolding each
each-AllUnmatched f k [] h u = u
each-AllUnmatched f k ((j, p) ∷ a) h u = elim (Option-cases (get_elem? h p)) [
  | inl e ↦ rw e (each-AllUnmatched f k a h u)
  | inr (o, e) ↦ rw e (
      each-AllUnmatched f k a (set h p (f o))
        (AllUnmatched-set h p (f o) u (k o (AllUnmatched-get h p o u e))))
]

each_price-AllUnmatched :
    (now : Time) (a : List (String × ℕ)) (h h' : List Order)
    → each_price now a h ≡ ok h'
    → AllUnmatched h
    → AllUnmatched h'
unfolding each_price
each_price-AllUnmatched now [] h h' e u = subst AllUnmatched (ok-injective e) u
each_price-AllUnmatched now ((j, p) ∷ a) h h' e u = elim (Option-cases (get_elem? h p)) [
  | inl n ↦ each_price-AllUnmatched now a h h' (ground arith) u
  | inr (o, n) ↦ elim (Result-cases (update_price now o)) [
    | inl (o', y) ↦ each_price-AllUnmatched now a (set h p o') h' (ground arith) (
        AllUnmatched-set h p o' u
          (update_price-IsUnmatched now o o' y (AllUnmatched-get h p o u n)))
    | inr (x, y) ↦ absurd (ground arith)
  ]
]

module _ (c : Contracts) where
  receive_new-AllUnmatched :
      (reply : Replies) (m : Manager) (ps : List ℕ)
      → AllUnmatched m.heap
      → AllUnmatched (receive_new c reply ps m).heap
  unfolding receive_new
  receive_new-AllUnmatched reply m [] u = u
  receive_new-AllUnmatched reply m (p ∷ rest) u = elim (Option-cases (get_elem? m.heap p)) [
    | inl n ↦ rw (n, receive_new) u
    | inr (o, n) ↦
        rw (n, receive_new)
          (AllUnmatched-set m.heap p (process_new c reply o m.sent).0 u
            (process_new-IsUnmatched c reply o m.sent (AllUnmatched-get m.heap p o u n)))
  ]

  receive_update-AllUnmatched :
      (reply : Replies) (now : Time) (m : Manager) (ps : List ℕ)
      → AllUnmatched m.heap
      → AllUnmatched (receive_update c reply now ps m).heap
  unfolding receive_update
  receive_update-AllUnmatched reply now m [] u = u
  receive_update-AllUnmatched reply now m (p ∷ rest) u = elim (Option-cases (get_elem? m.heap p)) [
    | inl n ↦ rw (n, receive_update) u
    | inr (o, n) ↦
        rw (n, receive_update)
          (retire-AllUnmatched p (process_update c reply now o m.sent)
            (record m { update_orders = rest }) u
            (process_update-IsUnmatched c reply now o m.sent (AllUnmatched-get m.heap p o u n)))
  ]

  step-AllUnmatched :
      (e : Event) (es : List Event) (m m' : Manager)
      → step c e m ≡ ok m'
      → AddsUnmatched (e ∷ es)
      → AllUnmatched m.heap
      → AllUnmatched m'.heap × AddsUnmatched es
  unfolding step add_order
  step-AllUnmatched (add o) es m m' h a u =
      (subst (λ k. AllUnmatched k.heap) (ok-injective h) (AllUnmatched-append m.heap o u a.0), a.1)
  step-AllUnmatched (new_order reply) es m m' h a u = (
    subst (λ k. AllUnmatched k.heap) (ok-injective h)
        (receive_new-AllUnmatched reply m m.new_orders u),
    a,
  )
  step-AllUnmatched (order_update reply now) es m m' h a u = (
    subst (λ k. AllUnmatched k.heap) (ok-injective h)
        (receive_update-AllUnmatched reply now m m.update_orders u),
    a,
  )
  step-AllUnmatched (timeouts now) es m m' h a u = (
    subst (λ k. AllUnmatched k.heap) (ok-injective h)
        (each-AllUnmatched (expire now) (expire-IsUnmatched now) m.active_orders m.heap u),
    a,
  )
  step-AllUnmatched (prices now) es m m' h a u =
      elim (Result-cases (each_price now m.active_orders m.heap)) [
        | inl (k, y) ↦ (
          subst AllUnmatched (ground arith)
              (each_price-AllUnmatched now m.active_orders m.heap k y u),
          a,
        )
        | inr (x, y) ↦ absurd (ground arith)
      ]
  step-AllUnmatched match_orders es m m' h a u = (
    subst (λ k. AllUnmatched k.heap) (ok-injective h)
        (each-AllUnmatched match_order match_order-IsUnmatched m.active_orders m.heap u),
    a,
  )

  -- If every order is held and added without a destination escrow, and neither matched nor completed,
  -- then after any run that does not panic every order still is so.
  pub run-AllUnmatched :
      (es : List Event) (m m' : Manager)
      → run c es m ≡ ok m'
      → AddsUnmatched es
      → AllUnmatched m.heap
      → AllUnmatched m'.heap
  unfolding run
  run-AllUnmatched [] m m' h a u = subst (λ k. AllUnmatched k.heap) (ok-injective h) u
  run-AllUnmatched (e ∷ es) m m' h a u = elim (Result-cases (step c e m)) [
    | inl (k, y) ↦
        let (u', a') = step-AllUnmatched e es m k y a u in
        run-AllUnmatched es k m' (rw y at h) a' u'
    | inr (x, y) ↦ absurd (ground arith)
  ]
