-- ===== src/Relayer/Manager/Below.antt =====
-- Pointers below and above a bound: in the map, in a channel, and a heap that keeps what is above.
use mathlib.Core.Path.{subst}
use cosmos_swap.Prelude.{
  ℕ, zero, suc, ◌≤◌, ◌<◌, ◌≡◌, refl, ap, ◌∙◌, some, List, [], ◌∷◌, ◌++◌, String, string_eq, ◌==◌,
  length, length-append, get_elem?, set, ok, arith, Result-cases, Option-cases, Bool-cases, inl,
  inr, ok-injective, ltb, get_elem?-set_ne,
}
use cosmos_swap.Prelude.Map.{insert}
use cosmos_swap.Prelude.Time.{Time}
use cosmos_swap.Relayer.Types.{Order}
use cosmos_swap.Relayer.Manager.{Manager, try_send, capacity, each, each_price, update_price}

pub longer : (m : Manager) (o : Order) → length (m.heap ++ o ∷ []) ≡ suc (length m.heap)
longer m o = omega (arith, length-append m.heap (o ∷ []))

-- All pointers of the map are below a bound.
abbrev pub AllBelow : ℕ → List (String × ℕ) → Type 0
AllBelow k [] = Unit
AllBelow k ((j, p) ∷ a) = (p < k) × AllBelow k a

-- The pointers of a channel ascend from one bound and stay below the other.
abbrev pub Ascending : ℕ → List ℕ → ℕ → Type 0
Ascending lo [] hi = lo ≤ hi
Ascending lo (p ∷ ps) hi = (lo ≤ p) × Ascending (suc p) ps hi

pub AllBelow-mono : (j k : ℕ) (a : List (String × ℕ)) → j ≤ k → AllBelow j a → AllBelow k a
AllBelow-mono j k [] h b = tt
AllBelow-mono j k ((i, p) ∷ a) h b = (omega arith, AllBelow-mono j k a h b.1)

pub AllBelow-insert :
    (k p : ℕ) (i : String) (a : List (String × ℕ))
    → p < k
    → AllBelow k a
    → AllBelow k (insert i p a)
unfolding insert
AllBelow-insert k p i [] h b = (h, tt)
AllBelow-insert k p i ((j, q) ∷ a) h b = elim (Bool-cases (j == i)) [
  | inl e ↦ rw e (h, b.1)
  | inr e ↦ rw e (b.0, AllBelow-insert k p i a h b.1)
]

pub Ascending-le : (lo : ℕ) (ps : List ℕ) (hi : ℕ) → Ascending lo ps hi → lo ≤ hi
Ascending-le lo [] hi a = a
Ascending-le lo (p ∷ ps) hi a = omega (arith, Ascending-le (suc p) ps hi a.1, a.0)

Ascending-append :
    (lo : ℕ) (ps : List ℕ) (hi : ℕ) → Ascending lo ps hi → Ascending lo (ps ++ hi ∷ []) (suc hi)
Ascending-append lo [] hi a = (a, omega arith)
Ascending-append lo (p ∷ ps) hi a = (a.0, Ascending-append (suc p) ps hi a.1)

Ascending-mono :
    (lo : ℕ) (ps : List ℕ) (hi hi' : ℕ) → hi ≤ hi' → Ascending lo ps hi → Ascending lo ps hi'
Ascending-mono lo [] hi hi' h a = omega arith
Ascending-mono lo (p ∷ ps) hi hi' h a = (a.0, Ascending-mono (suc p) ps hi hi' h a.1)

pub try_send-Ascending :
    (lo : ℕ) (ps : List ℕ) (hi : ℕ) → Ascending lo ps hi → Ascending lo (try_send hi ps) (suc hi)
try_send-Ascending lo ps hi a = elim (Bool-cases (ltb (length ps) capacity)) [
  | inl e ↦ rw e (Ascending-append lo ps hi a)
  | inr e ↦ rw e (Ascending-mono lo ps hi (suc hi) (omega arith) a)
]

pub length-set_lem : (h : List Order) (p : ℕ) (o : Order) → length (set h p o) ≡ length h
length-set_lem [] p o = refl
length-set_lem (x ∷ h) zero o = refl
length-set_lem (x ∷ h) (suc p) o = ap suc (length-set_lem h p o)

pub get_elem?_append :
    (h : List Order) (o : Order) (q : ℕ) → q < length h → get_elem? (h ++ o ∷ []) q ≡ get_elem? h q
get_elem?_append [] o q l = absurd (omega arith)
get_elem?_append (x ∷ h) o zero l = refl
get_elem?_append (x ∷ h) o (suc q) l = get_elem?_append h o q (omega arith)

pub get_elem?_found :
    (h : List Order) (q : ℕ) → q < length h → (o : Order) × (get_elem? h q ≡ some o)
get_elem?_found [] q l = absurd (omega arith)
get_elem?_found (x ∷ h) zero l = (x, refl)
get_elem?_found (x ∷ h) (suc q) l = get_elem?_found h q (omega arith)

-- A heap that keeps its length and everything from a bound on
abbrev pub KeepsFrom : ℕ → List Order → List Order → Type 0
KeepsFrom k h h' = (length h' ≡ length h) × ((q : ℕ) → k ≤ q → get_elem? h' q ≡ get_elem? h q)

set-KeepsFrom : (k p : ℕ) (h : List Order) (o : Order) → p < k → KeepsFrom k h (set h p o)
set-KeepsFrom k p h o l = (
  length-set_lem h p o,
  λ q b. get_elem?-set_ne h {i = p} {j = q} o (λ e. absurd (omega (arith, e))),
)

KeepsFrom-trans :
    (k : ℕ) (h h' h'' : List Order) → KeepsFrom k h h' → KeepsFrom k h' h'' → KeepsFrom k h h''
KeepsFrom-trans k h h' h'' a b = (b.0 ∙ a.0, λ q l. b.1 q l ∙ a.1 q l)

pub each-KeepsFrom :
    (f : Order → Order) (k : ℕ) (a : List (String × ℕ)) (h : List Order)
    → AllBelow k a
    → KeepsFrom k h (each f a h)
unfolding each
each-KeepsFrom f k [] h b = (refl, λ q l. refl)
each-KeepsFrom f k ((j, p) ∷ a) h b = elim (Option-cases (get_elem? h p)) [
  | inl e ↦ rw e (each-KeepsFrom f k a h b.1)
  | inr (o, e) ↦ rw e (
      KeepsFrom-trans k h (set h p (f o)) (each f a (set h p (f o))) (set-KeepsFrom k p h (f o) b.0)
        (each-KeepsFrom f k a (set h p (f o)) b.1))
]

pub each_price-KeepsFrom :
    (now : Time) (k : ℕ) (a : List (String × ℕ)) (h h' : List Order)
    → AllBelow k a
    → each_price now a h ≡ ok h'
    → KeepsFrom k h h'
unfolding each_price
each_price-KeepsFrom now k [] h h' b e = subst (KeepsFrom k h) (ok-injective e) (refl, λ q l. refl)
each_price-KeepsFrom now k ((j, p) ∷ a) h h' b e = elim (Option-cases (get_elem? h p)) [
  | inl n ↦
      let e' : each_price now a h ≡ ok h' = ground (arith, e, n) in
      each_price-KeepsFrom now k a h h' b.1 e'
  | inr (o, n) ↦ elim (Result-cases (update_price now o)) [
    | inr (x, y) ↦ ground (arith, e, n, y)
    | inl (o', y) ↦
        let e' : each_price now a (set h p o') ≡ ok h' = ground (arith, e, n, y) in
        KeepsFrom-trans k h (set h p o') h' (set-KeepsFrom k p h o' b.0)
          (each_price-KeepsFrom now k a (set h p o') h' b.1 e')
  ]
]
