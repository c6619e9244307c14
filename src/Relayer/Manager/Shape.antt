-- ===== src/Relayer/Manager/Shape.antt =====
-- The map and the channels hold pointers to orders, no channel holds more than its capacity, and
-- the map finds every order under its own id.
use cosmos_swap.Prelude.{
  ℕ, zero, suc, ◌≤◌, ◌≡◌, refl, ◌∙◌, Option, none, some, List, [], ◌∷◌, ◌++◌, String, string_eq,
  ltb, length, length-append, get_elem?, set, ok, arith, Result-cases, Option-cases, inl, inr,
  Bool-cases,
}
use cosmos_swap.Prelude.Map.{lookup}
use cosmos_swap.Prelude.Time.{Time}
use cosmos_swap.Relayer.Types.{Order}
use cosmos_swap.Relayer.Manager.{Manager, capacity, try_send, each, each_price, update_price}

abbrev id_of : Option Order → Option String
id_of none = none
id_of (some o) = some o.id

-- The id of the order that a pointer points to.
abbrev pub id_at : List Order → ℕ → Option String
id_at h p = id_of (get_elem? h p)

pub id_at-set :
    (h : List Order) (p : ℕ) (o o' : Order) (q : ℕ)
    → get_elem? h p ≡ some o
    → o'.id ≡ o.id
    → id_at (set h p o') q ≡ id_at h q
id_at-set [] p o o' q e i = refl
id_at-set (x ∷ h) zero o o' zero e i = ground arith
id_at-set (x ∷ h) zero o o' (suc q) e i = refl
id_at-set (x ∷ h) (suc p) o o' zero e i = refl
id_at-set (x ∷ h) (suc p) o o' (suc q) e i = id_at-set h p o o' q e i

pub id_at-append :
    (h : List Order) (o : Order) (q : ℕ) (i : String)
    → id_at h q ≡ some i
    → id_at (h ++ o ∷ []) q ≡ some i
id_at-append [] o q i e = cc
id_at-append (x ∷ h) o zero i e = e
id_at-append (x ∷ h) o (suc q) i e = id_at-append h o q i e

pub id_at-append_new : (h : List Order) (o : Order) → id_at (h ++ o ∷ []) (length h) ≡ some o.id
id_at-append_new [] o = refl
id_at-append_new (x ∷ h) o = id_at-append_new h o

pub id_at-each :
    (f : Order → Order)
    → ((o : Order) → (f o).id ≡ o.id)
    → (a : List (String × ℕ)) (h : List Order) (q : ℕ) → id_at (each f a h) q ≡ id_at h q
unfolding each
id_at-each f keeps [] h q = refl
id_at-each f keeps ((j, p) ∷ a) h q = elim (Option-cases (get_elem? h p)) [
  | inl e ↦ rw e (id_at-each f keeps a h q)
  | inr (o, e) ↦ rw e (id_at-each f keeps a (set h p (f o)) q ∙ id_at-set h p o (f o) q e (keeps o))
]

update_price-id : (now : Time) (o o' : Order) → update_price now o ≡ ok o' → o'.id ≡ o.id
unfolding update_price
update_price-id now o o' e = ground arith

pub id_at-each_price :
    (now : Time) (a : List (String × ℕ)) (h h' : List Order) (q : ℕ)
    → each_price now a h ≡ ok h'
    → id_at h' q ≡ id_at h q
unfolding each_price
id_at-each_price now [] h h' q e = ground arith
id_at-each_price now ((j, p) ∷ a) h h' q e = elim (Option-cases (get_elem? h p)) [
  | inl n ↦ id_at-each_price now a h h' q (ground arith)
  | inr (o, n) ↦ elim (Result-cases (update_price now o)) [
    | inl (o', y) ↦
        id_at-each_price now a (set h p o') h' q (ground arith)
        ∙ id_at-set h p o o' q n (update_price-id now o o' y)
    | inr (x, y) ↦ absurd (ground arith)
  ]
]

-- Every pointer of a channel points to an order.
abbrev pub Allocated : List Order → List ℕ → Type 0
Allocated h [] = Unit
Allocated h (p ∷ ps) = ((i : String) × (id_at h p ≡ some i)) × Allocated h ps

pub record IsWellFormed (m : Manager) : Type 0 where
  pub found : (j : String) (p : ℕ) → lookup j m.active_orders ≡ some p → id_at m.heap p ≡ some j
  pub new_allocated : Allocated m.heap m.new_orders
  pub update_allocated : Allocated m.heap m.update_orders
  pub completed_allocated : Allocated m.heap m.completed_orders
  pub new_fits : length m.new_orders ≤ capacity
  pub update_fits : length m.update_orders ≤ capacity
  pub completed_fits : length m.completed_orders ≤ capacity

-- The heap keeps the id of every order that it had.
abbrev pub Keeps : List Order → List Order → Type 0
Keeps h h' = (q : ℕ) (i : String) → id_at h q ≡ some i → id_at h' q ≡ some i

pub Allocated-Keeps :
    (h h' : List Order) (ps : List ℕ) → Keeps h h' → Allocated h ps → Allocated h' ps
Allocated-Keeps h h' [] k a = tt
Allocated-Keeps h h' (p ∷ ps) k a = ((a.0.0, k p a.0.0 a.0.1), Allocated-Keeps h h' ps k a.1)

Allocated-append :
    (h : List Order) (ps : List ℕ) (p : ℕ) (i : String)
    → Allocated h ps
    → id_at h p ≡ some i
    → Allocated h (ps ++ p ∷ [])
Allocated-append h [] p i a e = ((i, e), tt)
Allocated-append h (q ∷ ps) p i a e = (a.0, Allocated-append h ps p i a.1 e)

pub try_send-Allocated :
    (h : List Order) (ps : List ℕ) (p : ℕ) (i : String)
    → Allocated h ps
    → id_at h p ≡ some i
    → Allocated h (try_send p ps)
try_send-Allocated h ps p i a e = elim (Bool-cases (ltb (length ps) capacity)) [
  | inl y ↦ rw y (Allocated-append h ps p i a e)
  | inr y ↦ rw y a
]

pub try_send_fits : (p : ℕ) (ps : List ℕ) → length ps ≤ capacity → length (try_send p ps) ≤ capacity
try_send_fits p ps h = ground (arith, length-append ps (p ∷ []))
