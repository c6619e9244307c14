-- ===== src/Prelude/Results.antt =====
-- Go's `(value, error)` results, and the state monad of a handler: the state comes back with an
-- error too, since what a handler wrote before it failed stays written.

use mathlib.Core.Path.{◌≡◌, refl, ap}
use mathlib.Core.Logic.{◌⊎◌, inl, inr}
use mathlib.Core.Bool.{Bool}
use mathlib.Core.Option.{Option, none, some}
use cosmos_swap.Prelude.Tests.{if◌then◌else◌}

pub data Result (E A : Type 0) : Type 0 where
  ok : A → Result E A
  err : E → Result E A

abbrev pub Action : Type 0 → Type 0 → Type 0 → Type 0
Action S E A = S → Result E A × S

module _ {S E A : Type 0} where
  abbrev pub pure : A → Action S E A
  pure a s = (ok a, s)

  abbrev pub raise : E → Action S E A
  raise e s = (err e, s)

  abbrev pub gets : (S → A) → Action S E A
  gets f s = (ok (f s), s)

  abbrev pub or_raise : Option A → E → Action S E A
  or_raise none e = raise e
  or_raise (some a) _ = pure a

infixl 5 ◌>>=◌ ◌>>◌
abbrev pub ◌>>=◌ : {S E A B : Type 0} → Action S E A → (A → Action S E B) → Action S E B
◌>>=◌ m f s = let (r, t) = m s in elim r [ ok a ↦ f a t | err e ↦ (err e, t) ]

abbrev pub ◌>>◌ : {S E A B : Type 0} → Action S E A → Action S E B → Action S E B
m >> k = m >>= λ _. k

abbrev pub raise_if : {S E : Type 0} → Bool → E → Action S E (Unit {0})
raise_if c e s = (if c then err e else ok tt, s)

abbrev pub modify : {S E : Type 0} → (S → S) → Action S E (Unit {0})
modify f s = (ok tt, f s)

-- A result without state.
abbrev pub check : {E : Type 0} → Bool → E → Result E (Unit {0}) → Result E (Unit {0})
check c e rest = if c then err e else rest

pub Result-cases :
    {E A : Type 0} (r : Result E A) → ((a : A) × (r ≡ ok a)) ⊎ ((e : E) × (r ≡ err e))
Result-cases (ok a) = inl (a, refl)
Result-cases (err e) = inr (e, refl)

abbrev value_or : {E A : Type 0} → A → Result E A → A
value_or d (ok a) = a
value_or d (err e) = d

pub ok-injective : {E A : Type 0} {a b : A} → ◌≡◌ {A = Result E A} (ok a) (ok b) → a ≡ b
ok-injective {a = a} h = ap (value_or a) h

-- After an action that leaves the state as it is, what holds of the state holds, or what follows ensures.
pub reads-then :
    {S E A B : Type 0} (P : S → Type 0) (m : Action S E A) (f : A → Action S E B) (s : S)
    → (m s).1 ≡ s
    → P s
    → ((a : A) → P (f a s).1)
    → P ((m >>= f) s).1
reads-then P m f s r h k = elim (Result-cases (m s).0) [
  | inl (a, y) ↦ rw (y, ◌>>=◌, r) (k a)
  | inr (x, y) ↦ rw (y, ◌>>=◌, r) h
]

-- The same, of what follows what the action gives.
pub reads-gives :
    {S E A B : Type 0} (P : S → Type 0) (m : Action S E A) (f : A → Action S E B) (s : S)
    → (m s).1 ≡ s
    → P s
    → ((a : A) → (m s).0 ≡ ok a → P (f a s).1)
    → P ((m >>= f) s).1
reads-gives P m f s r h k = elim (Result-cases (m s).0) [
  | inl (a, y) ↦ rw (y, ◌>>=◌, r) (k a y)
  | inr (x, y) ↦ rw (y, ◌>>=◌, r) h
]
