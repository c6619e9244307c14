-- ===== src/Prelude/Map.antt =====
-- A Go map as an association list; the key type brings its `==`.
use mathlib.Core.Path.{◌≡◌, refl}
use mathlib.Core.Option.{Option, none, some}
use mathlib.Core.List.{List, [], ◌∷◌}
use native.Mathlib.Omega.{arith}
use cosmos_swap.Prelude.Tests.{Comparable, ◌==◌, if◌then◌else◌}

module _ {ℓ κ} {K : Type ℓ} {V : Type κ} ⦃e : Comparable K⦄ where
  -- `entries[key]`
  unfoldable pub lookup : K → List (K × V) → Option V
  lookup key ((k, value) ∷ others) = if k == key then some value else lookup key others
  lookup key [] = none

  -- `entries[key] = value`
  unfoldable pub insert : K → V → List (K × V) → List (K × V)
  insert key value ((k, old) ∷ others) =
      let rest = insert key value others in
      if k == key then (key, value) ∷ others else (k, old) ∷ rest
  insert key value [] = (key, value) ∷ []

  -- `delete(m, k)`
  unfoldable pub erase : K → List (K × V) → List (K × V)
  erase k [] = []
  erase k ((j, w) ∷ m) = let rest = erase k m in if j == k then rest else (j, w) ∷ rest

  pub lookup-insert :
      (k j : K) (v : V) (m : List (K × V))
      → lookup j (insert k v m) ≡ (if k == j then some v else lookup j m)
  unfolding lookup insert
  lookup-insert k j v ((i, w) ∷ m) =
      ground (arith, e.same_iff i j, e.same_iff i k, e.same_iff k j, lookup-insert k j v m)
  lookup-insert k j v [] = refl

  pub lookup-erase :
      (k j : K) (m : List (K × V)) → lookup j (erase k m) ≡ (if k == j then none else lookup j m)
  unfolding lookup erase
  lookup-erase k j [] = ground arith
  lookup-erase k j ((i, w) ∷ m) =
      ground (arith, e.same_iff k j, e.same_iff i k, e.same_iff i j, lookup-erase k j m)
