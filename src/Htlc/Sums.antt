-- ===== src/Htlc/Sums.antt =====
-- Sums of a function over the numbers below a bound, under a change at one place.
use cosmos_swap.Prelude.{ℕ, zero, suc, ◌+◌, ◌<◌, ◌≤◌, ◌≡◌, ◌≢◌, refl, arith, inl, inr, ◌⊎◌}

abbrev pub total : (ℕ → ℕ) → ℕ → ℕ
total f zero = 0
total f (suc n) = total f n + f n

pub total_ext : (f g : ℕ → ℕ) (n : ℕ) → ((j : ℕ) → j < n → g j ≡ f j) → total g n ≡ total f n
total_ext f g zero h = refl
total_ext f g (suc n) h =
    omega (arith, total_ext f g n (λ j l. h j (omega arith)), h n (omega arith))

eq_or_lt : (i n : ℕ) → i < suc n → (i ≡ n) ⊎ (i < n)
eq_or_lt i n h = omega arith

pub total_change :
    (f g : ℕ → ℕ) (i n : ℕ)
    → i < n
    → ((j : ℕ) → j ≢ i → g j ≡ f j)
    → total g n + f i ≡ total f n + g i
total_change f g i zero l h = elim l [ ]
total_change f g i (suc n) l h = elim (eq_or_lt i n l) [
  | inl e ↦ grind (arith, total_ext f g n (λ j m. h j (omega arith)))
  | inr m ↦ omega (arith, total_change f g i n m h, h n (omega arith))
]

pub le-total : (f : ℕ → ℕ) (i n : ℕ) → i < n → f i ≤ total f n
le-total f i zero l = elim l [ ]
le-total f i (suc n) l = elim (eq_or_lt i n l) [
  | inl e ↦ grind arith
  | inr m ↦ omega (arith, le-total f i n m)
]
