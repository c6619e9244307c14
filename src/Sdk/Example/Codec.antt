-- ===== src/Sdk/Example/Codec.antt =====
-- Encodings of byte strings, integers and coins as lists of numbers, read back with a rest.
use cosmos_swap.Prelude.{
  ℕ, zero, suc, ◌≡◌, refl, Option, none, some, [], ◌∷◌, ◌++◌, Bytes, length, arith,
}
use mathlib.Core.List.{append_assoc}
use cosmos_swap.Prelude.Int.{ℤ, pos_part, neg_part, sub_ℕ}
use cosmos_swap.Sdk.BankKeeper.{Coins}

abbrev pub Parser : Type 0 → Type 0
Parser A = Bytes → Option (A × Bytes)

infixl 5 ◌>>=◌
abbrev pub ◌>>=◌ : {A B : Type 0} → Parser A → (A → Parser B) → Parser B
◌>>=◌ m f s = elim (m s) [ none ↦ none | some (a, r) ↦ f a r ]

abbrev pub pure : {A : Type 0} → A → Parser A
pure a s = some (a, s)

abbrev pub number : Parser ℕ
number [] = none
number (x ∷ s) = some (x, s)

take_bytes : ℕ → Parser Bytes
take_bytes zero s = some ([], s)
take_bytes (suc n) [] = none
take_bytes (suc n) (x ∷ s) = elim (take_bytes n s) [ none ↦ none | some (xs, r) ↦ some (x ∷ xs, r) ]

unfoldable pub put_bytes : Bytes → Bytes
put_bytes xs = length xs ∷ xs

unfoldable pub bytes : Parser Bytes
unfolding take_bytes
bytes = do n ← number; take_bytes n

take_bytes-append : (xs r : Bytes) → take_bytes (length xs) (xs ++ r) ≡ some (xs, r)
unfolding take_bytes
take_bytes-append [] r = refl
take_bytes-append (x ∷ xs) r = ground (arith, take_bytes-append xs r)

pub bytes-put_bytes : (xs r : Bytes) → bytes (put_bytes xs ++ r) ≡ some (xs, r)
unfolding bytes put_bytes
bytes-put_bytes xs r = take_bytes-append xs r

pub sub_parts : (z : ℤ) → sub_ℕ (pos_part z) (neg_part z) ≡ z
sub_parts z = ground arith

put_coins : Coins → Bytes
put_coins [] = []
put_coins (c ∷ cs) = pos_part c.amount ∷ neg_part c.amount ∷ put_bytes c.denom ++ put_coins cs

take_coins : ℕ → Parser Coins
take_coins zero = pure []
take_coins (suc n) = do
  a ← number
  b ← number
  d ← bytes
  cs ← take_coins n
  pure (record { denom = d; amount = sub_ℕ a b } ∷ cs)

unfoldable pub put_all : Coins → Bytes
unfolding put_coins
put_all cs = length cs ∷ put_coins cs

unfoldable pub coins : Parser Coins
unfolding take_coins
coins = do n ← number; take_coins n

take_coins-put_coins :
    (cs : Coins) (r : Bytes) → take_coins (length cs) (put_coins cs ++ r) ≡ some (cs, r)
unfolding take_coins put_coins
take_coins-put_coins [] r = refl
take_coins-put_coins (c ∷ cs) r = rw (append_assoc (put_bytes c.denom) (put_coins cs) r) (
    ground (
      arith,
      bytes-put_bytes c.denom (put_coins cs ++ r),
      take_coins-put_coins cs r,
      sub_parts c.amount,
    ))

pub coins-put_all : (cs : Coins) (r : Bytes) → coins (put_all cs ++ r) ≡ some (cs, r)
unfolding coins put_all
coins-put_all cs r = take_coins-put_coins cs r
