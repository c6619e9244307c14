-- ===== src/Relayer/Auction.antt =====
-- `calculateDutchAuctionPrice` of relayer/pkg/order_manager/manager.go, and the use of nil big
-- integers in it, which panics.
use cosmos_swap.Prelude.{
  zero, suc, ◌-◌, ◌%◌, ◌^◌, leb, ℕ, ◌+◌, ◌*◌, ◌/◌, ◌≤◌, ◌≡◌, refl, Bool, true, false, Option, none,
  some, arith, if◌then◌else◌, Result, ok, err,
}
use cosmos_swap.Prelude.Int.{ℤ, pos, pos_part, neg_part, ◌-ℤ◌, ◌*ℤ◌, ltb_ℤ, beq_ℤ}
use cosmos_swap.Prelude.Time.{Time, second, sub_time}
use cosmos_swap.Relayer.Types.{DutchAuctionParams}
pub mod Bounds
pub mod Decay

pub data Panic : Type 0 where
  nil_pointer : Panic

infixl 5 ◌>>=◌
abbrev pub ◌>>=◌ : {A B : Type 0} → Result Panic A → (A → Result Panic B) → Result Panic B
ok a >>= f = f a
err e >>= f = err e

-- A method call on a `*big.Int`, or a read through it.
abbrev pub deref : Option ℤ → Result Panic ℤ
deref none = err nil_pointer
deref (some z) = ok z

pub data Sign : Type 0 where
  less equal greater : Sign

abbrev pub sign : ℤ → ℤ → Sign
sign a b = if ltb_ℤ a b then less else if beq_ℤ a b then equal else greater

-- `x.Cmp(y)`: equal pointers, nil too, are equal before anything is read.
abbrev pub cmp : Option ℤ → Option ℤ → Result Panic Sign
cmp none none = ok equal
cmp (some a) (some b) = ok (sign a b)
cmp _ _ = err nil_pointer

abbrev pub is_less : Sign → Bool
is_less less = true
is_less _ = false

-- The greatest power of two up to a number, if some number of doublings reach it; 0 of 0.
binade : ℕ → ℕ → ℕ → ℕ
binade zero power n = power
binade (suc fuel) power n =
    let next = binade fuel (power * 2) n in if leb (power * 2) n then next else power

-- `int64(elapsed.Seconds())` of a duration that is not negative. Go adds the seconds and the fraction of a
-- second as float64, with 53 bits: near the next second the sum is rounded up to it, from 2^24 seconds on. A
-- Duration holds less than 2^34 seconds.
unfoldable pub is_rounded_up : ℕ → ℕ → Bool
unfolding binade
is_rounded_up zero nanos = false
is_rounded_up (suc n) nanos = leb ((second - nanos) * 2 ^ 53) (second * binade 34 1 (suc n))

abbrev pub seconds_of : ℕ → ℕ
seconds_of nanos =
    let whole = nanos / second in if is_rounded_up whole (nanos % second) then whole + 1 else whole

abbrev pub whole_seconds : ℤ → ℕ
whole_seconds elapsed = seconds_of (pos_part elapsed)

-- The price within the window.
unfoldable pub decayed : DutchAuctionParams → ℤ → Result Panic (Option ℤ)
decayed a elapsed = do
  rate ← deref a.decay_rate
  let decay = rate *ℤ pos (whole_seconds elapsed)
  initial ← deref a.initial_price
  let current = initial -ℤ decay
  order ← cmp (some current) a.minimum_price
  ok (if is_less order then a.minimum_price else some current)

unfoldable pub calculate : DutchAuctionParams → Time → Result Panic (Option ℤ)
unfolding decayed
calculate a now =
    let elapsed = sub_time now a.start_time in
    if ltb_ℤ elapsed (pos 0)
    then ok a.initial_price
    else if ltb_ℤ a.duration elapsed
    then ok a.minimum_price
    else decayed a elapsed
