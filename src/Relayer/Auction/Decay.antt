-- ===== src/Relayer/Auction/Decay.antt =====
-- The price of an auction only falls, and ends at the minimum.
use native.Mathlib.Decide.{dec_lt}
use cosmos_swap.Prelude.{◌/◌, ◌%◌, ℕ, zero, suc, true, ◌*◌, ◌≤◌, ◌≡◌, some, arith, ok}
use cosmos_swap.Prelude.Int.{ℤ, pos, pos_part, ◌≤ℤ◌, -ℤ_parts}
use cosmos_swap.Prelude.Time.{Time, second, sub_time}
use cosmos_swap.Relayer.Types.{DutchAuctionParams}
use cosmos_swap.Relayer.Auction.{calculate, is_rounded_up, seconds_of, whole_seconds}
use cosmos_swap.Relayer.Auction.Bounds.{IsAuction, price, calculate-price}

mul_mono : (r a b : ℕ) → a ≤ b → r * a ≤ r * b
mul_mono r a b h = grind arith

-- A later time within the same second is rounded up if the earlier one is.
is_rounded_up_mono : (n a b : ℕ) → a ≤ b → is_rounded_up n a ≡ true → is_rounded_up n b ≡ true
unfolding is_rounded_up
is_rounded_up_mono zero a b h e = cc
is_rounded_up_mono (suc n) a b h e = ground arith

seconds_of_mono : (a b : ℕ) → a ≤ b → seconds_of a ≤ seconds_of b
seconds_of_mono a b h = elim (dec_lt (a / second) (b / second)) [
  | yes before ↦ ground arith
  | no same ↦
      let e : a / second ≡ b / second = omega arith in
      let later = is_rounded_up_mono (b / second) (a % second) (b % second) (omega arith) in
      rw e (ground (arith, later))
]

whole_seconds_mono : (d e : ℤ) → pos 0 ≤ℤ d → d ≤ℤ e → whole_seconds d ≤ whole_seconds e
whole_seconds_mono d e p h = seconds_of_mono (pos_part d) (pos_part e) (ground arith)

price_mono :
    (hi lo : ℤ) (rate : ℕ) (duration d e : ℤ)
    → lo ≤ℤ hi
    → d ≤ℤ e
    → price hi lo rate duration e ≤ℤ price hi lo rate duration d
price_mono hi lo rate duration d e ordered h = ground (
  arith,
  -ℤ_parts hi (pos (rate * whole_seconds d)),
  -ℤ_parts hi (pos (rate * whole_seconds e)),
  mul_mono rate (whole_seconds d) (whole_seconds e),
  whole_seconds_mono d e,
)

module _ (a : DutchAuctionParams) (hi lo : ℤ) (rate : ℕ) (auction : IsAuction a hi lo rate) where
  -- In an auction whose prices are given, with a decay rate that is not negative and a minimum that is at
  -- most the initial price, the price stays or falls as more time passes since the start, also where
  -- seconds are rounded up.
  pub calculate_falls :
      (now later : Time) (p q : ℤ)
      → sub_time now a.start_time ≤ℤ sub_time later a.start_time
      → calculate a now ≡ ok (some p)
      → calculate a later ≡ ok (some q)
      → q ≤ℤ p
  calculate_falls now later p q h e f = ground (
    arith,
    calculate-price a hi lo rate auction now,
    calculate-price a hi lo rate auction later,
    price_mono hi lo rate a.duration (sub_time now a.start_time) (sub_time later a.start_time)
        auction.ordered h,
  )
