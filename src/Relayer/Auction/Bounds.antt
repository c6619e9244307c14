-- ===== src/Relayer/Auction/Bounds.antt =====
-- The price of a complete auction never leaves its range, and is computed without a panic.
use cosmos_swap.Prelude.{ℕ, ◌*◌, ◌≡◌, some, arith, ok, if◌then◌else◌}
use cosmos_swap.Prelude.Int.{ℤ, pos, ◌-ℤ◌, ◌*ℤ◌, ◌≤ℤ◌, ltb_ℤ, -ℤ_parts}
use cosmos_swap.Prelude.Time.{Time, sub_time}
use cosmos_swap.Relayer.Types.{DutchAuctionParams}
use cosmos_swap.Relayer.Auction.{calculate, decayed, whole_seconds}

-- An auction with all its prices given: it falls from `hi` to `lo` at `rate` a second.
pub record IsAuction (a : DutchAuctionParams) (hi lo : ℤ) (rate : ℕ) : Type 0 where
  pub initial : a.initial_price ≡ some hi
  pub minimum : a.minimum_price ≡ some lo
  pub decay : a.decay_rate ≡ some (pos rate)
  pub ordered : lo ≤ℤ hi

-- The specification: the price after `t` whole seconds.
abbrev pub price_at : ℤ → ℤ → ℕ → ℕ → ℤ
price_at hi lo rate t = let p = hi -ℤ pos (rate * t) in if ltb_ℤ p lo then lo else p

pub mul_pos : (a b : ℕ) → pos a *ℤ pos b ≡ pos (a * b)
unfolding ◌*ℤ◌
mul_pos a b = ground arith

-- The specified price at an elapsed time, in an auction that lasts `duration` nanoseconds.
abbrev pub price : ℤ → ℤ → ℕ → ℤ → ℤ → ℤ
price hi lo rate duration elapsed =
    if ltb_ℤ elapsed (pos 0)
    then hi
    else if ltb_ℤ duration elapsed
    then lo
    else price_at hi lo rate (whole_seconds elapsed)

module _ (a : DutchAuctionParams) (hi lo : ℤ) (rate : ℕ) (auction : IsAuction a hi lo rate) where
  decayed-price_at : (e : ℤ) → decayed a e ≡ ok (some (price_at hi lo rate (whole_seconds e)))
  unfolding decayed
  decayed-price_at e =
      rw (auction.initial, auction.minimum, auction.decay, mul_pos rate (whole_seconds e))
        (ground arith)

  -- The price in such an auction, without a panic
  pub calculate-price :
      (now : Time)
      → calculate a now ≡ ok (some (price hi lo rate a.duration (sub_time now a.start_time)))
  unfolding calculate
  calculate-price now =
      ground (arith, decayed-price_at (sub_time now a.start_time), auction.initial, auction.minimum)

  price_bounds : (d e : ℤ) → (lo ≤ℤ price hi lo rate d e) × (price hi lo rate d e ≤ℤ hi)
  price_bounds d e = ground (arith, -ℤ_parts hi (pos (rate * whole_seconds e)), auction.ordered)

  -- In an auction whose prices are given, with a decay rate that is not negative and a minimum that is at
  -- most the initial price, the price is computed without a panic at every time, and lies between the minimum
  -- and the initial price.
  pub calculate_bounds :
      (now : Time) → (q : ℤ) × (calculate a now ≡ ok (some q)) × (lo ≤ℤ q) × (q ≤ℤ hi)
  calculate_bounds now =
      let (low, high) = price_bounds a.duration (sub_time now a.start_time) in
      (price hi lo rate a.duration (sub_time now a.start_time), calculate-price now, low, high)
