-- ===== src/Prelude/Time.antt =====
-- Go's `time.Time` as seconds since the Unix epoch and nanoseconds within the second, with the
-- comparisons of the standard library, and `time.Duration` as a number of nanoseconds.
use Prim.Native.Nat.{ℕ, ◌-◌, ◌^◌}
use mathlib.Core.Bool.{Bool, ◌&&◌, ◌||◌}
use cosmos_swap.Prelude.Tests.{ltb, if◌then◌else◌}
use cosmos_swap.Prelude.Int.{ℤ, pos, negsuc, ◌+ℤ◌, ◌-ℤ◌, ◌*ℤ◌, ltb_ℤ, beq_ℤ}

pub record Time : Type 0 where
  pub sec : ℤ
  pub nsec : ℕ

-- `time.Unix(s, 0)`
abbrev pub unix : ℤ → Time
unix s = record { sec = s; nsec = 0 }

-- `t.After(u)`
abbrev pub after : Time → Time → Bool
after t u = ltb_ℤ u.sec t.sec || (beq_ℤ u.sec t.sec && ltb u.nsec t.nsec)

-- `t.Before(u)`
abbrev pub before : Time → Time → Bool
before t u = after u t

abbrev pub second : ℕ
second = 1_000_000_000

-- `t.Sub(u)`: a duration is an `int64`, and the difference saturates at its ends.
unfoldable pub sub_time : Time → Time → ℤ
sub_time t u =
    let d = (t.sec -ℤ u.sec) *ℤ pos second +ℤ (pos t.nsec -ℤ pos u.nsec) in
    if ltb_ℤ (pos (2 ^ 63 - 1)) d
    then pos (2 ^ 63 - 1)
    else if ltb_ℤ d (negsuc (2 ^ 63 - 1))
    then negsuc (2 ^ 63 - 1)
    else d

-- `int64(x)` of a `uint64`.
abbrev pub to_int64 : ℕ → ℤ
to_int64 x = if ltb x (2 ^ 63) then pos x else negsuc (2 ^ 64 - x - 1)
