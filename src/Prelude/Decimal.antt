-- ===== src/Prelude/Decimal.antt =====
-- `big.Int.String` and `big.Int.SetBytes`, of numbers of at most 256 bits.
use Prim.Native.Nat.{ℕ, zero, suc, ◌+◌, ◌*◌, ◌/◌, ◌%◌}
use mathlib.Core.List.{[], ◌∷◌}
use cosmos_swap.Prelude.Tests.{ltb, if◌then◌else◌}
use cosmos_swap.Prelude.ByteStrings.{Bytes}

unfoldable pub digits : ℕ → ℕ → Bytes → Bytes
digits zero n acc = acc
digits (suc fuel) n acc =
    let rest = digits fuel (n / 10) ((b'0' + n % 10) ∷ acc) in
    if ltb n 10 then (b'0' + n) ∷ acc else rest

-- 78 digits hold 256 bits.
unfoldable pub decimal : ℕ → Bytes
unfolding digits
decimal n = digits 78 n []

big_endian : ℕ → Bytes → ℕ
big_endian acc [] = acc
big_endian acc (b ∷ bs) = big_endian (acc * 256 + b) bs

unfoldable pub set_bytes : Bytes → ℕ
unfolding big_endian
set_bytes bs = big_endian 0 bs
