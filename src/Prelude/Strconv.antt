-- ===== src/Prelude/Strconv.antt =====
-- Go's strconv: `ParseUint` and `ParseInt` in base 10 with 64 bits, and `ParseBool`.
use Prim.Native.Nat.{ℕ, zero, suc, ◌+◌, ◌-◌, ◌*◌, ◌/◌, ◌%◌, ◌<◌}
use mathlib.Core.Path.{◌≡◌, refl, ◌∙◌}
use mathlib.Core.Logic.{◌≢◌}
use mathlib.Core.Bool.{Bool, true, false, not, ◌&&◌, ◌||◌}
use mathlib.Core.List.{[], ◌∷◌}
use native.Mathlib.Omega.{arith}
use native.Mathlib.Decide.{dec_lt}
use cosmos_swap.Prelude.Tests.{ltb, leb, nat_eq, ◌==◌, if◌then◌else◌}
use cosmos_swap.Prelude.Int.{ℤ, pos, sub_ℕ}
use cosmos_swap.Prelude.ByteStrings.{Bytes, bytes_beq, codes, u64_mod}
use cosmos_swap.Prelude.Results.{Result, ok, err}
use cosmos_swap.Prelude.Decimal.{digits, decimal}

pub data NumError : Type 0 where
  syntax_error range_error : NumError

is_digit : ℕ → Bool
is_digit c = leb b'0' c && leb c b'9'

parse_digits : ℕ → Bytes → Result NumError ℕ
unfolding is_digit
parse_digits n [] = ok n
parse_digits n (c ∷ cs) =
    let m = n * 10 + (c - b'0') in
    let rest = parse_digits m cs in
    if not (is_digit c) then err syntax_error else if leb u64_mod m then err range_error else rest

unfoldable pub parse_uint : Bytes → Result NumError ℕ
unfolding parse_digits
parse_uint [] = err syntax_error
parse_uint (c ∷ cs) = parse_digits 0 (c ∷ cs)

abbrev signed : Bool → Result NumError ℕ → Result NumError ℤ
signed neg (err e) = err e
signed true (ok n) = if ltb (u64_mod / 2) n then err range_error else ok (sub_ℕ 0 n)
signed false (ok n) = if leb (u64_mod / 2) n then err range_error else ok (pos n)

unfoldable pub parse_int : Bytes → Result NumError ℤ
unfolding parse_uint
parse_int [] = err syntax_error
parse_int (c ∷ cs) =
    if c == b'-'
    then signed true (parse_uint cs)
    else if c == b'+'
    then signed false (parse_uint cs)
    else signed false (parse_uint (c ∷ cs))

is_one_of : Bytes → Bytes → Bytes → Bytes → Bytes → Bytes → Bytes → Bool
is_one_of a b c d e f s =
    bytes_beq s a
    || bytes_beq s b
    || bytes_beq s c
    || bytes_beq s d
    || bytes_beq s e
    || bytes_beq s f

unfoldable pub parse_bool : Bytes → Result NumError Bool
unfolding is_one_of
parse_bool s =
    if is_one_of (codes "1") (codes "t") (codes "T") (codes "true") (codes "TRUE") (codes "True") s
    then ok true
    else if is_one_of (codes "0") (codes "f") (codes "F") (codes "false") (codes "FALSE")
        (codes "False") s
    then ok false
    else err syntax_error

-- The numbers with at most so many digits.
abbrev power : ℕ → ℕ
power zero = 1
power (suc k) = 10 * power k

parse_digits-digits :
    (k n : ℕ) (acc : Bytes)
    → n < power k
    → n < u64_mod
    → parse_digits 0 (digits k n acc) ≡ parse_digits n acc
unfolding digits parse_digits is_digit
parse_digits-digits zero n acc l s = ground arith
parse_digits-digits (suc k) n acc l s = elim (dec_lt n 10) [
  | yes small ↦ ground arith
  | no large ↦
      ground
        (arith, parse_digits-digits k (n / 10) ((b'0' + n % 10) ∷ acc) (omega arith) (omega arith))
]

some_digit : (k n : ℕ) (acc : Bytes) → digits (suc k) n acc ≢ []
unfolding digits
some_digit zero n acc e = ground arith
some_digit (suc k) n acc e = elim (dec_lt n 10) [
  | yes small ↦ ground arith
  | no large ↦ some_digit k (n / 10) ((b'0' + n % 10) ∷ acc) (ground arith)
]

parse_uint_cons : (s : Bytes) → s ≢ [] → parse_uint s ≡ parse_digits 0 s
unfolding parse_uint
parse_uint_cons [] h = absurd (h refl)
parse_uint_cons (c ∷ cs) h = refl

-- A number prints as a text that is read back.
pub parse_uint-decimal : (n : ℕ) → n < u64_mod → parse_uint (decimal n) ≡ ok n
unfolding decimal parse_digits
parse_uint-decimal n s =
    parse_uint_cons (digits 78 n []) (some_digit 77 n [])
    ∙ parse_digits-digits 78 n [] (omega arith) s
