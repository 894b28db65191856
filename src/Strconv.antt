-- ===== src/Strconv.antt =====
-- The decimal functions of Go's strconv that the code calls: FormatUint, FormatInt, ParseUint and
-- ParseInt in base 10. A number is read digit by digit, as the original does; that multiplication and
-- addition do not leave uint64 is what its tests are for, so that here the number is tested itself.
pub mod Digits
pub mod RoundTrip
use icinga_go_library.Prelude.{
  ℕ, zero, suc, ◌+◌, ◌-◌, ◌*◌, ◌/◌, ◌%◌, ◌^◌, ℤ, pos, negsuc, Bool, true, false, ◌&&◌, [], ◌∷◌,
  ◌++◌, Text, ltb, leb, ◌==◌, if◌then◌else◌, Result, ok, err,
}

pub data NumError : Type 0 where
  syntax out_of_range : NumError

-- as far as the fuel goes, which counts digits
unfoldable pub digits : ℕ → ℕ → Text
digits zero n = []
digits (suc fuel) n =
    let front = digits fuel (n / 10) in
    if ltb n 10 then (48 + n) ∷ [] else front ++ ((48 + n % 10) ∷ [])

unfoldable pub format_uint : ℕ → Text
unfolding digits
format_uint n = digits (suc n) n

unfoldable pub format_int : ℤ → Text
unfolding format_uint
format_int (pos n) = format_uint n
format_int (negsuc n) = 45 ∷ format_uint (suc n)

unfoldable pub is_digit : ℕ → Bool
is_digit c = leb 48 c && leb c 57

-- the digits behind a number that was read so far
unfoldable pub scan_digits : ℕ → Text → ℕ → Result NumError ℕ
unfolding is_digit
scan_digits most [] n = ok n
scan_digits most (c ∷ s) n =
    let rest = scan_digits most s (n * 10 + (c - 48)) in
    if is_digit c
    then (if ltb most (n * 10 + (c - 48)) then err out_of_range else rest)
    else err syntax

unfoldable pub parse_uint : ℕ → Text → Result NumError ℕ
unfolding scan_digits
parse_uint bits [] = err syntax
parse_uint bits (c ∷ s) = scan_digits (2 ^ bits - 1) (c ∷ s) 0

unfoldable pub negated : ℕ → ℤ
negated zero = pos 0
negated (suc n) = negsuc n

-- behind a sign; `cutoff` is `1 << (bitSize - 1)`
unfoldable pub signed : Bool → ℕ → Result NumError ℕ → Result NumError ℤ
unfolding negated
signed negative cutoff (err e) = err e
signed false cutoff (ok n) = if leb cutoff n then err out_of_range else ok (pos n)
signed true cutoff (ok n) = if ltb cutoff n then err out_of_range else ok (negated n)

unfoldable pub parse_int : ℕ → Text → Result NumError ℤ
unfolding signed parse_uint
parse_int bits [] = err syntax
parse_int bits (c ∷ s) =
    if c == b'-'
    then signed true (2 ^ (bits - 1)) (parse_uint bits s)
    else if c == b'+'
    then signed false (2 ^ (bits - 1)) (parse_uint bits s)
    else signed false (2 ^ (bits - 1)) (parse_uint bits (c ∷ s))
