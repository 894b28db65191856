-- ===== src/Backoff.antt =====
-- backoff/backoff.go: the exponential backoff with jitter. A panic is `none`. Durations are int64
-- nanoseconds; after the defaults both limits are positive, so they are natural numbers.
pub mod Bounds
use icinga_go_library.Prelude.{
  ℕ, ◌+◌, ◌*◌, ◌/◌, ◌%◌, ◌^◌, ℤ, pos, pos_part, leb_ℤ, Bool, true, false, ◌||◌, Option, none, some,
  leb, ltb, ◌==◌, if◌then◌else◌,
}

abbrev pub millisecond : ℕ
millisecond = 1000000

abbrev pub second : ℕ
second = 1000000000

-- the limits that the returned closure captures
pub record Policy : Type 0 where
  pub min : ℕ
  pub max : ℕ

-- a limit that is zero or negative is replaced by its default
default_to : ℕ → ℤ → ℕ
default_to d n = if leb_ℤ n (pos 0) then d else pos_part n

unfoldable pub new_exponential_with_jitter : ℤ → ℤ → Option Policy
unfolding default_to
new_exponential_with_jitter min max =
    let lo = default_to (100 * millisecond) min in
    let hi = default_to (10 * second) max in
    if leb hi lo then none else some (record { min = lo; max = hi })

-- `n << k` on int64, as the bit pattern of the result
abbrev pub shl : ℕ → ℕ → ℕ
shl n k = n * 2 ^ k % 2 ^ 64

-- The signed reading of a pattern is at most 0 exactly if it is 0 or its top bit is set.
abbrev pub not_positive : ℕ → Bool
not_positive n = n == 0 || leb 9223372036854775808 n

-- the delay before jitter
unfoldable pub base_delay : Policy → ℕ → ℕ
base_delay p attempt =
    let e = shl p.min attempt in if not_positive e || ltb p.max e then p.max else e

-- `rand.Int63n(k)` panics unless k is positive, and returns some number below k: `r` is the choice.
unfoldable pub jitter : ℕ → ℕ → Option ℕ
jitter n r = if n == 0 then some 0 else if n / 2 == 0 then none else some (n / 2 + r % (n / 2))

unfoldable pub backoff : Policy → ℕ → ℕ → Option ℕ
unfolding base_delay jitter
backoff p attempt r = jitter (base_delay p attempt) r
