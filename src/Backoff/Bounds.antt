-- ===== src/Backoff/Bounds.antt =====
-- What the backoff durations of backoff/backoff.go are bounded by.
use native.Mathlib.Nat.{pow-suc, mul_comm}
use icinga_go_library.Prelude.{
  ℕ, suc, ◌+◌, ◌*◌, ◌/◌, ◌%◌, ◌^◌, ◌≤◌, ◌<◌, ℤ, pos, ◌≡◌, ◌≢◌, none, some, arith, min, ◌↔◌,
}
use icinga_go_library.Backoff.{
  Policy, new_exponential_with_jitter, base_delay, jitter, backoff, shl,
}

base_delay-le-max : (p : Policy) (attempt : ℕ) → base_delay p attempt ≤ p.max
unfolding base_delay
base_delay-le-max p attempt = ground arith

jitter_range : (n r : ℕ) {d : ℕ} → 0 < n → jitter n r ≡ some d → (n / 2 ≤ d) × (d < n)
unfolding jitter
jitter_range n r h e = ground arith

base_delay_pos : (p : Policy) (attempt : ℕ) → 0 < p.max → 0 < base_delay p attempt
unfolding base_delay
base_delay_pos p attempt h = ground arith

limits_ordered :
    (lo hi : ℤ) {p : Policy}
    → new_exponential_with_jitter lo hi ≡ some p
    → (0 < p.min) × (p.min < p.max)
unfolding new_exponential_with_jitter
limits_ordered lo hi e = ground arith

-- Of a policy that the constructor accepted, each backoff that is computed is at least half of
-- the delay before jitter, below that delay, and below the maximum, for every attempt, also where
-- the shift overflows.
pub backoff-lt-max :
    (lo hi : ℤ) {p : Policy} (attempt r : ℕ) {d : ℕ}
    → new_exponential_with_jitter lo hi ≡ some p
    → backoff p attempt r ≡ some d
    → (base_delay p attempt / 2 ≤ d) × (d < base_delay p attempt) × (d < p.max)
unfolding backoff
backoff-lt-max lo hi {p} attempt r {d} made e =
    let limits = limits_ordered lo hi made in
    let range =
      jitter_range (base_delay p attempt) r {d = d} (base_delay_pos p attempt (omega arith)) e in
    (range.0, range.1, omega (arith, base_delay-le-max p attempt))

-- As long as the shift stays inside int64, the delay is the minimum doubled for each attempt, or the
-- maximum where that is smaller.
pub base_delay-eq-min :
    (p : Policy) (attempt : ℕ)
    → 0 < p.min * 2 ^ attempt
    → p.min * 2 ^ attempt < 2 ^ 63
    → base_delay p attempt ≡ min (p.min * 2 ^ attempt) p.max
unfolding base_delay
base_delay-eq-min p attempt h k = ground arith

even_ne_one : (m q : ℕ) → m * (2 * q) % 2 ^ 64 ≢ 1
even_ne_one m q e = omega arith

shl_even : (m k : ℕ) → shl m (suc k) ≢ 1
shl_even m k e = even_ne_one m (2 ^ k) (simp (pow-suc, mul_comm (2 ^ k) 2) at e)

base_delay_two : (p : Policy) (k : ℕ) → 1 < p.max → 1 < base_delay p (suc k)
unfolding base_delay
base_delay_two p k h = ground (arith, shl_even p.min k)

jitter_total : (n r : ℕ) → 1 < n → jitter n r ≡ some (n / 2 + r % (n / 2))
unfolding jitter
jitter_total n r h = ground arith

-- From the first retry on (the attempts of a retry loop count from 1) computing a backoff never
-- panics, whatever the limits that the constructor accepted and whatever the random choice.
pub backoff_total :
    (lo hi : ℤ) {p : Policy} (k r : ℕ)
    → new_exponential_with_jitter lo hi ≡ some p
    → (d : ℕ) × (backoff p (suc k) r ≡ some d)
unfolding backoff
backoff_total lo hi {p} k r made =
    let limits = limits_ordered lo hi made in
    let n = base_delay p (suc k) in
    (n / 2 + r % (n / 2), jitter_total n r (base_delay_two p k (omega arith)))

-- The constructor panics exactly if, behind the defaults, the minimum reaches the maximum.
pub new_exponential-eq-none :
    (lo hi : ℕ)
    → 0 < lo
    → 0 < hi
    → (new_exponential_with_jitter (pos lo) (pos hi) ≡ none) ↔ (hi ≤ lo)
unfolding new_exponential_with_jitter
new_exponential-eq-none lo hi h k = (λ e. ground arith, λ e. ground arith)
