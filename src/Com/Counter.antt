-- ===== src/Com/Counter.antt =====
-- com/counter.go: the counter, with its operations cut into their atomic steps, so that a run is any
-- interleaving of any number of goroutines.
use icinga_go_library.Prelude.{
  ℕ, ◌+◌, ◌%◌, ◌^◌, ◌≡◌, Option, none, some, sym, ◌∙◌, Option-cases, inl, inr, List, [], ◌∷◌, arith,
}

-- `held` is what a `Reset` has swapped out of `value` and not yet added to `total`; while it is there
-- the mutex is locked.
pub record Counter : Type 0 where
  pub value : ℕ
  pub total : ℕ
  pub held : Option ℕ

unfoldable pub zero_counter : Counter
zero_counter = record { value = 0; total = 0; held = none }

abbrev pub u64 : ℕ → ℕ
u64 n = n % 2 ^ 64

unfoldable pub add : ℕ → Counter → Counter
add delta c = record c { value = u64 (c.value + delta) }

unfoldable pub inc : Counter → Counter
unfolding add
inc c = add 1 c

unfoldable pub val : Counter → ℕ
val c = c.value

-- `Reset` up to the swap; another `Reset` waits for the mutex, which is `none`.
unfoldable pub reset_swap : Counter → Option Counter
reset_swap c = elim c.held [
  | none ↦ some (record c { value = 0; held = some c.value })
  | some v ↦ none
]

-- the rest of `Reset`, with its result
unfoldable pub reset_end : Counter → Option (ℕ × Counter)
reset_end c = elim c.held [
  | none ↦ none
  | some v ↦ some (v, record c { total = u64 (c.total + v); held = none })
]

-- `Total` waits for the mutex too.
unfoldable pub total : Counter → Option ℕ
unfolding val
total c = elim c.held [ none ↦ some (u64 (c.total + val c)) | some v ↦ none ]

pub data Op : Type 0 where
  adds : ℕ → Op
  swaps : Op
  ends : Op

-- `none` where the step has to wait
step : Counter → Op → Option Counter
unfolding add reset_swap reset_end
step c (adds delta) = some (add delta c)
step c swaps = reset_swap c
step c ends = elim (reset_end c) [ none ↦ none | some (v, c') ↦ some c' ]

unfoldable pub run : Counter → List Op → Option Counter
unfolding step
run c [] = some c
run c (o ∷ os) = elim (step c o) [ none ↦ none | some c' ↦ run c' os ]

-- what has been added in all
abbrev pub added : List Op → ℕ
added [] = 0
added (adds delta ∷ os) = delta + added os
added (swaps ∷ os) = added os
added (ends ∷ os) = added os

abbrev pub holding : Option ℕ → ℕ
holding none = 0
holding (some v) = v

abbrev pub sum_of : Counter → ℕ
sum_of c = c.value + c.total + holding c.held

step_sum :
    (c : Counter) (o : Op) (n : ℕ) {c' : Counter}
    → step c o ≡ some c'
    → u64 (sum_of c' + n) ≡ u64 (sum_of c + added (o ∷ []) + n)
unfolding step
step_sum c (adds delta) n h = ground arith
step_sum c swaps n h = ground arith
step_sum c ends n h = ground arith

run-cons : (c d : Counter) (o : Op) (os : List Op) → step c o ≡ some d → run c (o ∷ os) ≡ run d os
unfolding run
run-cons c d o os e = rw (e, run)

run-cons_blocked : (c : Counter) (o : Op) (os : List Op) → step c o ≡ none → run c (o ∷ os) ≡ none
unfolding run
run-cons_blocked c o os e = rw (e, run)

run_sum :
    (os : List Op) (c c' : Counter)
    → run c os ≡ some c'
    → u64 (sum_of c') ≡ u64 (sum_of c + added os)
run_sum [] c c' h = unfold run in ground arith
run_sum (o ∷ os) c c' h = elim (Option-cases (step c o)) [
  | inl e ↦ cc (run-cons_blocked c o os e)
  | inr (d, e) ↦
      step_run c c' d o os (step_sum c o (added os) e)
        (run_sum os d c' (sym (run-cons c d o os e) ∙ h))
]
  where
    step_run :
        (c c' d : Counter) (o : Op) (os : List Op)
        → u64 (sum_of d + added os) ≡ u64 (sum_of c + added (o ∷ []) + added os)
        → u64 (sum_of c') ≡ u64 (sum_of d + added os)
        → u64 (sum_of c') ≡ u64 (sum_of c + added (o ∷ os))
    step_run c c' d (adds n) os h k = omega arith
    step_run c c' d swaps os h k = omega arith
    step_run c c' d ends os h k = omega arith

-- Whatever the interleaving of additions and resets from a zero counter on: once no reset is
-- under way, `Total` returns the sum of everything that was added, modulo 2^64.
pub total_exact :
    (os : List Op) {c : Counter}
    → run zero_counter os ≡ some c
    → c.held ≡ none
    → total c ≡ some (u64 (added os))
unfolding total zero_counter
total_exact os {c} h idle = ground (arith, run_sum os zero_counter c h)
