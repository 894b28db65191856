-- ===== src/Com/Cond.antt =====
-- com/cond.go: the condition's controller loop as a step function on the requests that it takes.
use icinga_go_library.Prelude.{
  ℕ, ◌+◌, ◌≤◌, Bool, true, false, ◌≡◌, refl, Option, none, some, List, [], ◌∷◌, arith, ltb,
  if◌then◌else◌,
}

-- A notify channel is the number of channels made before it: the controller makes a new one exactly
-- where it closes the one before. `done` tells that the `done` channel is closed.
pub record Cond : Type 0 where
  pub notify : ℕ
  pub done : Bool

unfoldable pub new_cond : Cond
new_cond = record { notify = 0; done = false }

-- whether a channel that `Wait` returned has been closed
unfoldable pub is_closed : Cond → ℕ → Bool
is_closed c channel = ltb channel c.notify

-- `none` is the panic "condition closed".
unfoldable pub broadcast : Cond → Option Cond
broadcast c = if c.done then none else some (record c { notify = c.notify + 1 })

unfoldable pub wait : Cond → Option ℕ
wait c = if c.done then none else some c.notify

-- `Close`, or the end of the context: the controller returns and leaves the notify channel open.
unfoldable pub close : Cond → Cond
close c = record c { done = true }

pub data Request : Type 0 where
  broadcasts waits closes : Request

-- A goroutine whose request panics leaves the condition as it is.
unfoldable pub step : Cond → Request → Cond
unfolding broadcast close
step c broadcasts = elim (broadcast c) [ none ↦ c | some c' ↦ c' ]
step c waits = c
step c closes = close c

unfoldable pub run : Cond → List Request → Cond
unfolding step
run c [] = c
run c (r ∷ rs) = run (step c r) rs

-- a broadcast among the requests, with no close before it
abbrev pub signals : List Request → Bool
signals [] = false
signals (broadcasts ∷ rs) = true
signals (waits ∷ rs) = signals rs
signals (closes ∷ rs) = false

step_done : (r : Request) (c : Cond) → c.done ≡ true → step c r ≡ c
unfolding step broadcast close
step_done broadcasts c h = rw h
step_done waits c h = refl
step_done closes c h = ground arith

run_done : (rs : List Request) (c : Cond) → c.done ≡ true → run c rs ≡ c
unfolding run
run_done [] c h = refl
run_done (r ∷ rs) c h = rw (step_done r c h) (run_done rs c h)

notify-le-run : (rs : List Request) (c : Cond) → c.notify ≤ (run c rs).notify
unfolding run
notify-le-run [] c = omega arith
notify-le-run (r ∷ rs) c = omega (arith, notify-le-run rs (step c r), notify-le-step r c)
  where
    notify-le-step : (r : Request) (c : Cond) → c.notify ≤ (step c r).notify
    notify-le-step broadcasts c = unfold step broadcast in ground arith
    notify-le-step waits c = unfold step in omega arith
    notify-le-step closes c = unfold step close in omega arith

notify-broadcast :
    (c : Cond) {channel : ℕ} → wait c ≡ some channel → (step c broadcasts).notify ≡ channel + 1
unfolding wait step broadcast
notify-broadcast c h = ground arith

is_closed-broadcast :
    (rs : List Request) (c : Cond) {channel : ℕ}
    → wait c ≡ some channel
    → is_closed (run (step c broadcasts) rs) channel ≡ true
unfolding is_closed
is_closed-broadcast rs c h =
    ground (arith, notify-le-run rs (step c broadcasts), notify-broadcast c h)

is_closed-now : (c : Cond) {channel : ℕ} → wait c ≡ some channel → is_closed c channel ≡ false
unfolding wait is_closed
is_closed-now c h = ground arith

is_closed-close :
    (rs : List Request) (c : Cond) {channel : ℕ}
    → wait c ≡ some channel
    → is_closed (run (step c closes) rs) channel ≡ false
unfolding step close is_closed
is_closed-close rs c h = rw (run_done rs (close c) refl) (is_closed-now c h)

-- A channel that `Wait` returned is closed after a series of requests exactly if a broadcast is
-- among them before the condition is closed.
pub wait_lem :
    (rs : List Request) (c : Cond) {channel : ℕ}
    → wait c ≡ some channel
    → is_closed (run c rs) channel ≡ signals rs
unfolding run
wait_lem [] c h = is_closed-now c h
wait_lem (broadcasts ∷ rs) c h = is_closed-broadcast rs c h
wait_lem (waits ∷ rs) c h = unfold step in wait_lem rs c h
wait_lem (closes ∷ rs) c h = is_closed-close rs c h
