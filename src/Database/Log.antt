-- ===== src/Database/Log.antt =====
-- Log of database/db.go, and log of redis/client.go: what is logged of a counter while a periodic task
-- runs, with OnSuccessIncrement, which counts. A run is any sequence of additions and of calls that the
-- task makes; each call finds the mutex of the counter free, since nothing else resets it.
use icinga_go_library.Prelude.{
  ℕ, ◌+◌, ℤ, ltb, none, some, List, [], ◌∷◌, ◌++◌, length, ◌≡◌, refl, arith, if◌then◌else◌, ◌∙◌, ap,
}
use icinga_go_library.Com.Counter.{Counter, zero_counter, add, reset_swap, reset_end, total, u64}
use icinga_go_library.Periodic.{Tick, Call, callback, stop_callback}

-- `progress` is "Executed … with … rows", `finished` is "Finished executing … with … rows in …".
pub data Message : Type 0 where
  progress : ℕ → Message
  finished : ℕ → ℤ → Message

-- rows are counted, or the task calls back
pub data Moment : Type 0 where
  rows : ℕ → Moment
  calls : Call → Moment

pub record Log : Type 0 where
  pub counter : Counter
  pub messages : List Message

unfoldable pub on_success_increment : {T : Type 0} → Counter → List T → Counter
unfolding add
on_success_increment c affected = add (length affected) c

-- the whole of Reset; the mutex is held from its start to its end
unfoldable pub reset : Counter → ℕ × Counter
unfolding reset_swap reset_end
reset c = elim (reset_swap c) [
  | none ↦ (0, c)
  | some c' ↦ elim (reset_end c') [ none ↦ (0, c') | some r ↦ r ]
]

unfoldable pub total_of : Counter → ℕ
unfolding total
total_of c = elim (total c) [ none ↦ 0 | some n ↦ n ]

unfoldable pub log_progress : List Message → ℕ × Counter → Log
log_progress messages (n, c) = record {
  counter = c;
  messages = if ltb 0 n then messages ++ (progress n ∷ []) else messages;
}

unfoldable pub on_call : Log → Call → Log
unfolding log_progress reset total_of
on_call l (callback tick) = log_progress l.messages (reset l.counter)
on_call l (stop_callback tick) = record l {
  messages = l.messages ++ (finished (total_of l.counter) tick.elapsed ∷ []);
}

unfoldable pub step : Log → Moment → Log
unfolding on_call add
step l (rows n) = record l { counter = add n l.counter }
step l (calls c) = on_call l c

unfoldable pub run : Log → List Moment → Log
unfolding step
run l [] = l
run l (m ∷ ms) = run (step l m) ms

unfoldable pub new_log : Log
unfolding zero_counter
new_log = record { counter = zero_counter; messages = [] }

abbrev pub counted : List Moment → ℕ
counted [] = 0
counted (rows n ∷ ms) = n + counted ms
counted (calls c ∷ ms) = counted ms

-- the rows of all progress messages
abbrev pub reported : List Message → ℕ
reported [] = 0
reported (progress n ∷ ms) = n + reported ms
reported (finished n e ∷ ms) = reported ms

reported-append : (xs ys : List Message) → reported (xs ++ ys) ≡ reported xs + reported ys
reported-append [] ys = omega arith
reported-append (progress n ∷ xs) ys = omega (arith, reported-append xs ys)
reported-append (finished n e ∷ xs) ys = omega (arith, reported-append xs ys)

-- The mutex is free, the counter holds what was counted, and the messages what was taken out of it.
record IsCounted (n : ℕ) (l : Log) : Type 0 where
  pub free : l.counter.held ≡ none
  pub all : u64 (l.counter.value + l.counter.total) ≡ u64 n
  pub told : u64 (reported l.messages + l.counter.value) ≡ u64 n

module _ (n : ℕ) (l : Log) (h : IsCounted n l) where
  step_rows : (k : ℕ) → IsCounted (n + k) (step l (rows k))
  unfolding step add
  step_rows k = ground arith

  step_callback : (tick : Tick) → IsCounted n (step l (calls (callback tick)))
  unfolding step on_call log_progress reset reset_swap reset_end
  step_callback tick = ground (arith, reported-append l.messages (progress l.counter.value ∷ []))

  step_stop : (tick : Tick) → IsCounted n (step l (calls (stop_callback tick)))
  unfolding step on_call total_of total
  step_stop tick =
      ground (arith, reported-append l.messages (finished (total_of l.counter) tick.elapsed ∷ []))

run-IsCounted :
    (ms : List Moment) (n : ℕ) (l : Log) → IsCounted n l → IsCounted (n + counted ms) (run l ms)
unfolding run
run-IsCounted [] n l h = let e : n + 0 ≡ n = omega arith in rw e h
run-IsCounted (rows k ∷ ms) n l h =
    let e : n + (k + counted ms) ≡ n + k + counted ms = omega arith in
    rw e (run-IsCounted ms (n + k) _ (step_rows n l h k))
run-IsCounted (calls (callback tick) ∷ ms) n l h = run-IsCounted ms n _ (step_callback n l h tick)
run-IsCounted (calls (stop_callback tick) ∷ ms) n l h = run-IsCounted ms n _ (step_stop n l h tick)

run-snoc : (l : Log) (ms : List Moment) (m : Moment) → run l (ms ++ (m ∷ [])) ≡ step (run l ms) m
unfolding run
run-snoc l [] m = refl
run-snoc l (x ∷ ms) m = run-snoc (step l x) ms m

new_log-IsCounted : IsCounted 0 new_log
unfolding new_log
new_log-IsCounted = record { free = refl; all = omega arith; told = omega arith }

finished_lem :
    (n : ℕ) (l : Log) (tick : Tick)
    → IsCounted n l
    → (step l (calls (stop_callback tick))).messages
      ≡ l.messages ++ (finished (u64 n) tick.elapsed ∷ [])
unfolding step on_call total_of total
finished_lem n l tick h = ground arith

-- Whatever is counted and called back before, in any order: the message at the end tells the sum of all
-- rows that were counted so far, modulo 2^64, with the time since the start; and the progress messages
-- before tell, with what is still in the counter, that sum too.
pub messages-run :
    (ms : List Moment) (tick : Tick)
    → ((run new_log (ms ++ (calls (stop_callback tick) ∷ []))).messages
        ≡ (run new_log ms).messages ++ (finished (u64 (counted ms)) tick.elapsed ∷ []))
      × (u64 (reported (run new_log ms).messages + (run new_log ms).counter.value)
          ≡ u64 (counted ms))
messages-run ms tick =
    let start = run-IsCounted ms 0 new_log new_log-IsCounted in
    let e : 0 + counted ms ≡ counted ms = omega arith in
    let h : IsCounted (counted ms) (run new_log ms) = rw e at start in
    (
      ap (λ (l : Log). l.messages) (run-snoc new_log ms (calls (stop_callback tick)))
          ∙ finished_lem (counted ms) (run new_log ms) tick h,
      h.told,
    )
