-- ===== src/Periodic/Fair.antt =====
-- periodic/periodic.go: a task whose context ends does return, if the scheduler is fair.
use mathlib.Core.List.{map-append}
use native.Mathlib.Decide.{dec_lt}
use icinga_go_library.Prelude.{
  ℕ, zero, suc, ◌<◌, ◌≤◌, ◌≡◌, refl, Bool, true, false, Option, some, List, [], ◌∷◌, ◌++◌, arith,
  append_assoc, ◌⊎◌, ◌∙◌, inl, inr, ap,
}
use icinga_go_library.Periodic.{
  tick_at, Setting, Call, callback, returned, Task, Event, stop, parent_done, tick, see_done, run,
  start_task,
}
use icinga_go_library.Periodic.Calls.{
  seen, with_tick, Running, last_calls, callbacks, has_on_stop, has_immediate, first_ticks,
  calls-run, start_task-Running, run-returned, step-end, step-tick, step-see_done, step-finish,
}

-- the context ends: by Stop, or from outside
abbrev pub EndsContext : Event → Type 0
EndsContext e = (e ≡ stop) ⊎ (e ≡ parent_done)

-- the first events of an endless run
abbrev pub prefix : (ℕ → Event) → ℕ → List Event
prefix events zero = []
prefix events (suc n) = prefix events n ++ (events n ∷ [])

prefix-split :
    (events : ℕ → Event) (k m : ℕ)
    → k < m
    → (xs : List Event) × (ys : List Event) × (prefix events m ≡ xs ++ (events k ∷ ys))
prefix-split events k zero h = absurd (omega arith)
prefix-split events k (suc m) h = elim (dec_lt k m) [
  | yes below ↦
      let (xs, ys, e) = prefix-split events k m below in
      (xs, ys ++ (events m ∷ []), rw e (append_assoc xs (events k ∷ ys) (events m ∷ [])))
  | no last ↦ let e : k ≡ m = omega arith in (prefix events m, [], rw e refl)
]

seen_ends :
    (ys : List Event) (t : ℕ) → (n : ℕ) × ((seen true (ys ++ (see_done t ∷ []))).end ≡ some n)
unfolding seen with_tick
seen_ends [] t = (t, refl)
seen_ends (stop ∷ ys) t = seen_ends ys t
seen_ends (parent_done ∷ ys) t = seen_ends ys t
seen_ends (tick now ∷ ys) t = seen_ends ys t
seen_ends (see_done now ∷ ys) t = (now, refl)

seen-ended :
    (c : Bool) (xs : List Event) (e : Event) (ys : List Event) (t : ℕ)
    → EndsContext e
    → (n : ℕ) × ((seen c (xs ++ (e ∷ (ys ++ (see_done t ∷ []))))).end ≡ some n)
unfolding seen with_tick
seen-ended c [] e ys t (inl h) = rw h (seen_ends ys t)
seen-ended c [] e ys t (inr h) = rw h (seen_ends ys t)
seen-ended c (stop ∷ xs) e ys t h = seen-ended true xs e ys t h
seen-ended c (parent_done ∷ xs) e ys t h = seen-ended true xs e ys t h
seen-ended c (tick now ∷ xs) e ys t h = seen-ended c xs e ys t h
seen-ended true (see_done now ∷ xs) e ys t h = (now, refl)
seen-ended false (see_done now ∷ xs) e ys t h = seen-ended false xs e ys t h

run_phase :
    (set : Bool) (start : ℕ) (es : List Event) (c : Bool) (cs : List Call) (t : Task) (n : ℕ)
    → Running set start c cs t
    → (seen c es).end ≡ some n
    → (run t es).phase ≡ returned
unfolding run seen with_tick
run_phase set start [] c cs t n r h = cc
run_phase set start (stop ∷ es) c cs t n r h =
    run_phase set start es true cs _ n (step-end set start c cs t stop (inl refl) r) h
run_phase set start (parent_done ∷ es) c cs t n r h =
    run_phase set start es true cs _ n (step-end set start c cs t parent_done (inr refl) r) h
run_phase set start (tick now ∷ es) c cs t n r h =
    run_phase set start es c _ _ n (step-tick set start c cs t now r) h
run_phase set start (see_done now ∷ es) true cs t n r h =
    (run-returned _ es (step-finish set start cs t now r).0).0
run_phase set start (see_done now ∷ es) false cs t n r h =
    run_phase set start es false cs _ n (step-see_done set start cs t now r) h

ended_calls :
    (settings : List Setting) (begin now : ℕ) (es : List Event) (n : ℕ)
    → (seen false es).end ≡ some n
    → (run (start_task settings begin now) es).calls
      ≡ callbacks begin (first_ticks (has_immediate settings) now ++ (seen false es).ticks)
        ++ last_calls (has_on_stop settings) begin (some n)
ended_calls settings begin now es n h =
    rw
      (
        map-append (λ t. callback (tick_at begin t)) (first_ticks (has_immediate settings) now)
            (seen false es).ticks,
        append_assoc (callbacks begin (first_ticks (has_immediate settings) now))
            (callbacks begin (seen false es).ticks)
            (last_calls (has_on_stop settings) begin (some n)),
      )
      (calls-run settings begin now es
        ∙ ap
            (λ (o : Option ℕ).
              callbacks begin (first_ticks (has_immediate settings) now)
              ++ (callbacks begin (seen false es).ticks
                  ++ last_calls (has_on_stop settings) begin o))
            h)

-- Whatever else happens in an endless run of a task: if at some point Stop is called or the given context
-- ends, and the selects receive the end of the context again and again wherever it is ready, then after
-- finitely many events the goroutine has returned, and its last call was the one of the stop callback, if
-- that is set.
pub run_finishes :
    (settings : List Setting) (begin now : ℕ) (events : ℕ → Event) (k : ℕ)
    → EndsContext (events k)
    → ((n : ℕ) → (m : ℕ) × (t : ℕ) × (n ≤ m) × (events m ≡ see_done t))
    → (m : ℕ) × (ticks : List ℕ) × (t : ℕ) × ((run
          (start_task settings begin now)
          (prefix events m)).phase
        ≡ returned)
      × ((run (start_task settings begin now) (prefix events m)).calls
          ≡ callbacks begin ticks ++ last_calls (has_on_stop settings) begin (some t))
run_finishes settings begin now events k ends fair =
    let (m, t, le, e) = fair (suc k) in
    let (xs, ys, split) = prefix-split events k m (omega arith) in
    let all : prefix events (suc m) ≡ xs ++ (events k ∷ (ys ++ (see_done t ∷ []))) =
      rw (split, e) (append_assoc xs (events k ∷ ys) (see_done t ∷ [])) in
    let (n, ended) = seen-ended false xs (events k) ys t ends in
    let end : (seen false (prefix events (suc m))).end ≡ some n = rw all ended in
    (
      suc m,
      first_ticks (has_immediate settings) now ++ (seen false (prefix events (suc m))).ticks,
      n,
      run_phase (has_on_stop settings) begin (prefix events (suc m)) false _ _ n
          (start_task-Running settings begin now) end,
      ended_calls settings begin now (prefix events (suc m)) n end,
    )
