-- ===== src/Periodic/Calls.antt =====
-- periodic/periodic.go: which callbacks a task makes.
use icinga_go_library.Prelude.{
  ℕ, ◌≡◌, refl, Bool, true, false, ◌||◌, Option, none, some, List, [], ◌∷◌, ◌++◌, map, arith,
  append_assoc, ◌≢◌, ◌⊎◌, ◌∙◌, append-nil, if◌then◌else◌, inl, inr,
}
use icinga_go_library.Periodic.{
  tick_at, Options, Setting, immediate, on_stop, apply, apply_all, Call, callback, stop_callback,
  returned, Task, Event, stop, parent_done, tick, see_done, do_stop, call_back, finish, on_tick,
  on_done, step, run, start_task,
}

-- the ticks that come before the goroutine sees the end of the context, and the time at which it does
pub record Seen : Type 0 where
  pub ticks : List ℕ
  pub end : Option ℕ

unfoldable pub with_tick : ℕ → Seen → Seen
with_tick t s = record s { ticks = t ∷ s.ticks }

-- `canceled` says whether the context has ended.
unfoldable pub seen : Bool → List Event → Seen
unfolding with_tick
seen canceled [] = record { ticks = []; end = none }
seen canceled (stop ∷ es) = seen true es
seen canceled (parent_done ∷ es) = seen true es
seen canceled (tick t ∷ es) = with_tick t (seen canceled es)
seen canceled (see_done t ∷ es) =
    let rest = seen canceled es in if canceled then record { ticks = []; end = some t } else rest

abbrev pub last_calls : Bool → ℕ → Option ℕ → List Call
last_calls set start none = []
last_calls set start (some t) = if set then stop_callback (tick_at start t) ∷ [] else []

abbrev pub callbacks : ℕ → List ℕ → List Call
callbacks start ticks = map (λ t. callback (tick_at start t)) ticks

step-returned :
    (t : Task) (e : Event)
    → t.phase ≡ returned
    → ((step t e).phase ≡ returned) × ((step t e).calls ≡ t.calls)
unfolding step do_stop on_tick on_done
step-returned t stop h = ground arith
step-returned t parent_done h = ground arith
step-returned t (tick now) h = ground arith
step-returned t (see_done now) h = ground arith

-- Behind the return nothing is called any more.
pub run-returned :
    (t : Task) (es : List Event)
    → t.phase ≡ returned
    → ((run t es).phase ≡ returned) × ((run t es).calls ≡ t.calls)
unfolding run
run-returned t [] h = (h, refl)
run-returned t (e ∷ es) h =
    let (kept, same) = step-returned t e h in
    let (kept', same') = run-returned (step t e) es kept in (kept', same' ∙ same)

-- a task that has not returned, with its settings and what it called so far; a stop has canceled it
pub record Running (set : Bool) (start : ℕ) (canceled : Bool) (calls : List Call) (t : Task)
    : Type 0 where
  pub not_returned : t.phase ≢ returned
  pub stop_cancels : (t.stopped ≡ false) ⊎ (t.canceled ≡ true)
  pub has_callback : t.options.on_stop ≡ set
  pub has_start : t.start ≡ start
  pub has_canceled : t.canceled ≡ canceled
  pub has_calls : t.calls ≡ calls

module _ (set : Bool) (start : ℕ) where
  pub step-end :
      (c : Bool) (cs : List Call) (t : Task) (e : Event)
      → (e ≡ stop) ⊎ (e ≡ parent_done)
      → Running set start c cs t
      → Running set start true cs (step t e)
  unfolding step do_stop
  step-end c cs t e h r = ground arith

  pub step-tick :
      (c : Bool) (cs : List Call) (t : Task) (now : ℕ)
      → Running set start c cs t
      → Running set start c (cs ++ (callback (tick_at start now) ∷ [])) (step t (tick now))
  unfolding step on_tick call_back
  step-tick c cs t now r = ground arith

  pub step-see_done :
      (cs : List Call) (t : Task) (now : ℕ)
      → Running set start false cs t
      → Running set start false cs (step t (see_done now))
  unfolding step on_done
  step-see_done cs t now r = ground arith

  pub step-finish :
      (cs : List Call) (t : Task) (now : ℕ)
      → Running set start true cs t
      → ((step t (see_done now)).phase ≡ returned)
        × ((step t (see_done now)).calls ≡ cs ++ last_calls set start (some now))
  unfolding step on_done finish
  step-finish cs t now r = ground (arith, append-nil cs)

  run_calls :
      (es : List Event) (c : Bool) (cs : List Call) (t : Task)
      → Running set start c cs t
      → (run t es).calls
        ≡ cs ++ (callbacks start (seen c es).ticks ++ last_calls set start (seen c es).end)
  unfolding run seen with_tick
  run_calls [] c cs t r = rw (append-nil cs) r.has_calls
  run_calls (stop ∷ es) c cs t r = run_calls es true cs _ (step-end c cs t stop (inl refl) r)
  run_calls (parent_done ∷ es) c cs t r =
      run_calls es true cs _ (step-end c cs t parent_done (inr refl) r)
  run_calls (tick now ∷ es) c cs t r =
      run_calls es c _ _ (step-tick c cs t now r)
      ∙ append_assoc cs (callback (tick_at start now) ∷ []) _
  run_calls (see_done now ∷ es) true cs t r =
      let (kept, calls) = step-finish cs t now r in (run-returned _ es kept).1 ∙ calls
  run_calls (see_done now ∷ es) false cs t r = run_calls es false cs _ (step-see_done cs t now r)

-- what the settings configure: each counts wherever it stands, and however often
abbrev pub has_immediate : List Setting → Bool
has_immediate [] = false
has_immediate (immediate ∷ rest) = true
has_immediate (on_stop ∷ rest) = has_immediate rest

abbrev pub has_on_stop : List Setting → Bool
has_on_stop [] = false
has_on_stop (immediate ∷ rest) = has_on_stop rest
has_on_stop (on_stop ∷ rest) = true

apply_all_lem :
    (o : Options) (settings : List Setting)
    → ((apply_all o settings).immediate ≡ (o.immediate || has_immediate settings))
      × ((apply_all o settings).on_stop ≡ (o.on_stop || has_on_stop settings))
unfolding apply_all apply
apply_all_lem o [] = ground arith
apply_all_lem o (immediate ∷ rest) =
    ground (arith, apply_all_lem (record o { immediate = true }) rest)
apply_all_lem o (on_stop ∷ rest) = ground (arith, apply_all_lem (record o { on_stop = true }) rest)

abbrev pub first_ticks : Bool → ℕ → List ℕ
first_ticks at_once now = if at_once then now ∷ [] else []

pub start_task-Running :
    (settings : List Setting) (begin now : ℕ)
    → Running
        (has_on_stop settings)
        begin
        false
        (callbacks begin (first_ticks (has_immediate settings) now))
        (start_task settings begin now)
unfolding start_task call_back
start_task-Running settings begin now =
    let (h, k) = apply_all_lem (record { immediate = false; on_stop = false }) settings in
    ground arith

-- For all settings and each interleaving of ticks, stops and the end of the context: the callback is
-- called at once if the task is immediate, then at each tick that comes before the goroutine sees the
-- end of the context, in order, each with the time elapsed since the start; then the stop callback is
-- called once if it is set; and then nothing is called any more.
pub calls-run :
    (settings : List Setting) (begin now : ℕ) (es : List Event)
    → (run (start_task settings begin now) es).calls
      ≡ callbacks begin (first_ticks (has_immediate settings) now)
        ++ (callbacks begin (seen false es).ticks
            ++ last_calls (has_on_stop settings) begin (seen false es).end)
calls-run settings begin now es =
    run_calls (has_on_stop settings) begin es false _ _ (start_task-Running settings begin now)
