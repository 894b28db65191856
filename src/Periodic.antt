-- ===== src/Periodic.antt =====
-- periodic/periodic.go: a periodic task. Its goroutine is a step function on what its selects receive, and
-- on the end of the context, which may come at any time. Times are readings of the monotonic clock.
pub mod Calls
pub mod Fair
use icinga_go_library.Prelude.{
  ℕ, ◌-◌, ℤ, pos, negsuc, Bool, true, false, List, [], ◌∷◌, ◌++◌, leb, if◌then◌else◌, ◌||◌,
}

pub record Tick : Type 0 where
  pub elapsed : ℤ
  pub time : ℕ

-- `t.Sub(start)`
unfoldable pub since : ℕ → ℕ → ℤ
since start t = if leb start t then pos (t - start) else negsuc (start - t - 1)

unfoldable pub tick_at : ℕ → ℕ → Tick
unfolding since
tick_at start t = record { elapsed = since start t; time = t }

-- `on_stop` says whether the callback is set
pub record Options : Type 0 where
  pub immediate : Bool
  pub on_stop : Bool

pub data Setting : Type 0 where
  immediate : Setting
  on_stop : Setting

unfoldable pub apply : Options → Setting → Options
apply o immediate = record o { immediate = true }
apply o on_stop = record o { on_stop = true }

unfoldable pub apply_all : Options → List Setting → Options
unfolding apply
apply_all o [] = o
apply_all o (s ∷ rest) = apply_all (apply o s) rest

pub data Call : Type 0 where
  callback : Tick → Call
  stop_callback : Tick → Call

-- Where the goroutine stands: at the first select, at the one of the loop, or returned.
pub data Phase : Type 0 where
  waiting ticking returned : Phase

-- `stopped` is the sync.Once of Stop, `canceled` says whether the context has ended
pub record Task : Type 0 where
  pub options : Options
  pub start : ℕ
  pub phase : Phase
  pub stopped : Bool
  pub canceled : Bool
  pub calls : List Call

-- Stop is called; the context that was given to Start ends; the timer or the ticker is received from; the
-- end of the context is received, with the time that is read for the last callback.
pub data Event : Type 0 where
  stop : Event
  parent_done : Event
  tick : ℕ → Event
  see_done : ℕ → Event

unfoldable pub do_stop : Task → Task
do_stop t = if t.stopped then t else record t { stopped = true; canceled = true }

unfoldable pub call_back : Task → ℕ → Task
unfolding tick_at
call_back t now = record t {
  phase = ticking;
  calls = t.calls ++ (callback (tick_at t.start now) ∷ []);
}

unfoldable pub finish : Task → ℕ → Task
unfolding tick_at
finish t now = record t {
  phase = returned;
  calls =
      if t.options.on_stop then t.calls ++ (stop_callback (tick_at t.start now) ∷ []) else t.calls;
}

unfoldable pub on_tick : Phase → Task → ℕ → Task
unfolding call_back
on_tick returned t now = t
on_tick waiting t now = call_back t now
on_tick ticking t now = call_back t now

-- `ctx.Done()` is ready only once the context has ended.
unfoldable pub on_done : Phase → Task → ℕ → Task
unfolding finish
on_done returned t now = t
on_done waiting t now = if t.canceled then finish t now else t
on_done ticking t now = if t.canceled then finish t now else t

unfoldable pub step : Task → Event → Task
unfolding do_stop on_tick on_done
step t stop = do_stop t
step t parent_done = record t { canceled = true }
step t (tick now) = on_tick t.phase t now
step t (see_done now) = on_done t.phase t now

unfoldable pub run : Task → List Event → Task
unfolding step
run t [] = t
run t (e ∷ es) = run (step t e) es

-- Start at a time, and the goroutine up to its first select; `now` is when the loop begins where it
-- begins at once.
unfoldable pub start_task : List Setting → ℕ → ℕ → Task
unfolding apply_all call_back
start_task settings begin now =
    let o = apply_all (record { immediate = false; on_stop = false }) settings in
    let t : Task = record {
      options = o;
      start = begin;
      phase = waiting;
      stopped = false;
      canceled = false;
      calls = [];
    } in
    if o.immediate then call_back t now else t
