-- ===== src/Examples/Periodic.antt =====
-- Inputs for periodic and for what is logged of a counter.
use icinga_go_library.Prelude.{
  ℕ, zero, suc, ◌+◌, pos, false, some, List, [], ◌∷◌, ◌++◌, ◌≡◌, refl, arith, inl,
}
use icinga_go_library.Com.Counter.{u64}
use icinga_go_library.Periodic.{
  Tick, Setting, immediate, on_stop, callback, stop_callback, Event, stop, tick, see_done, run,
  start_task, returned,
}
use icinga_go_library.Periodic.Calls.{
  calls-run, callbacks, first_ticks, has_immediate, has_on_stop, seen, last_calls,
}
use icinga_go_library.Periodic.Fair.{run_finishes, prefix}
use icinga_go_library.Database.Log
use icinga_go_library.Database.Log.{
  Moment, rows, calls, progress, finished, new_log, counted, reported, messages-run,
}

abbrev settings : List Setting
settings = on_stop ∷ immediate ∷ []

-- A tick comes behind Stop and before the end is seen, and one behind that.
abbrev events : List Event
events = tick 30 ∷ see_done 31 ∷ stop ∷ tick 50 ∷ see_done 60 ∷ tick 70 ∷ []

task_calls :
    (run (start_task settings 10 11) events).calls
    ≡ callback (record { elapsed = pos 1; time = 11 })
      ∷ callback (record { elapsed = pos 20; time = 30 })
      ∷ callback (record { elapsed = pos 40; time = 50 })
      ∷ stop_callback (record { elapsed = pos 50; time = 60 })
      ∷ []
unfolding run start_task
task_calls = refl

calls-run_example :
    (run (start_task settings 10 11) events).calls
    ≡ callbacks 10 (first_ticks (has_immediate settings) 11)
      ++ (callbacks 10 (seen false events).ticks
          ++ last_calls (has_on_stop settings) 10 (seen false events).end)
calls-run_example = calls-run settings 10 11 events

-- Stop, and then nothing but the end of the context
abbrev stopping : ℕ → Event
stopping zero = stop
stopping (suc n) = see_done n

run_finishes_example :
    (m : ℕ) × (ticks : List ℕ) × (t : ℕ) × ((run
        (start_task settings 10 11)
        (prefix stopping m)).phase
      ≡ returned)
    × ((run (start_task settings 10 11) (prefix stopping m)).calls
        ≡ callbacks 10 ticks ++ last_calls (has_on_stop settings) 10 (some t))
run_finishes_example =
    run_finishes settings 10 11 stopping 0 (inl refl) (λ n. (suc n, n, omega arith, refl))

abbrev moments : List Moment
moments =
    rows 3
    ∷ calls (callback (record { elapsed = pos 5; time = 15 }))
    ∷ rows 4
    ∷ calls (callback (record { elapsed = pos 9; time = 19 }))
    ∷ calls (callback (record { elapsed = pos 12; time = 22 }))
    ∷ rows 1
    ∷ []

abbrev last_tick : Tick
last_tick = record { elapsed = pos 20; time = 30 }

-- The third tick finds nothing to tell.
log_messages :
    (Log.run new_log (moments ++ (calls (stop_callback last_tick) ∷ []))).messages
    ≡ progress 3 ∷ progress 4 ∷ finished 8 (pos 20) ∷ []
unfolding Log.run new_log
log_messages = refl

messages-run_example :
    ((Log.run new_log (moments ++ (calls (stop_callback last_tick) ∷ []))).messages
      ≡ (Log.run new_log moments).messages
        ++ (finished (u64 (counted moments)) last_tick.elapsed ∷ []))
    × (u64 (reported (Log.run new_log moments).messages + (Log.run new_log moments).counter.value)
        ≡ u64 (counted moments))
messages-run_example = messages-run moments last_tick
