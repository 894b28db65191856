-- ===== src/Database/Exec/Pool/Nested.antt =====
-- `BulkExec` of database/db.go: its loop ranges over the channel of the bulker, so that it has no select,
-- and the goroutines of the chunks are in a group of their own, for which the loop waits only behind the
-- end of the channel. Up to there its runs are those of the pool without `see_done`.
use icinga_go_library.Prelude.{ℕ, Option, none, some, List, All, ◌≡◌, if◌then◌else◌}
use icinga_go_library.Database.Exec.Pool.{
  succeeded, Loop, receiving, acquiring, not_acquired, input_over, context_seen, PoolError,
  cant_acquire, Pool, Event, run, new_pool, is_over, waited, executing_jobs, wait,
}
use icinga_go_library.Database.Exec.Pool.Jobs.{chunks_of}
use icinga_go_library.Database.Exec.Pool.Chunks.{taken}
use icinga_go_library.Database.Exec.Pool.Waited.{wait-HasReturned}

-- what the loop returns, which is what the outer group returns
unfoldable pub nested_result :
    {T E : Type 0} → Loop T → ℕ → Option (PoolError E) → Option (Option (PoolError E))
unfolding waited
nested_result receiving n o = none
nested_result (acquiring b) n o = none
nested_result (not_acquired b) n o = some (some cant_acquire)
nested_result input_over n o = waited n o
nested_result context_seen n o = none

unfoldable pub nested_wait : {T E : Type 0} → Pool T E → Option (Option (PoolError E))
unfolding nested_result executing_jobs
nested_wait p = nested_result p.loop (executing_jobs p.jobs) p.error

nested_result-wait :
    {T E : Type 0} (l : Loop T) (n : ℕ) (o : Option (PoolError E))
    → nested_result l n o ≡ some none
    → (if is_over l then waited n o else none) ≡ some none
unfolding nested_result is_over
nested_result-wait receiving n o h = cc
nested_result-wait (acquiring b) n o h = cc
nested_result-wait (not_acquired b) n o h = cc
nested_result-wait input_over n o h = h
nested_result-wait context_seen n o h = cc

-- If BulkExec returns nil, each chunk that was taken from the channel was executed successfully. Of an
-- error this cannot be said: where the loop cannot acquire a permit, its error hides the one of the chunk
-- that canceled the context, and the goroutines of other chunks may still be executing.
pub nested_wait_lem :
    {T E : Type 0} (w : ℕ) (es : List (Event T E))
    → nested_wait (run (new_pool w) es) ≡ some none
    → All (λ j. j.status ≡ succeeded) (run (new_pool {T = T} {E = E} w) es).jobs
      × (chunks_of (run (new_pool {T = T} {E = E} w) es).jobs ≡ taken (new_pool w) es)
unfolding nested_wait wait
nested_wait_lem w es h =
    (wait-HasReturned w es none (nested_result-wait (run (new_pool w) es).loop _ _ h)).1
