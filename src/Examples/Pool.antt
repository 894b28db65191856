-- ===== src/Examples/Pool.antt =====
-- Runs of the bulk executions.
use icinga_go_library.Prelude.{ℕ, ◌+◌, none, some, List, [], ◌∷◌, ◌≡◌, refl, Option, length, true}
use icinga_go_library.Database.Exec.Pool.{
  Event, receive, closed, acquired, acquire_failed, finish, other_acquires, cant_acquire, run,
  new_pool, wait, parent_canceled, Pool, PoolError, see_done,
}
use icinga_go_library.Database.Exec.Pool.Chunks.{taken}
use icinga_go_library.Database.Exec.Pool.Waited.{HasReturned, wait-HasReturned}
use icinga_go_library.Database.Exec.Pool.Nested.{nested_wait}
use icinga_go_library.Database.Exec.Pool.Returns.{all_end_in, wait_returns}

-- Another user of the semaphore leaves one permit, so that the second chunk waits for the first one.
abbrev events : List (Event ℕ ℕ)
events =
    receive (1 ∷ 2 ∷ [])
    ∷ other_acquires
    ∷ acquired
    ∷ receive (3 ∷ [])
    ∷ acquired
    ∷ finish 0 none
    ∷ acquired
    ∷ closed
    ∷ finish 1 none
    ∷ []

abbrev chunks : List (List ℕ)
chunks = (1 ∷ 2 ∷ []) ∷ (3 ∷ []) ∷ []

waited_for : wait (run (new_pool 2) events) ≡ some none
unfolding wait run new_pool
waited_for = refl

all_taken : taken (new_pool 2) events ≡ chunks
unfolding run new_pool
all_taken = refl

wait-HasReturned_example :
    ((run (new_pool 2) events).free + (run (new_pool 2) events).others ≡ 2)
    × HasReturned (taken (new_pool 2) events) none (run (new_pool 2) events)
wait-HasReturned_example = wait-HasReturned 2 events none waited_for

-- The first chunk fails, and another user takes its permit; the loop of BulkExec, which waits with the
-- second chunk for a permit, returns the error of Acquire in place of the one of the chunk.
abbrev failing : List (Event ℕ ℕ)
failing =
    receive (1 ∷ 2 ∷ [])
    ∷ acquired
    ∷ receive (3 ∷ [])
    ∷ finish 0 (some 7)
    ∷ other_acquires
    ∷ acquire_failed
    ∷ []

hidden_error : nested_wait (run (new_pool 1) failing) ≡ some (some cant_acquire)
unfolding nested_wait run new_pool
hidden_error = refl

-- The context ends before anything was taken from the channel, which the bulker closes then.
abbrev canceled_input : List (Event ℕ ℕ)
canceled_input = parent_canceled ∷ closed ∷ []

canceled_nil : wait (run (new_pool 1) canceled_input) ≡ some none
unfolding wait run new_pool
canceled_nil = refl

-- Two chunks are executed, and the loop waits with the next one for a permit.
abbrev in_between : Pool ℕ ℕ
in_between =
    run (new_pool 2)
      (receive (1 ∷ []) ∷ acquired ∷ receive (2 ∷ []) ∷ acquired ∷ receive (3 ∷ []) ∷ [])

abbrev at_last : List (Event ℕ ℕ)
at_last = finish 1 (some 7) ∷ other_acquires ∷ finish 0 none ∷ []

all_end : all_end_in (length in_between.jobs) at_last ≡ true
unfolding run new_pool
all_end = refl

wait_returns_example :
    (o : Option (PoolError ℕ)) × (wait
        (run in_between (parent_canceled ∷ acquire_failed ∷ see_done ∷ at_last))
      ≡ some o)
wait_returns_example = wait_returns in_between at_last all_end
