-- ===== src/Database/Exec/Pool.antt =====
-- `NamedBulkExec` and `NamedBulkExecTx` of database/db.go around their chunks: the loop that takes the
-- chunks of the bulker, the semaphore, the goroutine of each chunk, and the group that waits for them. A
-- run is any sequence of what these do; an event that is not possible changes nothing. What a goroutine
-- returns, that is what retry.WithBackoff returns of the chunk, is an argument of the event of its end.
-- Of errgroup and semaphore, the steps have what their documentation says: the first error cancels the
-- context of the group and is the one that Wait returns; a permit is given only where one is free, and an
-- error of Acquire is one of the context.
pub mod Jobs
mod Causes
mod Sound
pub mod Chunks
pub mod Waited
pub mod Nested
mod Keeps
pub mod Returns
use icinga_go_library.Prelude.{
  ℕ, zero, suc, Bool, true, false, Option, none, some, List, [], ◌∷◌, ◌++◌, map, if◌then◌else◌,
}

pub data Status (E : Type 0) : Type 0 where
  executing succeeded : Status E
  failed : E → Status E

-- a goroutine of the group, with its chunk
pub record Job (T E : Type 0) : Type 0 where
  pub chunk : List T
  pub status : Status E

-- The loop: before its select, in `sem.Acquire` with a chunk, or returned, because of an error of Acquire,
-- of the end of the channel, or of the end of the context.
pub data Loop (T : Type 0) : Type 0 where
  receiving : Loop T
  acquiring not_acquired : List T → Loop T
  input_over context_seen : Loop T

-- the error of the group
pub data PoolError (E : Type 0) : Type 0 where
  cant_acquire context_ended : PoolError E
  of_job : E → PoolError E

-- `free` are the permits of the semaphore that nobody holds, `others` those of its other users. The
-- context of the group is canceled with its first error, which `Wait` returns, or with the given context.
pub record Pool (T E : Type 0) : Type 0 where
  pub jobs : List (Job T E)
  pub loop : Loop T
  pub free : ℕ
  pub others : ℕ
  pub canceled : Bool
  pub parent_done : Bool
  pub error : Option (PoolError E)

pub data Event (T E : Type 0) : Type 0 where
  receive : List T → Event T E
  closed acquired acquire_failed see_done parent_canceled : Event T E
  finish : ℕ → Option E → Event T E
  other_acquires other_releases : Event T E

unfoldable pub first_error : {A : Type 0} → A → Option A → Option A
first_error e none = some e
first_error e (some d) = some d

unfoldable pub status_of : {E : Type 0} → Option E → Status E
status_of none = succeeded
status_of (some e) = failed e

unfoldable pub is_over : {T : Type 0} → Loop T → Bool
is_over receiving = false
is_over (acquiring b) = false
is_over (not_acquired b) = true
is_over input_over = true
is_over context_seen = true

unfoldable pub add_executing : {E : Type 0} → Status E → ℕ → ℕ
add_executing executing n = suc n
add_executing succeeded n = n
add_executing (failed e) n = n

unfoldable pub waited : {A : Type 0} → ℕ → A → Option A
waited zero o = some o
waited (suc n) o = none

module _ {T E : Type 0} where
  -- a goroutine of the group that returns an error
  unfoldable pub returned_error : PoolError E → Pool T E → Pool T E
  unfolding first_error
  returned_error e p = record p { canceled = true; error = first_error e p.error }

  unfoldable pub on_receive : Loop T → List T → Pool T E → Pool T E
  on_receive receiving b p = record p { loop = acquiring b }
  on_receive (acquiring c) b p = p
  on_receive (not_acquired c) b p = p
  on_receive input_over b p = p
  on_receive context_seen b p = p

  unfoldable pub on_closed : Loop T → Pool T E → Pool T E
  on_closed receiving p = record p { loop = input_over }
  on_closed (acquiring c) p = p
  on_closed (not_acquired c) p = p
  on_closed input_over p = p
  on_closed context_seen p = p

  -- `g.Go`, with a permit
  unfoldable pub on_acquired : Loop T → ℕ → Pool T E → Pool T E
  on_acquired (acquiring b) (suc n) p = record p {
    jobs = p.jobs ++ (record { chunk = b; status = executing } ∷ []);
    loop = receiving;
    free = n;
  }
  on_acquired (acquiring b) zero p = p
  on_acquired receiving n p = p
  on_acquired (not_acquired b) n p = p
  on_acquired input_over n p = p
  on_acquired context_seen n p = p

  unfoldable pub on_acquire_failed : Loop T → Bool → Pool T E → Pool T E
  unfolding returned_error
  on_acquire_failed (acquiring b) true p =
      returned_error cant_acquire (record p { loop = not_acquired b })
  on_acquire_failed (acquiring b) false p = p
  on_acquire_failed receiving c p = p
  on_acquire_failed (not_acquired b) c p = p
  on_acquire_failed input_over c p = p
  on_acquire_failed context_seen c p = p

  unfoldable pub on_done : Loop T → Bool → Pool T E → Pool T E
  unfolding returned_error
  on_done receiving true p = returned_error context_ended (record p { loop = context_seen })
  on_done receiving false p = p
  on_done (acquiring b) c p = p
  on_done (not_acquired b) c p = p
  on_done input_over c p = p
  on_done context_seen c p = p

  unfoldable pub end_status :
      Status E → Job T E → List (Job T E) → Status E → Option (List (Job T E))
  end_status s j js executing = some (record j { status = s } ∷ js)
  end_status s j js succeeded = none
  end_status s j js (failed e) = none

  unfoldable pub with_job : Job T E → Option (List (Job T E)) → Option (List (Job T E))
  with_job j none = none
  with_job j (some js) = some (j ∷ js)

  -- the goroutines behind the end of one of them, if that is executing
  unfoldable pub end_job : ℕ → Status E → List (Job T E) → Option (List (Job T E))
  unfolding end_status with_job
  end_job i s [] = none
  end_job zero s (j ∷ js) = end_status s j js j.status
  end_job (suc i) s (j ∷ js) = with_job j (end_job i s js)

  -- `sem.Release(1)` is deferred.
  unfoldable pub on_finish : Option (List (Job T E)) → Option E → Pool T E → Pool T E
  unfolding returned_error
  on_finish none r p = p
  on_finish (some js) none p = record p { jobs = js; free = suc p.free }
  on_finish (some js) (some e) p =
      returned_error (of_job e) (record p { jobs = js; free = suc p.free })

  unfoldable pub on_other_acquires : ℕ → Pool T E → Pool T E
  on_other_acquires zero p = p
  on_other_acquires (suc n) p = record p { free = n; others = suc p.others }

  unfoldable pub on_other_releases : ℕ → Pool T E → Pool T E
  on_other_releases zero p = p
  on_other_releases (suc n) p = record p { free = suc p.free; others = n }

  unfoldable pub step : Pool T E → Event T E → Pool T E
  unfolding on_receive on_closed on_acquired on_acquire_failed on_done end_job on_finish status_of
      on_other_acquires on_other_releases
  step p (receive b) = on_receive p.loop b p
  step p closed = on_closed p.loop p
  step p acquired = on_acquired p.loop p.free p
  step p acquire_failed = on_acquire_failed p.loop p.canceled p
  step p see_done = on_done p.loop p.canceled p
  step p parent_canceled = record p { canceled = true; parent_done = true }
  step p (finish i r) = on_finish (end_job i (status_of r) p.jobs) r p
  step p other_acquires = on_other_acquires p.free p
  step p other_releases = on_other_releases p.others p

  unfoldable pub run : Pool T E → List (Event T E) → Pool T E
  unfolding step
  run p [] = p
  run p (e ∷ es) = run (step p e) es

  unfoldable pub new_pool : ℕ → Pool T E
  new_pool permits = record {
    jobs = [];
    loop = receiving;
    free = permits;
    others = 0;
    canceled = false;
    parent_done = false;
    error = none;
  }

  unfoldable pub executing_jobs : List (Job T E) → ℕ
  unfolding add_executing
  executing_jobs [] = 0
  executing_jobs (j ∷ js) = add_executing j.status (executing_jobs js)

  -- what `g.Wait` returns, once the loop and all other goroutines of the group have returned
  unfoldable pub wait : Pool T E → Option (Option (PoolError E))
  unfolding is_over executing_jobs waited
  wait p = if is_over p.loop then waited (executing_jobs p.jobs) p.error else none
