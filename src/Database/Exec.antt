-- ===== src/Database/Exec.antt =====
-- What is done with a chunk: the functions that `BulkExec`, `NamedBulkExec` and `NamedBulkExecTx` of
-- database/db.go give to `retry.WithBackoff`, and `ExecTx`. What the database and the callbacks answer is
-- an argument: `none` is success.
pub mod Transactions
pub mod Retried
pub mod Pool
use icinga_go_library.Prelude.{
  ℕ, suc, ◌+◌, Bool, true, false, Option, none, some, List, [], ◌∷◌, ◌++◌, map, length, take,
}
use icinga_go_library.Retry.{Settings, Wake, Round, ContextError, Run, Outcome, with_backoff}

-- the errors by the messages that the code wraps; `callback` is an error of an `OnSuccess`, unchanged
pub data ExecError (E : Type 0) : Type 0 where
  cant_build_placeholders : E → ExecError E
  cant_perform_query : E → ExecError E
  callback : E → ExecError E

-- what an attempt does, in order
pub data Effect (T : Type 0) : Type 0 where
  executed : List T → Effect T
  counted : ℕ → Effect T
  notified : ℕ → List T → Effect T

-- an attempt, with its error
abbrev pub Attempt : (T E : Type 0) → Type 0
Attempt T E = List (Effect T) × Option (ExecError E)

module _ {T E : Type 0} where
  -- the loop over `onSuccess`, from the callback of that number on, up to the first error
  unfoldable pub notify : ℕ → List (Option E) → List T → Attempt T E
  notify i [] b = ([], none)
  notify i (none ∷ answers) b =
      let (effects, result) = notify (suc i) answers b in (notified i b ∷ effects, result)
  notify i (some e ∷ answers) b = (notified i b ∷ [], some (callback e))

  -- `NamedBulkExec`
  unfoldable pub named_exec : Option E → List (Option E) → List T → Attempt T E
  unfolding notify
  named_exec (some e) answers b = (executed b ∷ [], some (cant_perform_query e))
  named_exec none answers b =
      let (effects, result) = notify 0 answers b in
      (executed b ∷ counted (length b) ∷ effects, result)

  -- `BulkExec`: `sqlx.In` may fail before the database is asked
  unfoldable pub bulk_exec : Option E → Option E → List (Option E) → List T → Attempt T E
  unfolding named_exec
  bulk_exec (some e) db answers b = ([], some (cant_build_placeholders e))
  bulk_exec none db answers b = named_exec db answers b

-- the calls of `counter.Add`, summed up
unfoldable pub counted_rows : {T : Type 0} → List (Effect T) → ℕ
counted_rows [] = 0
counted_rows (executed b ∷ es) = counted_rows es
counted_rows (counted n ∷ es) = let rest = counted_rows es in n + rest
counted_rows (notified i b ∷ es) = counted_rows es

-- what the environment does in an attempt: the database, the callbacks, the context, the timer, the sleep
pub record Answers (E : Type 0) : Type 0 where
  pub db : Option E
  pub callbacks : List (Option E)
  pub context : Option ContextError
  pub expired : Bool
  pub wake : Wake

module _ {T E : Type 0} (b : List T) where
  unfoldable pub attempt : Answers E → Attempt T E
  unfolding named_exec
  attempt a = named_exec a.db a.callbacks b

  unfoldable pub attempt_round : Answers E → Round (ExecError E)
  unfolding attempt
  attempt_round a = record {
    outcome = (attempt a).1;
    context = a.context;
    expired = a.expired;
    wake = a.wake;
  }

  unfoldable pub all_effects : List (Answers E) → List (Effect T)
  unfolding attempt
  all_effects [] = []
  all_effects (a ∷ answers) = (attempt a).0 ++ all_effects answers

  -- one chunk of `NamedBulkExec`, in the hands of `retry.WithBackoff`
  unfoldable pub exec_chunk :
      (ExecError E → Bool) → (ℕ → ℕ) → Settings → List (Answers E) → Run (ExecError E)
  unfolding with_backoff attempt_round
  exec_chunk retryable delays settings answers =
      with_backoff retryable delays settings (map attempt_round answers)

  -- what the attempts that are made do
  unfoldable pub exec_chunk_effects :
      (ExecError E → Bool) → (ℕ → ℕ) → Settings → List (Answers E) → List (Effect T)
  unfolding exec_chunk all_effects
  exec_chunk_effects retryable delays settings answers =
      all_effects (take (exec_chunk retryable delays settings answers).rounds answers)
