-- ===== src/Database/Exec/Pool/Waited.antt =====
-- What `g.Wait` of the bulk executions in database/db.go returns.
use icinga_go_library.Prelude.{
  ℕ, zero, suc, ◌+◌, Bool, true, false, Option, none, some, List, [], ◌++◌, append-nil, All, ◌≡◌,
  refl, ap, sym, subst, ◌∙◌, arith, if◌then◌else◌,
}
use mathlib.Core.Option.{some-injective}
use icinga_go_library.Database.Exec.Pool.{
  succeeded, Loop, receiving, acquiring, not_acquired, input_over, context_seen, PoolError, Pool,
  Event, run, new_pool, is_over, waited, executing_jobs, wait,
}
use icinga_go_library.Database.Exec.Pool.Jobs.{chunks_of, all_succeeded}
use icinga_go_library.Database.Exec.Pool.Causes.{is_not_acquired, IsCause, Explained}
use icinga_go_library.Database.Exec.Pool.Sound.{run-IsSound}
use icinga_go_library.Database.Exec.Pool.Chunks.{pending, taken, held, run-held}

waited-cases :
    {A : Type 0} (b : Bool) (n : ℕ) (o r : A)
    → (if b then waited n o else none) ≡ some r
    → (b ≡ true) × (n ≡ 0) × (o ≡ r)
unfolding waited
waited-cases true zero o r h = (refl, refl, some-injective o r h)
waited-cases true (suc n) o r h = cc
waited-cases false n o r h = cc

pending_over :
    {T : Type 0} (l : Loop T) → is_over l ≡ true → is_not_acquired l ≡ false → pending l ≡ []
unfolding is_over
pending_over receiving e h = refl
pending_over (acquiring b) e h = cc
pending_over (not_acquired b) e h = cc
pending_over input_over e h = refl
pending_over context_seen e h = refl

module _ {T E : Type 0} where
  abbrev pub HasReturned : List (List T) → Option (PoolError E) → Pool T E → Type 0
  HasReturned chunks none p = All (λ j. j.status ≡ succeeded) p.jobs × (chunks_of p.jobs ≡ chunks)
  HasReturned chunks (some e) p = IsCause e p.loop p.parent_done p.jobs

  Explained-HasReturned :
      (o : Option (PoolError E)) (chunks : List (List T)) (p : Pool T E)
      → is_over p.loop ≡ true
      → executing_jobs p.jobs ≡ 0
      → held p ≡ chunks
      → Explained o p.loop p.canceled p.parent_done p.jobs
      → HasReturned chunks o p
  Explained-HasReturned none chunks p e n c (a, x, y, z) = (
    all_succeeded p.jobs n a,
    sym (append-nil (chunks_of p.jobs))
        ∙ ap (λ l. chunks_of p.jobs ++ l) (sym (pending_over p.loop e y))
        ∙ c,
  )
  Explained-HasReturned (some e) chunks p x n c h = h

  -- When Wait has returned, whatever the chunks, their goroutines, the other users of the semaphore and the
  -- contexts did before: all permits are given back. If it returned nil, each chunk that was taken from the
  -- channel was executed successfully; if an error, then that is the error of a goroutine, or the given
  -- context had ended, and the loop had seen that where it waited for a permit or for a chunk.
  pub wait-HasReturned :
      (w : ℕ) (es : List (Event T E)) (r : Option (PoolError E))
      → wait (run (new_pool w) es) ≡ some r
      → ((run (new_pool w) es).free + (run (new_pool w) es).others ≡ w)
        × HasReturned (taken (new_pool w) es) r (run (new_pool w) es)
  unfolding wait new_pool executing_jobs
  wait-HasReturned w es r h =
      let p : Pool T E = run (new_pool w) es in
      let (over, n, e) = waited-cases (is_over p.loop) (executing_jobs p.jobs) p.error r h in
      let (k, x) = run-IsSound w es (new_pool w) (omega arith, (tt, refl, refl, refl)) in
      (
        omega (arith, k, n),
        subst (λ o. HasReturned (taken (new_pool w) es) o p) e
            (Explained-HasReturned p.error _ p over n (run-held (new_pool w) es) x),
      )
