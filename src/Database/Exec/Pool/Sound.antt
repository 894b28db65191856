-- ===== src/Database/Exec/Pool/Sound.antt =====
-- The bulk executions of database/db.go: permits of the semaphore and causes of errors, in every run.
use icinga_go_library.Prelude.{
  ℕ, zero, suc, Bool, true, false, Option, none, some, List, [], ◌∷◌, ◌≡◌, refl, subst, arith,
}
use icinga_go_library.Database.Exec.Pool.{
  Job, Loop, receiving, acquiring, not_acquired, input_over, context_seen, Pool, Event, receive,
  closed, acquired, acquire_failed, see_done, parent_canceled, finish, other_acquires,
  other_releases, status_of, returned_error, on_receive, on_closed, on_acquired, on_acquire_failed,
  on_done, end_job, on_finish, on_other_acquires, on_other_releases, step, run,
}
use icinga_go_library.Database.Exec.Pool.Jobs.{
  IfSome, Ends, end_job-Ends, executing_jobs-snoc, executing_jobs-Ends,
}
use icinga_go_library.Database.Exec.Pool.Causes.{
  Explained, IsSound, Explained-loop, Explained-snoc, Explained-succeeded, Explained-failed,
  Explained-cant_acquire, Explained-context_ended, Explained-parent,
}

module _ {T E : Type 0} where
  on_receive-IsSound :
      (w : ℕ) (l : Loop T) (b : List T) (p : Pool T E)
      → p.loop ≡ l
      → IsSound w p
      → IsSound w (on_receive l b p)
  unfolding on_receive
  on_receive-IsSound w receiving b p e (n, h) =
      (n, Explained-loop p.error p.loop (acquiring b) _ _ p.jobs (rw e refl) (rw e refl) h)
  on_receive-IsSound w (acquiring c) b p e h = h
  on_receive-IsSound w (not_acquired c) b p e h = h
  on_receive-IsSound w input_over b p e h = h
  on_receive-IsSound w context_seen b p e h = h

  on_closed-IsSound :
      (w : ℕ) (l : Loop T) (p : Pool T E) → p.loop ≡ l → IsSound w p → IsSound w (on_closed l p)
  unfolding on_closed
  on_closed-IsSound w receiving p e (n, h) =
      (n, Explained-loop p.error p.loop input_over _ _ p.jobs (rw e refl) (rw e refl) h)
  on_closed-IsSound w (acquiring c) p e h = h
  on_closed-IsSound w (not_acquired c) p e h = h
  on_closed-IsSound w input_over p e h = h
  on_closed-IsSound w context_seen p e h = h

  on_acquired-IsSound :
      (w : ℕ) (l : Loop T) (n : ℕ) (p : Pool T E)
      → p.loop ≡ l
      → p.free ≡ n
      → IsSound w p
      → IsSound w (on_acquired l n p)
  unfolding on_acquired
  on_acquired-IsSound w (acquiring b) zero p e f h = h
  on_acquired-IsSound w (acquiring b) (suc n) p e f (k, h) = (
    omega (arith, k, f, executing_jobs-snoc p.jobs b),
    Explained-snoc p.error receiving _ _ p.jobs b
        (Explained-loop p.error p.loop receiving _ _ p.jobs (rw e refl) (rw e refl) h),
  )
  on_acquired-IsSound w receiving n p e f h = h
  on_acquired-IsSound w (not_acquired c) n p e f h = h
  on_acquired-IsSound w input_over n p e f h = h
  on_acquired-IsSound w context_seen n p e f h = h

  on_acquire_failed-IsSound :
      (w : ℕ) (l : Loop T) (c : Bool) (p : Pool T E)
      → p.loop ≡ l
      → p.canceled ≡ c
      → IsSound w p
      → IsSound w (on_acquire_failed l c p)
  unfolding on_acquire_failed returned_error
  on_acquire_failed-IsSound w (acquiring b) true p e f (n, h) = (
    n,
    Explained-cant_acquire p.error b p.parent_done p.jobs (
        subst (λ l. Explained p.error l true p.parent_done p.jobs) e
          (subst (λ c. Explained p.error p.loop c p.parent_done p.jobs) f h)),
  )
  on_acquire_failed-IsSound w (acquiring b) false p e f h = h
  on_acquire_failed-IsSound w receiving n p e f h = h
  on_acquire_failed-IsSound w (not_acquired c) n p e f h = h
  on_acquire_failed-IsSound w input_over n p e f h = h
  on_acquire_failed-IsSound w context_seen n p e f h = h

  on_done-IsSound :
      (w : ℕ) (l : Loop T) (c : Bool) (p : Pool T E)
      → p.loop ≡ l
      → p.canceled ≡ c
      → IsSound w p
      → IsSound w (on_done l c p)
  unfolding on_done returned_error
  on_done-IsSound w receiving true p e f (n, h) = (
    n,
    Explained-context_ended p.error p.parent_done p.jobs (
        subst (λ l. Explained p.error l true p.parent_done p.jobs) e
          (subst (λ c. Explained p.error p.loop c p.parent_done p.jobs) f h)),
  )
  on_done-IsSound w receiving false p e f h = h
  on_done-IsSound w (acquiring b) n p e f h = h
  on_done-IsSound w (not_acquired c) n p e f h = h
  on_done-IsSound w input_over n p e f h = h
  on_done-IsSound w context_seen n p e f h = h

  on_finish-IsSound :
      (w : ℕ) (r : Option E) (o : Option (List (Job T E))) (p : Pool T E)
      → IfSome (Ends (status_of r) p.jobs) o
      → IsSound w p
      → IsSound w (on_finish o r p)
  unfolding on_finish returned_error status_of
  on_finish-IsSound w r none p g h = h
  on_finish-IsSound w none (some ks) p g (n, h) = (
    omega (arith, n, executing_jobs-Ends none g),
    Explained-succeeded p.error p.loop p.canceled p.parent_done g h,
  )
  on_finish-IsSound w (some e) (some ks) p g (n, h) = (
    omega (arith, n, executing_jobs-Ends (some e) g),
    Explained-failed p.error p.loop p.canceled p.parent_done e g h,
  )

  others-IsSound :
      (w : ℕ) (n : ℕ) (p : Pool T E)
      → IsSound w p
      → (p.free ≡ n → IsSound w (on_other_acquires n p))
        × (p.others ≡ n → IsSound w (on_other_releases n p))
  unfolding on_other_acquires on_other_releases
  others-IsSound w zero p h = (λ e. h, λ e. h)
  others-IsSound w (suc n) p (k, h) = (λ e. (omega (arith, k, e), h), λ e. (omega (arith, k, e), h))

  step-IsSound : (w : ℕ) (p : Pool T E) (e : Event T E) → IsSound w p → IsSound w (step p e)
  unfolding step
  step-IsSound w p (receive b) h = on_receive-IsSound w p.loop b p refl h
  step-IsSound w p closed h = on_closed-IsSound w p.loop p refl h
  step-IsSound w p acquired h = on_acquired-IsSound w p.loop p.free p refl refl h
  step-IsSound w p acquire_failed h = on_acquire_failed-IsSound w p.loop p.canceled p refl refl h
  step-IsSound w p see_done h = on_done-IsSound w p.loop p.canceled p refl refl h
  step-IsSound w p parent_canceled (n, h) =
      (n, Explained-parent p.error p.loop p.canceled p.parent_done p.jobs h)
  step-IsSound w p (finish i r) h =
      on_finish-IsSound w r (end_job i (status_of r) p.jobs) p (end_job-Ends i (status_of r) p.jobs)
        h
  step-IsSound w p other_acquires h = (others-IsSound w p.free p h).0 refl
  step-IsSound w p other_releases h = (others-IsSound w p.others p h).1 refl

  pub run-IsSound :
      (w : ℕ) (es : List (Event T E)) (p : Pool T E) → IsSound w p → IsSound w (run p es)
  unfolding run
  run-IsSound w [] p h = h
  run-IsSound w (e ∷ es) p h = run-IsSound w es (step p e) (step-IsSound w p e h)
