-- ===== src/Database/Exec/Pool/Chunks.antt =====
-- The bulk executions of database/db.go: what becomes of each chunk that is taken from the channel.
use icinga_go_library.Prelude.{
  ℕ, zero, suc, ◌+◌, ◌≤◌, Bool, true, false, Option, none, some, List, [], ◌∷◌, ◌++◌, append-nil,
  append_assoc, ◌≡◌, refl, ap, sym, ◌∙◌, arith, if◌then◌else◌,
}
use icinga_go_library.Database.Exec.Pool.{
  Status, executing, Job, Loop, receiving, acquiring, not_acquired, input_over, context_seen, Pool,
  Event, receive, closed, acquired, acquire_failed, see_done, parent_canceled, finish,
  other_acquires, other_releases, status_of, returned_error, on_receive, on_closed, on_acquired,
  on_acquire_failed, on_done, end_job, on_finish, on_other_acquires, on_other_releases, step, run,
  new_pool, executing_jobs,
}
use icinga_go_library.Database.Exec.Pool.Jobs.{
  chunks_of, IfSome, Ends, end_job-Ends, chunks_of-Ends,
}
use icinga_go_library.Database.Exec.Pool.Sound.{run-IsSound}

abbrev pub is_receiving : {T : Type 0} → Loop T → Bool
is_receiving receiving = true
is_receiving (acquiring b) = false
is_receiving (not_acquired b) = false
is_receiving input_over = false
is_receiving context_seen = false

-- the chunk that the loop holds
abbrev pub pending : {T : Type 0} → Loop T → List (List T)
pending receiving = []
pending (acquiring b) = b ∷ []
pending (not_acquired b) = b ∷ []
pending input_over = []
pending context_seen = []

abbrev taken_now : {T E : Type 0} → Loop T → Event T E → List (List T)
taken_now l (receive b) = if is_receiving l then b ∷ [] else []
taken_now l closed = []
taken_now l acquired = []
taken_now l acquire_failed = []
taken_now l see_done = []
taken_now l parent_canceled = []
taken_now l (finish i r) = []
taken_now l other_acquires = []
taken_now l other_releases = []

module _ {T E : Type 0} where
  -- the chunks that the loop takes from the channel in a run
  abbrev pub taken : Pool T E → List (Event T E) → List (List T)
  taken p [] = []
  taken p (e ∷ es) = taken_now p.loop e ++ taken (step p e) es

  abbrev pub held : Pool T E → List (List T)
  held p = chunks_of p.jobs ++ pending p.loop

  receive-held :
      (l : Loop T) (b : List T) (p : Pool T E)
      → p.loop ≡ l
      → held (on_receive l b p) ≡ held p ++ taken_now {E = E} l (receive b)
  unfolding on_receive
  receive-held receiving b p e = rw (e, append-nil (chunks_of p.jobs)) refl
  receive-held (acquiring c) b p e = sym (append-nil (held p))
  receive-held (not_acquired c) b p e = sym (append-nil (held p))
  receive-held input_over b p e = sym (append-nil (held p))
  receive-held context_seen b p e = sym (append-nil (held p))

  closed-held : (l : Loop T) (p : Pool T E) → p.loop ≡ l → held (on_closed l p) ≡ held p
  unfolding on_closed
  closed-held receiving p e = rw e refl
  closed-held (acquiring c) p e = refl
  closed-held (not_acquired c) p e = refl
  closed-held input_over p e = refl
  closed-held context_seen p e = refl

  chunks_of-snoc :
      (js : List (Job T E)) (b : List T)
      → chunks_of (js ++ record { chunk = b; status = executing } ∷ []) ≡ chunks_of js ++ b ∷ []
  chunks_of-snoc [] b = refl
  chunks_of-snoc (j ∷ js) b = ap (λ l. j.chunk ∷ l) (chunks_of-snoc js b)

  acquired-held :
      (l : Loop T) (n : ℕ) (p : Pool T E) → p.loop ≡ l → held (on_acquired l n p) ≡ held p
  unfolding on_acquired
  acquired-held (acquiring b) zero p e = refl
  acquired-held (acquiring b) (suc n) p e = rw e (
      append-nil (chunks_of (p.jobs ++ record { chunk = b; status = executing } ∷ []))
      ∙ chunks_of-snoc p.jobs b)
  acquired-held receiving n p e = refl
  acquired-held (not_acquired c) n p e = refl
  acquired-held input_over n p e = refl
  acquired-held context_seen n p e = refl

  acquire_failed-held :
      (l : Loop T) (c : Bool) (p : Pool T E) → p.loop ≡ l → held (on_acquire_failed l c p) ≡ held p
  unfolding on_acquire_failed returned_error
  acquire_failed-held (acquiring b) true p e = rw e refl
  acquire_failed-held (acquiring b) false p e = refl
  acquire_failed-held receiving c p e = refl
  acquire_failed-held (not_acquired b) c p e = refl
  acquire_failed-held input_over c p e = refl
  acquire_failed-held context_seen c p e = refl

  done-held : (l : Loop T) (c : Bool) (p : Pool T E) → p.loop ≡ l → held (on_done l c p) ≡ held p
  unfolding on_done returned_error
  done-held receiving true p e = rw e refl
  done-held receiving false p e = refl
  done-held (acquiring b) c p e = refl
  done-held (not_acquired b) c p e = refl
  done-held input_over c p e = refl
  done-held context_seen c p e = refl

  finish-held :
      (s : Status E) (r : Option E) (o : Option (List (Job T E))) (p : Pool T E)
      → IfSome (Ends s p.jobs) o
      → held (on_finish o r p) ≡ held p
  unfolding on_finish returned_error
  finish-held s r none p g = refl
  finish-held s none (some ks) p g = ap (λ l. l ++ pending p.loop) (chunks_of-Ends g)
  finish-held s (some e) (some ks) p g = ap (λ l. l ++ pending p.loop) (chunks_of-Ends g)

  others-held :
      (n : ℕ) (p : Pool T E)
      → (held (on_other_acquires n p) ≡ held p) × (held (on_other_releases n p) ≡ held p)
  unfolding on_other_acquires on_other_releases
  others-held zero p = (refl, refl)
  others-held (suc n) p = (refl, refl)

  step-held : (p : Pool T E) (e : Event T E) → held (step p e) ≡ held p ++ taken_now p.loop e
  unfolding step
  step-held p (receive b) = receive-held p.loop b p refl
  step-held p closed = closed-held p.loop p refl ∙ sym (append-nil (held p))
  step-held p acquired = acquired-held p.loop p.free p refl ∙ sym (append-nil (held p))
  step-held p acquire_failed =
      acquire_failed-held p.loop p.canceled p refl ∙ sym (append-nil (held p))
  step-held p see_done = done-held p.loop p.canceled p refl ∙ sym (append-nil (held p))
  step-held p parent_canceled = sym (append-nil (held p))
  step-held p (finish i r) =
      finish-held (status_of r) r (end_job i (status_of r) p.jobs) p
        (end_job-Ends i (status_of r) p.jobs)
      ∙ sym (append-nil (held p))
  step-held p other_acquires = (others-held p.free p).0 ∙ sym (append-nil (held p))
  step-held p other_releases = (others-held p.others p).1 ∙ sym (append-nil (held p))

  pub run-held : (p : Pool T E) (es : List (Event T E)) → held (run p es) ≡ held p ++ taken p es
  unfolding run
  run-held p [] = sym (append-nil (held p))
  run-held p (e ∷ es) =
      run-held (step p e) es
      ∙ ap (λ l. l ++ taken (step p e) es) (step-held p e)
      ∙ append_assoc (held p) (taken_now p.loop e) (taken (step p e) es)

  -- In every run, at most as many goroutines execute a chunk as the semaphore has permits, and as its other
  -- users leave free; and each chunk that the loop took from the channel has a goroutine, in the order of
  -- the channel, but the one that the loop holds.
  pub executing_jobs-run :
      (w : ℕ) (es : List (Event T E))
      → (executing_jobs (run (new_pool w) es).jobs + (run (new_pool w) es).others ≤ w)
        × (chunks_of (run (new_pool w) es).jobs ++ pending (run (new_pool w) es).loop
            ≡ taken (new_pool w) es)
  unfolding new_pool executing_jobs
  executing_jobs-run w es =
      let (n, h) = run-IsSound w es (new_pool w) (omega arith, (tt, refl, refl, refl)) in
      (omega (arith, n), run-held (new_pool w) es)
