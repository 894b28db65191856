-- ===== src/Database/Exec/Pool/Keeps.antt =====
-- The goroutines of a bulk execution in database/db.go once the loop has returned: none is started, and one
-- that has ended stays so.
use icinga_go_library.Prelude.{
  ℕ, zero, suc, ◌≤◌, Bool, ◌∙◌, true, false, Option, none, some, List, [], ◌∷◌, ◌≡◌, refl, arith,
  length,
}
use icinga_go_library.Database.Exec.Pool.{
  Status, executing, succeeded, failed, Job, Loop, receiving, acquiring, not_acquired, input_over,
  context_seen, Pool, Event, receive, closed, acquired, acquire_failed, see_done, parent_canceled,
  finish, other_acquires, other_releases, status_of, returned_error, on_receive, on_closed,
  on_acquired, on_acquire_failed, on_done, on_finish, on_other_acquires, on_other_releases, end_job,
  end_status, with_job, step, is_over, add_executing, executing_jobs,
}

abbrev is_executing : {E : Type 0} → Status E → Bool
is_executing executing = true
is_executing succeeded = false
is_executing (failed e) = false

-- whether the goroutine of a number is executing
abbrev pub executing_at : {T E : Type 0} → ℕ → List (Job T E) → Bool
executing_at i [] = false
executing_at zero (j ∷ js) = is_executing j.status
executing_at (suc i) (j ∷ js) = executing_at i js

status_of-false : {E : Type 0} (r : Option E) → is_executing (status_of r) ≡ false
unfolding status_of
status_of-false none = refl
status_of-false (some e) = refl

add_executing-false :
    {E : Type 0} (t : Status E) (n : ℕ) → is_executing t ≡ false → add_executing t n ≡ n
unfolding add_executing
add_executing-false executing n h = cc
add_executing-false succeeded n h = refl
add_executing-false (failed e) n h = refl

module _ {T E : Type 0} where
  -- What the end of the goroutine `k` leaves: it does not execute, nor does any that did not before.
  abbrev pub Leaves : ℕ → ℕ → List (Job T E) → Option (List (Job T E)) → Type 0
  Leaves k i js none = (i ≡ k → executing_at i js ≡ false)
  Leaves k i js (some ks) =
      (i ≡ k → executing_at i ks ≡ false) × (executing_at i js ≡ false → executing_at i ks ≡ false)

  end_status-Leaves :
      (r : Option E) (t : Status E) (i : ℕ) (j : Job T E) (js : List (Job T E))
      → j.status ≡ t
      → Leaves zero i (j ∷ js) (end_status (status_of r) j js t)
  unfolding end_status
  end_status-Leaves r executing zero j js h = (λ e. status_of-false r, λ e. status_of-false r)
  end_status-Leaves r executing (suc i) j js h = (λ e. cc, λ e. e)
  end_status-Leaves r succeeded zero j js h = λ e. rw h refl
  end_status-Leaves r succeeded (suc i) j js h = λ e. cc
  end_status-Leaves r (failed x) zero j js h = λ e. rw h refl
  end_status-Leaves r (failed x) (suc i) j js h = λ e. cc

  with_job-Leaves :
      (k i : ℕ) (j : Job T E) (js : List (Job T E)) (o : Option (List (Job T E)))
      → Leaves k i js o
      → Leaves (suc k) (suc i) (j ∷ js) (with_job j o)
  unfolding with_job
  with_job-Leaves k i j js none h = λ e. h (omega (arith, e))
  with_job-Leaves k i j js (some ks) (h, g) = (λ e. h (omega (arith, e)), g)

  with_job-zero :
      (k : ℕ) (j : Job T E) (js : List (Job T E)) (o : Option (List (Job T E)))
      → Leaves (suc k) zero (j ∷ js) (with_job j o)
  unfolding with_job
  with_job-zero k j js none = λ e. absurd (omega (arith, e))
  with_job-zero k j js (some ks) = (λ e. absurd (omega (arith, e)), λ e. e)

  pub end_job-Leaves :
      (r : Option E) (k i : ℕ) (js : List (Job T E)) → Leaves k i js (end_job k (status_of r) js)
  unfolding end_job
  end_job-Leaves r k i [] = λ e. refl
  end_job-Leaves r zero i (j ∷ js) = end_status-Leaves r j.status i j js refl
  end_job-Leaves r (suc k) zero (j ∷ js) = with_job-zero k j js (end_job k (status_of r) js)
  end_job-Leaves r (suc k) (suc i) (j ∷ js) =
      with_job-Leaves k i j js (end_job k (status_of r) js) (end_job-Leaves r k i js)

  pub none_executing :
      (js : List (Job T E)) → ((i : ℕ) → executing_at i js ≡ false) → executing_jobs js ≡ 0
  unfolding executing_jobs
  none_executing [] h = refl
  none_executing (j ∷ js) h =
      add_executing-false j.status (executing_jobs js) (h zero) ∙ none_executing js (λ i. h (suc i))

  pub executing_at-length :
      (i : ℕ) (js : List (Job T E)) → length js ≤ i → executing_at i js ≡ false
  executing_at-length i [] h = refl
  executing_at-length zero (j ∷ js) h = absurd (omega (arith, h))
  executing_at-length (suc i) (j ∷ js) h = executing_at-length i js (omega (arith, h))

  -- The loop has returned, and no goroutine is executing that was not before.
  abbrev pub Keeps : Pool T E → Pool T E → Type 0
  Keeps p q =
      (is_over q.loop ≡ true)
      × ((i : ℕ) → executing_at i p.jobs ≡ false → executing_at i q.jobs ≡ false)

  same_jobs : (p : Pool T E) → is_over p.loop ≡ true → Keeps p p
  same_jobs p o = (o, λ i h. h)

  on_receive-Keeps :
      (l : Loop T) (b : List T) (p : Pool T E)
      → is_over l ≡ true
      → is_over p.loop ≡ true
      → Keeps p (on_receive l b p)
  unfolding on_receive is_over
  on_receive-Keeps receiving b p h o = cc
  on_receive-Keeps (acquiring c) b p h o = cc
  on_receive-Keeps (not_acquired c) b p h o = same_jobs p o
  on_receive-Keeps input_over b p h o = same_jobs p o
  on_receive-Keeps context_seen b p h o = same_jobs p o

  loop-Keeps :
      (l : Loop T) (n : ℕ) (c : Bool) (p : Pool T E)
      → is_over l ≡ true
      → is_over p.loop ≡ true
      → Keeps p (on_closed l p)
        × Keeps p (on_acquired l n p)
        × Keeps p (on_acquire_failed l c p)
        × Keeps p (on_done l c p)
  unfolding on_closed on_acquired on_acquire_failed on_done is_over
  loop-Keeps receiving n c p h o = cc
  loop-Keeps (acquiring b) n c p h o = cc
  loop-Keeps (not_acquired b) n c p h o =
      (same_jobs p o, same_jobs p o, same_jobs p o, same_jobs p o)
  loop-Keeps input_over n c p h o = (same_jobs p o, same_jobs p o, same_jobs p o, same_jobs p o)
  loop-Keeps context_seen n c p h o = (same_jobs p o, same_jobs p o, same_jobs p o, same_jobs p o)

  others-Keeps :
      (n : ℕ) (p : Pool T E)
      → is_over p.loop ≡ true
      → Keeps p (on_other_acquires n p) × Keeps p (on_other_releases n p)
  unfolding on_other_acquires on_other_releases
  others-Keeps zero p o = (same_jobs p o, same_jobs p o)
  others-Keeps (suc n) p o = (same_jobs p o, same_jobs p o)

  on_finish-Keeps :
      (r : Option E) (k : ℕ) (o : Option (List (Job T E))) (p : Pool T E)
      → ((i : ℕ) → Leaves k i p.jobs o)
      → is_over p.loop ≡ true
      → Keeps p (on_finish o r p) × (executing_at k (on_finish o r p).jobs ≡ false)
  unfolding on_finish returned_error
  on_finish-Keeps r k none p h over = (same_jobs p over, h k refl)
  on_finish-Keeps none k (some ks) p h over = ((over, λ i. (h i).1), (h k).0 refl)
  on_finish-Keeps (some e) k (some ks) p h over = ((over, λ i. (h i).1), (h k).0 refl)

  pub finish-Keeps :
      (r : Option E) (k : ℕ) (p : Pool T E)
      → is_over p.loop ≡ true
      → Keeps p (step p (finish k r)) × (executing_at k (step p (finish k r)).jobs ≡ false)
  unfolding step
  finish-Keeps r k p over =
      on_finish-Keeps r k (end_job k (status_of r) p.jobs) p (λ i. end_job-Leaves r k i p.jobs) over

  pub step-Keeps : (p : Pool T E) (e : Event T E) → is_over p.loop ≡ true → Keeps p (step p e)
  unfolding step
  step-Keeps p (receive b) o = on_receive-Keeps p.loop b p o o
  step-Keeps p closed o = (loop-Keeps p.loop zero false p o o).0
  step-Keeps p acquired o = (loop-Keeps p.loop p.free false p o o).1
  step-Keeps p acquire_failed o = (loop-Keeps p.loop zero p.canceled p o o).2
  step-Keeps p see_done o = (loop-Keeps p.loop zero p.canceled p o o).3
  step-Keeps p parent_canceled o = same_jobs p o
  step-Keeps p (finish k r) o = (finish-Keeps r k p o).0
  step-Keeps p other_acquires o = (others-Keeps p.free p o).0
  step-Keeps p other_releases o = (others-Keeps p.others p o).1
