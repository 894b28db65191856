-- ===== src/Database/Exec/Pool/Returns.antt =====
-- `g.Wait` of the bulk executions in database/db.go returns, wherever the loop and the goroutines stand,
-- once the loop has seen the end of the context and the goroutines return, in whatever order.
use icinga_go_library.Prelude.{
  ℕ, zero, suc, ◌≤◌, Bool, subst, ◌∙◌, ◌⊎◌, true, false, ◌||◌, ◌&&◌, Option, some, List, [], ◌∷◌,
  ◌≡◌, refl, arith, ◌==◌, length, inl, inr, Bool-cases,
}
use icinga_go_library.Database.Exec.Pool.{
  Loop, receiving, acquiring, not_acquired, input_over, context_seen, PoolError, Pool, Event,
  receive, closed, acquired, acquire_failed, see_done, parent_canceled, finish, other_acquires,
  other_releases, returned_error, on_acquire_failed, on_done, step, run, is_over, executing_jobs,
  waited, wait,
}
use icinga_go_library.Database.Exec.Pool.Keeps.{
  executing_at, none_executing, executing_at-length, finish-Keeps, step-Keeps,
}

-- Whether the goroutine of a number ends in a list of events, with whatever result.
abbrev pub ends_in : {T E : Type 0} → ℕ → List (Event T E) → Bool
ends_in i [] = false
ends_in i (receive b ∷ es) = ends_in i es
ends_in i (closed ∷ es) = ends_in i es
ends_in i (acquired ∷ es) = ends_in i es
ends_in i (acquire_failed ∷ es) = ends_in i es
ends_in i (see_done ∷ es) = ends_in i es
ends_in i (parent_canceled ∷ es) = ends_in i es
ends_in i (finish j r ∷ es) = (i == j) || ends_in i es
ends_in i (other_acquires ∷ es) = ends_in i es
ends_in i (other_releases ∷ es) = ends_in i es

-- whether each of the first `n` goroutines does
abbrev pub all_end_in : {T E : Type 0} → ℕ → List (Event T E) → Bool
all_end_in zero es = true
all_end_in (suc n) es = ends_in n es && all_end_in n es

module _ {T E : Type 0} where
  -- behind one event
  ends_next :
      (p : Pool T E) (e : Event T E) (es : List (Event T E)) (i : ℕ)
      → is_over p.loop ≡ true
      → (ends_in i (e ∷ es) ≡ true) ⊎ (executing_at i p.jobs ≡ false)
      → (ends_in i es ≡ true) ⊎ (executing_at i (step p e).jobs ≡ false)
  ends_next p e es i o (inr h) = inr ((step-Keeps p e o).1 i h)
  ends_next p (receive b) es i o (inl h) = inl h
  ends_next p closed es i o (inl h) = inl h
  ends_next p acquired es i o (inl h) = inl h
  ends_next p acquire_failed es i o (inl h) = inl h
  ends_next p see_done es i o (inl h) = inl h
  ends_next p parent_canceled es i o (inl h) = inl h
  ends_next p (finish k r) es i o (inl h) = elim (Bool-cases (i == k)) [
    | inl e ↦
        let same : k ≡ i = ground arith in
        inr (
          subst (λ n. executing_at n (step p (finish k r)).jobs ≡ false) same
            (finish-Keeps r k p o).1)
    | inr e ↦ inl (rw e at h)
  ]
  ends_next p other_acquires es i o (inl h) = inl h
  ends_next p other_releases es i o (inl h) = inl h

  run-ended :
      (es : List (Event T E)) (p : Pool T E) (i : ℕ)
      → is_over p.loop ≡ true
      → (ends_in i es ≡ true) ⊎ (executing_at i p.jobs ≡ false)
      → executing_at i (run p es).jobs ≡ false
  unfolding run
  run-ended [] p i o (inl h) = cc
  run-ended [] p i o (inr h) = h
  run-ended (e ∷ es) p i o h =
      run-ended es (step p e) i (step-Keeps p e o).0 (ends_next p e es i o h)

  run-over :
      (es : List (Event T E)) (p : Pool T E)
      → is_over p.loop ≡ true
      → is_over (run p es).loop ≡ true
  unfolding run
  run-over [] p o = o
  run-over (e ∷ es) p o = run-over es (step p e) (step-Keeps p e o).0

  all_end_in-or :
      (n i : ℕ) (es : List (Event T E)) → all_end_in n es ≡ true → (ends_in i es ≡ true) ⊎ (n ≤ i)
  all_end_in-or zero i es h = inr (omega arith)
  all_end_in-or (suc n) i es h = elim (all_end_in-or n i es (ground arith)) [
    | inl e ↦ inl e
    | inr le ↦ elim (Bool-cases (i == n)) [
      | inl e ↦
          let same : n ≡ i = ground arith in
          inl (subst (λ k. ends_in k es ≡ true) same (ground arith))
      | inr e ↦ inr (ground arith)
    ]
  ]

  all_ended :
      (p : Pool T E) (es : List (Event T E))
      → is_over p.loop ≡ true
      → all_end_in (length p.jobs) es ≡ true
      → (o : Option (PoolError E)) × (wait (run p es) ≡ some o)
  unfolding wait waited
  all_ended p es over h =
      let none_left : executing_jobs (run p es).jobs ≡ 0 = none_executing (run p es).jobs (λ i.
        run-ended es p i over (elim (all_end_in-or (length p.jobs) i es h) [
          | inl e ↦ inl e
          | inr le ↦ inr (executing_at-length i p.jobs le)
        ])) in
      ((run p es).error, rw (run-over es p over, none_left) refl)

  end_loop :
      (l : Loop T) (p : Pool T E)
      → p.loop ≡ l
      → p.canceled ≡ true
      → is_over (step (step p acquire_failed) see_done).loop ≡ true
  unfolding step on_acquire_failed on_done returned_error is_over
  end_loop receiving p e c = rw (e, c) refl
  end_loop (acquiring b) p e c = rw (e, c) refl
  end_loop (not_acquired b) p e c = rw e refl
  end_loop input_over p e c = rw e refl
  end_loop context_seen p e c = rw e refl

  end_loop-jobs :
      (l : Loop T) (p : Pool T E)
      → p.loop ≡ l
      → p.canceled ≡ true
      → (step (step p acquire_failed) see_done).jobs ≡ p.jobs
  unfolding step on_acquire_failed on_done returned_error
  end_loop-jobs receiving p e c = rw (e, c) refl
  end_loop-jobs (acquiring b) p e c = rw (e, c) refl
  end_loop-jobs (not_acquired b) p e c = rw e refl
  end_loop-jobs input_over p e c = rw e refl
  end_loop-jobs context_seen p e c = rw e refl

  -- Wherever the loop and the goroutines stand: once the given context has ended and the loop has seen that,
  -- in Acquire or in its select, Wait returns by the time that each goroutine has returned, in whatever
  -- order, with whatever results, and whatever else happens in between.
  pub wait_returns :
      (p : Pool T E) (es : List (Event T E))
      → all_end_in (length p.jobs) es ≡ true
      → (o : Option (PoolError E)) × (wait
            (run p (parent_canceled ∷ acquire_failed ∷ see_done ∷ es))
          ≡ some o)
  unfolding run
  wait_returns p es h =
      let q : Pool T E = step p parent_canceled in
      let jobs : (step (step q acquire_failed) see_done).jobs ≡ p.jobs =
        end_loop-jobs q.loop q refl (unfold step in refl) ∙ (unfold step in refl) in
      all_ended (step (step q acquire_failed) see_done) es
        (end_loop q.loop q refl (unfold step in refl)) (rw jobs h)
