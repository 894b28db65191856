-- ===== src/Database/Connector/Clean.antt =====
-- database/driver.go: Connect leaves no connection open but the one that it returns.
use icinga_go_library.Prelude.{
  ℕ, zero, suc, ◌+◌, ◌≡◌, ◌≢◌, refl, Bool, true, false, Option, none, some, List, [], ◌∷◌, ◌++◌,
  take, if◌then◌else◌, ◌==◌, All, arith, ◌⊎◌, inl, inr, ap, subst, Option-cases, append_assoc,
  append-nil,
}
use icinga_go_library.Retry.{
  Round, Outcome, returned_nil, returned, running, with_backoff, context_over, cant_retry,
  retry_deadline_exceeded, context_done, error_text,
}
use icinga_go_library.Retry.Rounds.{AreRetried-All, with_backoff-AreRetried}
use icinga_go_library.Retry.Results.{last_round, Explains, with_backoff-Explains}
use icinga_go_library.Database.Exec.Retried.{ends_after_one}
use icinga_go_library.Database.Connector.{
  Act, opened, init_called, closed, Answer, connect_settings, initialised, dialled, attempt,
  attempt_round, rounds_from, acts_from, conn_from, connect, connect_acts, connect_conn,
}

abbrev remove : ℕ → List ℕ → List ℕ
remove i [] = []
remove i (j ∷ js) = if i == j then js else j ∷ remove i js

-- the connections that are open behind what was done
abbrev pub still_open : List ℕ → List Act → List ℕ
still_open conns [] = conns
still_open conns (opened i ∷ acts) = still_open (i ∷ conns) acts
still_open conns (init_called i ∷ acts) = still_open conns acts
still_open conns (closed i ∷ acts) = still_open (remove i conns) acts

still_open-append :
    (conns : List ℕ) (xs ys : List Act)
    → still_open conns (xs ++ ys) ≡ still_open (still_open conns xs) ys
still_open-append conns [] ys = refl
still_open-append conns (opened i ∷ xs) ys = still_open-append (i ∷ conns) xs ys
still_open-append conns (init_called i ∷ xs) ys = still_open-append conns xs ys
still_open-append conns (closed i ∷ xs) ys = still_open-append (remove i conns) xs ys

module _ {E : Type 0} where
  -- A failed attempt leaves the connections as they were.
  dialled-failed :
      (has_init : Bool) (i : ℕ) (conns : List ℕ) (dial init : Option E)
      → (dialled has_init i dial init).outcome ≢ none
      → still_open conns (dialled has_init i dial init).acts ≡ conns
  unfolding dialled initialised
  dialled-failed has_init i conns (some e) init h = refl
  dialled-failed true i conns none none h = absurd (h refl)
  dialled-failed true i conns none (some e) h = ground arith
  dialled-failed false i conns none init h = absurd (h refl)

  dialled-done :
      (has_init : Bool) (i : ℕ) (dial init : Option E)
      → (dialled has_init i dial init).outcome ≡ none
      → (still_open [] (dialled has_init i dial init).acts ≡ i ∷ [])
        × ((dialled has_init i dial init).conn ≡ some i)
        × ((dialled has_init i dial init).acts
            ≡ opened i ∷ (if has_init then init_called i ∷ [] else []))
        × ((has_init ≡ false) ⊎ (init ≡ none))
  unfolding dialled initialised
  dialled-done has_init i (some e) init h = cc
  dialled-done true i none none h = (refl, refl, refl, inr refl)
  dialled-done true i none (some e) h = cc
  dialled-done false i none init h = (refl, refl, refl, inl refl)

-- A connection that is returned is open, alone, and was initialised last.
abbrev pub IsHandedOut : Bool → List Act → Option ℕ → Type 0
IsHandedOut has_init acts conn =
    (j : ℕ) × (xs : List Act) × (acts
      ≡ xs ++ (opened j ∷ (if has_init then init_called j ∷ [] else [])))
    × (conn ≡ some j)
    × (still_open [] acts ≡ j ∷ [])

module _ {E : Type 0} (has_init : Bool) where
  abbrev IsFailed : Round E → Type 0
  IsFailed r = r.outcome ≢ none

  -- attempts that failed, up to the last one
  up_to_last :
      (n : ℕ) (answers : List (Answer E)) (r : Round E) (i : ℕ) (c : Option ℕ)
      → All IsFailed (take n (rounds_from has_init i answers))
      → last_round (suc n) (rounds_from has_init i answers) ≡ some r
      → (j : ℕ) × (a : Answer E) × (xs : List Act) × (attempt_round has_init j a ≡ r)
        × (acts_from has_init i (take (suc n) answers) ≡ xs ++ (attempt has_init j a).acts)
        × (still_open [] xs ≡ [])
        × (conn_from has_init c i (take (suc n) answers) ≡ (attempt has_init j a).conn)
  unfolding rounds_from acts_from conn_from
  up_to_last n [] r i c hs at_end = cc
  up_to_last zero (a ∷ answers) r i c hs at_end =
      (i, a, [], cc, append-nil (attempt has_init i a).acts, refl, refl)
  up_to_last (suc n) (a ∷ answers) r i c (h, hs) at_end =
      let (j, b, xs, e, acts, none_open, conn) =
        up_to_last n answers r (i + 1) (attempt has_init i a).conn hs at_end in
      let unchanged : still_open [] (attempt has_init i a).acts ≡ [] =
        unfold attempt attempt_round in dialled-failed has_init i [] a.dial a.init h in
      (
        j,
        b,
        (attempt has_init i a).acts ++ xs,
        e,
        rw (acts, append_assoc (attempt has_init i a).acts xs (attempt has_init j b).acts) refl,
        rw (still_open-append [] (attempt has_init i a).acts xs, unchanged) none_open,
        conn,
      )

  -- what is left where the last attempt had an outcome
  abbrev Left : Option E → List Act → Option ℕ → Type 0
  Left o acts conn =
      ((o ≡ none) × IsHandedOut has_init acts conn) ⊎ ((o ≢ none) × (still_open [] acts ≡ []))

  attempt-Left :
      (j : ℕ) (a : Answer E) (xs : List Act)
      → still_open [] xs ≡ []
      → Left
          (attempt has_init j a).outcome
          (xs ++ (attempt has_init j a).acts)
          (attempt has_init j a).conn
  unfolding attempt
  attempt-Left j a xs h = elim (Option-cases (dialled has_init j a.dial a.init).outcome) [
    | inl e ↦
        let (alone, conn, acts, ready) = dialled-done has_init j a.dial a.init e in
        inl (
          e,
          (
            j,
            xs,
            rw acts refl,
            conn,
            rw (still_open-append [] xs (dialled has_init j a.dial a.init).acts, h) alone,
          ),
        )
    | inr (x, e) ↦
        let failed : (dialled has_init j a.dial a.init).outcome ≢ none = λ k. cc in
        inr (
          failed,
          rw (still_open-append [] xs (dialled has_init j a.dial a.init).acts, h)
              (dialled-failed has_init j [] a.dial a.init failed),
        )
  ]

  outcome_of :
      (retryable : E → Bool) (fired : Bool) (prev : Option E) (r : Round E) (o : Outcome E)
      → Explains retryable connect_settings fired prev r o
      → ((r.outcome ≡ none) × (o ≡ returned_nil)) ⊎ ((r.outcome ≢ none) × (o ≢ returned_nil))
  outcome_of retryable t p r returned_nil h = inl (h, refl)
  outcome_of retryable t p r (returned (context_over e m)) h = inr (λ k. cc, λ k. cc)
  outcome_of retryable t p r (returned (cant_retry e)) h = inr (λ k. cc, λ k. cc)
  outcome_of retryable t p r (returned (retry_deadline_exceeded e)) h = inr (λ k. cc, λ k. cc)
  outcome_of retryable t p r (returned (context_done c (error_text e))) h = inr (λ k. cc, λ k. cc)
  outcome_of retryable t p r running h = absurd h

  decided :
      (res : Outcome E) (o : Option E) (acts : List Act) (conn : Option ℕ)
      → ((o ≡ none) × (res ≡ returned_nil)) ⊎ ((o ≢ none) × (res ≢ returned_nil))
      → Left o acts conn
      → ((res ≡ returned_nil) × IsHandedOut has_init acts conn)
        ⊎ ((res ≢ returned_nil) × (still_open [] acts ≡ []))
  decided res o acts conn (inl (e, nil)) (inl (f, out)) = inl (nil, out)
  decided res o acts conn (inl (e, nil)) (inr (f, out)) = absurd (f e)
  decided res o acts conn (inr (e, not_nil)) (inl (f, out)) = absurd (e f)
  decided res o acts conn (inr (e, not_nil)) (inr (f, out)) = inr (not_nil, out)

  -- Whatever the driver, OnInitConn, the context and the timer answer: if these answers bring Connect to
  -- its end, it has returned either nil with a connection whose opening, and initialising where OnInitConn
  -- is set, was the last thing that it did, and which is the only one still open; or an error, with every
  -- connection that it opened closed.
  pub connect_lem :
      (retryable : E → Bool) (delays : ℕ → ℕ) (answers : List (Answer E))
      → (connect has_init retryable delays answers).result ≢ running
      → (((connect has_init retryable delays answers).result ≡ returned_nil)
          × IsHandedOut has_init
              (connect_acts has_init retryable delays answers)
              (connect_conn has_init retryable delays answers))
        ⊎ (((connect has_init retryable delays answers).result ≢ returned_nil)
            × (still_open [] (connect_acts has_init retryable delays answers) ≡ []))
  unfolding connect connect_acts connect_conn
  connect_lem retryable delays answers h =
      let rs = rounds_from has_init 1 answers in
      let run = with_backoff retryable delays connect_settings rs in
      let (r, at_end, why) = with_backoff-Explains retryable delays connect_settings rs h in
      let (m, e) = ends_after_one run.rounds rs r at_end in
      let retried =
        with_backoff-AreRetried retryable delays connect_settings rs m (omega (arith, e)) in
      let failed =
        AreRetried-All retryable connect_settings IsFailed
          (λ t x i k. let (f, is_f, _) = i.failed in cc) false (take m rs) retried in
      let (j, a, xs, same, acts, none_open, conn) =
        up_to_last m answers r 1 none failed (subst (λ n. last_round n rs ≡ some r) e at_end) in
      let outcome : (attempt has_init j a).outcome ≡ r.outcome =
        ap (λ (q : Round E). q.outcome) (unfold attempt_round in same) in
      rw (e, acts, conn)
        (decided run.result (attempt has_init j a).outcome (xs ++ (attempt has_init j a).acts)
          (attempt has_init j a).conn (rw outcome (outcome_of retryable _ _ r run.result why))
          (attempt-Left j a xs none_open))
