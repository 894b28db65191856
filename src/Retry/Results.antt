-- ===== src/Retry/Results.antt =====
-- What `WithBackoff` of retry/retry.go returns, and which callbacks it makes.
use icinga_go_library.Prelude.{
  ℕ, zero, suc, Bool, true, false, ◌≡◌, ◌≢◌, refl, ap, ◌∙◌, inl, inr, Option, none, some, List, [],
  ◌∷◌, ◌++◌, ◌&&◌, ◌||◌, subst, take, arith,
}
use icinga_go_library.Retry.{
  Settings, context_ended, Round, Call, Outcome, running, returned, returned_nil, Loop, again, stop,
  Run, has_timeout, round, loop, with_backoff, is_context_error, context_over, cant_retry,
  retry_deadline_exceeded, context_done, error_text, text_of,
}
use icinga_go_library.Retry.Rounds.{Next-cases, loop-stop, again_fired, is_fired}

abbrev pub last_round {ℓ} : {A : Type ℓ} → ℕ → List A → Option A
last_round n [] = none
last_round zero (r ∷ rs) = none
last_round (suc zero) (r ∷ rs) = some r
last_round (suc (suc n)) (r ∷ rs) = last_round (suc n) rs

-- the rounds before the last of `n` rounds
abbrev pub before_last {ℓ} : {A : Type ℓ} → ℕ → List A → List A
before_last zero rs = []
before_last (suc n) rs = take n rs

-- whether the timer ran out in a sleep of the rounds
abbrev pub has_fired : {E : Type 0} → List (Round E) → Bool
has_fired [] = false
has_fired (r ∷ rs) = is_fired r.wake || has_fired rs

-- the error of the last one of the rounds, or else of what was before them
abbrev pub last_error : {E : Type 0} → Option E → List (Round E) → Option E
last_error prev [] = prev
last_error prev (r ∷ rs) = last_error r.outcome rs

-- What the last round must have been for an outcome; `fired` tells whether the timer ran out in a sleep
-- before it, `prev` is the error of the round before.
abbrev pub Explains :
    {E : Type 0} → (E → Bool) → Settings → Bool → Option E → Round E → Outcome E → Type 0
Explains retryable settings fired prev r returned_nil = r.outcome ≡ none
Explains retryable settings fired prev r (returned (context_over e message)) =
    (r.outcome ≡ some e) × (is_context_error r.context ≡ true) × (message ≡ text_of prev)
Explains retryable settings fired prev r (returned (cant_retry e)) =
    (r.outcome ≡ some e) × (is_context_error r.context ≡ false) × (retryable e ≡ false)
Explains retryable settings fired prev r (returned (retry_deadline_exceeded e)) =
    (r.outcome ≡ some e)
    × (is_context_error r.context ≡ false)
    × (retryable e ≡ true)
    × ((has_timeout settings && (fired || r.expired)) ≡ true)
Explains retryable settings fired prev r (returned (context_done c (error_text e))) =
    (r.outcome ≡ some e)
    × (is_context_error r.context ≡ false)
    × (retryable e ≡ true)
    × ((has_timeout settings && (fired || r.expired)) ≡ false)
    × (r.wake ≡ context_ended c)
Explains retryable settings fired prev r running = ⊥

module _ {E : Type 0} (retryable : E → Bool) (b : ℕ → ℕ) (settings : Settings) where
  Explains-stop :
      (fired : Bool) (s : Loop E) (r : Round E) (o : Outcome E) {calls : List (Call E)}
      → s.timed_out ≡ (has_timeout settings && fired)
      → round retryable b settings s r ≡ stop o calls
      → Explains retryable settings fired s.prev r o
  unfolding round text_of
  Explains-stop fired s r returned_nil t h = ground arith
  Explains-stop fired s r (returned (context_over e m)) t h = ground arith
  Explains-stop fired s r (returned (cant_retry e)) t h = ground arith
  Explains-stop fired s r (returned (retry_deadline_exceeded e)) t h = ground arith
  Explains-stop fired s r (returned (context_done c (error_text e))) t h = ground arith
  Explains-stop fired s r running t h = ground arith

  again_prev :
      (s : Loop E) (r : Round E) {s' : Loop E} {calls : List (Call E)}
      → round retryable b settings s r ≡ again s' calls
      → s'.prev ≡ r.outcome
  unfolding round
  again_prev s r h = ground arith

  pub result-again :
      (s : Loop E) (r : Round E) (rs : List (Round E)) {s' : Loop E} {calls : List (Call E)}
      → round retryable b settings s r ≡ again s' calls
      → loop retryable b settings s (r ∷ rs) ≡ (
          let rest = loop retryable b settings s' rs in
          record { rounds = suc rest.rounds; calls = calls ++ rest.calls; result = rest.result })
  unfolding loop
  result-again s r rs h = rw (h, loop)

  -- `fired` and `prev` are told of what was before the rounds.
  abbrev EndsWith : Bool → Option E → List (Round E) → Run E → Type 0
  EndsWith fired prev rs run =
      (r : Round E) × (last_round run.rounds rs ≡ some r)
      × Explains retryable settings (fired || has_fired (before_last run.rounds rs))
          (last_error prev (before_last run.rounds rs)) r run.result

  last_round_later :
      (r : Round E) (rs : List (Round E)) (run : Run E) {x : Round E}
      → last_round run.rounds rs ≡ some x
      → last_round (suc run.rounds) (r ∷ rs) ≡ some x
  last_round_later r rs run h = go run.rounds rs h
    where
      go :
          (n : ℕ) (rs : List (Round E)) {x : Round E}
          → last_round n rs ≡ some x
          → last_round (suc n) (r ∷ rs) ≡ some x
      go zero [] h = cc
      go zero (q ∷ rs) h = cc
      go (suc n) rs h = h

  or_assoc : (x y z : Bool) → ((x || y) || z) ≡ (x || (y || z))
  or_assoc x y z = ground arith

  or_false : (x : Bool) → (x || false) ≡ x
  or_false x = ground arith

  Explains-later :
      (fired : Bool) (prev : Option E) (r : Round E) (n : ℕ) (rs : List (Round E)) (x : Round E)
      (o : Outcome E)
      → last_round n rs ≡ some x
      → Explains retryable settings
          ((fired || is_fired r.wake) || has_fired (before_last n rs))
          (last_error r.outcome (before_last n rs))
          x
          o
      → Explains retryable settings
          (fired || has_fired (before_last (suc n) (r ∷ rs)))
          (last_error prev (before_last (suc n) (r ∷ rs)))
          x
          o
  Explains-later fired prev r zero [] x o h why = cc
  Explains-later fired prev r zero (q ∷ rs) x o h why = cc
  Explains-later fired prev r (suc n) rs x o h why =
      subst (λ t. Explains retryable settings t (last_error r.outcome (take n rs)) x o)
        (or_assoc fired (is_fired r.wake) (has_fired (take n rs))) why

  loop-EndsWith :
      (rs : List (Round E)) (fired : Bool) (s : Loop E)
      → s.timed_out ≡ (has_timeout settings && fired)
      → (loop retryable b settings s rs).result ≢ running
      → EndsWith fired s.prev rs (loop retryable b settings s rs)
  loop-EndsWith [] fired s t h = absurd (unfold loop in h refl)
  loop-EndsWith (r ∷ rs) fired s t h =
      elim (Next-cases retryable b settings (round retryable b settings s r)) [
        | inl (s', calls, e) ↦
            let run = loop retryable b settings s' rs in
            let (x, at_end, why) =
              loop-EndsWith rs (fired || is_fired r.wake) s'
                (again_fired retryable b settings fired s r t e)
                (λ k. h (ap (λ (x : Run E). x.result) (result-again s r rs e) ∙ k)) in
            rw (result-again s r rs e) (
              x,
              last_round_later r rs run at_end,
              Explains-later fired s.prev r run.rounds rs x run.result at_end (
                  subst
                    (λ p.
                      Explains retryable settings
                        ((fired || is_fired r.wake) || has_fired (before_last run.rounds rs))
                        (last_error p (before_last run.rounds rs)) x run.result)
                    (again_prev s r e) why),
            )
        | inr (o, calls, e) ↦
            rw (loop-stop retryable b settings s r rs e)
              (r, refl, rw (or_false fired) (Explains-stop fired s r o t e))
      ]

-- Whatever WithBackoff returns, the last attempt and the rounds before it explain it: nil exactly where the
-- function returned nil; and an error for the reason that its message names, with the deadline exceeded
-- only if the timer ran out before the end of the function or in an earlier sleep. It wraps what the last
-- attempt returned, with the text of the error before where the context is over; only if the context ends
-- in the sleep, it wraps the context's error, with the text of what the last attempt returned.
pub with_backoff-Explains :
    {E : Type 0} (retryable : E → Bool) (b : ℕ → ℕ) (settings : Settings) (rs : List (Round E))
    → (with_backoff retryable b settings rs).result ≢ running
    → (r : Round E) × (last_round (with_backoff retryable b settings rs).rounds rs ≡ some r)
      × Explains retryable settings
          (has_fired (before_last (with_backoff retryable b settings rs).rounds rs))
          (last_error none (before_last (with_backoff retryable b settings rs).rounds rs))
          r
          (with_backoff retryable b settings rs).result
unfolding with_backoff
with_backoff-Explains {E} retryable b settings rs h =
    let start : Loop E = record { attempt = 1; prev = none; timed_out = false } in
    loop-EndsWith retryable b settings rs false start (ground arith) h
