-- ===== src/Retry/Rounds.antt =====
-- How often `WithBackoff` of retry/retry.go calls its function, and what it returns.
use icinga_go_library.Prelude.{
  ℕ, zero, suc, ◌+◌, ◌≤◌, ◌<◌, Bool, true, false, ◌&&◌, ◌||◌, sym, ◌≡◌, refl, ap, ◌∙◌, ◌⊎◌, inl,
  inr, none, some, List, [], ◌∷◌, ◌++◌, length, take, All, arith,
}
use icinga_go_library.Retry.{
  Settings, Wake, slept, timer_fired, context_ended, Round, Call, Outcome, Loop, Next, again, stop,
  Run, has_timeout, round, loop, with_backoff, is_context_error,
}

abbrev pub is_fired : Wake → Bool
is_fired slept = false
is_fired timer_fired = true
is_fired (context_ended c) = false

-- What a round must show for another attempt: its function failed with a retryable error, the context was
-- alive, the timer had run out neither in the sleep behind an earlier round (`fired`) nor up to the end of
-- the function, and the sleep was not ended by the context.
pub record IsRetried {E : Type 0} (retryable : E → Bool) (settings : Settings) (fired : Bool)
    (r : Round E) : Type 0 where
  pub failed : (e : E) × (r.outcome ≡ some e) × (retryable e ≡ true)
  pub context_alive : is_context_error r.context ≡ false
  pub in_time : (has_timeout settings && (fired || r.expired)) ≡ false
  pub sleeps : (r.wake ≡ slept) ⊎ (r.wake ≡ timer_fired)

-- all rounds of a list, which stands behind rounds of which `fired` is told
abbrev pub AreRetried : {E : Type 0} → (E → Bool) → Settings → Bool → List (Round E) → Type 0
AreRetried retryable settings fired [] = Unit
AreRetried retryable settings fired (r ∷ rs) =
    IsRetried retryable settings fired r
    × AreRetried retryable settings (fired || is_fired r.wake) rs

pub AreRetried-All :
    {E : Type 0} (retryable : E → Bool) (settings : Settings) (P : Round E → Type 0)
    (implies : (t : Bool) (r : Round E) → IsRetried retryable settings t r → P r) (fired : Bool)
    (rs : List (Round E))
    → AreRetried retryable settings fired rs
    → All P rs
AreRetried-All retryable settings P implies fired [] h = tt
AreRetried-All retryable settings P implies fired (r ∷ rs) (x, h) =
    (implies fired r x, AreRetried-All retryable settings P implies (fired || is_fired r.wake) rs h)

module _ {E : Type 0} (retryable : E → Bool) (b : ℕ → ℕ) (settings : Settings) where
  pub Next-cases :
      (n : Next E)
      → ((s : Loop E) × (calls : List (Call E)) × (n ≡ again s calls))
        ⊎ ((o : Outcome E) × (calls : List (Call E)) × (n ≡ stop o calls))
  Next-cases (again s calls) = inl (s, calls, refl)
  Next-cases (stop o calls) = inr (o, calls, refl)

  round_again :
      (fired : Bool) (s : Loop E) (r : Round E) {s' : Loop E} {calls : List (Call E)}
      → s.timed_out ≡ (has_timeout settings && fired)
      → round retryable b settings s r ≡ again s' calls
      → IsRetried retryable settings fired r
  unfolding round
  round_again true s r t h = ground arith
  round_again false s r t h = ground arith

  pub loop-again :
      (s : Loop E) (r : Round E) (rs : List (Round E)) {s' : Loop E} {calls : List (Call E)}
      → round retryable b settings s r ≡ again s' calls
      → (loop retryable b settings s (r ∷ rs)).rounds ≡ suc (loop retryable b settings s' rs).rounds
  unfolding loop
  loop-again s r rs h = rw (h, loop)

  pub loop-stop :
      (s : Loop E) (r : Round E) (rs : List (Round E)) {o : Outcome E} {calls : List (Call E)}
      → round retryable b settings s r ≡ stop o calls
      → loop retryable b settings s (r ∷ rs) ≡ record { rounds = 1; calls = calls; result = o }
  unfolding loop
  loop-stop s r rs h = rw (h, loop)

  -- what holds of the loop's variables before and after a round that goes on
  again_in_time :
      (s : Loop E) (r : Round E) {s' : Loop E} {calls : List (Call E)}
      → round retryable b settings s r ≡ again s' calls
      → (s.timed_out ≡ false) × (r.wake ≡ timer_fired → s'.timed_out ≡ has_timeout settings)
  unfolding round
  again_in_time s r h = ground arith

  again_slept :
      (s : Loop E) (r : Round E) {s' : Loop E} {calls : List (Call E)}
      → round retryable b settings s r ≡ again s' calls
      → s'.timed_out ≡ (has_timeout settings && is_fired r.wake)
  unfolding round
  again_slept s r h = ground arith

  or_again : (h t w : Bool) → (h && t) ≡ false → (h && w) ≡ (h && (t || w))
  or_again h t w e = ground arith

  -- `timed_out` tells whether the timer has run out in a sleep.
  pub again_fired :
      (fired : Bool) (s : Loop E) (r : Round E) {s' : Loop E} {calls : List (Call E)}
      → s.timed_out ≡ (has_timeout settings && fired)
      → round retryable b settings s r ≡ again s' calls
      → s'.timed_out ≡ (has_timeout settings && (fired || is_fired r.wake))
  again_fired fired s r t h =
      again_slept s r h
      ∙ or_again (has_timeout settings) fired (is_fired r.wake) (sym t ∙ (again_in_time s r h).0)

  rounds_one :
      (s : Loop E) (r : Round E) (rs : List (Round E)) {o : Outcome E} {calls : List (Call E)}
      → round retryable b settings s r ≡ stop o calls
      → (k : ℕ) → ¬ (suc k < (loop retryable b settings s (r ∷ rs)).rounds)
  rounds_one s r rs e k h = omega (arith, ap (λ (x : Run E). x.rounds) (loop-stop s r rs e))

  take-AreRetried :
      (k : ℕ) (rs : List (Round E)) (fired : Bool) (s : Loop E)
      → s.timed_out ≡ (has_timeout settings && fired)
      → k < (loop retryable b settings s rs).rounds
      → AreRetried retryable settings fired (take k rs)
  take-AreRetried zero rs fired s t h = tt
  take-AreRetried (suc k) [] fired s t h = tt
  take-AreRetried (suc k) (r ∷ rs) fired s t h =
      elim (Next-cases (round retryable b settings s r)) [
        | inl (s', calls, e) ↦ (
          round_again fired s r t e,
          take-AreRetried k rs (fired || is_fired r.wake) s' (again_fired fired s r t e)
              (omega (arith, loop-again s r rs e)),
        )
        | inr (o, calls, e) ↦ absurd (rounds_one s r rs e k h)
      ]

  rounds-le-one :
      (rs : List (Round E)) (s : Loop E)
      → s.timed_out ≡ true
      → (loop retryable b settings s rs).rounds ≤ 1
  rounds-le-one [] s h = unfold loop in omega arith
  rounds-le-one (r ∷ rs) s h = elim (Next-cases (round retryable b settings s r)) [
    | inl (s', calls, e) ↦ cc ((again_in_time s r e).0, h)
    | inr (o, calls, e) ↦ rw (loop-stop s r rs e) (omega arith)
  ]

  rounds_timer :
      (ps : List (Round E)) (r : Round E) (rs : List (Round E)) (s : Loop E)
      → has_timeout settings ≡ true
      → r.wake ≡ timer_fired
      → (loop retryable b settings s (ps ++ r ∷ rs)).rounds ≤ length ps + 2
  rounds_timer [] r rs s h w = elim (Next-cases (round retryable b settings s r)) [
    | inl (s', calls, e) ↦
        rw (loop-again s r rs e)
          (omega (arith, rounds-le-one rs s' ((again_in_time s r e).1 w ∙ h)))
    | inr (o, calls, e) ↦ rw (loop-stop s r rs e) (omega arith)
  ]
  rounds_timer (p ∷ ps) r rs s h w = elim (Next-cases (round retryable b settings s p)) [
    | inl (s', calls, e) ↦
        rw (loop-again s p (ps ++ r ∷ rs) e) (omega (arith, rounds_timer ps r rs s' h w))
    | inr (o, calls, e) ↦ rw (loop-stop s p (ps ++ r ∷ rs) e) (omega arith)
  ]

-- The attempts of WithBackoff before the last one each failed with a retryable error, in a live context,
-- with the timer not run out, neither at the end of the function nor in an earlier sleep: nothing else is
-- ever retried.
pub with_backoff-AreRetried :
    {E : Type 0} (retryable : E → Bool) (b : ℕ → ℕ) (settings : Settings) (rs : List (Round E))
    (k : ℕ)
    → k < (with_backoff retryable b settings rs).rounds
    → AreRetried retryable settings false (take k rs)
unfolding with_backoff
with_backoff-AreRetried retryable b settings rs k h =
    take-AreRetried retryable b settings k rs false
      (record { attempt = 1; prev = none; timed_out = false }) (ground arith) h

-- With a timeout: if the timer runs out in the sleep behind an attempt, at most one more attempt is
-- made, whatever that attempt and the environment do.
pub rounds-with_backoff_timer :
    {E : Type 0} (retryable : E → Bool) (b : ℕ → ℕ) (settings : Settings) (ps : List (Round E))
    (r : Round E) (rs : List (Round E))
    → has_timeout settings ≡ true
    → r.wake ≡ timer_fired
    → (with_backoff retryable b settings (ps ++ r ∷ rs)).rounds ≤ length ps + 2
unfolding with_backoff
rounds-with_backoff_timer retryable b settings ps r rs h w =
    rounds_timer retryable b settings ps r rs
      (record { attempt = 1; prev = none; timed_out = false }) h w
