-- ===== src/Retry/Callbacks.antt =====
-- The sleeps of `WithBackoff` of retry/retry.go and its calls of OnSuccess.
use icinga_go_library.Prelude.{
  ℕ, zero, suc, ◌+◌, ◌≤◌, Bool, false, ◌≡◌, refl, sym, ap, ◌∙◌, inl, inr, none, List, [], ◌∷◌, ◌++◌,
  length, if◌then◌else◌, arith,
}
use icinga_go_library.Retry.{
  Settings, Round, Call, success, retryable_error, sleep, Outcome, running, returned, returned_nil,
  Loop, again, stop, Run, round, loop, with_backoff, next_attempt,
}
use icinga_go_library.Retry.Rounds.{Next-cases, loop-stop}
use icinga_go_library.Retry.Results.{result-again}

-- the delays of the sleeps, in order
abbrev pub sleeps : {E : Type 0} → List (Call E) → List ℕ
sleeps [] = []
sleeps (success n p ∷ cs) = sleeps cs
sleeps (retryable_error n e p ∷ cs) = sleeps cs
sleeps (sleep d ∷ cs) = d ∷ sleeps cs

-- the calls of OnSuccess
abbrev pub successes : {E : Type 0} → List (Call E) → ℕ
successes [] = 0
successes (success n p ∷ cs) = suc (successes cs)
successes (retryable_error n e p ∷ cs) = successes cs
successes (sleep d ∷ cs) = successes cs

-- the calls of OnSuccess that a run with that outcome owes
abbrev pub owed : {E : Type 0} → Settings → Outcome E → ℕ
owed settings returned_nil = if settings.on_success then 1 else 0
owed settings (returned e) = 0
owed settings running = 0

-- the first `k` delays of a policy from an attempt on
abbrev pub delays : (ℕ → ℕ) → ℕ → ℕ → List ℕ
delays b attempt zero = []
delays b attempt (suc k) = b attempt ∷ delays b (next_attempt attempt) k

sleeps-append : {E : Type 0} (cs ds : List (Call E)) → sleeps (cs ++ ds) ≡ sleeps cs ++ sleeps ds
sleeps-append [] ds = refl
sleeps-append (success n p ∷ cs) ds = sleeps-append cs ds
sleeps-append (retryable_error n e p ∷ cs) ds = sleeps-append cs ds
sleeps-append (sleep d ∷ cs) ds = ap (λ l. d ∷ l) (sleeps-append cs ds)

successes-append :
    {E : Type 0} (cs ds : List (Call E)) → successes (cs ++ ds) ≡ successes cs + successes ds
successes-append [] ds = omega arith
successes-append (success n p ∷ cs) ds = omega (arith, successes-append cs ds)
successes-append (retryable_error n e p ∷ cs) ds = successes-append cs ds
successes-append (sleep d ∷ cs) ds = successes-append cs ds

module _ {E : Type 0} (retryable : E → Bool) (b : ℕ → ℕ) (settings : Settings) where
  calls-again :
      (s : Loop E) (r : Round E) {s' : Loop E} {calls : List (Call E)}
      → round retryable b settings s r ≡ again s' calls
      → (sleeps calls ≡ b s.attempt ∷ [])
        × (successes calls ≡ 0)
        × (s'.attempt ≡ next_attempt s.attempt)
  unfolding round
  calls-again s r h = ground arith

  calls-stop :
      (s : Loop E) (r : Round E) {o : Outcome E} {calls : List (Call E)}
      → round retryable b settings s r ≡ stop o calls
      → (sleeps calls ≡ delays b s.attempt (length (sleeps calls)))
        × (successes calls ≡ owed settings o)
        × (length (sleeps calls) ≤ 1)
  unfolding round
  calls-stop s r {o = returned_nil} h = ground arith
  calls-stop s r {o = returned e} h = ground arith
  calls-stop s r {o = running} h = ground arith

  record HasCalls (attempt : ℕ) (run : Run E) : Type 0 where
    slept : sleeps run.calls ≡ delays b attempt (length (sleeps run.calls))
    at_least : run.rounds ≤ length (sleeps run.calls) + 1
    at_most : length (sleeps run.calls) ≤ run.rounds
    reported : successes run.calls ≡ owed settings run.result

  HasCalls-again :
      (s s' : Loop E) (calls : List (Call E)) (rest : Run E)
      → (sleeps calls ≡ b s.attempt ∷ [])
        × (successes calls ≡ 0)
        × (s'.attempt ≡ next_attempt s.attempt)
      → HasCalls s'.attempt rest
      → HasCalls s.attempt
          (record { rounds = suc rest.rounds; calls = calls ++ rest.calls; result = rest.result })
  HasCalls-again s s' calls rest (one_sleep, no_success, next) h =
      let both = sleeps-append calls rest.calls ∙ ap (λ l. l ++ sleeps rest.calls) one_sleep in
      let count = ap (length {0}) both in
      record {
        slept =
            both
            ∙ (ap (λ l. b s.attempt ∷ l)
                  (h.slept ∙ ap (λ n. delays b n (length (sleeps rest.calls))) next)
                ∙ ap (delays b s.attempt) (sym count));
        at_least = omega (arith, count, h.at_least);
        at_most = omega (arith, count, h.at_most);
        reported = omega (arith, successes-append calls rest.calls, h.reported);
      }

  HasCalls-stop :
      (s : Loop E) (r : Round E) (calls : List (Call E)) (o : Outcome E)
      → round retryable b settings s r ≡ stop o calls
      → HasCalls s.attempt (record { rounds = 1; calls = calls; result = o })
  HasCalls-stop s r calls o e =
      let (slept, reported, few) = calls-stop s r e in
      record { slept = slept; at_least = omega arith; at_most = few; reported = reported }

  loop-HasCalls :
      (rs : List (Round E)) (s : Loop E) → HasCalls s.attempt (loop retryable b settings s rs)
  loop-HasCalls [] s =
      unfold loop in
      record { slept = refl; at_least = omega arith; at_most = omega arith; reported = refl }
  loop-HasCalls (r ∷ rs) s =
      elim (Next-cases retryable b settings (round retryable b settings s r)) [
        | inl (s', calls, e) ↦ rw (result-again retryable b settings s r rs e) (
            HasCalls-again s s' calls (loop retryable b settings s' rs) (calls-again s r e)
              (loop-HasCalls rs s'))
        | inr (o, calls, e) ↦
            rw (loop-stop retryable b settings s r rs e) (HasCalls-stop s r calls o e)
      ]

-- The sleeps of `WithBackoff` are, in order, the delays of the attempts from 1 on; they are as
-- many as the attempts or one fewer. `OnSuccess` is called once where it is set and nil is
-- returned, and else never.
pub with_backoff_calls :
    {E : Type 0} (retryable : E → Bool) (b : ℕ → ℕ) (settings : Settings) (rs : List (Round E))
    → let run = with_backoff retryable b settings rs in
      (sleeps run.calls ≡ delays b 1 (length (sleeps run.calls)))
      × (run.rounds ≤ length (sleeps run.calls) + 1)
      × (length (sleeps run.calls) ≤ run.rounds)
      × (successes run.calls ≡ owed settings run.result)
unfolding with_backoff
with_backoff_calls {E} retryable b settings rs =
    let start : Loop E = record { attempt = 1; prev = none; timed_out = false } in
    let h = loop-HasCalls retryable b settings rs start in
    (h.slept, h.at_least, h.at_most, h.reported)
