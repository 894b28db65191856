-- ===== src/Retry/Messages.antt =====
-- What the callbacks of the retry settings log that database/db.go (GetDefaultRetrySettings),
-- database/driver.go and redis/client.go give to WithBackoff; `message` is the text of an error.
use icinga_go_library.Prelude.{
  ℕ, Bool, true, not, pos, Option, none, some, List, [], ◌∷◌, ◌++◌, Text, text_eq, ltb, ◌≡◌, refl,
  ap, inl, inr, ◌⊎◌, subst, arith, Option-cases, if◌then◌else◌, Bool-cases,
}
use icinga_go_library.Retry.{
  Settings, Round, Call, success, retryable_error, sleep, Outcome, Loop, again, stop, round, loop,
  with_backoff,
}
use icinga_go_library.Retry.Rounds.{Next-cases, loop-stop}
use icinga_go_library.Retry.Results.{result-again}

pub data Line (E : Type 0) : Type 0 where
  retrying : E → Line E
  recovered : ℕ → Option E → Line E

unfoldable pub default_retry_settings : Settings
default_retry_settings = record {
  timeout = pos 300_000_000_000;
  on_retryable_error = true;
  on_success = true;
}

module _ {E : Type 0} (message : E → Text) where
  unfoldable pub is_new : E → Option E → Bool
  is_new e none = true
  is_new e (some d) = not (text_eq (message e) (message d))

  unfoldable pub logged_call : Call E → List (Line E)
  unfolding is_new
  logged_call (retryable_error n e prev) = if is_new e prev then retrying e ∷ [] else []
  logged_call (success n prev) = if ltb 1 n then recovered n prev ∷ [] else []
  logged_call (sleep d) = []

  unfoldable pub logged : List (Call E) → List (Line E)
  unfolding logged_call
  logged [] = []
  logged (c ∷ cs) = logged_call c ++ logged cs

  -- the errors of which each one has another message than the one before
  abbrev pub changes : Option E → List E → List E
  changes prev [] = []
  changes prev (e ∷ es) = let rest = changes (some e) es in if is_new e prev then e ∷ rest else rest

abbrev pub retried : {E : Type 0} → List (Call E) → List E
retried [] = []
retried (retryable_error n e prev ∷ cs) = e ∷ retried cs
retried (success n prev ∷ cs) = retried cs
retried (sleep d ∷ cs) = retried cs

abbrev pub warnings : {E : Type 0} → List (Line E) → List E
warnings [] = []
warnings (retrying e ∷ ls) = e ∷ warnings ls
warnings (recovered n prev ∷ ls) = warnings ls

-- Each call is told the error of the one before.
abbrev IsChained : {E : Type 0} → Option E → List (Call E) → Type 0
IsChained p [] = Unit
IsChained p (retryable_error n e prev ∷ cs) = (prev ≡ p) × IsChained (some e) cs
IsChained p (success n prev ∷ cs) = (prev ≡ p) × IsChained p cs
IsChained p (sleep d ∷ cs) = IsChained p cs

warnings-logged :
    {E : Type 0} (message : E → Text) (p : Option E) (cs : List (Call E))
    → IsChained p cs
    → warnings (logged message cs) ≡ changes message p (retried cs)
unfolding logged logged_call
warnings-logged message p [] h = refl
warnings-logged message p (retryable_error n e prev ∷ cs) (q, h) =
    elim (Bool-cases (is_new message e p)) [
      | inl x ↦ rw (q, x) (ap (λ l. e ∷ l) (warnings-logged message (some e) cs h))
      | inr x ↦ rw (q, x) (warnings-logged message (some e) cs h)
    ]
warnings-logged message p (success n prev ∷ cs) (q, h) = elim (Bool-cases (ltb 1 n)) [
  | inl x ↦ rw (x, if◌then◌else◌) (warnings-logged message p cs h)
  | inr x ↦ rw (x, if◌then◌else◌) (warnings-logged message p cs h)
]
warnings-logged message p (sleep d ∷ cs) h = warnings-logged message p cs h

module _ {E : Type 0} (retryable : E → Bool) (b : ℕ → ℕ) (settings : Settings)
    (reports : settings.on_retryable_error ≡ true) where
  again-retried :
      (s : Loop E) (r : Round E) {s' : Loop E} {calls : List (Call E)}
      → round retryable b settings s r ≡ again s' calls
      → (e : E) × (calls ≡ retryable_error s.attempt e s.prev ∷ sleep (b s.attempt) ∷ [])
        × (s'.prev ≡ some e)
  unfolding round
  again-retried s r h = elim (Option-cases r.outcome) [
    | inl e ↦ ground arith
    | inr (e, x) ↦ (e, ground arith, ground arith)
  ]

  stop_error :
      (s : Loop E) (r : Round E) (e : E) {o : Outcome E} {calls : List (Call E)}
      → r.outcome ≡ some e
      → round retryable b settings s r ≡ stop o calls
      → (calls ≡ []) ⊎ (calls ≡ retryable_error s.attempt e s.prev ∷ sleep (b s.attempt) ∷ [])
  unfolding round
  stop_error s r e x h = ground arith

  stop-cases :
      (s : Loop E) (r : Round E) {o : Outcome E} {calls : List (Call E)}
      → round retryable b settings s r ≡ stop o calls
      → (calls ≡ [])
        ⊎ (calls ≡ success s.attempt s.prev ∷ [])
        ⊎ ((e : E) × (calls ≡ retryable_error s.attempt e s.prev ∷ sleep (b s.attempt) ∷ []))
  unfolding round
  stop-cases s r h = elim (Option-cases r.outcome) [
    | inl e ↦ elim (Bool-cases settings.on_success) [
      | inl y ↦ inr (inl (ground arith))
      | inr y ↦ inl (ground arith)
    ]
    | inr (e, x) ↦ elim (stop_error s r e x h) [ inl y ↦ inl y | inr y ↦ inr (inr (e, y)) ]
  ]

  stop-IsChained :
      (s : Loop E) (r : Round E) {o : Outcome E} {calls : List (Call E)}
      → round retryable b settings s r ≡ stop o calls
      → IsChained s.prev calls
  stop-IsChained s r h = elim (stop-cases s r h) [
    | inl e ↦ rw e tt
    | inr (inl e) ↦ rw e (refl, tt)
    | inr (inr (d, e)) ↦ rw e (refl, tt)
  ]

  loop-IsChained :
      (rs : List (Round E)) (s : Loop E) → IsChained s.prev (loop retryable b settings s rs).calls
  unfolding loop
  loop-IsChained [] s = tt
  loop-IsChained (r ∷ rs) s =
      elim (Next-cases retryable b settings (round retryable b settings s r)) [
        | inl (s', calls, e) ↦
            let (d, x, y) = again-retried s r e in
            rw (result-again retryable b settings s r rs e, x)
              (
                refl,
                subst (λ p. IsChained p (loop retryable b settings s' rs).calls) y
                    (loop-IsChained rs s'),
              )
        | inr (o, calls, e) ↦ rw (loop-stop retryable b settings s r rs e) (stop-IsChained s r e)
      ]

-- Under the default settings, whatever the attempts do: of the errors behind which WithBackoff sleeps, the
-- warnings name exactly those whose message is not the one of the error before, in order.
pub warnings-with_backoff :
    {E : Type 0} (message : E → Text) (retryable : E → Bool) (b : ℕ → ℕ) (rs : List (Round E))
    → warnings (logged message (with_backoff retryable b default_retry_settings rs).calls)
      ≡ changes message none (retried (with_backoff retryable b default_retry_settings rs).calls)
unfolding with_backoff default_retry_settings
warnings-with_backoff message retryable b rs =
    warnings-logged message none _ (loop-IsChained retryable b default_retry_settings refl rs _)
