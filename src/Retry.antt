-- ===== src/Retry.antt =====
-- retry/retry.go: `WithBackoff`. One round of its loop is a function of what the environment does in
-- that round: the outcome of the function, the context, the timer and what ends the sleep.
pub mod Rounds
pub mod Results
pub mod Callbacks
pub mod Messages
pub mod Retryable
use icinga_go_library.Prelude.{
  ℕ, suc, ◌+◌, ◌%◌, ◌^◌, ℤ, pos, ltb_ℤ, Bool, true, false, ◌&&◌, ◌||◌, not, Option, none, some,
  List, [], ◌∷◌, ◌++◌, if◌then◌else◌,
}

-- what `ctx.Err()` can be, if it is not nil; `custom` is an error of a context that is not Go's own
pub data ContextError : Type 0 where
  canceled deadline_exceeded custom : ContextError

unfoldable pub is_context_error : Option ContextError → Bool
is_context_error none = false
is_context_error (some canceled) = true
is_context_error (some deadline_exceeded) = true
is_context_error (some custom) = false

-- the text `err.Error()` of an error, without its identity
pub data ErrorText (E : Type 0) : Type 0 where
  error_text : E → ErrorText E

unfoldable pub text_of : {E : Type 0} → Option E → Option (ErrorText E)
text_of none = none
text_of (some e) = some (error_text e)

-- The errors that `WithBackoff` returns: the error that is wrapped, and the message, by its constructor
-- or as the text of another error. `context_over e none` is `e` itself.
pub data Fault (E : Type 0) : Type 0 where
  context_over : E → Option (ErrorText E) → Fault E
  cant_retry : E → Fault E
  retry_deadline_exceeded : E → Fault E
  context_done : ContextError → ErrorText E → Fault E

-- `on_retryable_error` and `on_success` tell whether the callback is set.
pub record Settings : Type 0 where
  pub timeout : ℤ
  pub on_retryable_error : Bool
  pub on_success : Bool

-- what ends the sleep between two attempts
pub data Wake : Type 0 where
  slept timer_fired : Wake
  context_ended : ContextError → Wake

pub record Round (E : Type 0) : Type 0 where
  pub outcome : Option E
  pub context : Option ContextError
  pub expired : Bool
  pub wake : Wake

-- the calls that a run makes, with the values that they are given
pub data Call (E : Type 0) : Type 0 where
  success : ℕ → Option E → Call E
  retryable_error : ℕ → E → Option E → Call E
  sleep : ℕ → Call E

pub data Outcome (E : Type 0) : Type 0 where
  returned_nil : Outcome E
  returned : Fault E → Outcome E
  running : Outcome E

-- The variables of the loop; `prev` is the error of the round before. The timer's channel delivers
-- once, and whoever receives from it sets `timed_out`.
pub record Loop (E : Type 0) : Type 0 where
  pub attempt : ℕ
  pub prev : Option E
  pub timed_out : Bool

pub data Next (E : Type 0) : Type 0 where
  again : Loop E → List (Call E) → Next E
  stop : Outcome E → List (Call E) → Next E

pub record Run (E : Type 0) : Type 0 where
  pub rounds : ℕ
  pub calls : List (Call E)
  pub result : Outcome E

unfoldable pub next_attempt : ℕ → ℕ
next_attempt n = (n + 1) % 2 ^ 64

-- without a timeout the channel is nil, and a receive from it never happens
abbrev pub has_timeout : Settings → Bool
has_timeout settings = ltb_ℤ (pos 0) settings.timeout

module _ {E : Type 0} (retryable : E → Bool) (b : ℕ → ℕ) (settings : Settings) where
  unfoldable pub report : Loop E → E → List (Call E)
  report s e =
      (if settings.on_retryable_error then retryable_error s.attempt e s.prev ∷ [] else [])
      ++ sleep (b s.attempt) ∷ []

  -- the last `select`
  unfoldable pub after_sleep : Loop E → E → Wake → Next E
  unfolding report next_attempt
  after_sleep s e slept =
      again (record { attempt = next_attempt s.attempt; prev = some e; timed_out = false })
        (report s e)
  after_sleep s e timer_fired =
      again
        (record {
          attempt = next_attempt s.attempt;
          prev = some e;
          timed_out = has_timeout settings;
        })
        (report s e)
  after_sleep s e (context_ended c) = stop (returned (context_done c (error_text e))) (report s e)

  unfoldable pub on_error : Loop E → E → Round E → Next E
  unfolding after_sleep is_context_error text_of
  on_error s e r =
      if is_context_error r.context
      then stop (returned (context_over e (text_of s.prev))) []
      else if not (retryable e)
      then stop (returned (cant_retry e)) []
      else if s.timed_out || (has_timeout settings && r.expired)
      then stop (returned (retry_deadline_exceeded e)) []
      else after_sleep s e r.wake

  unfoldable pub round : Loop E → Round E → Next E
  unfolding on_error
  round s r = elim r.outcome [
    | none ↦ stop returned_nil (if settings.on_success then success s.attempt s.prev ∷ [] else [])
    | some e ↦ on_error s e r
  ]

  -- the loop, as far as the rounds are known
  unfoldable pub loop : Loop E → List (Round E) → Run E
  loop s [] = record { rounds = 0; calls = []; result = running }
  loop s (r ∷ rs) = elim (round s r) [
    | again s' calls ↦
        let rest = loop s' rs in
        record { rounds = suc rest.rounds; calls = calls ++ rest.calls; result = rest.result }
    | stop result calls ↦ record { rounds = 1; calls = calls; result = result }
  ]

  unfoldable pub with_backoff : List (Round E) → Run E
  unfolding loop round
  with_backoff rs = loop (record { attempt = 1; prev = none; timed_out = false }) rs
