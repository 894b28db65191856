-- ===== src/Examples/Retry.antt =====
-- Inputs for retry and backoff: a function that fails twice and then succeeds.
use icinga_go_library.Prelude.{
  ℕ, ◌+◌, ◌*◌, ◌/◌, ◌<◌, ◌≤◌, Bool, true, false, ◌≡◌, refl, pos, List, [], ◌∷◌, ◌++◌, some, none,
  length, take, arith, ◌==◌,
}
use icinga_go_library.Backoff.{Policy, new_exponential_with_jitter, base_delay, backoff}
use icinga_go_library.Backoff.Bounds.{backoff-lt-max, backoff_total}
use icinga_go_library.Retry.{Settings, Round, slept, timer_fired, with_backoff}
use icinga_go_library.Retry.Rounds.{AreRetried, with_backoff-AreRetried, rounds-with_backoff_timer}
use icinga_go_library.Retry.Results.{
  last_round, before_last, has_fired, last_error, Explains, with_backoff-Explains,
}
use icinga_go_library.Retry.Callbacks.{sleeps, successes, delays, owed, with_backoff_calls}

abbrev policy : Policy
policy = record { min = 1000000; max = 1000000000 }

abbrev settings : Settings
settings = record { timeout = pos 300; on_retryable_error = true; on_success = true }

-- only the error 1 is retryable
abbrev retryable : ℕ → Bool
retryable e = e == 1

abbrev delay : ℕ → ℕ
delay n = n * 10

abbrev failing : Round ℕ
failing = record { outcome = some 1; context = none; expired = false; wake = slept }

abbrev late : Round ℕ
late = record { outcome = some 1; context = none; expired = false; wake = timer_fired }

abbrev succeeding : Round ℕ
succeeding = record { outcome = none; context = none; expired = false; wake = slept }

abbrev rounds : List (Round ℕ)
rounds = failing ∷ late ∷ succeeding ∷ []

three_rounds : (with_backoff retryable delay settings rounds).rounds ≡ 3
unfolding with_backoff
three_rounds = refl

backoff-lt-max_example :
    (base_delay policy 3 / 2 ≤ 4000123) × (4000123 < base_delay policy 3) × (4000123 < policy.max)
backoff-lt-max_example =
    backoff-lt-max (pos 1000000) (pos 1000000000) {p = policy} 3 123 {d = 4000123}
      (unfold new_exponential_with_jitter in refl) (unfold backoff in refl)

backoff_total_example : (d : ℕ) × (backoff policy 1 77 ≡ some d)
backoff_total_example =
    backoff_total (pos 1000000) (pos 1000000000) {p = policy} 0 77
      (unfold new_exponential_with_jitter in refl)

with_backoff-AreRetried_example : AreRetried retryable settings false (take 2 rounds)
with_backoff-AreRetried_example =
    with_backoff-AreRetried retryable delay settings rounds 2 (unfold with_backoff in omega arith)

-- The timer runs out in the first sleep, so that the second failure is the end.
abbrev overdue : List (Round ℕ)
overdue = late ∷ failing ∷ succeeding ∷ []

with_backoff-Explains_example :
    (r : Round ℕ) × (last_round (with_backoff retryable delay settings overdue).rounds overdue
      ≡ some r)
    × Explains retryable settings
        (has_fired (before_last (with_backoff retryable delay settings overdue).rounds overdue))
        (last_error none
          (before_last (with_backoff retryable delay settings overdue).rounds overdue))
        r
        (with_backoff retryable delay settings overdue).result
with_backoff-Explains_example =
    with_backoff-Explains retryable delay settings overdue (unfold with_backoff in λ e. cc)

rounds-with_backoff_timer_example :
    (with_backoff retryable delay settings ((failing ∷ []) ++ late ∷ failing ∷ failing ∷ [])).rounds
    ≤ 3
rounds-with_backoff_timer_example =
    rounds-with_backoff_timer retryable delay settings (failing ∷ []) late (failing ∷ failing ∷ [])
      refl refl

with_backoff_calls_example :
    let run = with_backoff retryable delay settings rounds in
    (sleeps run.calls ≡ delays delay 1 (length (sleeps run.calls)))
    × (run.rounds ≤ length (sleeps run.calls) + 1)
    × (length (sleeps run.calls) ≤ run.rounds)
    × (successes run.calls ≡ owed settings run.result)
with_backoff_calls_example = with_backoff_calls retryable delay settings rounds
