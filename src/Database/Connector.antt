-- ===== src/Database/Connector.antt =====
-- database/driver.go: the connector that dials and initialises with retries. What the driver and the
-- callback answer, and what the environment does around each attempt, is an argument; the connection of
-- an attempt goes by the number of the attempt.
pub mod Clean
use icinga_go_library.Prelude.{
  ℕ, zero, suc, ◌+◌, pos, Bool, true, false, Option, none, some, List, [], ◌∷◌, ◌++◌, map, take,
  if◌then◌else◌, ◌==◌,
}
use icinga_go_library.Retry.{ContextError, Wake, Round, Settings, Run, with_backoff}

pub data Act : Type 0 where
  opened : ℕ → Act
  init_called : ℕ → Act
  closed : ℕ → Act

-- `none` is nil, for the driver's Connect and for OnInitConn
pub record Answer (E : Type 0) : Type 0 where
  pub dial : Option E
  pub init : Option E
  pub context : Option ContextError
  pub expired : Bool
  pub wake : Wake

-- what an attempt does, what it leaves in the variable `conn`, and what it returns
pub record Attempt (E : Type 0) : Type 0 where
  pub acts : List Act
  pub conn : Option ℕ
  pub outcome : Option E

-- five minutes, with both callbacks set
unfoldable pub connect_settings : Settings
connect_settings = record {
  timeout = pos 300_000_000_000;
  on_retryable_error = true;
  on_success = true;
}

unfoldable pub initialised : {E : Type 0} → ℕ → Option E → Attempt E
initialised i none = record { acts = opened i ∷ init_called i ∷ []; conn = some i; outcome = none }
initialised i (some e) = record {
  acts = opened i ∷ init_called i ∷ closed i ∷ [];
  conn = some i;
  outcome = some e;
}

unfoldable pub dialled : {E : Type 0} → Bool → ℕ → Option E → Option E → Attempt E
unfolding initialised
dialled has_init i (some e) init = record { acts = []; conn = none; outcome = some e }
dialled true i none init = initialised i init
dialled false i none init = record { acts = opened i ∷ []; conn = some i; outcome = none }

-- `has_init` says whether OnInitConn is set.
module _ {E : Type 0} (has_init : Bool) where
  unfoldable pub attempt : ℕ → Answer E → Attempt E
  unfolding dialled
  attempt i a = dialled has_init i a.dial a.init

  unfoldable pub attempt_round : ℕ → Answer E → Round E
  unfolding attempt
  attempt_round i a = record {
    outcome = (attempt i a).outcome;
    context = a.context;
    expired = a.expired;
    wake = a.wake;
  }

  -- the attempts from a number on
  unfoldable pub rounds_from : ℕ → List (Answer E) → List (Round E)
  unfolding attempt_round
  rounds_from i [] = []
  rounds_from i (a ∷ answers) = attempt_round i a ∷ rounds_from (i + 1) answers

  unfoldable pub acts_from : ℕ → List (Answer E) → List Act
  unfolding attempt
  acts_from i [] = []
  acts_from i (a ∷ answers) = (attempt i a).acts ++ acts_from (i + 1) answers

  -- `conn` behind the attempts, of which each one sets it
  unfoldable pub conn_from : Option ℕ → ℕ → List (Answer E) → Option ℕ
  unfolding attempt
  conn_from c i [] = c
  conn_from c i (a ∷ answers) = conn_from (attempt i a).conn (i + 1) answers

  unfoldable pub connect : (E → Bool) → (ℕ → ℕ) → List (Answer E) → Run E
  unfolding rounds_from connect_settings with_backoff
  connect retryable delays answers =
      with_backoff retryable delays connect_settings (rounds_from 1 answers)

  unfoldable pub connect_acts : (E → Bool) → (ℕ → ℕ) → List (Answer E) → List Act
  unfolding connect acts_from
  connect_acts retryable delays answers =
      acts_from 1 (take (connect retryable delays answers).rounds answers)

  unfoldable pub connect_conn : (E → Bool) → (ℕ → ℕ) → List (Answer E) → Option ℕ
  unfolding connect conn_from
  connect_conn retryable delays answers =
      conn_from none 1 (take (connect retryable delays answers).rounds answers)
