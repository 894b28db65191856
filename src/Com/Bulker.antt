-- ===== src/Com/Bulker.antt =====
-- com/bulker.go: the goroutine that assembles chunks, as a function of the events that its `select`
-- sees. A policy is a state machine: `BulkChunkSplitPolicy` with the variables that it captures.
pub mod Runs
pub mod Chunks
pub mod Sizes
use icinga_go_library.Prelude.{ℕ, Bool, false, List, [], ◌∷◌, ◌++◌, ltb, length, if◌then◌else◌}

-- What a policy factory returns: a fresh state, and the call that takes an item into account.
pub record SplitPolicy (T S : Type 0) : Type 0 where
  pub fresh : S
  pub call : S → T → S × Bool

unfoldable pub never_split : {T : Type 0} → SplitPolicy T (Unit {0})
never_split = record { fresh = tt; call = λ s v. (s, false) }

-- What the inner `select` takes: an item, the closing of the buffer channel, the timeout, or the
-- end of the context.
pub data Event (T : Type 0) : Type 0 where
  item : T → Event T
  close : Event T
  timeout : Event T
  cancel : Event T

-- How the goroutine stands: it waits for an event, it has returned with the input used up, or it
-- has returned with the context's error.
pub data Status : Type 0 where
  running finished canceled : Status

pub record Bulker (T S : Type 0) : Type 0 where
  pub buf : List T
  pub policy : S
  pub sent : List (List T)
  pub status : Status

-- `if len(buf) > 0 { b.ch <- buf }`
unfoldable pub send : {T : Type 0} → List T → List (List T) → List (List T)
send [] sent = sent
send (v ∷ buf) sent = sent ++ (v ∷ buf) ∷ []

module _ {T S : Type 0} (split : SplitPolicy T S) (count : ℕ) where
  unfoldable pub new_bulker : Bulker T S
  new_bulker = record { buf = []; policy = split.fresh; sent = []; status = running }

  -- the end of a round: what is in the buffer is sent, and a fresh policy made
  unfoldable pub flush : Status → Bulker T S → Bulker T S
  unfolding send
  flush status b = record {
    buf = [];
    policy = split.fresh;
    sent = send b.buf b.sent;
    status = status;
  }

  -- an item: a demanded split sends the buffer first, then the item is appended
  unfoldable pub receive : T → Bulker T S → Bulker T S
  unfolding send
  receive v b =
      let (policy, demanded) = split.call b.policy v in
      if demanded
      then record { buf = v ∷ []; policy = policy; sent = send b.buf b.sent; status = running }
      else record { buf = b.buf ++ v ∷ []; policy = policy; sent = b.sent; status = running }

  -- the test `len(buf) < count` of the inner loop, behind each round of it
  unfoldable pub check_full : Bulker T S → Bulker T S
  unfolding flush
  check_full b = if ltb (length b.buf) count then b else flush running b

  unfoldable pub handle : Event T → Bulker T S → Bulker T S
  unfolding receive check_full flush
  handle (item v) b = check_full (receive v b)
  handle close b = flush finished b
  handle timeout b = flush running b
  handle cancel b = record b { status = canceled }

  -- A goroutine that has returned takes no event.
  unfoldable pub dispatch : Status → Event T → Bulker T S → Bulker T S
  unfolding handle
  dispatch running e b = handle e b
  dispatch finished e b = b
  dispatch canceled e b = b

  unfoldable pub step : Bulker T S → Event T → Bulker T S
  unfolding dispatch
  step b e = dispatch b.status e b

  unfoldable pub run_from : Bulker T S → List (Event T) → Bulker T S
  unfolding step
  run_from b [] = b
  run_from b (e ∷ es) = run_from (step b e) es

  unfoldable pub run : List (Event T) → Bulker T S
  unfolding run_from new_bulker
  run es = run_from new_bulker es
