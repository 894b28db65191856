-- ===== src/Logging.antt =====
-- logging/logging.go and logging/logger.go: the root logger and its children. A logger is what tells it
-- from others: its address, its name, its level and its interval. `L` stands for the levels of zap.
pub mod Children
pub mod Config
use icinga_go_library.Prelude.{
  ℕ, suc, ◌+◌, ℤ, Bool, true, false, Option, none, some, List, [], ◌∷◌, Text, codes, text_eq,
  Result, ok, err, if◌then◌else◌, ◌||◌,
}

-- A level that is shared is the variable of the root logger.
pub data Verbosity (L : Type 0) : Type 0 where
  shared : Verbosity L
  own : L → Verbosity L

pub record Logger (L : Type 0) : Type 0 where
  pub address : ℕ
  pub name : Text
  pub verbosity : Verbosity L
  pub interval : ℤ

abbrev pub console : Text
console = codes "console"

abbrev pub journal : Text
journal = codes "systemd-journald"

unfoldable pub is_output : Text → Bool
is_output o = text_eq o console || text_eq o journal

-- `invalidOutput`
pub data OutputError : Type 0 where
  invalid_output : Text → OutputError

-- a map as the list of its entries, the last one that was written first
unfoldable pub find : {V : Type 0} → Text → List (Text × V) → Option V
find key [] = none
find key ((k, v) ∷ rest) = if text_eq k key then some v else find key rest

pub record Logging (L : Type 0) : Type 0 where
  pub logger : Logger L
  pub output : Text
  pub level : L
  pub interval : ℤ
  pub loggers : List (Text × Logger L)
  pub next : ℕ
  pub options : List (Text × L)

module _ {L : Type 0} where
  unfoldable pub new_logging :
      Text → L → Text → List (Text × L) → ℤ → Result OutputError (Logging L)
  unfolding is_output
  new_logging name level output options interval =
      if is_output output
      then ok (record {
        logger = record { address = 0; name = name; verbosity = shared; interval = interval };
        output = output;
        level = level;
        interval = interval;
        loggers = [];
        next = 1;
        options = options;
      })
      else err (invalid_output output)

  unfoldable pub verbosity_of : Option L → Verbosity L
  verbosity_of none = shared
  verbosity_of (some level) = own level

  unfoldable pub make_logger : Text → Logging L → Logger L × Logging L
  unfolding verbosity_of find
  make_logger name l =
      let logger : Logger L = record {
        address = l.next;
        name = name;
        verbosity = verbosity_of (find name l.options);
        interval = l.interval;
      } in
      (logger, record l { loggers = (name, logger) ∷ l.loggers; next = l.next + 1 })

  unfoldable pub found_or_made : Text → Logging L → Option (Logger L) → Logger L × Logging L
  unfolding make_logger
  found_or_made name l (some logger) = (logger, l)
  found_or_made name l none = make_logger name l

  unfoldable pub get_child_logger : Text → Logging L → Logger L × Logging L
  unfolding found_or_made find
  get_child_logger name l = found_or_made name l (find name l.loggers)

  -- the state behind a series of requests
  unfoldable pub after_requests : Logging L → List Text → Logging L
  unfolding get_child_logger
  after_requests l [] = l
  after_requests l (name ∷ names) = after_requests (get_child_logger name l).1 names
