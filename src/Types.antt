-- ===== src/Types.antt =====
-- types: the values that can be NULL, towards the database. A source is what `Scan` is given and `Value`
-- returns; the driver hands a text back as its bytes.
pub mod Binary
pub mod Bool
pub mod String
pub mod UnixMilli
pub mod Number
use icinga_go_library.Prelude.{ℕ, List}

pub data Source : Type 0 where
  null : Source
  bytes : List ℕ → Source
  other : Source

pub data ScanError : Type 0 where
  bad_type bad_bool : ScanError
