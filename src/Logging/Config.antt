-- ===== src/Logging/Config.antt =====
-- logging/config.go: the configuration of the loggers. zapcore.ParseLevel is an argument; `L` stands for
-- the levels and `E` for its errors.
pub mod Entries
use icinga_go_library.Prelude.{
  ℕ, ℤ, pos, leb_ℤ, Bool, true, false, Option, none, some, List, [], ◌∷◌, ◌++◌, Text, codes, ◌==◌,
  Result, ok, err, if◌then◌else◌, cut,
}
use icinga_go_library.Logging.{console, journal, is_output, OutputError, invalid_output}

pub data EntryError (E : Type 0) : Type 0 where
  not_an_entry : Text → EntryError E
  bad_level : Text → E → EntryError E

unfoldable pub add_first : ℕ → List Text → List Text
add_first c [] = (c ∷ []) ∷ []
add_first c (p ∷ ps) = (c ∷ p) ∷ ps

-- strings.Split with one byte between the parts
unfoldable pub split : ℕ → Text → List Text
unfolding add_first
split sep [] = [] ∷ []
split sep (c ∷ s) = let rest = split sep s in if c == sep then [] ∷ rest else add_first c rest

module _ {L E : Type 0} (parse_level : Text → Result E L) where
  unfoldable pub level_entry : Text → Text → Result E L → Result (EntryError E) (Text × L)
  level_entry entry key (ok level) = ok (key, level)
  level_entry entry key (err e) = err (bad_level entry e)

  unfoldable pub read_cut : Text → Option (Text × Text) → Result (EntryError E) (Text × L)
  unfolding level_entry
  read_cut entry none = err (not_an_entry entry)
  read_cut entry (some (key, value)) = level_entry entry key (parse_level value)

  unfoldable pub read_entry : Text → Result (EntryError E) (Text × L)
  unfolding read_cut cut
  read_entry entry = read_cut entry (cut b':' entry)

  unfoldable pub with_entry :
      List (Text × L) → Result (EntryError E) (Text × L) → Result (EntryError E) (List (Text × L))
  with_entry m (ok p) = ok (p ∷ m)
  with_entry m (err e) = err e

  -- the loop over the entries; an error ends it
  unfoldable pub read_entries :
      List (Text × L) → List Text → Result (EntryError E) (List (Text × L))
  unfolding with_entry read_entry
  read_entries m [] = ok m
  read_entries m (entry ∷ rest) = elim (with_entry m (read_entry entry)) [
    | ok m' ↦ read_entries m' rest
    | err e ↦ err e
  ]

  -- the options behind the call, and the error
  unfoldable pub stored :
      List (Text × L)
      → Result (EntryError E) (List (Text × L))
      → List (Text × L) × Option (EntryError E)
  stored old (ok m) = (m, none)
  stored old (err e) = (old, some e)

  unfoldable pub unmarshal_text : List (Text × L) → Text → List (Text × L) × Option (EntryError E)
  unfolding stored read_entries split
  unmarshal_text old text = stored old (read_entries [] (split b',' text))

pub record Config : Type 0 where
  pub output : Text
  pub interval : ℤ

unfoldable pub is_unset : Text → Bool
is_unset [] = true
is_unset (c ∷ s) = false

-- `has_socket` says whether NOTIFY_SOCKET is set.
unfoldable pub set_defaults : Bool → Config → Config
unfolding is_unset
set_defaults has_socket c =
    if is_unset c.output then record c { output = if has_socket then journal else console } else c

pub data ConfigError : Type 0 where
  interval_not_positive : ConfigError
  bad_output : OutputError → ConfigError

unfoldable pub assert_output : Text → Option OutputError
unfolding is_output
assert_output o = if is_output o then none else some (invalid_output o)

unfoldable pub wrapped : Option OutputError → Option ConfigError
wrapped none = none
wrapped (some e) = some (bad_output e)

unfoldable pub validate : Config → Option ConfigError
unfolding assert_output wrapped
validate c =
    if leb_ℤ c.interval (pos 0)
    then some interval_not_positive
    else wrapped (assert_output c.output)
