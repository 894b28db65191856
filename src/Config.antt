-- ===== src/Config.antt =====
-- config/config.go: reading a configuration from a file, from the environment and from flags. What the
-- packages for defaults, YAML, environment and flags do with the value is an argument; `S` stands for the
-- values and `E` for the errors.
pub mod Loads
use icinga_go_library.Prelude.{
  ℕ, Bool, true, false, Option, none, some, List, [], ◌∷◌, ◌++◌, Text, if◌then◌else◌,
}

-- what reflection tells of the argument
pub data Target : Type 0 where
  no_pointer : Target
  nil_pointer : Target
  pointer_to_other : Target
  pointer_to_struct : Target

unfoldable pub is_struct_pointer : Target → Bool
is_struct_pointer no_pointer = false
is_struct_pointer nil_pointer = false
is_struct_pointer pointer_to_other = false
is_struct_pointer pointer_to_struct = true

pub data LoadError (E : Type 0) : Type 0 where
  invalid_argument : LoadError E
  cant_open cant_set_defaults cant_parse invalid_config : E → LoadError E

pub data Step : Type 0 where
  opened defaults_set parsed validated closed : Step

-- `parse` is Decode of the YAML decoder or ParseWithOptions; both may change the value before they fail.
pub record Steps (S E : Type 0) : Type 0 where
  pub set_defaults : S → S × Option E
  pub parse : S → S × Option E
  pub validate : S → Option E

pub record Loaded (S E : Type 0) : Type 0 where
  pub value : S
  pub steps : List Step
  pub error : Option (LoadError E)

module _ {S E : Type 0} where
  unfoldable pub after_validate : S → Option E → Loaded S E
  after_validate v none = record {
    value = v;
    steps = defaults_set ∷ parsed ∷ validated ∷ [];
    error = none;
  }
  after_validate v (some e) = record {
    value = v;
    steps = defaults_set ∷ parsed ∷ validated ∷ [];
    error = some (invalid_config e);
  }

  unfoldable pub after_parse : (S → Option E) → S × Option E → Loaded S E
  unfolding after_validate
  after_parse validate (v, none) = after_validate v (validate v)
  after_parse validate (v, some e) = record {
    value = v;
    steps = defaults_set ∷ parsed ∷ [];
    error = some (cant_parse e);
  }

  unfoldable pub after_defaults : Steps S E → S × Option E → Loaded S E
  unfolding after_parse
  after_defaults f (v, none) = after_parse f.validate (f.parse v)
  after_defaults f (v, some e) = record {
    value = v;
    steps = defaults_set ∷ [];
    error = some (cant_set_defaults e);
  }

  -- the defaults, what is read, and the check, up to the first error
  unfoldable pub load : Steps S E → S → Loaded S E
  unfolding after_defaults
  load f v = after_defaults f (f.set_defaults v)

  unfoldable pub from_env : Steps S E → Target → S → Loaded S E
  unfolding load is_struct_pointer
  from_env f t v =
      if is_struct_pointer t
      then load f v
      else record { value = v; steps = []; error = some invalid_argument }

  -- The file is closed when the function returns.
  unfoldable pub with_file : Loaded S E → Loaded S E
  with_file r = record r { steps = opened ∷ (r.steps ++ (closed ∷ [])) }

  unfoldable pub after_open : Steps S E → Option E → S → Loaded S E
  unfolding with_file load
  after_open f none v = with_file (load f v)
  after_open f (some e) v = record { value = v; steps = []; error = some (cant_open e) }

  -- `open_file` is what os.Open answers.
  unfoldable pub from_yaml_file : Steps S E → Option E → Target → S → Loaded S E
  unfolding after_open is_struct_pointer
  from_yaml_file f open_file t v =
      if is_struct_pointer t
      then after_open f open_file v
      else record { value = v; steps = []; error = some invalid_argument }

-- what the parser of the flags returns; `help` comes with the text that it would print
pub data Parsed (E : Type 0) : Type 0 where
  flags_set : Parsed E
  help : Text → Parsed E
  flag_error : E → Parsed E

pub data FlagsResult (E : Type 0) : Type 0 where
  returned : Option (LoadError E) → FlagsResult E
  exited : ℕ → Text → FlagsResult E

unfoldable pub after_flags : {E : Type 0} → Parsed E → FlagsResult E
after_flags flags_set = returned none
after_flags (help text) = exited 0 text
after_flags (flag_error e) = returned (some (cant_parse e))

unfoldable pub parse_flags : {E : Type 0} → Target → Parsed E → FlagsResult E
unfolding after_flags is_struct_pointer
parse_flags t r = if is_struct_pointer t then after_flags r else returned (some invalid_argument)
