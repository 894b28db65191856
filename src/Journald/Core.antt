-- ===== src/Journald/Core.antt =====
-- The core of logging/journald_core.go: Check, With and Write. The message of `ent` and what journald.Send
-- is given are texts; sending is not modelled.
use icinga_go_library.Prelude.{
  ℕ, Bool, Option, none, some, List, [], ◌∷◌, ◌++◌, Text, codes, text_eq, Result, ok, err, refl,
  arith, All, All-append, if◌then◌else◌,
}
use icinga_go_library.Strcase.{Unicode}
use icinga_go_library.Journald.{
  add_fields, IsFieldKey, add_fields-IsFieldKey, is_key_rune, is_ascii_upper, is_ascii_digit,
}

-- the levels of zapcore, and what is none of them
pub data Level : Type 0 where
  debug_level info_level warn_level error_level dpanic_level panic_level fatal_level : Level
  unknown_level : ℕ → Level

pub data Priority : Type 0 where
  priority_debug priority_info priority_warning priority_err priority_crit : Priority

-- the map `priorities`
unfoldable pub priority_of : Level → Option Priority
priority_of debug_level = some priority_debug
priority_of info_level = some priority_info
priority_of warn_level = some priority_warning
priority_of error_level = some priority_err
priority_of dpanic_level = some priority_crit
priority_of panic_level = some priority_crit
priority_of fatal_level = some priority_crit
priority_of (unknown_level n) = none

pub record Core (V : Type 0) : Type 0 where
  pub is_enabled : Level → Bool
  pub context : List (Text × V)
  pub identifier : Text

pub record LogEntry : Type 0 where
  pub level : Level
  pub logger_name : Text
  pub message : Text

-- a value of the encoder: of a field, or the identifier
pub data Encoded (V : Type 0) : Type 0 where
  of_field : V → Encoded V
  identifier_value : Text → Encoded V

-- the arguments of journald.Send; the fields in the order of the assignments to the map
pub record Record (V : Type 0) : Type 0 where
  pub message : Text
  pub priority : Priority
  pub fields : List (Text × Encoded V)

identifier-IsFieldKey : IsFieldKey (codes "SYSLOG_IDENTIFIER")
unfolding is_key_rune is_ascii_upper is_ascii_digit
identifier-IsFieldKey = record {
  some_rune = omega arith;
  at_most_64 = omega arith;
  first_upper = (83, codes "YSLOG_IDENTIFIER", refl, refl);
  key_runes = (
    refl,
    (
      refl,
      (
        refl,
        (
          refl,
          (
            refl,
            (
              refl,
              (
                refl,
                (refl, (refl, (refl, (refl, (refl, (refl, (refl, (refl, (refl, (refl, tt)))))))))),
              ),
            ),
          ),
        ),
      ),
    ),
  );
}

module _ {V : Type 0} where
  unfoldable pub new_journald_core : Text → (Level → Bool) → Core V
  new_journald_core identifier is_enabled = record {
    is_enabled = is_enabled;
    context = [];
    identifier = identifier;
  }

  -- The capacity of the context is cut, so that `append` copies it: the old core keeps its own.
  unfoldable pub with_fields : Core V → List (Text × V) → Core V
  with_fields c fields = record c { context = c.context ++ fields }

  -- the cores that have to write the entry
  unfoldable pub check : Core V → LogEntry → List (Core V) → List (Core V)
  check c ent cores = if c.is_enabled ent.level then cores ++ c ∷ [] else cores

  unfoldable pub encoded : List (Text × V) → List (Text × Encoded V)
  encoded [] = []
  encoded ((key, v) ∷ fields) = (key, of_field v) ∷ encoded fields

  unfoldable pub encoded_fields : Unicode → Core V → List (Text × V) → List (Text × Encoded V)
  unfolding encoded
  encoded_fields u c fields =
      encoded (add_fields u c.identifier fields)
      ++ (encoded (add_fields u c.identifier c.context)
          ++ ((codes "SYSLOG_IDENTIFIER", identifier_value c.identifier) ∷ []))

  unfoldable pub shown_message : Core V → LogEntry → Text
  shown_message c ent =
      if text_eq ent.logger_name c.identifier
      then ent.message
      else ent.logger_name ++ (codes ": " ++ ent.message)

  unfoldable pub write_with :
      Unicode → Core V → LogEntry → List (Text × V) → Option Priority → Result Level (Record V)
  write_with u c ent fields none = err ent.level
  write_with u c ent fields (some p) =
      ok
        (record { message = shown_message c ent; priority = p; fields = encoded_fields u c fields })

  -- what is sent, or the unknown level
  unfoldable pub write : Unicode → Core V → LogEntry → List (Text × V) → Result Level (Record V)
  unfolding write_with shown_message encoded_fields priority_of
  write u c ent fields = write_with u c ent fields (priority_of ent.level)

  encoded-IsFieldKey :
      (fields : List (Text × V))
      → All (λ f. IsFieldKey f.0) fields
      → All (λ f. IsFieldKey f.0) (encoded fields)
  unfolding encoded
  encoded-IsFieldKey [] h = tt
  encoded-IsFieldKey ((key, v) ∷ fields) (k, h) = (k, encoded-IsFieldKey fields h)

  -- Whatever the fields, those of With and the identifier: journald accepts each key that Write gives it.
  pub encoded_fields-IsFieldKey :
      (u : Unicode) (c : Core V) (fields : List (Text × V))
      → All (λ f. IsFieldKey f.0) (encoded_fields u c fields)
  unfolding encoded_fields
  encoded_fields-IsFieldKey u c fields =
      All-append (λ f. IsFieldKey f.0) _ _
        (encoded-IsFieldKey _ (add_fields-IsFieldKey u c.identifier fields).0)
        (All-append (λ f. IsFieldKey f.0) _ _
          (encoded-IsFieldKey _ (add_fields-IsFieldKey u c.identifier c.context).0)
          (identifier-IsFieldKey, tt))
