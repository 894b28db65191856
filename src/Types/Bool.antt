-- ===== src/Types/Bool.antt =====
-- types/bool.go. What json does with a bool is an argument.
use icinga_go_library.Prelude.{
  Bool, true, false, ◌≡◌, refl, Result, ok, err, Text, codes, text_eq, if◌then◌else◌, ℕ, Option,
  none, some, ◌||◌, not, ◌==◌, [], Bool-cases, inl, inr,
}
use icinga_go_library.Strconv.{NumError, parse_uint}
use icinga_go_library.Types.Number.{Json}
use icinga_go_library.Types.{Source, null, bytes, other, ScanError, bad_type, bad_bool}

-- `Bool`; `valid` is false for NULL
pub record NullBool : Type 0 where
  pub bool : Bool
  pub valid : Bool

unfoldable pub enum : Bool → Text
enum true = codes "y"
enum false = codes "n"

-- the new value, or the error with the old value kept
unfoldable pub scan : NullBool → Source → Result ScanError NullBool
scan b null = ok (record { bool = false; valid = false })
scan b (bytes v) =
    if text_eq v (codes "y")
    then ok (record { bool = true; valid = true })
    else if text_eq v (codes "n")
    then ok (record { bool = false; valid = true })
    else err bad_bool
scan b other = err bad_type

unfoldable pub value : NullBool → Source
unfolding enum
value b = if b.valid then bytes (enum b.bool) else null

scanned :
    (old : NullBool) (bool valid : Bool)
    → scan old (value (record { bool = bool; valid = valid }))
      ≡ ok (record { bool = if valid then bool else false; valid = valid })
unfolding scan value text_eq enum
scanned old true true = refl
scanned old false true = refl
scanned old bool false = refl

-- What `Value` gives, `Scan` reads back, whatever the variable held before: the same value where it is
-- valid, and NULL where it is not.
pub scan-value_bool :
    (old b : NullBool)
    → scan old (value b) ≡ ok (record { bool = if b.valid then b.bool else false; valid = b.valid })
scan-value_bool old b = scanned old b.bool b.valid

unfoldable pub marshal_json : {E : Type 0} → Json Bool E → NullBool → Result E Text
marshal_json j b = if b.valid then j.marshal (some b.bool) else ok (codes "null")

unfoldable pub parsed_bool : Result NumError ℕ → Result NumError NullBool
parsed_bool (ok n) = ok (record { bool = not (n == 0); valid = true })
parsed_bool (err e) = err e

-- the new value, or the error with the old value kept
unfoldable pub unmarshal_text : Text → Result NumError NullBool
unfolding parsed_bool parse_uint
unmarshal_text s = parsed_bool (parse_uint 64 s)

unfoldable pub stored_bool : {E : Type 0} → NullBool → Bool × Option E → NullBool × Option E
stored_bool old (b, none) = (record { bool = b; valid = true }, none)
stored_bool old (b, some e) = (record old { bool = b }, some e)

unfoldable pub unmarshal_json : {E : Type 0} → Json Bool E → NullBool → Text → NullBool × Option E
unfolding stored_bool
unmarshal_json j old s =
    if text_eq s (codes "null") || text_eq s []
    then (old, none)
    else stored_bool old (j.unmarshal old.bool s)

-- A bool that is not NULL is read back from its JSON into any receiver, if json reads back what it wrote,
-- and that is neither empty nor null; NULL leaves the receiver as it is.
pub unmarshal_json-marshal_json_bool :
    {E : Type 0} (j : Json Bool E) (old b : NullBool) (s : Text)
    → marshal_json j b ≡ ok s
    → (text_eq s (codes "null") || text_eq s []) ≡ not b.valid
    → ((o : Bool) → j.unmarshal o s ≡ (b.bool, none))
    → unmarshal_json j old s
      ≡ (if b.valid then record { bool = b.bool; valid = true } else old, none)
unfolding unmarshal_json
unmarshal_json-marshal_json_bool j old b s written named reads = elim (Bool-cases b.valid) [
  | inl e ↦ rw (named, e, reads old.bool) (unfold stored_bool in refl)
  | inr e ↦ rw (named, e) refl
]
