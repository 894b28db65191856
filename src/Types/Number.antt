-- ===== src/Types/Number.antt =====
-- types/int.go and types/float.go. What json.Marshal and json.Unmarshal do with a number, and what
-- strconv.ParseFloat does, is an argument; `N` stands for int64 or float64, and `E` for the errors.
use icinga_go_library.Prelude.{
  Bool, true, false, Option, none, some, Text, codes, has_prefix, Result, ok, err, if◌then◌else◌,
  ◌≡◌, refl, inl, inr, Bool-cases,
}

pub record NullNumber (N : Type 0) : Type 0 where
  pub number : N
  pub valid : Bool

-- what json does: `marshal none` is what null is written as; a failed `unmarshal` may change the number
pub record Json (N E : Type 0) : Type 0 where
  pub marshal : Option N → Result E Text
  pub unmarshal : N → Text → N × Option E

module _ {N E : Type 0} where
  unfoldable pub marshal_json : Json N E → NullNumber N → Result E Text
  marshal_json j i = j.marshal (if i.valid then some i.number else none)

  unfoldable pub parsed : NullNumber N → Result E N → NullNumber N × Option E
  parsed old (ok n) = (record { number = n; valid = true }, none)
  parsed old (err e) = (old, some e)

  -- `parse` is ParseInt in base 10 with 64 bits, or ParseFloat with 64 bits.
  unfoldable pub unmarshal_text :
      (Text → Result E N) → NullNumber N → Text → NullNumber N × Option E
  unfolding parsed
  unmarshal_text parse old text = parsed old (parse text)

  unfoldable pub unmarshaled : NullNumber N → N × Option E → NullNumber N × Option E
  unmarshaled old (n, none) = (record { number = n; valid = true }, none)
  unmarshaled old (n, some e) = (record old { number = n }, some e)

  unfoldable pub unmarshal_json : Json N E → NullNumber N → Text → NullNumber N × Option E
  unfolding unmarshaled
  unmarshal_json j old s =
      if has_prefix s (codes "n") then (old, none) else unmarshaled old (j.unmarshal old.number s)

  -- The number that was marshalled is read back into any receiver, and NULL leaves it as it is, if json
  -- writes null as a text with an n at its front, and reads back each number that it writes as another.
  pub unmarshal_json-marshal_json :
      (j : Json N E) (old i : NullNumber N) (s : Text)
      → has_prefix s (codes "n") ≡ (if i.valid then false else true)
      → marshal_json j i ≡ ok s
      → ((n : N) → j.unmarshal n s ≡ (i.number, none))
      → unmarshal_json j old s
        ≡ (if i.valid then record { number = i.number; valid = true } else old, none)
  unfolding unmarshal_json marshal_json
  unmarshal_json-marshal_json j old i s starts written reads = elim (Bool-cases i.valid) [
    | inl e ↦ rw (starts, e, reads old.number) (unfold unmarshaled in refl)
    | inr e ↦ rw (starts, e) refl
  ]
