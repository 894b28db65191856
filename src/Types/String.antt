-- ===== src/Types/String.antt =====
-- types/string.go. What json does with a string is an argument.
use icinga_go_library.Prelude.{
  Bool, true, ◌≡◌, ◌≢◌, refl, Text, ◌==◌, if◌then◌else◌, arith, Bool-cases, inl, inr, [], ◌∷◌, ◌++◌,
  All, ap, Option, none, some, Result, ok, codes, has_prefix, not,
}
use icinga_go_library.Types.Number.{Json}
use icinga_go_library.Types.{Source, null, bytes}

pub record NullString : Type 0 where
  pub string : Text
  pub valid : Bool

unfoldable pub make_string : Text → NullString
make_string s = record { string = s; valid = true }

-- strings.ReplaceAll(s, "\x00", "")
unfoldable pub without_nul : Text → Text
without_nul [] = []
without_nul (c ∷ s) = let rest = without_nul s in if c == 0 then rest else c ∷ rest

unfoldable pub value : NullString → Source
unfolding without_nul
value s = if s.valid then bytes (without_nul s.string) else null

without_nul-All : (s : Text) → All (λ c. c ≢ 0) (without_nul s)
unfolding without_nul
without_nul-All [] = tt
without_nul-All (c ∷ s) = elim (Bool-cases (c == 0)) [
  | inl e ↦ rw (e, if◌then◌else◌) (without_nul-All s)
  | inr e ↦ rw (e, if◌then◌else◌) ((λ z. ground arith), without_nul-All s)
]

without_nul-append : (s t : Text) → without_nul (s ++ t) ≡ without_nul s ++ without_nul t
unfolding without_nul
without_nul-append [] t = refl
without_nul-append (c ∷ s) t = elim (Bool-cases (c == 0)) [
  | inl e ↦ rw (e, if◌then◌else◌) (without_nul-append s t)
  | inr e ↦ rw (e, if◌then◌else◌) (ap (λ l. c ∷ l) (without_nul-append s t))
]

without_nul-same : (s : Text) → All (λ c. c ≢ 0) s → without_nul s ≡ s
unfolding without_nul
without_nul-same [] h = refl
without_nul-same (c ∷ s) (h, hs) = elim (Bool-cases (c == 0)) [
  | inl e ↦ absurd (h (ground arith))
  | inr e ↦ rw (e, if◌then◌else◌) (ap (λ l. c ∷ l) (without_nul-same s hs))
]

-- What reaches the database of a text holds no NUL; texts without NUL reach it unchanged, also as parts
-- of a longer text.
pub value-make_string :
    (s t : Text)
    → All (λ c. c ≢ 0) s
    → (text : Text) × (value (make_string (s ++ t)) ≡ bytes (s ++ text)) × All (λ c. c ≢ 0) text
unfolding value make_string
value-make_string s t h =
    (without_nul t, rw (without_nul-append s t, without_nul-same s h) refl, without_nul-All t)

unfoldable pub marshal_json : {E : Type 0} → Json Text E → NullString → Result E Text
marshal_json j s = j.marshal (if s.valid then some s.string else none)

unfoldable pub stored_string : {E : Type 0} → NullString → Text × Option E → NullString × Option E
stored_string old (s, none) = (record { string = s; valid = true }, none)
stored_string old (s, some e) = (record old { string = s }, some e)

unfoldable pub unmarshal_json :
    {E : Type 0} → Json Text E → NullString → Text → NullString × Option E
unfolding stored_string
unmarshal_json j old s =
    if has_prefix s (codes "n") then (old, none) else stored_string old (j.unmarshal old.string s)

-- A string that is not NULL is read back from its JSON into any receiver, if json reads back what it
-- wrote, and only null starts with an n; NULL leaves the receiver as it is.
pub unmarshal_json-marshal_json_string :
    {E : Type 0} (j : Json Text E) (old v : NullString) (s : Text)
    → marshal_json j v ≡ ok s
    → has_prefix s (codes "n") ≡ not v.valid
    → ((o : Text) → j.unmarshal o s ≡ (v.string, none))
    → unmarshal_json j old s
      ≡ (if v.valid then record { string = v.string; valid = true } else old, none)
unfolding unmarshal_json
unmarshal_json-marshal_json_string j old v s written starts reads = elim (Bool-cases v.valid) [
  | inl e ↦ rw (starts, e, reads old.string) (unfold stored_string in refl)
  | inr e ↦ rw (starts, e) refl
]
