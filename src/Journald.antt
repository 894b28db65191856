-- ===== src/Journald.antt =====
-- logging/journald_core.go: the keys of the fields, and what Write gives journald. `V` stands for what a
-- field adds to the encoder under its key.
pub mod Core
use icinga_go_library.Prelude.{
  ℕ, ◌≤◌, ◌<◌, Bool, true, ◌&&◌, ◌||◌, ◌≡◌, refl, ap, List, [], ◌∷◌, ◌++◌, map, Text, codes, length,
  take, length-take, All, All-map, All-take, if◌then◌else◌, arith, Bool-cases, inl, inr, ltb, leb,
  ◌==◌,
}
use icinga_go_library.Strcase.{
  Unicode, screaming_snake, screaming_delimited, convert, upper_case, convert_from, to,
}

unfoldable pub is_ascii_upper : ℕ → Bool
is_ascii_upper r = leb 65 r && leb r 90

unfoldable pub is_ascii_digit : ℕ → Bool
is_ascii_digit r = leb 48 r && leb r 57

-- what is left as it is
unfoldable pub is_key_rune : ℕ → Bool
unfolding is_ascii_upper is_ascii_digit
is_key_rune r = is_ascii_upper r || is_ascii_digit r || r == 95

-- a step of the loop over the runes
unfoldable pub sanitize : ℕ → ℕ
unfolding is_key_rune
sanitize r = if is_key_rune r then r else 95

-- The runes are ASCII here, so that the first byte is the first rune.
unfoldable pub escape : Text → Text
unfolding is_ascii_upper
escape [] = []
escape (r ∷ key) = if is_ascii_upper r then r ∷ key else codes "ESC_" ++ r ∷ key

-- `if len(key) > 64 { key = key[:64] }`
unfoldable pub truncate : Text → Text
truncate key = if ltb 64 (length key) then take 64 key else key

unfoldable pub encode_journald_field_key : Unicode → Text → Text
unfolding screaming_snake sanitize escape truncate
encode_journald_field_key u [] = codes "EMPTY_KEY"
encode_journald_field_key u (r ∷ key) =
    truncate (escape (map sanitize (screaming_snake u (r ∷ key))))

-- `addFields`, as far as the keys go
unfoldable pub add_fields : {V : Type 0} → Unicode → Text → List (Text × V) → List (Text × V)
unfolding encode_journald_field_key
add_fields u identifier [] = []
add_fields u identifier ((key, value) ∷ fields) =
    (encode_journald_field_key u (identifier ++ (codes "_" ++ key)), value)
    ∷ add_fields u identifier fields

-- What journald accepts as a key.
pub record IsFieldKey (key : Text) : Type 0 where
  pub some_rune : 0 < length key
  pub at_most_64 : length key ≤ 64
  pub first_upper : (r : ℕ) × (rest : Text) × (key ≡ r ∷ rest) × (is_ascii_upper r ≡ true)
  pub key_runes : All (λ r. is_key_rune r ≡ true) key

is_key_rune-sanitize : (r : ℕ) → is_key_rune (sanitize r) ≡ true
unfolding sanitize is_key_rune is_ascii_upper is_ascii_digit
is_key_rune-sanitize r = elim (Bool-cases (is_key_rune r)) [
  | inl e ↦ rw (e, if◌then◌else◌) e
  | inr e ↦ rw (e, if◌then◌else◌) refl
]

truncate-IsFieldKey :
    (r : ℕ) (key : Text)
    → is_ascii_upper r ≡ true
    → All (λ r. is_key_rune r ≡ true) (r ∷ key)
    → IsFieldKey (truncate (r ∷ key))
unfolding truncate
truncate-IsFieldKey r key h k = elim (Bool-cases (ltb 64 (length (r ∷ key)))) [
  | inl e ↦
      rw (e, if◌then◌else◌)
        (record {
          some_rune = omega (arith, length-take 64 (r ∷ key));
          at_most_64 = omega (arith, length-take 64 (r ∷ key));
          first_upper = (r, take 63 key, refl, h);
          key_runes = All-take (λ r. is_key_rune r ≡ true) 64 (r ∷ key) k;
        })
  | inr e ↦
      rw (e, if◌then◌else◌)
        (record {
          some_rune = omega arith;
          at_most_64 = ground arith;
          first_upper = (r, key, refl, h);
          key_runes = k;
        })
]

escaped-IsFieldKey :
    (r : ℕ) (key : Text)
    → All (λ r. is_key_rune r ≡ true) (r ∷ key)
    → IsFieldKey (truncate (escape (r ∷ key)))
unfolding escape
escaped-IsFieldKey r key k = elim (Bool-cases (is_ascii_upper r)) [
  | inl e ↦ rw (e, if◌then◌else◌) (truncate-IsFieldKey r key e k)
  | inr e ↦
      rw (e, if◌then◌else◌)
        (truncate-IsFieldKey 69 (codes "SC_" ++ r ∷ key) (unfold is_ascii_upper in refl)
          (unfold is_key_rune is_ascii_upper is_ascii_digit in (refl, (refl, (refl, (refl, k))))))
]

-- For every text, the empty one too, and every classification of runes, the key that is made is one that
-- journald accepts: 1 to 64 characters from A-Z, 0-9 and the underscore, the first one a letter.
pub encode-IsFieldKey : (u : Unicode) (key : Text) → IsFieldKey (encode_journald_field_key u key)
unfolding encode_journald_field_key screaming_snake screaming_delimited convert
encode-IsFieldKey u [] =
    unfold is_key_rune is_ascii_upper is_ascii_digit in
    record {
      some_rune = omega arith;
      at_most_64 = omega arith;
      first_upper = (69, codes "MPTY_KEY", refl, refl);
      key_runes = (refl, (refl, (refl, (refl, (refl, (refl, (refl, (refl, (refl, tt)))))))));
    }
encode-IsFieldKey u (r ∷ key) =
    escaped-IsFieldKey (sanitize (to u upper_case r))
      (map sanitize (convert_from u upper_case 95 r key))
      (All-map (λ r. is_key_rune r ≡ true) sanitize (screaming_snake u (r ∷ key))
        is_key_rune-sanitize)

-- Each field that is added, whatever its name and the identifier, gets a key that journald accepts; the
-- values and their order stay.
pub add_fields-IsFieldKey :
    {V : Type 0} (u : Unicode) (identifier : Text) (fields : List (Text × V))
    → All (λ f. IsFieldKey f.0) (add_fields u identifier fields)
      × (map (λ f. f.1) (add_fields u identifier fields) ≡ map (λ f. f.1) fields)
unfolding add_fields
add_fields-IsFieldKey u identifier [] = (tt, refl)
add_fields-IsFieldKey u identifier ((key, value) ∷ fields) =
    let (keys, values) = add_fields-IsFieldKey u identifier fields in
    ((encode-IsFieldKey u (identifier ++ (codes "_" ++ key)), keys), ap (λ l. value ∷ l) values)
