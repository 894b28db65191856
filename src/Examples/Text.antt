-- ===== src/Examples/Text.antt =====
-- Inputs for strcase and the keys of logging. The classification of runes is that of ASCII.
use icinga_go_library.Prelude.{
  ℕ, ◌+◌, ◌-◌, Bool, ◌&&◌, ◌≡◌, refl, [], ◌∷◌, map, concat, join, All, codes, leb, if◌then◌else◌,
}
use icinga_go_library.Strcase.{
  Unicode, lower_case, to, convert, words, IsWord, AreCut, convert-words, snake,
}
use icinga_go_library.Journald.{IsFieldKey, encode_journald_field_key, encode-IsFieldKey}

abbrev in_range : ℕ → ℕ → ℕ → Bool
in_range lo hi r = leb lo r && leb r hi

abbrev ascii : Unicode
ascii = record {
  is_upper = in_range 65 90;
  is_lower = in_range 97 122;
  is_number = in_range 48 57;
  to_upper = λ r. if in_range 97 122 r then r - 32 else r;
  to_lower = λ r. if in_range 65 90 r then r + 32 else r;
}

snake_name : snake ascii (codes "hostName2Check") ≡ codes "host_name2_check"
unfolding snake
snake_name = refl

field_key : encode_journald_field_key ascii (codes "_host name") ≡ codes "ESC__HOST_NAME"
unfolding encode_journald_field_key
field_key = refl

convert-words_example :
    (convert ascii (codes "hostName") lower_case 95
      ≡ join (map (map (to ascii lower_case)) (words ascii (codes "hostName"))) (95 ∷ []))
    × (concat (words ascii (codes "hostName")) ≡ codes "hostName")
    × All (IsWord ascii) (words ascii (codes "hostName"))
    × AreCut ascii (words ascii (codes "hostName"))
convert-words_example = convert-words ascii lower_case 95 (codes "hostName")

encode-IsFieldKey_example : IsFieldKey (encode_journald_field_key ascii (codes "_host name"))
encode-IsFieldKey_example = encode-IsFieldKey ascii (codes "_host name")
