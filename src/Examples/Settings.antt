-- ===== src/Examples/Settings.antt =====
-- Inputs for version, config and logging.
use icinga_go_library.Prelude.{
  ℕ, Option, none, List, [], ◌∷◌, ◌++◌, Text, codes, text_eq, has_prefix, Result, ok, err, ◌≡◌, ◌↔◌,
  ◌+◌, ◌*◌, refl, inl, inr, arith, if◌then◌else◌,
}
use icinga_go_library.Version.OsRelease.{OsRelease, default_release, read_lines, display_version}
use icinga_go_library.Version.OsRelease.Assignments.{print_release, read_lines-print_release}
use icinga_go_library.Config.{pointer_to_struct, Steps, from_yaml_file}
use icinga_go_library.Config.Loads.{IsLoaded, from_yaml_file_lem}
use icinga_go_library.Logging.{find}
use icinga_go_library.Logging.Config.{unmarshal_text}
use icinga_go_library.Logging.Config.Entries.{
  Entry, print_entries, last_level, unmarshal_text-print,
}

abbrev alpine : OsRelease
alpine = record {
  name = codes "Alpine \"Linux\"";
  version = [];
  version_id = codes "3.20=x";
  build_id = [];
}

abbrev leading : List Text
leading = codes "# a comment" ∷ codes "NAME=Linux" ∷ codes "VERSION='1'" ∷ []

abbrev trailing : List Text
trailing =
    codes "#NAME=x" ∷ codes "no assignment" ∷ codes "HOME_URL=\"https://alpinelinux.org/\"" ∷ []

alpine_shown : display_version alpine ≡ codes "3.20=x"
unfolding display_version
alpine_shown = refl

read_lines-print_release_example :
    read_lines default_release (leading ++ (print_release 34 alpine ++ trailing)) ≡ alpine
unfolding text_eq has_prefix
read_lines-print_release_example =
    read_lines-print_release 34 default_release alpine leading trailing (inl refl) (
      inl refl,
      (
        inr (inl (omega arith)),
        (
          inr (
              inr (record {
                key = codes "HOME_URL";
                value = codes "\"https://alpinelinux.org/\"";
                plain = omega arith;
                is_line = refl;
                not_name = refl;
                not_version = refl;
                not_version_id = refl;
                not_build_id = refl;
              })),
          tt,
        ),
      ),
    )

-- the value counts what was done to it; an odd one is not valid
abbrev steps : Steps ℕ ℕ
steps = record {
  set_defaults = λ v. (v + 10, none);
  parse = λ v. (v * 2, none);
  validate = λ v. none;
}

from_yaml_file_lem_example : ((from_yaml_file steps none pointer_to_struct 1).error ≡ none) ↔ (
    (pointer_to_struct ≡ pointer_to_struct)
    × (◌≡◌ {A = Option ℕ} none none)
    × IsLoaded steps 1 (from_yaml_file steps none pointer_to_struct 1).value)
from_yaml_file_lem_example = from_yaml_file_lem steps none pointer_to_struct 1

-- levels by their first letter
abbrev level : Text → Result ℕ ℕ
level s =
    if text_eq s (codes "debug") then ok 1 else if text_eq s (codes "warn") then ok 2 else err 0

abbrev entry : Text → Text → ℕ → Entry ℕ
entry k s l = record { key = k; text = s; level = l }

unmarshal_text-print_example :
    ((unmarshal_text level [] (
        print_entries
          (entry (codes "db") (codes "debug") 1 ∷ entry (codes "db") (codes "warn") 2 ∷ []))).1
      ≡ none)
    × ((key : Text)
        → find key
            (unmarshal_text level [] (
              print_entries (
                entry (codes "db") (codes "debug") 1 ∷ entry (codes "db") (codes "warn") 2 ∷ []))).0
          ≡ last_level key
              (entry (codes "db") (codes "debug") 1 ∷ entry (codes "db") (codes "warn") 2 ∷ []))
unfolding text_eq
unmarshal_text-print_example =
    unmarshal_text-print level [] (entry (codes "db") (codes "debug") 1)
      (entry (codes "db") (codes "warn") 2 ∷ [])
      (
        record {
          key_lacks_colon = omega arith;
          key_lacks_comma = omega arith;
          text_lacks_comma = omega arith;
          parses = refl;
        },
        (
          record {
            key_lacks_colon = omega arith;
            key_lacks_comma = omega arith;
            text_lacks_comma = omega arith;
            parses = refl;
          },
          tt,
        ),
      )
