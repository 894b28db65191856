-- ===== src/Examples/Structify.antt =====
-- Inputs for structify.
use icinga_go_library.Prelude.{
  ℕ, pos, true, false, Option, none, some, [], ◌∷◌, Text, codes, text_eq, err, ◌≡◌, ◌≢◌, refl,
  if◌then◌else◌, arith,
}
use icinga_go_library.Strconv.{out_of_range}
use icinga_go_library.Structify.{
  str, uint, int, scalar, struct, Fields, nil, field, number, failed, panicked, MapValue,
  text_value, Parsers,
}
use icinga_go_library.Structify.Tree.{
  Branches, branch, end, leaf, sub, build_fields, structify_map_by_tree,
}
use icinga_go_library.Structify.Fill.{fill}
use icinga_go_library.Structify.Agree.{structify-eq-fill}
use icinga_go_library.Structify.Safe.{structify-ne-panicked}
use icinga_go_library.Structify.Ranges.{FitsFields, structify-FitsFields}

-- a type with UnmarshalText that holds its text, and floats that are never parsed
abbrev parsers : Parsers Text ℕ
parsers = record { unmarshal = λ old s. (s, none); parse_float = λ bits s. err 0 }

-- an unexported field, a text, an inlined struct with two numbers, and a field without a tag
abbrev host : Fields Text
host = field false (codes "hidden") (scalar (str [])) (
    field true (codes "name") (scalar (str [])) (
      field true (codes ",inline")
        (struct (
          field true (codes "port") (scalar (uint 16 1))
            (field true (codes "offset") (scalar (int 8 (pos 0))) nil)))
        (field true [] (scalar (str [])) nil)))

abbrev tree : Branches
tree =
    branch (leaf 1 (codes "name"))
      (branch (sub 2 (branch (leaf 0 (codes "port")) (branch (leaf 1 (codes "offset")) end))) end)

abbrev message : Text → Option MapValue
message key =
    if text_eq key (codes "name")
    then some (text_value (codes "db"))
    else if text_eq key (codes "port")
    then some (text_value (codes "65535"))
    else if text_eq key (codes "offset")
    then some (text_value (codes "-129"))
    else none

host_tree : build_fields parsers host 0 ≡ some tree
unfolding build_fields text_eq
host_tree = refl

-- The port is the greatest that fits, and the offset is one below the least.
host_parsed :
    (structify_map_by_tree parsers message tree [] host).1
    ≡ failed (record {
      key = codes "offset";
      path = 2 ∷ 1 ∷ [];
      text = codes "-129";
      cause = number out_of_range;
    })
unfolding structify_map_by_tree text_eq
host_parsed = refl

structify-eq-fill_example :
    structify_map_by_tree parsers message tree [] host ≡ fill parsers message host [] 0
structify-eq-fill_example = structify-eq-fill parsers message host tree host_tree

structify-ne-panicked_example : (structify_map_by_tree parsers message tree [] host).1 ≢ panicked
structify-ne-panicked_example = structify-ne-panicked parsers message host tree host_tree

structify-FitsFields_example : FitsFields (structify_map_by_tree parsers message tree [] host).0
structify-FitsFields_example =
    structify-FitsFields parsers message host tree host_tree (omega arith)
