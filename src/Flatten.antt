-- ===== src/Flatten.antt =====
-- flatten/flatten.go: flattening nested values into a map from paths to texts. What FormatFloat and
-- Sprintf print stands in the values; the pairs of a map come in the order of their iteration.
pub mod Paths
pub mod Collision
pub mod Lossless
use icinga_go_library.Prelude.{
  ℕ, zero, suc, ◌+◌, Bool, true, false, Option, none, some, List, [], ◌∷◌, ◌++◌, Text, codes,
  text_eq, if◌then◌else◌,
}
use icinga_go_library.Strconv.{format_uint}

mutual
  pub data Value : Type 0 where
    null : Value
    float : Text → Value
    other : Text → Value
    object : Pairs → Value
    array : Items → Value

  pub data Pairs : Type 0 where
    no_pairs : Pairs
    pair : Text → Value → Pairs → Pairs

  pub data Items : Type 0 where
    no_items : Items
    item : Value → Items → Items

-- `types.String`: `none` is NULL
abbrev pub Entry : Type 0
Entry = Text × Option Text

-- The assignments to the map, in order. An object or an array without elements is NULL.
unfoldable mutual
  unfolding format_uint

  pub flatten : Text → Value → List Entry
  flatten key null = (key, some (codes "null")) ∷ []
  flatten key (float s) = (key, some s) ∷ []
  flatten key (other s) = (key, some s) ∷ []
  flatten key (object no_pairs) = (key, none) ∷ []
  flatten key (object (pair k v ps)) = flatten (key ++ (codes "." ++ k)) v ++ flatten_pairs key ps
  flatten key (array no_items) = (key, none) ∷ []
  flatten key (array (item v vs)) =
      flatten (key ++ (codes "[" ++ (format_uint 0 ++ codes "]"))) v ++ flatten_items key 1 vs

  pub flatten_pairs : Text → Pairs → List Entry
  flatten_pairs key no_pairs = []
  flatten_pairs key (pair k v ps) = flatten (key ++ (codes "." ++ k)) v ++ flatten_pairs key ps

  pub flatten_items : Text → ℕ → Items → List Entry
  flatten_items key i no_items = []
  flatten_items key i (item v vs) =
      flatten (key ++ (codes "[" ++ (format_uint i ++ codes "]"))) v ++ flatten_items key (i + 1) vs

-- the value of a key in the map: the last assignment counts
unfoldable pub value_of : Text → List Entry → Option (Option Text)
value_of key [] = none
value_of key ((k, v) ∷ rest) = elim (value_of key rest) [
  | some w ↦ some w
  | none ↦ if text_eq k key then some v else none
]
