-- ===== src/Examples/Values.antt =====
-- Inputs for flatten.
use icinga_go_library.Prelude.{none, some, [], ◌∷◌, codes, ◌≡◌, refl, arith, All}
use icinga_go_library.Flatten.{
  Value, null, float, other, object, array, no_pairs, pair, no_items, item, flatten, value_of,
}
use icinga_go_library.Flatten.Paths.{leaves, render}
use icinga_go_library.Flatten.Lossless.{flatten_lossless}

abbrev nested : Value
nested = object (
    pair (codes "a") (array (item null (item (object no_pairs) no_items)))
      (pair (codes "b") (other (codes "true")) no_pairs))

nested_flat :
    flatten (codes "x") nested
    ≡ (codes "x.a[0]", some (codes "null"))
      ∷ (codes "x.a[1]", none)
      ∷ (codes "x.b", some (codes "true"))
      ∷ []
unfolding flatten
nested_flat = refl

-- Two leaves with one key: of the map only one of them is left, by the order of the iteration.
dotted :
    flatten [] (
      object (
        pair
          (codes "a.b")
          null
          (pair (codes "a") (object (pair (codes "b") (float (codes "1")) no_pairs)) no_pairs)))
    ≡ (codes ".a.b", some (codes "null")) ∷ (codes ".a.b", some (codes "1")) ∷ []
unfolding flatten
dotted = refl

flatten_lossless_example :
    All
      (λ leaf. value_of (render (codes "x") leaf.0) (flatten (codes "x") nested) ≡ some leaf.1)
      (leaves nested)
flatten_lossless_example = flatten_lossless (codes "x") nested (ground arith)
