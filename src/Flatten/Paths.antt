-- ===== src/Flatten/Paths.antt =====
-- flatten/flatten.go: the keys are the paths to the leaves.
use icinga_go_library.Prelude.{
  ℕ, ◌+◌, Option, none, some, List, [], ◌∷◌, ◌++◌, Text, codes, ◌≡◌, refl, ap,
}
use icinga_go_library.Strconv.{format_uint}
use icinga_go_library.Flatten.{
  Value, null, float, other, object, array, Pairs, no_pairs, pair, Items, no_items, item, Entry,
  flatten, flatten_pairs, flatten_items,
}

-- a step into a value
pub data Step : Type 0 where
  field : Text → Step
  index : ℕ → Step

abbrev pub Leaf : Type 0
Leaf = List Step × Option Text

-- a leaf, seen from above a step
abbrev pub below : Step → List Leaf → List Leaf
below s [] = []
below s ((path, v) ∷ leaves) = (s ∷ path, v) ∷ below s leaves

-- the leaves of a value with the paths to them, in order
unfoldable mutual
  pub leaves : Value → List Leaf
  leaves null = ([], some (codes "null")) ∷ []
  leaves (float s) = ([], some s) ∷ []
  leaves (other s) = ([], some s) ∷ []
  leaves (object no_pairs) = ([], none) ∷ []
  leaves (object (pair k v ps)) = below (field k) (leaves v) ++ leaves_pairs ps
  leaves (array no_items) = ([], none) ∷ []
  leaves (array (item v vs)) = below (index 0) (leaves v) ++ leaves_items 1 vs

  pub leaves_pairs : Pairs → List Leaf
  leaves_pairs no_pairs = []
  leaves_pairs (pair k v ps) = below (field k) (leaves v) ++ leaves_pairs ps

  pub leaves_items : ℕ → Items → List Leaf
  leaves_items i no_items = []
  leaves_items i (item v vs) = below (index i) (leaves v) ++ leaves_items (i + 1) vs

-- a path as it is written behind a prefix
unfoldable pub render_step : Step → Text
render_step (field k) = codes "." ++ k
render_step (index i) = codes "[" ++ (format_uint i ++ codes "]")

unfoldable pub render : Text → List Step → Text
unfolding render_step
render key [] = key
render key (s ∷ path) = render (key ++ render_step s) path

abbrev pub rendered : Text → List Leaf → List Entry
rendered key [] = []
rendered key ((path, v) ∷ leaves) = (render key path, v) ∷ rendered key leaves

rendered-append :
    (key : Text) (xs ys : List Leaf) → rendered key (xs ++ ys) ≡ rendered key xs ++ rendered key ys
rendered-append key [] ys = refl
rendered-append key ((path, v) ∷ xs) ys =
    ap (λ (l : List Entry). (render key path, v) ∷ l) (rendered-append key xs ys)

rendered-below :
    (key : Text) (s : Step) (xs : List Leaf)
    → rendered key (below s xs) ≡ rendered (key ++ render_step s) xs
unfolding render
rendered-below key s [] = refl
rendered-below key s ((path, v) ∷ xs) =
    ap (λ (l : List Entry). (render (key ++ render_step s) path, v) ∷ l) (rendered-below key s xs)

-- A step in front and what is left, with the equations of both.
join_parts :
    (key : Text) (s : Step) (xs ys : List Leaf) (fs gs : List Entry)
    → fs ≡ rendered (key ++ render_step s) xs
    → gs ≡ rendered key ys
    → fs ++ gs ≡ rendered key (below s xs ++ ys)
join_parts key s xs ys fs gs e h =
    rw (rendered-append key (below s xs) ys, rendered-below key s xs, e, h) refl

mutual
  unfolding flatten leaves render render_step

  flatten-leaves : (key : Text) (v : Value) → flatten key v ≡ rendered key (leaves v)
  flatten-leaves key null = refl
  flatten-leaves key (float s) = refl
  flatten-leaves key (other s) = refl
  flatten-leaves key (object no_pairs) = refl
  flatten-leaves key (object (pair k v ps)) =
      join_parts key (field k) (leaves v) (leaves_pairs ps) _ _ (flatten-leaves _ v)
        (flatten_pairs-leaves key ps)
  flatten-leaves key (array no_items) = refl
  flatten-leaves key (array (item v vs)) =
      join_parts key (index 0) (leaves v) (leaves_items 1 vs) _ _ (flatten-leaves _ v)
        (flatten_items-leaves key 1 vs)

  flatten_pairs-leaves :
      (key : Text) (ps : Pairs) → flatten_pairs key ps ≡ rendered key (leaves_pairs ps)
  flatten_pairs-leaves key no_pairs = refl
  flatten_pairs-leaves key (pair k v ps) =
      join_parts key (field k) (leaves v) (leaves_pairs ps) _ _ (flatten-leaves _ v)
        (flatten_pairs-leaves key ps)

  flatten_items-leaves :
      (key : Text) (i : ℕ) (vs : Items) → flatten_items key i vs ≡ rendered key (leaves_items i vs)
  flatten_items-leaves key i no_items = refl
  flatten_items-leaves key i (item v vs) =
      join_parts key (index i) (leaves v) (leaves_items (i + 1) vs) _ _ (flatten-leaves _ v)
        (flatten_items-leaves key (i + 1) vs)

-- Flatten makes one assignment for each leaf of the value, in order: its key is the prefix with the path
-- to the leaf, written with a dot before each key and with brackets around each index, and its value is
-- the text of the leaf, or NULL for an object or an array without elements.
pub flatten-eq-rendered : (key : Text) (v : Value) → flatten key v ≡ rendered key (leaves v)
flatten-eq-rendered key v = flatten-leaves key v
