-- ===== src/Structify/Fill.antt =====
-- structify/structify.go: filling the fields in one walk over the struct, without a tree, is what the
-- structifier does.
use icinga_go_library.Prelude.{
  ℕ, ◌+◌, Bool, true, false, ◌||◌, Option, none, some, List, [], ◌∷◌, ◌++◌, Text, codes, text_eq,
  if◌then◌else◌,
}
use icinga_go_library.Structify.{
  Value, scalar, struct, Fields, nil, field, Outcome, done, failed, panicked, MapValue, text_value,
  other_value, Parsers,
}
use icinga_go_library.Structify.Tree.{set_leaf}

module _ {U E : Type 0} where
  -- a field behind which the walk ends where there is an error
  unfoldable pub with_rest :
      Bool → Text → Value U × Outcome E → Fields U → Fields U × Outcome E → Fields U × Outcome E
  with_rest exported tag (v, done) rest r = (field exported tag v r.0, r.1)
  with_rest exported tag (v, failed e) rest r = (field exported tag v rest, failed e)
  with_rest exported tag (v, panicked) rest r = (field exported tag v rest, panicked)

  unfoldable pub fill_leaf :
      Parsers U E → Option MapValue → Text → List ℕ → Value U → Value U × Outcome E
  fill_leaf p none key path v = (v, done)
  fill_leaf p (some other_value) key path v = (v, done)
  fill_leaf p (some (text_value s)) key path v = set_leaf p key path s v

module _ {U E : Type 0} (p : Parsers U E) (src : Text → Option MapValue) where
  unfoldable pub fill_field :
      Bool → Text → List ℕ → Value U → Value U × Outcome E → Value U × Outcome E
  unfolding fill_leaf
  fill_field false tag path v inner = (v, done)
  fill_field true tag path v inner =
      if text_eq tag [] || text_eq tag (codes "-")
      then (v, done)
      else if text_eq tag (codes ",inline")
      then inner
      else fill_leaf p (src tag) tag path v

  -- Every exported field with a tag takes the string of its key, inlined structs field by field, until
  -- the first error.
  unfoldable mutual
    unfolding with_rest fill_field

    pub fill_struct : Value U → List ℕ → Value U × Outcome E
    fill_struct (scalar x) path = (scalar x, panicked)
    fill_struct (struct fs) path = let r = fill fs path 0 in (struct r.0, r.1)

    pub fill : Fields U → List ℕ → ℕ → Fields U × Outcome E
    fill nil stack i = (nil, done)
    fill (field exported tag v rest) stack i =
        with_rest exported tag
          (fill_field exported tag (stack ++ i ∷ []) v (fill_struct v (stack ++ i ∷ []))) rest
          (fill rest stack (i + 1))
