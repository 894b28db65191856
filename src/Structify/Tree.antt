-- ===== src/Structify/Tree.antt =====
-- structify/structify.go: the tree of a struct's type, and how it leads the values to the fields.
use icinga_go_library.Prelude.{
  ℕ, zero, suc, ◌+◌, Bool, true, false, ◌||◌, Option, none, some, List, [], ◌∷◌, ◌++◌, Text, codes,
  text_eq, if◌then◌else◌,
}
use icinga_go_library.Structify.{
  Value, scalar, struct, Fields, nil, field, Outcome, done, failed, panicked, Parsed, fine, refused,
  no_type, MapValue, text_value, other_value, Parsers, parse_string, is_supported,
}

mutual
  pub data Branch : Type 0 where
    leaf : ℕ → Text → Branch
    sub : ℕ → Branches → Branch

  pub data Branches : Type 0 where
    end : Branches
    branch : Branch → Branches → Branches

-- `none` where the code panics, `some none` where the field adds no branch
unfoldable pub inline_branch : ℕ → Option Branches → Option (Option Branch)
inline_branch i none = none
inline_branch i (some end) = some none
inline_branch i (some (branch b bs)) = some (some (sub i (branch b bs)))

unfoldable pub field_branch : Bool → Text → ℕ → Bool → Option Branches → Option (Option Branch)
unfolding inline_branch
field_branch false tag i supported inner = some none
field_branch true tag i supported inner =
    if text_eq tag [] || text_eq tag (codes "-")
    then some none
    else if text_eq tag (codes ",inline")
    then inline_branch i inner
    else if supported
    then some (some (leaf i tag))
    else none

unfoldable pub add_branch : Option (Option Branch) → Option Branches → Option Branches
add_branch none rest = none
add_branch (some b) none = none
add_branch (some none) (some bs) = some bs
add_branch (some (some b)) (some bs) = some (branch b bs)

module _ {U E : Type 0} (p : Parsers U E) where
  unfoldable mutual
    unfolding field_branch add_branch is_supported

    -- Of a type that is no struct, `NumField` panics.
    pub build_struct_tree : Value U → Option Branches
    build_struct_tree (scalar x) = none
    build_struct_tree (struct fs) = build_fields fs 0

    pub build_fields : Fields U → ℕ → Option Branches
    build_fields nil i = some end
    build_fields (field exported tag v rest) i =
        add_branch (field_branch exported tag i (is_supported p v) (build_struct_tree v))
          (build_fields rest (i + 1))

unfoldable pub outcome : {E : Type 0} → Text → List ℕ → Text → Parsed E → Outcome E
outcome key path text fine = done
outcome key path text (refused c) =
    failed (record { key = key; path = path; text = text; cause = c })
outcome key path text no_type = panicked

module _ {U E : Type 0} where
  -- `dest.Field(i)` and what is done with it; it panics behind the last field.
  unfoldable pub at_field : ℕ → (Value U → Value U × Outcome E) → Fields U → Fields U × Outcome E
  at_field i f nil = (nil, panicked)
  at_field zero f (field exported tag v rest) = (field exported tag (f v).0 rest, (f v).1)
  at_field (suc i) f (field exported tag v rest) =
      let r = at_field i f rest in (field exported tag v r.0, r.1)

  unfoldable pub set_leaf : Parsers U E → Text → List ℕ → Text → Value U → Value U × Outcome E
  unfolding outcome parse_string
  set_leaf p key path text (scalar x) =
      let r = parse_string p text x in (scalar r.0, outcome key path text r.1)
  set_leaf p key path text (struct fs) = (struct fs, panicked)

  unfoldable pub in_struct : (Fields U → Fields U × Outcome E) → Value U → Value U × Outcome E
  in_struct f (scalar x) = (scalar x, panicked)
  in_struct f (struct fs) = let r = f fs in (struct r.0, r.1)

  -- `if err := …; err != nil { return err }`
  unfoldable pub and_then :
      Fields U × Outcome E → (Fields U → Fields U × Outcome E) → Fields U × Outcome E
  and_then (d, done) f = f d
  and_then (d, failed e) f = (d, failed e)
  and_then (d, panicked) f = (d, panicked)

  -- A key that is missing, or whose value is no string, is passed over.
  unfoldable pub parse_leaf :
      Parsers U E → Option MapValue → ℕ → Text → List ℕ → Fields U → Fields U × Outcome E
  unfolding at_field set_leaf
  parse_leaf p none i key path d = (d, done)
  parse_leaf p (some other_value) i key path d = (d, done)
  parse_leaf p (some (text_value s)) i key path d = at_field i (set_leaf p key path s) d

module _ {U E : Type 0} (p : Parsers U E) (src : Text → Option MapValue) where
  -- `stack` holds the indices of the fields that lead to `dest`.
  unfoldable mutual
    unfolding parse_leaf in_struct and_then at_field

    pub structify_map_by_tree : Branches → List ℕ → Fields U → Fields U × Outcome E
    structify_map_by_tree end stack dest = (dest, done)
    structify_map_by_tree (branch b bs) stack dest =
        and_then (structify_branch b stack dest) (structify_map_by_tree bs stack)

    pub structify_branch : Branch → List ℕ → Fields U → Fields U × Outcome E
    structify_branch (leaf i key) stack dest = parse_leaf p (src key) i key (stack ++ i ∷ []) dest
    structify_branch (sub i t) stack dest =
        at_field i (in_struct (structify_map_by_tree t (stack ++ i ∷ []))) dest

-- The structifier that MakeMapStructifier makes for the type of `zero_value`; `init` is the
-- initializer, or does nothing. `none` is the panic of MakeMapStructifier.
unfoldable pub make_map_structifier :
    {U E : Type 0}
    → Parsers U E
    → Fields U
    → (Fields U → Fields U)
    → Option ((Text → Option MapValue) → Fields U × Outcome E)
unfolding build_fields structify_map_by_tree
make_map_structifier {U} {E} p zero_value init =
    elim (build_fields p zero_value 0)
      as (λ _. Option ((Text → Option MapValue) → Fields U × Outcome E)) [
        | none ↦ none
        | some tree ↦ some (λ src. structify_map_by_tree p src tree [] (init zero_value))
      ]
