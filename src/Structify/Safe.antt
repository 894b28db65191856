-- ===== src/Structify/Safe.antt =====
-- structify/structify.go: a type that MakeMapStructifier accepts never makes the structifier panic, and
-- the numbers in the struct stay in the ranges of their types.
use icinga_go_library.Prelude.{
  ℕ, ◌+◌, Bool, true, false, ◌||◌, Option, none, some, List, [], ◌∷◌, ◌++◌, Text, codes, text_eq,
  ◌≡◌, ◌≢◌, refl, arith, inl, inr, Bool-cases, Option-cases, ok, err,
}
use icinga_go_library.Strconv.{parse_uint, parse_int}
use icinga_go_library.Structify.{
  Scalar, unmarshaler, str, str_ptr, uint, int, float, unsupported, Value, scalar, struct, Fields,
  nil, field, Outcome, done, failed, panicked, MapValue, text_value, other_value, Parsers,
  is_supported, has_type, parse_string, Parsed, fine, refused, no_type, unmarshaled, stored_uint,
  stored_int, stored_float,
}
use icinga_go_library.Structify.Tree.{
  Branch, Branches, inline_branch, field_branch, build_struct_tree, build_fields, set_leaf,
  structify_map_by_tree, outcome,
}
use icinga_go_library.Structify.Fill.{with_rest, fill_leaf, fill_field, fill_struct, fill}
use icinga_go_library.Structify.Agree.{add_branch-some, structify-eq-fill}

outcome-ne-panicked :
    {E : Type 0} (key : Text) (path : List ℕ) (s : Text) (r : Parsed E)
    → has_type r ≡ true
    → outcome key path s r ≢ panicked
unfolding has_type outcome
outcome-ne-panicked key path s fine h = λ e. cc
outcome-ne-panicked key path s (refused c) h = λ e. cc
outcome-ne-panicked key path s no_type h = cc

module _ {U E : Type 0} where
  has_type-unmarshaled : (r : U × Option E) → has_type (unmarshaled r).1 ≡ true
  unfolding has_type unmarshaled
  has_type-unmarshaled (u, none) = refl
  has_type-unmarshaled (u, some e) = refl

  -- Whether there is a type for it does not depend on the text.
  has_type-parse_string :
      (p : Parsers U E) (s : Text) (x : Scalar U)
      → has_type (parse_string p [] x).1 ≡ true
      → has_type (parse_string p s x).1 ≡ true
  unfolding parse_string has_type stored_uint stored_int stored_float
  has_type-parse_string p s (unmarshaler u) h = has_type-unmarshaled (p.unmarshal u s)
  has_type-parse_string p s (str t) h = refl
  has_type-parse_string p s (str_ptr t) h = refl
  has_type-parse_string p s (uint bits x) h =
      elim (parse_uint bits s) as (λ r. has_type (stored_uint {U = U} {E = E} bits x r).1 ≡ true) [
        | ok n ↦ refl
        | err e ↦ refl
      ]
  has_type-parse_string p s (int bits x) h =
      elim (parse_int bits s) as (λ r. has_type (stored_int {U = U} {E = E} bits x r).1 ≡ true) [
        | ok n ↦ refl
        | err e ↦ refl
      ]
  has_type-parse_string p s (float bits x) h =
      elim (p.parse_float bits s)
        as (λ r. has_type (stored_float {U = U} {E = E} bits x r).1 ≡ true) [
          | ok n ↦ refl
          | err e ↦ refl
        ]
  has_type-parse_string p s unsupported h = h

  set_leaf-ne-panicked :
      (p : Parsers U E) (key : Text) (path : List ℕ) (s : Text) (v : Value U)
      → is_supported p v ≡ true
      → (set_leaf p key path s v).1 ≢ panicked
  unfolding set_leaf is_supported
  set_leaf-ne-panicked p key path s (scalar x) h =
      outcome-ne-panicked key path s (parse_string p s x).1 (has_type-parse_string p s x h)
  set_leaf-ne-panicked p key path s (struct fs) h = cc

  fill_leaf-ne-panicked :
      (p : Parsers U E) (m : Option MapValue) (key : Text) (path : List ℕ) (v : Value U)
      → is_supported p v ≡ true
      → (fill_leaf p m key path v).1 ≢ panicked
  unfolding fill_leaf
  fill_leaf-ne-panicked p none key path v h = λ e. cc
  fill_leaf-ne-panicked p (some other_value) key path v h = λ e. cc
  fill_leaf-ne-panicked p (some (text_value s)) key path v h = set_leaf-ne-panicked p key path s v h

  with_rest-ne-panicked :
      (exported : Bool) (tag : Text) (r : Value U × Outcome E) (rest : Fields U)
      (r' : Fields U × Outcome E)
      → r.1 ≢ panicked
      → r'.1 ≢ panicked
      → (with_rest exported tag r rest r').1 ≢ panicked
  unfolding with_rest
  with_rest-ne-panicked exported tag (v, done) rest r' h h' = h'
  with_rest-ne-panicked exported tag (v, failed e) rest r' h h' = λ q. cc
  with_rest-ne-panicked exported tag (v, panicked) rest r' h h' = h

module _ {U E : Type 0} (p : Parsers U E) (src : Text → Option MapValue) where
  fill_field-ne-panicked :
      (exported : Bool) (tag : Text) (i : ℕ) (path : List ℕ) (v : Value U) (inner : Option Branches)
      (o : Option Branch) (r : Value U × Outcome E)
      → ((t : Branches) → inner ≡ some t → r.1 ≢ panicked)
      → field_branch exported tag i (is_supported p v) inner ≡ some o
      → (fill_field p src exported tag path v r).1 ≢ panicked
  unfolding fill_field field_branch inline_branch
  fill_field-ne-panicked false tag i path v inner o r safe h = λ e. cc
  fill_field-ne-panicked true tag i path v inner o r safe h =
      elim (Bool-cases (text_eq tag [] || text_eq tag (codes "-"))) [
        | inl skip ↦ rw skip (λ e. cc)
        | inr used ↦ elim (Bool-cases (text_eq tag (codes ",inline"))) [
          | inl inlined ↦
              rw (used, inlined)
                (elim (Option-cases inner) [
                  | inl e ↦ absurd (ground arith)
                  | inr (t, e) ↦ safe t e
                ])
          | inr keyed ↦
              let e : is_supported p v ≡ true = ground arith in
              rw (used, keyed) (fill_leaf-ne-panicked p (src tag) tag path v e)
        ]
      ]

  mutual
    unfolding build_struct_tree build_fields fill_struct fill

    struct_safe :
        (v : Value U) (path : List ℕ) (t : Branches)
        → build_struct_tree p v ≡ some t
        → (fill_struct p src v path).1 ≢ panicked
    struct_safe (scalar x) path t h = cc
    struct_safe (struct fs) path t h = fields_safe fs path 0 t h

    fields_safe :
        (fs : Fields U) (stack : List ℕ) (i : ℕ) (t : Branches)
        → build_fields p fs i ≡ some t
        → (fill p src fs stack i).1 ≢ panicked
    fields_safe nil stack i t h = λ e. cc
    fields_safe (field exported tag v rest) stack i t h =
        let (o, bs, eo, er, et) =
          add_branch-some (field_branch exported tag i (is_supported p v) (build_struct_tree p v))
            (build_fields p rest (i + 1)) t h in
        with_rest-ne-panicked exported tag _ rest _
          (fill_field-ne-panicked exported tag i (stack ++ i ∷ []) v (build_struct_tree p v) o
            (fill_struct p src v (stack ++ i ∷ [])) (struct_safe v (stack ++ i ∷ [])) eo)
          (fields_safe rest stack (i + 1) bs er)

-- Whatever the map holds and the parsers return: of a struct whose type MakeMapStructifier accepts, no
-- field makes the structifier panic.
pub structify-ne-panicked :
    {U E : Type 0} (p : Parsers U E) (src : Text → Option MapValue) (dest : Fields U)
    (tree : Branches)
    → build_fields p dest 0 ≡ some tree
    → (structify_map_by_tree p src tree [] dest).1 ≢ panicked
structify-ne-panicked p src dest tree h =
    rw (structify-eq-fill p src dest tree h) (fields_safe p src dest [] 0 tree h)
