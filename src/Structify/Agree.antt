-- ===== src/Structify/Agree.antt =====
-- structify/structify.go: the structifier with its tree fills the struct as the walk of Fill does.
use icinga_go_library.Prelude.{
  ℕ, suc, ◌+◌, Bool, true, false, ◌||◌, Option, none, some, List, [], ◌∷◌, ◌++◌, Text, codes,
  text_eq, ◌≡◌, refl, arith, inl, inr, Bool-cases, ap,
}
use icinga_go_library.Structify.{
  Value, scalar, struct, Fields, nil, field, Outcome, done, failed, panicked, MapValue, text_value,
  other_value, Parsers, is_supported,
}
use icinga_go_library.Structify.Tree.{
  Branch, leaf, sub, Branches, end, branch, inline_branch, field_branch, add_branch,
  build_struct_tree, build_fields, at_field, set_leaf, in_struct, and_then, parse_leaf,
  structify_map_by_tree, structify_branch,
}
use icinga_go_library.Structify.Fill.{with_rest, fill_leaf, fill_field, fill_struct, fill}

module _ {U : Type 0} where
  abbrev join_fields : Fields U → Fields U → Fields U
  join_fields nil fs = fs
  join_fields (field exported tag v rest) fs = field exported tag v (join_fields rest fs)

  abbrev count_fields : Fields U → ℕ
  count_fields nil = 0
  count_fields (field exported tag v rest) = suc (count_fields rest)

  join_assoc :
      (a b c : Fields U) → join_fields (join_fields a b) c ≡ join_fields a (join_fields b c)
  join_assoc nil b c = refl
  join_assoc (field exported tag v rest) b c = ap (field exported tag v) (join_assoc rest b c)

  count_last :
      (a : Fields U) (exported : Bool) (tag : Text) (v : Value U)
      → count_fields (join_fields a (field exported tag v nil)) ≡ count_fields a + 1
  count_last nil exported tag v = omega arith
  count_last (field x t w rest) exported tag v = omega (arith, count_last rest exported tag v)

module _ {U E : Type 0} where
  at_field-join :
      (a : Fields U) (f : Value U → Value U × Outcome E) (exported : Bool) (tag : Text)
      (v : Value U) (rest : Fields U)
      → at_field (count_fields a) f (join_fields a (field exported tag v rest))
        ≡ (join_fields a (field exported tag (f v).0 rest), (f v).1)
  unfolding at_field
  at_field-join nil f exported tag v rest = refl
  at_field-join (field x t w a) f exported tag v rest =
      rw (at_field-join a f exported tag v rest) refl

abbrev pub with_branch : Option Branch → Branches → Branches
with_branch none bs = bs
with_branch (some b) bs = branch b bs

pub add_branch-some :
    (o : Option (Option Branch)) (r : Option Branches) (t : Branches)
    → add_branch o r ≡ some t
    → (b : Option Branch) × (bs : Branches) × (o ≡ some b) × (r ≡ some bs) × (t ≡ with_branch b bs)
unfolding add_branch
add_branch-some none r t h = cc
add_branch-some (some b) none t h = cc
add_branch-some (some none) (some bs) t h = (none, bs, refl, refl, cc)
add_branch-some (some (some b)) (some bs) t h = (some b, bs, refl, refl, cc)

module _ {U E : Type 0} (p : Parsers U E) (src : Text → Option MapValue) where
  abbrev run_branch : Option Branch → List ℕ → Fields U → Fields U × Outcome E
  run_branch none stack d = (d, done)
  run_branch (some b) stack d = structify_branch p src b stack d

  run-with_branch :
      (o : Option Branch) (bs : Branches) (stack : List ℕ) (d : Fields U)
      → structify_map_by_tree p src (with_branch o bs) stack d
        ≡ and_then (run_branch o stack d) (structify_map_by_tree p src bs stack)
  unfolding structify_map_by_tree and_then
  run-with_branch none bs stack d = refl
  run-with_branch (some b) bs stack d = refl

  leaf_agrees :
      (a : Fields U) (m : Option MapValue) (tag : Text) (path : List ℕ) (v : Value U)
      (rest : Fields U)
      → parse_leaf p m (count_fields a) tag path (join_fields a (field true tag v rest)) ≡ (
        join_fields a (field true tag (fill_leaf p m tag path v).0 rest),
        (fill_leaf p m tag path v).1,
      )
  unfolding parse_leaf fill_leaf
  leaf_agrees a none tag path v rest = refl
  leaf_agrees a (some other_value) tag path v rest = refl
  leaf_agrees a (some (text_value s)) tag path v rest =
      at_field-join a (set_leaf p tag path s) true tag v rest

  -- the tree of a value that is inlined, and the walk over it
  abbrev Agrees : Value U → List ℕ → Type 0
  Agrees v path =
      (t : Branches)
      → build_struct_tree p v ≡ some t
      → in_struct (structify_map_by_tree p src t path) v ≡ fill_struct p src v path

  inline-Agrees :
      (a : Fields U) (tag : Text) (v : Value U) (rest : Fields U) (stack : List ℕ)
      (inner : Option Branches) (o : Option Branch)
      → build_struct_tree p v ≡ inner
      → Agrees v (stack ++ count_fields a ∷ [])
      → inline_branch (count_fields a) inner ≡ some o
      → run_branch o stack (join_fields a (field true tag v rest)) ≡ (
        join_fields a (field true tag (fill_struct p src v (stack ++ count_fields a ∷ [])).0 rest),
        (fill_struct p src v (stack ++ count_fields a ∷ [])).1,
      )
  unfolding inline_branch structify_branch
  inline-Agrees a tag v rest stack none o built agrees h = cc
  inline-Agrees a tag (scalar x) rest stack (some end) o built agrees h =
      absurd (unfold build_struct_tree in cc built)
  inline-Agrees a tag (struct fs) rest stack (some end) o built agrees h =
      let e : none ≡ o = cc in
      rw (← e, ← agrees end built) (unfold in_struct structify_map_by_tree in refl)
  inline-Agrees a tag v rest stack (some (branch b bs)) o built agrees h =
      let e : some (sub (count_fields a) (branch b bs)) ≡ o = cc in
      rw (← e, ← agrees (branch b bs) built)
        (at_field-join a
          (in_struct (structify_map_by_tree p src (branch b bs) (stack ++ count_fields a ∷ [])))
          true tag v rest)

  field-Agrees :
      (a : Fields U) (exported : Bool) (tag : Text) (v : Value U) (rest : Fields U) (stack : List ℕ)
      (o : Option Branch)
      → Agrees v (stack ++ count_fields a ∷ [])
      → field_branch exported tag (count_fields a) (is_supported p v) (build_struct_tree p v)
        ≡ some o
      → run_branch o stack (join_fields a (field exported tag v rest)) ≡ (
        join_fields a (
            field exported tag
              (fill_field p src exported tag
                (stack ++ count_fields a ∷ [])
                v
                (fill_struct p src v (stack ++ count_fields a ∷ []))).0
              rest),
        (fill_field p src exported tag
            (stack ++ count_fields a ∷ [])
            v
            (fill_struct p src v (stack ++ count_fields a ∷ []))).1,
      )
  unfolding field_branch fill_field
  field-Agrees a false tag v rest stack o agrees h = let e : none ≡ o = cc in rw (← e) refl
  field-Agrees a true tag v rest stack o agrees h =
      elim (Bool-cases (text_eq tag [] || text_eq tag (codes "-"))) [
        | inl skip ↦ let e : none ≡ o = ground arith in rw (skip, ← e) refl
        | inr used ↦ elim (Bool-cases (text_eq tag (codes ",inline"))) [
          | inl inlined ↦
              let e : inline_branch (count_fields a) (build_struct_tree p v) ≡ some o =
                ground arith in
              rw (used, inlined)
                (inline-Agrees a tag v rest stack (build_struct_tree p v) o refl agrees e)
          | inr keyed ↦
              let e : some (leaf (count_fields a) tag) ≡ o = ground arith in
              rw (used, keyed, ← e)
                (unfold structify_branch in
                  leaf_agrees a (src tag) tag (stack ++ count_fields a ∷ []) v rest)
        ]
      ]

  after_field :
      (a : Fields U) (exported : Bool) (tag : Text) (r : Value U × Outcome E) (rest : Fields U)
      (next : Fields U → Fields U × Outcome E) (r' : Fields U × Outcome E)
      → next (join_fields (join_fields a (field exported tag r.0 nil)) rest)
        ≡ (join_fields (join_fields a (field exported tag r.0 nil)) r'.0, r'.1)
      → and_then (join_fields a (field exported tag r.0 rest), r.1) next
        ≡ (join_fields a (with_rest exported tag r rest r').0, (with_rest exported tag r rest r').1)
  unfolding and_then with_rest
  after_field a exported tag (v, done) rest next r' h =
      rw
        (join_assoc a (field exported tag v nil) rest, join_assoc a (field exported tag v nil) r'.0)
        at h
  after_field a exported tag (v, failed e) rest next r' h = refl
  after_field a exported tag (v, panicked) rest next r' h = refl

  mutual
    unfolding build_struct_tree build_fields fill_struct fill structify_map_by_tree

    struct-Agrees : (v : Value U) (path : List ℕ) → Agrees v path
    struct-Agrees (scalar x) path t h = cc
    struct-Agrees (struct fs) path t h = rw (fields_agree fs nil 0 path t refl h) refl

    fields_agree :
        (fs a : Fields U) (i : ℕ) (stack : List ℕ) (t : Branches)
        → count_fields a ≡ i
        → build_fields p fs i ≡ some t
        → structify_map_by_tree p src t stack (join_fields a fs)
          ≡ (join_fields a (fill p src fs stack i).0, (fill p src fs stack i).1)
    fields_agree nil a i stack t e h = let e' : end ≡ t = cc in rw (← e') refl
    fields_agree (field exported tag v rest) a i stack t e h =
        let (o, bs, eo, er, et) =
          add_branch-some (field_branch exported tag i (is_supported p v) (build_struct_tree p v))
            (build_fields p rest (i + 1)) t h in
        rw
          (
            et,
            run-with_branch o bs stack (join_fields a (field exported tag v rest)),
            ← e,
            field-Agrees a exported tag v rest stack o
                (struct-Agrees v (stack ++ count_fields a ∷ [])) (rw e eo),
          )
          (after_field a exported tag
            (fill_field p src exported tag (stack ++ count_fields a ∷ []) v
              (fill_struct p src v (stack ++ count_fields a ∷ [])))
            rest (structify_map_by_tree p src bs stack) (fill p src rest stack (count_fields a + 1))
            (fields_agree rest _ (count_fields a + 1) stack bs (count_last a exported tag _)
              (rw e er)))

-- For every struct of an accepted type, every map, and all parsers: following the tree fills the very
-- fields, with the very error or panic, that walking over the exported fields with a tag fills, the
-- inlined structs field by field, until the first error.
pub structify-eq-fill :
    {U E : Type 0} (p : Parsers U E) (src : Text → Option MapValue) (dest : Fields U)
    (tree : Branches)
    → build_fields p dest 0 ≡ some tree
    → structify_map_by_tree p src tree [] dest ≡ fill p src dest [] 0
structify-eq-fill p src dest tree h = fields_agree p src dest nil 0 [] tree refl h
