-- ===== src/Objectpacker/Counts.antt =====
-- The counts that `packValue` of objectpacker/objectpacker.go writes are those of the packed parts.
use icinga_go_library.Prelude.{
  suc, ◌≡◌, refl, ap, ◌∙◌, Option, none, some, List, [], ◌∷◌, length, arith, Bool-cases, inl, inr,
}
use icinga_go_library.Objectpacker.Value.{Bytes, Value, Values, Entries}
use icinga_go_library.Objectpacker.Sort.{sort_keys, insert_key, less}
use icinga_go_library.Objectpacker.Pack.{count_values, count_entries, add_pair}
use icinga_go_library.Objectpacker.Tree.{
  Tree, Trees, Fields, option_map, add_tree, fields_of, sorted_fields, key_of, tree_of, trees_of,
  pairs_of, count_trees, count_fields,
}

module _ {A : Type 0} where
  length-insert_key :
      (k : Bytes) (a : A) (l : List (Bytes × A)) → length (insert_key (k, a) l) ≡ suc (length l)
  unfolding insert_key
  length-insert_key k a [] = refl
  length-insert_key k a ((j, b) ∷ l) = elim (Bool-cases (less j k)) [
    | inl e ↦ rw e (ap suc (length-insert_key k a l))
    | inr e ↦ rw e
  ]

  pub length-sort_keys : (l : List (Bytes × A)) → length (sort_keys l) ≡ length l
  unfolding sort_keys
  length-sort_keys [] = refl
  length-sort_keys ((k, a) ∷ l) = length-insert_key k a (sort_keys l) ∙ ap suc (length-sort_keys l)

field_cases :
    (k : Bytes) (t : Tree) (o : Option Fields) {fs : Fields}
    → option_map (Fields.field k t) o ≡ some fs
    → (gs : Fields) × (o ≡ some gs) × (count_fields fs ≡ suc (count_fields gs))
unfolding count_fields
field_cases k t none h = cc
field_cases k t (some gs) h = (gs, refl, ground arith)

fields_count :
    (l : List (Bytes × Option Tree)) {fs : Fields}
    → fields_of l ≡ some fs
    → count_fields fs ≡ length l
unfolding fields_of
fields_count [] h = unfold count_fields in ground arith
fields_count ((k, none) ∷ l) h = cc
fields_count ((k, some t) ∷ l) h =
    let (gs, e, one_more) = field_cases k t (fields_of l) h in one_more ∙ ap suc (fields_count l e)

add_tree_cases :
    (o : Option Tree) (p : Option Trees) {ts : Trees}
    → add_tree o p ≡ some ts
    → (us : Trees) × (p ≡ some us) × (count_trees ts ≡ suc (count_trees us))
unfolding count_trees
add_tree_cases none p h = cc
add_tree_cases (some t) none h = cc
add_tree_cases (some t) (some us) h = (us, refl, ground arith)

add_pair_cases :
    (k : Option Bytes) (o : Option Tree) (p : Option (List (Bytes × Option Tree)))
    {l : List (Bytes × Option Tree)}
    → add_pair k o p ≡ some l
    → (m : List (Bytes × Option Tree)) × (p ≡ some m) × (length l ≡ suc (length m))
add_pair_cases none o p h = cc
add_pair_cases (some k) o none h = cc
add_pair_cases (some k) o (some m) h = (m, refl, ground arith)

module _ (sprint : Value → Bytes) where
  pub trees_count :
      (vs : Values) (ts : Trees) → trees_of sprint vs ≡ some ts → count_trees ts ≡ count_values vs
  unfolding trees_of count_values
  trees_count Values.nil ts h = unfold count_trees in ground arith
  trees_count (Values.cons v vs) ts h =
      let (us, e, one_more) = add_tree_cases (tree_of sprint v) (trees_of sprint vs) h in
      one_more ∙ ap suc (trees_count vs us e)

  pub pairs_count :
      (es : Entries) (l : List (Bytes × Option Tree))
      → pairs_of sprint es ≡ some l
      → length l ≡ count_entries es
  unfolding pairs_of count_entries
  pairs_count Entries.end l h = ground arith
  pairs_count (Entries.entry k v es) l h =
      let (m, e, one_more) =
        add_pair_cases (key_of sprint k (tree_of sprint k)) (tree_of sprint v) (pairs_of sprint es)
          h in
      one_more ∙ ap suc (pairs_count es m e)

  sorted_fields_cases :
      (o : Option (List (Bytes × Option Tree))) {fs : Fields}
      → sorted_fields o ≡ some fs
      → (l : List (Bytes × Option Tree)) × (o ≡ some l) × (fields_of (sort_keys l) ≡ some fs)
  unfolding sorted_fields
  sorted_fields_cases none h = cc
  sorted_fields_cases (some l) h = (l, refl, h)

  pub entries_count :
      (es : Entries) (fs : Fields)
      → sorted_fields (pairs_of sprint es) ≡ some fs
      → count_fields fs ≡ count_entries es
  entries_count es fs h =
      let (l, e, sorted) = sorted_fields_cases (pairs_of sprint es) h in
      fields_count (sort_keys l) sorted ∙ (length-sort_keys l ∙ pairs_count es l e)
