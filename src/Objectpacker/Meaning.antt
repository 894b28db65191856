-- ===== src/Objectpacker/Meaning.antt =====
-- `packValue` of objectpacker/objectpacker.go writes the encoding of what a value means, on every
-- writer that does not fail.
use icinga_go_library.Prelude.{
  ℕ, Bool, true, false, ◌&&◌, ◌≡◌, refl, ap, ap₂, ◌∙◌, Option, none, some, [], ◌∷◌,
}
use icinga_go_library.Objectpacker.Value.{
  Bytes, GoType, Value, Values, Entries, invalid, bool, float64, string, bytes, list, interface,
  map, nil_pointer, pointer, unsupported, zero_packs,
}
use icinga_go_library.Objectpacker.Writer.{Writer, Action, ◌>>◌, panic, put, big_endian, discard}
use icinga_go_library.Objectpacker.Pack.{
  count_values, count_entries, pack_zero, pack_zero_if, put_sorted, map_key, add_pair, pack_value,
  pack_values, pack_entries,
}
use icinga_go_library.Objectpacker.Tree.{
  Tree, Trees, Fields, encode, encode_trees, encode_fields, option_map, require, add_tree,
  sorted_fields, zero_packs_if, count_trees, count_fields, key_of, tree_of, trees_of, pairs_of,
}
use icinga_go_library.Objectpacker.Emit.{
  IsTotal, then_bytes, emit, emit-emit, done-emit, pack_string-emit, pack_zero-emit,
  pack_zero_if-emit, two-emit, discard-IsTotal,
}
use icinga_go_library.Objectpacker.Pairs.{
  emit_pairs, end-emit, put_sorted-emit, add_pair-emit, sequence_bytes, object_bytes,
}
use icinga_go_library.Objectpacker.Counts.{trees_count, entries_count}

then_bytes_trees :
    (o : Option Tree) (p : Option Trees)
    → then_bytes (option_map encode o) (option_map encode_trees p)
      ≡ option_map encode_trees (add_tree o p)
unfolding encode
then_bytes_trees none p = refl
then_bytes_trees (some t) none = refl
then_bytes_trees (some t) (some ts) = refl

module _ (w : Writer) (t : IsTotal w) where
  number-emit :
      (bits : ℕ) → (put w (3 ∷ []) >> put w (big_endian bits)) ≡ emit w (some (3 ∷ big_endian bits))
  unfolding emit
  number-emit bits = emit-emit w t (some (3 ∷ [])) (some (big_endian bits))

  list-emit :
      (n : ℕ) (items : Action w) (o : Option Trees) (e : GoType)
      → items ≡ emit w (option_map encode_trees o)
      → ((ts : Trees) → o ≡ some ts → count_trees ts ≡ n)
      → (put w (5 ∷ []) >> (put w (big_endian n) >> (items >> pack_zero_if w n e)))
        ≡ emit w (option_map encode (require (zero_packs_if n e) (option_map Tree.sequence o)))
  list-emit n items o e ih count =
      ap₂ (λ (a b : Action w). put w (5 ∷ []) >> (put w (big_endian n) >> (a >> b))) ih
        (pack_zero_if-emit w t n e)
      ∙ (ap (λ (a : Action w). put w (5 ∷ []) >> (put w (big_endian n) >> a))
            (emit-emit w t (option_map encode_trees o) (require (zero_packs_if n e) (some [])))
          ∙ (two-emit w t (5 ∷ []) (big_endian n)
                (then_bytes (option_map encode_trees o) (require (zero_packs_if n e) (some [])))
              ∙ ap (emit w) (sequence_bytes w t n o (zero_packs_if n e) count)))

  map-emit :
      (n : ℕ) (pairs : Action w) (o : Option Fields) (k e : GoType)
      → pairs ≡ emit w (option_map encode_fields o)
      → ((fs : Fields) → o ≡ some fs → count_fields fs ≡ n)
      → (put w (6 ∷ [])
          >> (put w (big_endian n) >> (pairs >> (pack_zero_if w n k >> pack_zero_if w n e))))
        ≡ emit w (
            option_map encode
              (require (zero_packs_if n k && zero_packs_if n e) (option_map Tree.object o)))
  map-emit n pairs o k e ih count =
      let y = require (zero_packs_if n k) (some []) in
      let z = require (zero_packs_if n e) (some []) in
      ap₂ (λ (a b : Action w). put w (6 ∷ []) >> (put w (big_endian n) >> (a >> b))) ih
        (ap₂ (λ (a b : Action w). a >> b) (pack_zero_if-emit w t n k) (pack_zero_if-emit w t n e)
          ∙ emit-emit w t y z)
      ∙ (ap (λ (a : Action w). put w (6 ∷ []) >> (put w (big_endian n) >> a))
            (emit-emit w t (option_map encode_fields o) (then_bytes y z))
          ∙ (two-emit w t (6 ∷ []) (big_endian n)
                (then_bytes (option_map encode_fields o) (then_bytes y z))
              ∙ ap (emit w) (object_bytes w t n o (zero_packs_if n k) (zero_packs_if n e) count)))

  nil_pointer-emit :
      (e : GoType)
      → (pack_zero w e >> put w (0 ∷ []))
        ≡ emit w (option_map encode (require (zero_packs e) (some Tree.null)))
  unfolding encode emit
  nil_pointer-emit e =
      ap (λ (a : Action w). a >> put w (0 ∷ [])) (pack_zero-emit w t e) ∙ finish (zero_packs e)
    where
      finish :
          (z : Bool)
          → (emit w (require z (some [])) >> emit w (some (0 ∷ [])))
            ≡ emit w (option_map encode (require z (some Tree.null)))
      finish true = emit-emit w t (some []) (some (0 ∷ []))
      finish false = emit-emit w t none (some (0 ∷ []))

module _ (sprint : Value → Bytes) where
  map_key-emit :
      (k : Value) (o : Option Tree)
      → map_key sprint k (emit discard (option_map encode o) tt) ≡ key_of sprint k o
  unfolding map_key emit put panic key_of
  map_key-emit (bytes true s) o = refl
  map_key-emit (bytes false s) none = refl
  map_key-emit (bytes false s) (some t) = refl
  map_key-emit _ none = refl
  map_key-emit _ (some t) = refl

  mutual
    unfolding pack_value tree_of encode emit

    pub value-emit :
        (w : Writer) (t : IsTotal w) (v : Value)
        → pack_value sprint w v ≡ emit w (option_map encode (tree_of sprint v))
    value-emit w t invalid = refl
    value-emit w t (bool true) = refl
    value-emit w t (bool false) = refl
    value-emit w t (float64 bits) = number-emit w t bits
    value-emit w t (string s) = pack_string-emit w t s
    value-emit w t (bytes a s) = pack_string-emit w t s
    value-emit w t (list e vs) =
        list-emit w t (count_values vs) (pack_values sprint w vs) (trees_of sprint vs) e
          (values-emit w t vs) (trees_count sprint vs)
    value-emit w t (interface v) = value-emit w t v
    value-emit w t (map k e es) =
        map-emit w t (count_entries es) (put_sorted w (pack_entries sprint w es))
          (sorted_fields (pairs_of sprint es)) k e
          (ap (put_sorted w) (entries-emit w t es) ∙ put_sorted-emit w t (pairs_of sprint es))
          (entries_count sprint es)
    value-emit w t (nil_pointer e) = nil_pointer-emit w t e
    value-emit w t (pointer v) = value-emit w t v
    value-emit w t unsupported = refl

    values-emit :
        (w : Writer) (t : IsTotal w) (vs : Values)
        → pack_values sprint w vs ≡ emit w (option_map encode_trees (trees_of sprint vs))
    values-emit w t Values.nil = done-emit w t
    values-emit w t (Values.cons v vs) =
        ap₂ (λ (a b : Action w). a >> b) (value-emit w t v) (values-emit w t vs)
        ∙ (emit-emit w t (option_map encode (tree_of sprint v))
              (option_map encode_trees (trees_of sprint vs))
            ∙ ap (emit w) (then_bytes_trees (tree_of sprint v) (trees_of sprint vs)))

    entries-emit :
        (w : Writer) (t : IsTotal w) (es : Entries)
        → pack_entries sprint w es ≡ emit_pairs w t (pairs_of sprint es)
    entries-emit w t Entries.end = end-emit w t
    entries-emit w t (Entries.entry k v es) =
        ap (λ o. add_pair o (pack_value sprint w v) (pack_entries sprint w es))
          (ap (λ (a : Action discard). map_key sprint k (a tt))
              (value-emit discard discard-IsTotal k)
            ∙ map_key-emit k (tree_of sprint k))
        ∙ (ap₂ (add_pair (key_of sprint k (tree_of sprint k))) (value-emit w t v)
              (entries-emit w t es)
            ∙ add_pair-emit w t (key_of sprint k (tree_of sprint k)) (tree_of sprint v)
                (pairs_of sprint es))
