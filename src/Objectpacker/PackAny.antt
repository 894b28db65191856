-- ===== src/Objectpacker/PackAny.antt =====
-- `PackAny` and `MustPackSlice` of objectpacker/objectpacker.go, and what they promise as the input of
-- a hash: the bytes say what the value means, and nothing else.
use mathlib.Core.List.{Permᴰ, Nodup}
use icinga_go_library.Prelude.{
  ℕ, ◌&&◌, ◌≡◌, refl, sym, ap, ap₂, ◌∙◌, Option, none, some, List, [], ◌∷◌, ◌++◌,
}
use icinga_go_library.Objectpacker.Value.{Bytes, GoType, Value, Values, Entries}
use icinga_go_library.Objectpacker.Writer.{
  Writer, Outcome, wrote, failed, panicked, Action, put, panic, buffer,
}
use icinga_go_library.Objectpacker.Sort.{sort_keys}
use icinga_go_library.Objectpacker.Sort.Order.{keys, sort_keys-Permᴰ, length-Permᴰ}
use icinga_go_library.Objectpacker.Counts.{pairs_count}
use icinga_go_library.Objectpacker.Pack.{pack_value, count_entries}
use icinga_go_library.Objectpacker.Tree.{
  Tree, encode, option_map, require, fields_of, sorted_fields, zero_packs_if, tree_of, pairs_of,
}
use icinga_go_library.Objectpacker.Emit.{IsTotal, emit, buffer-IsTotal}
use icinga_go_library.Objectpacker.Meaning.{value-emit}
use icinga_go_library.Objectpacker.Decode.{FitsTree}
use icinga_go_library.Objectpacker.Decode.RoundTrip.{encode-injective}

-- The arguments of a call with `items ...interface{}`.
unfoldable pub to_values : List Value → Values
to_values [] = Values.nil
to_values (v ∷ vs) = Values.cons (Value.interface v) (to_values vs)

module _ (sprint : Value → Bytes) where
  -- The error is wrapped, which changes neither the bytes nor whether there is one.
  unfoldable pub pack_any : (w : Writer) → Value → Action w
  unfolding pack_value
  pack_any w v = pack_value sprint w v

  -- `none` is a panic: its own on an error, or one of the packing.
  unfoldable pub must_pack_slice : List Value → Option Bytes
  unfolding pack_any to_values
  must_pack_slice items =
      elim (pack_any buffer (Value.list GoType.interface (to_values items)) []) [
        | wrote b ↦ some b
        | failed b ↦ none
        | panicked ↦ none
      ]

  -- what a packing into a buffer ends in, by the value's meaning
  abbrev pub written : Bytes → Option Tree → Outcome Bytes
  written out none = panicked
  written out (some t) = wrote (out ++ encode t)

  emit-written :
      (out : Bytes) (o : Option Tree) → emit buffer (option_map encode o) out ≡ written out o
  unfolding emit put panic
  emit-written out none = refl
  emit-written out (some t) = refl

  -- Packing into a buffer appends the encoding that the documentation specifies for what the value
  -- means, and panics exactly on the values that hold, or whose types would hold, a disallowed type.
  pub pack_any-encode :
      (v : Value) (out : Bytes) → pack_any buffer v out ≡ written out (tree_of sprint v)
  unfolding pack_any
  pack_any-encode v out =
      ap (λ (a : Action buffer). a out) (value-emit sprint buffer buffer-IsTotal v)
      ∙ emit-written out (tree_of sprint v)

  wrote-injective : (b c : Bytes) → ◌≡◌ {A = Outcome Bytes} (wrote b) (wrote c) → b ≡ c
  wrote-injective b c e = cc

  -- Two values that mean trees, and whose packings into an empty buffer are the same, mean the
  -- same tree, if the lengths and floats in both trees fit 64 bits.
  pub pack_any-injective :
      (v u : Value) {t s : Tree}
      → tree_of sprint v ≡ some t
      → tree_of sprint u ≡ some s
      → FitsTree t
      → FitsTree s
      → pack_any buffer v [] ≡ pack_any buffer u []
      → t ≡ s
  pack_any-injective v u {t} {s} means_t means_s fits_t fits_s same =
      let left = pack_any-encode v [] ∙ ap (written []) means_t in
      let right = pack_any-encode u [] ∙ ap (written []) means_s in
      let bytes = wrote-injective (encode t) (encode s) (sym left ∙ (same ∙ right)) in
      (encode-injective t s [] [] fits_t fits_s (ap (λ b. b ++ []) bytes)).0

  -- the meaning of a map by the number of its pairs and the sorted pairs
  map_tree : GoType → GoType → ℕ → List (Bytes × Option Tree) → Option Tree
  map_tree k e n sorted =
      require (zero_packs_if n k && zero_packs_if n e) (option_map Tree.object (fields_of sorted))

  tree_of_map :
      (k e : GoType) (es : Entries) {l : List (Bytes × Option Tree)}
      → pairs_of sprint es ≡ some l
      → tree_of sprint (Value.map k e es) ≡ map_tree k e (count_entries es) (sort_keys l)
  unfolding tree_of map_tree
  tree_of_map k e es h =
      ap
        (λ o.
          require (zero_packs_if (count_entries es) k && zero_packs_if (count_entries es) e)
            (option_map Tree.object (sorted_fields o)))
        h

  -- A map packs to the same bytes in whichever order its pairs are visited, on every writer that does
  -- not fail, if no two keys have the same bytes.
  pub pack_any-Permᴰ :
      (w : Writer) (t : IsTotal w) (k e : GoType) (es fs : Entries)
      {l m : List (Bytes × Option Tree)}
      → pairs_of sprint es ≡ some l
      → pairs_of sprint fs ≡ some m
      → Permᴰ l m
      → Nodup (keys l)
      → pack_any w (Value.map k e es) ≡ pack_any w (Value.map k e fs)
  unfolding pack_any
  pack_any-Permᴰ w t k e es fs {l} {m} es_pairs fs_pairs perm distinct =
      value-emit sprint w t (Value.map k e es)
      ∙ (ap (λ o. emit w (option_map encode o))
            (tree_of_map k e es es_pairs
              ∙ (ap₂ (map_tree k e)
                    (sym (pairs_count sprint es l es_pairs)
                      ∙ (length-Permᴰ perm ∙ pairs_count sprint fs m fs_pairs))
                    (sort_keys-Permᴰ perm distinct)
                  ∙ sym (tree_of_map k e fs fs_pairs)))
          ∙ sym (value-emit sprint w t (Value.map k e fs)))
