-- ===== src/Objectpacker/Pairs.antt =====
-- The parts of `packValue` of objectpacker/objectpacker.go on writers that do not fail: pairs, their
-- sort, and the bytes of a list and of a map.
use icinga_go_library.Prelude.{
  ℕ, Bool, true, false, ◌&&◌, ◌≡◌, refl, ap, ◌∙◌, Option, none, some, List, [], ◌∷◌, ◌++◌,
  append-nil, length, Bool-cases, inl, inr,
}
use icinga_go_library.Objectpacker.Value.{Bytes}
use icinga_go_library.Objectpacker.Writer.{Writer, Action, ◌>>◌, put, big_endian}
use icinga_go_library.Objectpacker.Emit.{IsTotal, then_bytes, emit, emit-emit, done-emit, two-emit}
use icinga_go_library.Objectpacker.Sort.{sort_keys, insert_key, less}
use icinga_go_library.Objectpacker.Pack.{put_pairs, put_sorted, add_pair}
use icinga_go_library.Objectpacker.Tree.{
  Tree, Trees, Fields, encode, encode_trees, encode_fields, option_map, require, fields_of,
  sorted_fields, count_trees, count_fields,
}

pub map_second {ℓ κ} : {A : Type ℓ} {B : Type κ} → (A → B) → List (Bytes × A) → List (Bytes × B)
map_second f [] = []
map_second f ((k, a) ∷ l) = (k, f a) ∷ map_second f l

module _ {ℓ κ} {A : Type ℓ} {B : Type κ} (f : A → B) where
  insert_key-map_second :
      (k : Bytes) (a : A) (l : List (Bytes × A))
      → insert_key (k, f a) (map_second f l) ≡ map_second f (insert_key (k, a) l)
  unfolding insert_key map_second
  insert_key-map_second k a [] = refl
  insert_key-map_second k a ((j, b) ∷ l) = elim (Bool-cases (less j k)) [
    | inl e ↦ rw e (ap (λ m. (j, f b) ∷ m) (insert_key-map_second k a l))
    | inr e ↦ rw e
  ]

  sort_keys-map_second :
      (l : List (Bytes × A)) → sort_keys (map_second f l) ≡ map_second f (sort_keys l)
  unfolding map_second sort_keys
  sort_keys-map_second [] = refl
  sort_keys-map_second ((k, a) ∷ l) =
      ap (insert_key (k, f a)) (sort_keys-map_second l) ∙ insert_key-map_second k a (sort_keys l)

module _ (w : Writer) (t : IsTotal w) where
  abbrev pub emit_tree : Option Tree → Action w
  emit_tree o = emit w (option_map encode o)

  option_map-pair :
      (k : Bytes) (v : Tree) (o : Option Fields)
      → option_map
          (λ p. big_endian (length k) ++ (k ++ p))
          (then_bytes (some (encode v)) (option_map encode_fields o))
        ≡ option_map encode_fields (option_map (Fields.field k v) o)
  unfolding encode_fields
  option_map-pair k v none = refl
  option_map-pair k v (some fs) = refl

  put_pairs-emit :
      (l : List (Bytes × Option Tree))
      → put_pairs w (map_second emit_tree l) ≡ emit w (option_map encode_fields (fields_of l))
  unfolding put_pairs map_second fields_of encode_fields
  put_pairs-emit [] = done-emit w t
  put_pairs-emit ((k, none) ∷ l) =
      ap (λ (b : Action w). put w (big_endian (length k)) >> (put w k >> (emit w none >> b)))
        (put_pairs-emit l)
      ∙ (ap (λ (b : Action w). put w (big_endian (length k)) >> (put w k >> b))
            (emit-emit w t none (option_map encode_fields (fields_of l)))
          ∙ two-emit w t (big_endian (length k)) k none)
  put_pairs-emit ((k, some v) ∷ l) =
      ap
        (λ (b : Action w).
          put w (big_endian (length k)) >> (put w k >> (emit w (some (encode v)) >> b)))
        (put_pairs-emit l)
      ∙ (ap (λ (b : Action w). put w (big_endian (length k)) >> (put w k >> b))
            (emit-emit w t (some (encode v)) (option_map encode_fields (fields_of l)))
          ∙ (two-emit w t (big_endian (length k)) k
                (then_bytes (some (encode v)) (option_map encode_fields (fields_of l)))
              ∙ ap (emit w) (option_map-pair k v (fields_of l))))

  abbrev pub emit_pairs : Option (List (Bytes × Option Tree)) → Option (List (Bytes × Action w))
  emit_pairs o = option_map (map_second emit_tree) o

  pub end-emit : ◌≡◌ {A = Option (List (Bytes × Action w))} (some []) (emit_pairs (some []))
  unfolding map_second
  end-emit = refl

  pub put_sorted-emit :
      (o : Option (List (Bytes × Option Tree)))
      → put_sorted w (emit_pairs o) ≡ emit w (option_map encode_fields (sorted_fields o))
  unfolding put_sorted sorted_fields emit
  put_sorted-emit none = refl
  put_sorted-emit (some l) =
      ap (put_pairs w) (sort_keys-map_second emit_tree l) ∙ put_pairs-emit (sort_keys l)

  pub add_pair-emit :
      (k : Option Bytes) (o : Option Tree) (l : Option (List (Bytes × Option Tree)))
      → add_pair k (emit_tree o) (emit_pairs l) ≡ emit_pairs (add_pair k o l)
  unfolding map_second
  add_pair-emit none o l = refl
  add_pair-emit (some k) o none = refl
  add_pair-emit (some k) o (some l) = refl

  pub sequence_bytes :
      (n : ℕ) (o : Option Trees) (z : Bool)
      → ((ts : Trees) → o ≡ some ts → count_trees ts ≡ n)
      → option_map
          (λ p. (5 ∷ []) ++ (big_endian n ++ p))
          (then_bytes (option_map encode_trees o) (require z (some [])))
        ≡ option_map encode (require z (option_map Tree.sequence o))
  unfolding encode
  sequence_bytes n none true h = refl
  sequence_bytes n none false h = refl
  sequence_bytes n (some ts) false h = refl
  sequence_bytes n (some ts) true h = simp (append-nil, h ts refl)

  pub object_bytes :
      (n : ℕ) (o : Option Fields) (y z : Bool)
      → ((fs : Fields) → o ≡ some fs → count_fields fs ≡ n)
      → option_map
          (λ p. (6 ∷ []) ++ (big_endian n ++ p))
          (then_bytes
            (option_map encode_fields o)
            (then_bytes (require y (some [])) (require z (some []))))
        ≡ option_map encode (require (y && z) (option_map Tree.object o))
  unfolding encode
  object_bytes n none true true h = refl
  object_bytes n none true false h = refl
  object_bytes n none false z h = refl
  object_bytes n (some fs) true true h = simp (append-nil, h fs refl)
  object_bytes n (some fs) true false h = refl
  object_bytes n (some fs) false z h = refl
