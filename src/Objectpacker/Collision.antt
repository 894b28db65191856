-- ===== src/Objectpacker/Collision.antt =====
-- Maps with two keys of the same bytes, in objectpacker/objectpacker.go: the order in which Go visits
-- the pairs shows in the packed bytes.
use icinga_go_library.Prelude.{◌<◌, ◌^◌, false, ◌≡◌, ◌≢◌, refl, some, [], ◌∷◌, length, arith}
use icinga_go_library.Objectpacker.Value.{Bytes, GoType, Value, Entries}
use icinga_go_library.Objectpacker.Writer.{buffer}
use icinga_go_library.Objectpacker.Sort.{sort_keys, less}
use icinga_go_library.Objectpacker.Pack.{count_entries}
use icinga_go_library.Objectpacker.Tree.{Tree, Fields, tree_of, key_of, count_fields}
use icinga_go_library.Objectpacker.Decode.{FitsTree}
use icinga_go_library.Objectpacker.PackAny.{pack_any, pack_any-injective}

less_refl : (k : Bytes) → less k k ≡ false
unfolding less
less_refl [] = refl
less_refl (a ∷ k) = ground (arith, less_refl k)

first_field :
    {b c : Bytes} {t s : Tree} {fs gs : Fields}
    → Tree.object (Fields.field b t fs) ≡ Tree.object (Fields.field c s gs)
    → t ≡ s
first_field e = cc

module _ (sprint : Value → Bytes) (key elem : GoType) where
  -- a map of two pairs, visited in this order
  abbrev pub two_pairs : Value → Value → Value → Value → Value
  two_pairs k v j u = Value.map key elem (Entries.entry k v (Entries.entry j u Entries.end))

  two_pairs_tree :
      (k v j u : Value) {b : Bytes} {t s : Tree}
      → key_of sprint k (tree_of sprint k) ≡ some b
      → key_of sprint j (tree_of sprint j) ≡ some b
      → tree_of sprint v ≡ some t
      → tree_of sprint u ≡ some s
      → tree_of sprint (two_pairs k v j u)
        ≡ some (Tree.object (Fields.field b t (Fields.field b s Fields.end)))
  unfolding tree_of sort_keys count_entries
  two_pairs_tree k v j u {b} hk hj hv hu = rw (hk, hj, hv, hu) (rw (less_refl b))

  two_pairs-FitsTree :
      (b : Bytes) (t s : Tree)
      → length b < 2 ^ 64
      → FitsTree t
      → FitsTree s
      → FitsTree (Tree.object (Fields.field b t (Fields.field b s Fields.end)))
  unfolding FitsTree count_fields
  two_pairs-FitsTree b t s small fits_t fits_s = (omega arith, (small, fits_t, (small, fits_s, tt)))

  -- If two keys of a map have the same bytes, as float64(1) and "1" have in a map[any]T, and
  -- their values mean different trees, whose lengths and floats fit 64 bits as the length of the
  -- key does, then the two orders of visiting the pairs pack to different bytes.
  pub pack_any_collision :
      (k v j u : Value) {b : Bytes} {t s : Tree}
      → key_of sprint k (tree_of sprint k) ≡ some b
      → key_of sprint j (tree_of sprint j) ≡ some b
      → tree_of sprint v ≡ some t
      → tree_of sprint u ≡ some s
      → t ≢ s
      → length b < 2 ^ 64
      → FitsTree t
      → FitsTree s
      → pack_any sprint buffer (two_pairs k v j u) []
        ≢ pack_any sprint buffer (two_pairs j u k v) []
  pack_any_collision k v j u {b} {t} {s} hk hj hv hu differ small fits_t fits_s same = differ (
      first_field (
        pack_any-injective sprint (two_pairs k v j u) (two_pairs j u k v)
          (two_pairs_tree k v j u hk hj hv hu) (two_pairs_tree j u k v hj hk hu hv)
          (two_pairs-FitsTree b t s small fits_t fits_s)
          (two_pairs-FitsTree b s t small fits_s fits_t) same))
