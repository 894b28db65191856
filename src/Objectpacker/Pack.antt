-- ===== src/Objectpacker/Pack.antt =====
-- `packValue` and `packString` of objectpacker/objectpacker.go.
use icinga_go_library.Prelude.{
  ℕ, zero, suc, true, false, Option, none, some, List, [], ◌∷◌, length, if◌then◌else◌,
}
use icinga_go_library.Objectpacker.Value.{
  Bytes, GoType, Value, Values, Entries, invalid, bool, float64, string, bytes, list, interface,
  map, nil_pointer, pointer, unsupported, nil, cons, end, entry, zero_packs,
}
use icinga_go_library.Objectpacker.Writer.{
  Writer, Outcome, wrote, failed, panicked, Action, ◌>>◌, done, panic, put, big_endian, discard,
}
use icinga_go_library.Objectpacker.Sort.{sort_keys}

unfoldable pub count_values : Values → ℕ
count_values nil = 0
count_values (cons v vs) = suc (count_values vs)

unfoldable pub count_entries : Entries → ℕ
count_entries end = 0
count_entries (entry k v es) = suc (count_entries es)

unfoldable pub pack_string : (w : Writer) → Bytes → Action w
unfolding put big_endian
pack_string w s = do put w (4 ∷ []); put w (big_endian (length s)); put w s

-- packing a fictive zero value into io.Discard: nothing is written, and it panics on a bad type
unfoldable pub pack_zero : (w : Writer) → GoType → Action w
unfolding done panic
pack_zero w t = if zero_packs t then done w else panic w

unfoldable pub pack_zero_if : (w : Writer) → ℕ → GoType → Action w
unfolding pack_zero done
pack_zero_if w zero t = pack_zero w t
pack_zero_if w (suc n) t = done w

-- the loop over the sorted pairs
unfoldable pub put_pairs : (w : Writer) → List (Bytes × Action w) → Action w
unfolding done put
put_pairs w [] = done w
put_pairs w ((k, value) ∷ l) = do put w (big_endian (length k)); put w k; value; put_pairs w l

-- the pairs of a map, unless one of the keys panicked
unfoldable pub put_sorted : (w : Writer) → Option (List (Bytes × Action w)) → Action w
unfolding panic put_pairs
put_sorted w none = panic w
put_sorted w (some l) = put_pairs w (sort_keys l)

abbrev pub add_pair {ℓ} :
    {A : Type ℓ} → Option Bytes → A → Option (List (Bytes × A)) → Option (List (Bytes × A))
add_pair none a l = none
add_pair (some k) a none = none
add_pair (some k) a (some l) = some ((k, a) ∷ l)

-- `sprint` is fmt.Sprint. An array of uint8 is its own key; each other key is printed, and packed
-- into io.Discard first, which has the outcome given.
module _ (sprint : Value → Bytes) where
  unfoldable pub map_key : Value → Outcome (Unit {0}) → Option Bytes
  map_key (bytes true k) _ = some k
  map_key k (wrote s) = some (sprint k)
  map_key k (failed s) = some (sprint k)
  map_key k panicked = none

  unfoldable mutual
    unfolding put big_endian pack_string done panic pack_zero pack_zero_if put_sorted map_key

    pub pack_value : (w : Writer) → Value → Action w
    pack_value w invalid = put w (0 ∷ [])
    pack_value w (bool true) = put w (2 ∷ [])
    pack_value w (bool false) = put w (1 ∷ [])
    pack_value w (float64 bits) = do put w (3 ∷ []); put w (big_endian bits)
    pack_value w (string s) = pack_string w s
    pack_value w (bytes is_array s) = pack_string w s
    pack_value w (list t vs) = do
      put w (5 ∷ [])
      put w (big_endian (count_values vs))
      pack_values w vs
      pack_zero_if w (count_values vs) t
    pack_value w (interface v) = pack_value w v
    pack_value w (map k t es) = do
      put w (6 ∷ [])
      put w (big_endian (count_entries es))
      put_sorted w (pack_entries w es)
      pack_zero_if w (count_entries es) k
      pack_zero_if w (count_entries es) t
    -- The fictive value is packed whether or not the write failed, so its panic comes first.
    pack_value w (nil_pointer t) = do pack_zero w t; put w (0 ∷ [])
    pack_value w (pointer v) = pack_value w v
    pack_value w unsupported = panic w

    pub pack_values : (w : Writer) → Values → Action w
    pack_values w nil = done w
    pack_values w (cons v vs) = do pack_value w v; pack_values w vs

    -- the keys, and the packing of each value that is run behind the sort
    pub pack_entries : (w : Writer) → Entries → Option (List (Bytes × Action w))
    pack_entries w end = some []
    pack_entries w (entry k v es) =
        add_pair (map_key k (pack_value discard k tt)) (pack_value w v) (pack_entries w es)
