-- ===== src/Objectpacker/Tree.antt =====
-- What a packed value says: a tree without the types, pointers and interfaces of Go, whose maps are
-- sorted by their keys. The format that the comment of `PackAny` in objectpacker/objectpacker.go
-- specifies is the function `encode` on such trees.
use icinga_go_library.Prelude.{
  ℕ, zero, suc, Bool, true, false, ◌&&◌, Option, none, some, List, [], ◌∷◌, ◌++◌, length,
}
use icinga_go_library.Objectpacker.Value.{
  Bytes, GoType, Value, Values, Entries, invalid, bool, float64, string, bytes, list, interface,
  map, nil_pointer, pointer, unsupported, zero_packs,
}
use icinga_go_library.Objectpacker.Writer.{big_endian}
use icinga_go_library.Objectpacker.Sort.{sort_keys}
use icinga_go_library.Objectpacker.Pack.{count_values, count_entries, add_pair}

mutual
  pub data Tree : Type 0 where
    null : Tree
    truth : Bool → Tree
    number : ℕ → Tree
    text : Bytes → Tree
    sequence : Trees → Tree
    object : Fields → Tree

  pub data Trees : Type 0 where
    nil : Trees
    cons : Tree → Trees → Trees

  pub data Fields : Type 0 where
    end : Fields
    field : Bytes → Tree → Fields → Fields

unfoldable pub count_trees : Trees → ℕ
count_trees nil = 0
count_trees (cons t ts) = suc (count_trees ts)

unfoldable pub count_fields : Fields → ℕ
count_fields end = 0
count_fields (field k t fs) = suc (count_fields fs)

unfoldable mutual
  pub encode : Tree → Bytes
  encode null = 0 ∷ []
  encode (truth false) = 1 ∷ []
  encode (truth true) = 2 ∷ []
  encode (number bits) = 3 ∷ big_endian bits
  encode (text s) = 4 ∷ (big_endian (length s) ++ s)
  encode (sequence ts) = 5 ∷ (big_endian (count_trees ts) ++ encode_trees ts)
  encode (object fs) = 6 ∷ (big_endian (count_fields fs) ++ encode_fields fs)

  pub encode_trees : Trees → Bytes
  encode_trees nil = []
  encode_trees (cons t ts) = encode t ++ encode_trees ts

  pub encode_fields : Fields → Bytes
  encode_fields end = []
  encode_fields (field k t fs) = big_endian (length k) ++ (k ++ (encode t ++ encode_fields fs))

-- Steps of the meaning of a value; `none` is a panic.
abbrev pub option_map : {A B : Type 0} → (A → B) → Option A → Option B
option_map f none = none
option_map f (some a) = some (f a)

abbrev pub require : {A : Type 0} → Bool → Option A → Option A
require true o = o
require false o = none

abbrev pub add_tree : Option Tree → Option Trees → Option Trees
add_tree none ts = none
add_tree (some t) none = none
add_tree (some t) (some ts) = some (cons t ts)

-- the fields of sorted pairs
unfoldable pub fields_of : List (Bytes × Option Tree) → Option Fields
fields_of [] = some end
fields_of ((k, none) ∷ l) = none
fields_of ((k, some t) ∷ l) = option_map (field k t) (fields_of l)

unfoldable pub sorted_fields : Option (List (Bytes × Option Tree)) → Option Fields
unfolding fields_of
sorted_fields none = none
sorted_fields (some l) = fields_of (sort_keys l)

abbrev pub zero_packs_if : ℕ → GoType → Bool
zero_packs_if zero t = zero_packs t
zero_packs_if (suc n) t = true

module _ (sprint : Value → Bytes) where
  -- the key of a pair, given what its packing would say
  unfoldable pub key_of : Value → Option Tree → Option Bytes
  key_of (bytes true k) _ = some k
  key_of k (some t) = some (sprint k)
  key_of k none = none

  -- What a value means; `none` where packing it panics.
  unfoldable mutual
    unfolding sorted_fields key_of

    pub tree_of : Value → Option Tree
    tree_of invalid = some null
    tree_of (bool b) = some (truth b)
    tree_of (float64 bits) = some (number bits)
    tree_of (string s) = some (text s)
    tree_of (bytes is_array s) = some (text s)
    tree_of (list t vs) =
        require (zero_packs_if (count_values vs) t) (option_map sequence (trees_of vs))
    tree_of (interface v) = tree_of v
    tree_of (map k t es) =
        require (zero_packs_if (count_entries es) k && zero_packs_if (count_entries es) t)
          (option_map object (sorted_fields (pairs_of es)))
    tree_of (nil_pointer t) = require (zero_packs t) (some null)
    tree_of (pointer v) = tree_of v
    tree_of unsupported = none

    pub trees_of : Values → Option Trees
    trees_of Values.nil = some nil
    trees_of (Values.cons v vs) = add_tree (tree_of v) (trees_of vs)

    pub pairs_of : Entries → Option (List (Bytes × Option Tree))
    pairs_of Entries.end = some []
    pairs_of (Entries.entry k v es) = add_pair (key_of k (tree_of k)) (tree_of v) (pairs_of es)
