-- ===== src/Examples/Objectpacker.antt =====
-- Inputs for objectpacker: a list of a number and a text, a map of two texts, and a map whose keys print
-- alike. The printed form of a value is cut down to what these need.
use mathlib.Core.List.{Permᴰ, mem_of_ne_of_mem, Nodup, Nodup-cons, Nodup-nil, not-mem-nil}
use icinga_go_library.Prelude.{true, false, ◌≡◌, ◌≢◌, refl, [], ◌∷◌, some, arith}
use icinga_go_library.Objectpacker.Value.{Bytes, GoType, Value, Values, Entries}
use icinga_go_library.Objectpacker.Writer.{buffer}
use icinga_go_library.Objectpacker.Pack.{pack_value, count_values}
use icinga_go_library.Objectpacker.Tree.{Tree, Trees, tree_of, pairs_of, key_of, count_trees}
use icinga_go_library.Objectpacker.Emit.{buffer-IsTotal}
use icinga_go_library.Objectpacker.Decode.{FitsTree}
use icinga_go_library.Objectpacker.PackAny.{
  pack_any, written, pack_any-encode, pack_any-injective, pack_any-Permᴰ,
}
use icinga_go_library.Objectpacker.Collision.{two_pairs, pack_any_collision}

-- a text prints as itself, and everything else as "1"
abbrev sprint : Value → Bytes
sprint (Value.string s) = s
sprint _ = 49 ∷ []

abbrev listed : Value
listed =
    Value.list GoType.interface
      (Values.cons (Value.float64 7) (Values.cons (Value.string (97 ∷ [])) Values.nil))

abbrev listed_tree : Tree
listed_tree =
    Tree.sequence (Trees.cons (Tree.number 7) (Trees.cons (Tree.text (97 ∷ [])) Trees.nil))

abbrev pointed : Value
pointed = Value.pointer listed

abbrev one_two : Entries
one_two =
    Entries.entry (Value.string (97 ∷ [])) (Value.bool true)
      (Entries.entry (Value.string (98 ∷ [])) (Value.bool false) Entries.end)

abbrev two_one : Entries
two_one =
    Entries.entry (Value.string (98 ∷ [])) (Value.bool false)
      (Entries.entry (Value.string (97 ∷ [])) (Value.bool true) Entries.end)

listed-FitsTree : FitsTree listed_tree
unfolding FitsTree count_trees
listed-FitsTree = (omega arith, (omega arith, (omega arith, tt)))

different : ◌≢◌ {A = Bytes} (97 ∷ []) (98 ∷ [])
different e = ground arith

two_keys-Nodup : Nodup {A = Bytes} ((97 ∷ []) ∷ (98 ∷ []) ∷ [])
two_keys-Nodup =
    Nodup-cons.1
      ((λ m. not-mem-nil (mem_of_ne_of_mem different m)), Nodup-cons.1 (not-mem-nil, Nodup-nil))

pack_any-encode_example :
    pack_any sprint buffer listed [] ≡ written sprint [] (tree_of sprint listed)
pack_any-encode_example = pack_any-encode sprint listed []

pack_any-injective_example : listed_tree ≡ listed_tree
pack_any-injective_example =
    pack_any-injective sprint listed pointed {t = listed_tree} {s = listed_tree}
      (unfold tree_of count_values in refl) (unfold tree_of count_values in refl) listed-FitsTree
      listed-FitsTree (unfold pack_any pack_value in refl)

pack_any-Permᴰ_example :
    pack_any sprint buffer (Value.map GoType.string GoType.bool one_two)
    ≡ pack_any sprint buffer (Value.map GoType.string GoType.bool two_one)
pack_any-Permᴰ_example =
    pack_any-Permᴰ sprint buffer buffer-IsTotal GoType.string GoType.bool one_two two_one
      {l = (97 ∷ [], some (Tree.truth true)) ∷ (98 ∷ [], some (Tree.truth false)) ∷ []}
      {m = (98 ∷ [], some (Tree.truth false)) ∷ (97 ∷ [], some (Tree.truth true)) ∷ []}
      (unfold pairs_of key_of tree_of in refl) (unfold pairs_of key_of tree_of in refl)
      (Permᴰ.swap refl refl) two_keys-Nodup

pack_any_collision_example :
    pack_any sprint buffer
      (two_pairs sprint GoType.interface GoType.bool
        (Value.float64 1)
        (Value.bool true)
        (Value.string (49 ∷ []))
        (Value.bool false))
      []
    ≢ pack_any sprint buffer
        (two_pairs sprint GoType.interface GoType.bool
          (Value.string (49 ∷ []))
          (Value.bool false)
          (Value.float64 1)
          (Value.bool true))
        []
pack_any_collision_example =
    pack_any_collision sprint GoType.interface GoType.bool (Value.float64 1) (Value.bool true)
      (Value.string (49 ∷ [])) (Value.bool false) {b = 49 ∷ []} {t = Tree.truth true}
      {s = Tree.truth false} (unfold key_of tree_of in refl) (unfold key_of tree_of in refl)
      (unfold tree_of in refl) (unfold tree_of in refl) (λ e. cc) (omega arith)
      (unfold FitsTree in tt) (unfold FitsTree in tt)
