-- ===== src/Objectpacker/Zero.antt =====
-- The zero values that `packValue` of objectpacker/objectpacker.go packs into io.Discard to find out
-- disallowed types, and that the model's test decides what that packing finds out.
use icinga_go_library.Prelude.{
  ℕ, zero, suc, Bool, true, false, ◌&&◌, ◌≡◌, refl, ap, ◌∙◌, arith, Option-cases, inl, inr,
  if◌then◌else◌, Option, none, some, [], ◌∷◌,
}
use icinga_go_library.Objectpacker.Value.{Bytes, GoType, Value, Values, Entries, zero_packs}
use icinga_go_library.Objectpacker.Writer.{Outcome, wrote, panicked, discard, put, panic}
use icinga_go_library.Objectpacker.Sort.{sort_keys}
use icinga_go_library.Objectpacker.Pack.{pack_value, count_values, count_entries}
use icinga_go_library.Objectpacker.Tree.{
  Tree, Trees, Fields, encode, option_map, require, zero_packs_if, tree_of, trees_of,
}
use icinga_go_library.Objectpacker.Emit.{emit, discard-IsTotal}
use icinga_go_library.Objectpacker.Meaning.{value-emit}

unfoldable pub copies : ℕ → Value → Values
copies zero v = Values.nil
copies (suc n) v = Values.cons v (copies n v)

unfoldable pub zero_bytes : ℕ → Bytes
zero_bytes zero = []
zero_bytes (suc n) = 0 ∷ zero_bytes n

-- reflect.Zero
unfoldable pub zero_value : GoType → Value
unfolding copies zero_bytes
zero_value GoType.bool = Value.bool false
zero_value GoType.float64 = Value.float64 0
zero_value GoType.string = Value.string []
zero_value GoType.uint8 = Value.unsupported
zero_value GoType.interface = Value.interface Value.invalid
zero_value GoType.unsupported = Value.unsupported
zero_value (GoType.slice GoType.uint8) = Value.bytes false []
zero_value (GoType.slice t) = Value.list t Values.nil
zero_value (GoType.array n GoType.uint8) = Value.bytes true (zero_bytes n)
zero_value (GoType.array n t) = Value.list t (copies n (zero_value t))
zero_value (GoType.map k v) = Value.map k v Entries.end
zero_value (GoType.pointer t) = Value.nil_pointer t

abbrev is_some : {A : Type 0} → Option A → Bool
is_some none = false
is_some (some a) = true

is_some-require : {A : Type 0} (b : Bool) (a : A) → is_some (require b (some a)) ≡ b
is_some-require true a = refl
is_some-require false a = refl

module _ (sprint : Value → Bytes) where
  trees_copies :
      (n : ℕ) (v : Value) {t : Tree}
      → tree_of sprint v ≡ some t
      → is_some (trees_of sprint (copies n v)) ≡ true
  unfolding trees_of copies
  trees_copies zero v h = refl
  trees_copies (suc n) v h = ground (arith, trees_copies n v h)

  copies_packs :
      (n : ℕ) (t : GoType) (v : Value)
      → is_some (tree_of sprint v) ≡ zero_packs t
      → is_some (
          require
            (zero_packs_if (count_values (copies n v)) t)
            (option_map Tree.sequence (trees_of sprint (copies n v))))
        ≡ zero_packs t
  unfolding count_values trees_of copies
  copies_packs zero t v h = is_some-require (zero_packs t) (Tree.sequence Trees.nil)
  copies_packs (suc n) t v h = elim (Option-cases (tree_of sprint v)) [
    | inl e ↦ rw e (ground (arith, e))
    | inr (s, e) ↦ rw e (ground (arith, e, trees_copies n v e))
  ]

  zero_packs_tree : (t : GoType) → is_some (tree_of sprint (zero_value t)) ≡ zero_packs t
  unfolding zero_value zero_packs tree_of count_values count_entries sort_keys
  zero_packs_tree GoType.bool = refl
  zero_packs_tree GoType.float64 = refl
  zero_packs_tree GoType.string = refl
  zero_packs_tree GoType.uint8 = refl
  zero_packs_tree GoType.interface = refl
  zero_packs_tree GoType.unsupported = refl
  zero_packs_tree (GoType.slice GoType.uint8) = refl
  zero_packs_tree (GoType.slice t) = is_some-require (zero_packs t) (Tree.sequence Trees.nil)
  zero_packs_tree (GoType.array n GoType.uint8) = refl
  zero_packs_tree (GoType.array n t) = copies_packs n t (zero_value t) (zero_packs_tree t)
  zero_packs_tree (GoType.map k v) =
      is_some-require (zero_packs k && zero_packs v) (Tree.object Fields.end)
  zero_packs_tree (GoType.pointer t) = is_some-require (zero_packs t) Tree.null

  discard-outcome :
      (o : Option Tree)
      → emit discard (option_map encode o) tt ≡ (if is_some o then wrote tt else panicked)
  unfolding emit put panic
  discard-outcome none = refl
  discard-outcome (some t) = refl

  -- Packing the zero value of a type into `io.Discard` succeeds where `zero_packs` holds of the
  -- type, and panics where it does not: exactly where the type is, or an element that its zero
  -- value would show is, of a disallowed type.
  pub pack-zero_value :
      (t : GoType)
      → pack_value sprint discard (zero_value t) tt ≡ (if zero_packs t then wrote tt else panicked)
  pack-zero_value t =
      ap (λ (a : Unit → Outcome Unit). a tt)
        (value-emit sprint discard discard-IsTotal (zero_value t))
      ∙ (discard-outcome (tree_of sprint (zero_value t))
          ∙ ap (λ b. if b then wrote tt else panicked) (zero_packs_tree t))
