-- ===== src/Objectpacker/Value.antt =====
-- The values that `packValue` of objectpacker/objectpacker.go meets, by their reflect.Kind.
use icinga_go_library.Prelude.{ℕ, Bool, true, false, ◌&&◌, List}

abbrev pub Bytes : Type 0
Bytes = List ℕ

-- The static types, as far as the packer looks at them; `unsupported` is each type of another kind
-- (integers, structs, channels, functions, …). A type is a finite tree: recursive types are left out.
pub data GoType : Type 0 where
  bool float64 string uint8 interface unsupported : GoType
  slice : GoType → GoType
  array : ℕ → GoType → GoType
  map : GoType → GoType → GoType
  pointer : GoType → GoType

-- `bytes true` is an array of uint8 and `bytes false` a slice of uint8; `list` is an array or slice of
-- another element type. A nil slice or map is an empty one here: the packer does not tell them apart.
mutual
  pub data Value : Type 0 where
    invalid : Value
    bool : Bool → Value
    float64 : ℕ → Value
    string : Bytes → Value
    bytes : Bool → Bytes → Value
    list : GoType → Values → Value
    interface : Value → Value
    map : GoType → GoType → Entries → Value
    nil_pointer : GoType → Value
    pointer : Value → Value
    unsupported : Value

  pub data Values : Type 0 where
    nil : Values
    cons : Value → Values → Values

  -- the key-value pairs in the order in which MapRange yields them
  pub data Entries : Type 0 where
    end : Entries
    entry : Value → Value → Entries → Entries

-- Whether the zero value of a type can be packed. The packer packs such values into io.Discard only
-- to panic on disallowed types.
unfoldable pub zero_packs : GoType → Bool
zero_packs GoType.bool = true
zero_packs GoType.float64 = true
zero_packs GoType.string = true
zero_packs GoType.uint8 = false
zero_packs GoType.interface = true
zero_packs GoType.unsupported = false
zero_packs (GoType.slice GoType.uint8) = true
zero_packs (GoType.slice t) = zero_packs t
zero_packs (GoType.array n GoType.uint8) = true
zero_packs (GoType.array n t) = zero_packs t
zero_packs (GoType.map k v) = zero_packs k && zero_packs v
zero_packs (GoType.pointer t) = zero_packs t
