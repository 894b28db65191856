-- ===== src/Structify.antt =====
-- structify/structify.go: parsing a map's strings into a struct, by a tree that is built of its type.
-- A struct is its fields, each with what reflection tells of it. `U` stands for the types with a method
-- UnmarshalText, and `E` for its errors and those of strconv.ParseFloat.
pub mod Tree
pub mod Fill
pub mod Agree
pub mod Ranges
pub mod Safe
use icinga_go_library.Prelude.{
  ℕ, zero, suc, ◌+◌, ℤ, Bool, true, false, ◌||◌, Option, none, some, List, [], ◌∷◌, ◌++◌, Text,
  codes, text_eq, if◌then◌else◌, Result, ok, err,
}
use icinga_go_library.Strconv.{NumError, parse_uint, parse_int}

-- What the type switch of parseString tells apart; a number comes with its size in bits, a float as its
-- bit pattern.
pub data Scalar (U : Type 0) : Type 0 where
  unmarshaler : U → Scalar U
  str : Text → Scalar U
  str_ptr : Option Text → Scalar U
  uint : ℕ → ℕ → Scalar U
  int : ℕ → ℤ → Scalar U
  float : ℕ → ℕ → Scalar U
  unsupported : Scalar U

-- A field says whether it is exported, and its tag.
mutual
  pub data Value (U : Type 0) : Type 0 where
    scalar : Scalar U → Value U
    struct : Fields U → Value U

  pub data Fields (U : Type 0) : Type 0 where
    nil : Fields U
    field : Bool → Text → Value U → Fields U → Fields U

pub data Cause (E : Type 0) : Type 0 where
  number : NumError → Cause E
  other_cause : E → Cause E

pub record FieldError (E : Type 0) : Type 0 where
  pub key : Text
  pub path : List ℕ
  pub text : Text
  pub cause : Cause E

pub data Outcome (E : Type 0) : Type 0 where
  done : Outcome E
  failed : FieldError E → Outcome E
  panicked : Outcome E

-- what parseString returns
pub data Parsed (E : Type 0) : Type 0 where
  fine : Parsed E
  refused : Cause E → Parsed E
  no_type : Parsed E

-- an interface{} value of the map
pub data MapValue : Type 0 where
  text_value : Text → MapValue
  other_value : MapValue

-- what the code relies on: the methods UnmarshalText, which may leave anything in the value, and
-- strconv.ParseFloat
pub record Parsers (U E : Type 0) : Type 0 where
  pub unmarshal : U → Text → U × Option E
  pub parse_float : ℕ → Text → Result E ℕ

unfoldable pub has_type : {E : Type 0} → Parsed E → Bool
has_type fine = true
has_type (refused c) = true
has_type no_type = false

module _ {U E : Type 0} where
  unfoldable pub unmarshaled : U × Option E → Scalar U × Parsed E
  unmarshaled (u, none) = (unmarshaler u, fine)
  unmarshaled (u, some e) = (unmarshaler u, refused (other_cause e))

  -- The conversion `T(i)` keeps the number, which is in the range of `T` since the parser is given the size
  -- of `T`.
  unfoldable pub stored_uint : ℕ → ℕ → Result NumError ℕ → Scalar U × Parsed E
  stored_uint bits old (ok n) = (uint bits n, fine)
  stored_uint bits old (err e) = (uint bits old, refused (number e))

  unfoldable pub stored_int : ℕ → ℤ → Result NumError ℤ → Scalar U × Parsed E
  stored_int bits old (ok z) = (int bits z, fine)
  stored_int bits old (err e) = (int bits old, refused (number e))

  unfoldable pub stored_float : ℕ → ℕ → Result E ℕ → Scalar U × Parsed E
  stored_float bits old (ok x) = (float bits x, fine)
  stored_float bits old (err e) = (float bits old, refused (other_cause e))

  unfoldable pub parse_string : Parsers U E → Text → Scalar U → Scalar U × Parsed E
  unfolding unmarshaled stored_uint stored_int stored_float parse_uint parse_int
  parse_string p src (unmarshaler u) = unmarshaled (p.unmarshal u src)
  parse_string p src (str s) = (str src, fine)
  parse_string p src (str_ptr s) = (str_ptr (some src), fine)
  parse_string p src (uint bits x) = stored_uint bits x (parse_uint bits src)
  parse_string p src (int bits x) = stored_int bits x (parse_int bits src)
  parse_string p src (float bits x) = stored_float bits x (p.parse_float bits src)
  parse_string p src unsupported = (unsupported, no_type)

  -- `_ = parseString("", ...)`: whether it does not panic
  unfoldable pub is_supported : Parsers U E → Value U → Bool
  unfolding has_type parse_string
  is_supported p (scalar x) = has_type (parse_string p [] x).1
  is_supported p (struct fs) = false
