-- ===== src/Types/Binary.antt =====
-- types/binary.go: the hexadecimal text of a byte string, its JSON, and its way to the database. What json
-- does with a string is an argument.
use icinga_go_library.Prelude.{
  ℕ, ◌+◌, ◌-◌, ◌*◌, ◌/◌, ◌%◌, ◌<◌, Bool, true, false, ◌≡◌, refl, Option, none, some, Result, ok,
  err, Text, ltb, leb, if◌then◌else◌, arith, List, [], ◌∷◌, All, ◌&&◌, codes, text_eq, ◌||◌, not,
  Bool-cases, inl, inr,
}
use icinga_go_library.Types.Number.{Json}
use icinga_go_library.Types.{Source, null, bytes, other, ScanError, bad_type}

abbrev pub Binary : Type 0
Binary = List ℕ

-- `Valid`: a nil and an empty slice are not told apart
unfoldable pub valid : Binary → Bool
valid [] = false
valid (b ∷ bs) = true

unfoldable pub hex_digit : ℕ → ℕ
hex_digit n = if ltb n 10 then 48 + n else 87 + n

-- hex.EncodeToString: `String` and `MarshalText`
unfoldable pub marshal_text : Binary → Text
unfolding hex_digit
marshal_text [] = []
marshal_text (b ∷ bs) = hex_digit (b / 16) ∷ hex_digit (b % 16) ∷ marshal_text bs

pub data HexError : Type 0 where
  invalid_byte : ℕ → HexError
  odd_length : HexError

unfoldable pub hex_value : ℕ → Option ℕ
hex_value c =
    if leb 48 c && leb c 57
    then some (c - 48)
    else if leb 97 c && leb c 102
    then some (c - 87)
    else if leb 65 c && leb c 70
    then some (c - 55)
    else none

unfoldable pub with_byte :
    ℕ → ℕ → Option ℕ → Option ℕ → Result HexError Binary → Result HexError Binary
with_byte p q none b rest = err (invalid_byte p)
with_byte p q (some a) none rest = err (invalid_byte q)
with_byte p q (some a) (some b) (err e) = err e
with_byte p q (some a) (some b) (ok bs) = ok ((a * 16 + b) ∷ bs)

unfoldable pub last_byte : ℕ → Option ℕ → Result HexError Binary
last_byte p none = err (invalid_byte p)
last_byte p (some a) = err odd_length

-- hex.Decode, with which `UnmarshalText` makes the new value
unfoldable pub unmarshal_text : Text → Result HexError Binary
unfolding hex_value with_byte last_byte
unmarshal_text [] = ok []
unmarshal_text (p ∷ []) = last_byte p (hex_value p)
unmarshal_text (p ∷ q ∷ s) = with_byte p q (hex_value p) (hex_value q) (unmarshal_text s)

unfoldable pub scan : Binary → Source → Result ScanError Binary
scan old null = ok old
scan old (bytes []) = ok old
scan old (bytes (b ∷ bs)) = ok (b ∷ bs)
scan old other = err bad_type

unfoldable pub value : Binary → Source
unfolding valid
value b = if valid b then bytes b else null

hex_value-hex_digit : (n : ℕ) → n < 16 → hex_value (hex_digit n) ≡ some n
unfolding hex_value hex_digit
hex_value-hex_digit n h = ground arith

-- Every string of bytes is read back from its hexadecimal text.
pub unmarshal_text-marshal_text :
    (b : Binary) → All (λ x. x < 256) b → unmarshal_text (marshal_text b) ≡ ok b
unfolding unmarshal_text marshal_text
unmarshal_text-marshal_text [] h = refl
unmarshal_text-marshal_text (b ∷ bs) (h, hs) =
    let whole : b / 16 * 16 + b % 16 ≡ b = omega arith in
    rw
      (
        hex_value-hex_digit (b / 16) (omega arith),
        hex_value-hex_digit (b % 16) (omega arith),
        unmarshal_text-marshal_text bs hs,
        with_byte,
        whole,
      )
      refl

-- What `Value` gives, `Scan` reads back into an empty variable.
pub scan-value_binary : (b : Binary) → scan [] (value b) ≡ ok b
unfolding scan value valid
scan-value_binary [] = refl
scan-value_binary (b ∷ bs) = refl

pub data BinaryError (E : Type 0) : Type 0 where
  cant_unmarshal : E → BinaryError E
  cant_decode_hex : HexError → BinaryError E

unfoldable pub marshal_json : {E : Type 0} → Json Text E → Binary → Result E Text
unfolding valid marshal_text
marshal_json j b = if valid b then j.marshal (some (marshal_text b)) else ok (codes "null")

unfoldable pub decoded : {E : Type 0} → Result HexError Binary → Result (BinaryError E) Binary
decoded (ok b) = ok b
decoded (err e) = err (cant_decode_hex e)

unfoldable pub from_json : {E : Type 0} → Text × Option E → Result (BinaryError E) Binary
unfolding decoded unmarshal_text
from_json (s, none) = decoded (unmarshal_text s)
from_json (s, some e) = err (cant_unmarshal e)

-- the new value, or the error with the old value kept
unfoldable pub unmarshal_json :
    {E : Type 0} → Json Text E → Binary → Text → Result (BinaryError E) Binary
unfolding from_json
unmarshal_json j old s =
    if text_eq s (codes "null") || text_eq s [] then ok old else from_json (j.unmarshal [] s)

-- A byte string that is not empty is read back from its JSON, if json reads back the text that it wrote,
-- and that is neither empty nor null; an empty one leaves the receiver as it is.
pub unmarshal_json-marshal_json_binary :
    {E : Type 0} (j : Json Text E) (old b : Binary) (s : Text)
    → All (λ x. x < 256) b
    → marshal_json j b ≡ ok s
    → (text_eq s (codes "null") || text_eq s []) ≡ not (valid b)
    → j.unmarshal [] s ≡ (marshal_text b, none)
    → unmarshal_json j old s ≡ ok (if valid b then b else old)
unfolding unmarshal_json
unmarshal_json-marshal_json_binary j old b s octets written named reads =
    elim (Bool-cases (valid b)) [
      | inl e ↦
          rw (named, e, reads)
            (unfold from_json in rw (unmarshal_text-marshal_text b octets) (unfold decoded in refl))
      | inr e ↦ rw (named, e) refl
    ]
