-- ===== src/Types/UnixMilli.antt =====
-- types/unix_milli.go: timestamps in milliseconds. A time is the milliseconds since 1970, rounded down,
-- and the nanoseconds behind them; the zero time is the first instant of the year 1.
use icinga_go_library.Prelude.{
  ℕ, ◌-◌, ◌^◌, ◌<◌, ◌≤◌, ℤ, pos, negsuc, pos_part, neg_part, eqb_ℤ, Bool, false, ◌&&◌, ◌≡◌, refl,
  [], ◌∷◌, Text, codes, text_eq, ltb, ◌==◌, Result, ok, err, arith, if◌then◌else◌, Bool-cases, inl,
  inr, ◌≢◌,
}
use icinga_go_library.Strconv.{NumError, parse_int, format_int}
use icinga_go_library.Strconv.RoundTrip.{
  parse_int-format_int, format_int-ne-nil, format_int-ne-null,
}

pub record Time : Type 0 where
  pub millis : ℤ
  pub nanos : ℕ

abbrev pub zero_millis : ℤ
zero_millis = negsuc 62_135_596_799_999

unfoldable pub is_zero : Time → Bool
is_zero t = eqb_ℤ t.millis zero_millis && t.nanos == 0

-- `time.UnixMilli(i)`
unfoldable pub unix_milli : ℤ → Time
unix_milli i = record { millis = i; nanos = 0 }

unfoldable pub marshal_json : Time → Text
unfolding is_zero
marshal_json t = if is_zero t then codes "null" else format_int t.millis

unfoldable pub marshal_text : Time → Text
unfolding is_zero
marshal_text t = if is_zero t then [] else format_int t.millis

unfoldable pub from_parsed : Result NumError ℤ → Result NumError Time
unfolding unix_milli
from_parsed (err e) = err e
from_parsed (ok i) = ok (unix_milli i)

-- The receiver is given its new value, or an error leaves it as it is.
unfoldable pub from_byte_string : Text → Result NumError Time
unfolding from_parsed
from_byte_string s = from_parsed (parse_int 64 s)

unfoldable pub unmarshal_text : Time → Text → Result NumError Time
unfolding from_byte_string
unmarshal_text t [] = ok t
unmarshal_text t (c ∷ s) = from_byte_string (c ∷ s)

unfoldable pub unmarshal_json : Time → Text → Result NumError Time
unfolding from_byte_string
unmarshal_json t [] = ok t
unmarshal_json t (c ∷ s) = if text_eq (c ∷ s) (codes "null") then ok t else from_byte_string (c ∷ s)

-- what a driver hands over; `uint64` is below 2 ^ 64
pub data Source : Type 0 where
  null : Source
  bytes : Text → Source
  uint64 : ℕ → Source
  int64 : ℤ → Source
  other : Source

pub data ScanError : Type 0 where
  bad_number : NumError → ScanError
  out_of_int64 : ScanError
  bad_type : ScanError

unfoldable pub scan_number : Result NumError Time → Result ScanError Time
scan_number (err e) = err (bad_number e)
scan_number (ok t) = ok t

unfoldable pub scan : Time → Source → Result ScanError Time
unfolding scan_number from_byte_string unix_milli
scan t null = ok t
scan t (bytes s) = scan_number (from_byte_string s)
scan t (uint64 v) = if ltb (2 ^ 63 - 1) v then err out_of_int64 else ok (unix_milli (pos v))
scan t (int64 v) = ok (unix_milli v)
scan t other = err bad_type

unfoldable pub value : Time → Source
unfolding is_zero
value t = if is_zero t then null else int64 t.millis

-- the milliseconds that an int64 holds
abbrev pub FitsInt64 : Time → Type 0
FitsInt64 t = (neg_part t.millis ≤ 2 ^ 63) × (pos_part t.millis < 2 ^ 63)

read_back :
    (t : Time) → FitsInt64 t → from_byte_string (format_int t.millis) ≡ ok (unix_milli t.millis)
unfolding from_byte_string from_parsed
read_back t (low, high) = rw (parse_int-format_int 64 t.millis (omega arith) low high) refl

unmarshal_text-given : (t : Time) (s : Text) → s ≢ [] → unmarshal_text t s ≡ from_byte_string s
unfolding unmarshal_text
unmarshal_text-given t [] h = absurd (h refl)
unmarshal_text-given t (c ∷ s) h = refl

unmarshal_json-given :
    (t : Time) (s : Text)
    → s ≢ []
    → text_eq s (codes "null") ≡ false
    → unmarshal_json t s ≡ from_byte_string s
unfolding unmarshal_json
unmarshal_json-given t [] h k = absurd (h refl)
unmarshal_json-given t (c ∷ s) h k = rw k refl

-- A timestamp whose milliseconds fit int64 comes back from its text, from its JSON and from its value in
-- a database with the nanoseconds below the millisecond dropped; the zero time, that is NULL, leaves the
-- receiver as it is.
pub round_trips :
    (old t : Time)
    → FitsInt64 t
    → (unmarshal_text old (marshal_text t) ≡ ok (if is_zero t then old else unix_milli t.millis))
      × (unmarshal_json old (marshal_json t) ≡ ok (if is_zero t then old else unix_milli t.millis))
      × (scan old (value t) ≡ ok (if is_zero t then old else unix_milli t.millis))
unfolding marshal_text marshal_json value scan
round_trips old t fits = elim (Bool-cases (is_zero t)) [
  | inl zero_time ↦
      rw zero_time (unfold unmarshal_text in refl, unfold unmarshal_json text_eq in refl, refl)
  | inr set ↦ rw set (
    rw (unmarshal_text-given old _ (format_int-ne-nil t.millis)) (read_back t fits),
    rw (unmarshal_json-given old _ (format_int-ne-nil t.millis) (format_int-ne-null t.millis))
        (read_back t fits),
    refl,
  )
]
