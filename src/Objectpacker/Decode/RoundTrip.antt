-- ===== src/Objectpacker/Decode/RoundTrip.antt =====
-- The decoder reads back what the format of objectpacker/objectpacker.go writes.
use icinga_go_library.Prelude.{
  ℕ, zero, suc, ◌^◌, ◌≤◌, ◌<◌, true, false, ◌≡◌, refl, sym, ap, ◌∙◌, Option, some, [], ◌∷◌, ◌++◌,
  append_assoc, length, arith, max,
}
use icinga_go_library.Objectpacker.Value.{Bytes}
use icinga_go_library.Objectpacker.Writer.{big_endian}
use icinga_go_library.Objectpacker.Tree.{
  Tree, Trees, Fields, null, truth, number, text, sequence, object, encode, encode_trees,
  encode_fields, count_trees, count_fields,
}
use icinga_go_library.Objectpacker.Decode.{
  read_number, read_bytes, read_text, decode, decode_trees, decode_fields, depth, depth_trees,
  depth_fields, FitsTree, FitsTrees, FitsFields,
}

read_number-big_endian :
    (n : ℕ) (rest : Bytes) → n < 2 ^ 64 → read_number 8 0 (big_endian n ++ rest) ≡ some (n, rest)
unfolding read_number big_endian
read_number-big_endian n rest h = ap (λ (m : ℕ). some (m, rest)) (omega arith)

read_bytes-append : (p rest : Bytes) → read_bytes (length p) (p ++ rest) ≡ some (p, rest)
unfolding read_bytes
read_bytes-append [] rest = refl
read_bytes-append (b ∷ p) rest = rw (read_bytes-append p rest)

read_text-append :
    (p rest : Bytes)
    → length p < 2 ^ 64
    → read_text (big_endian (length p) ++ (p ++ rest)) ≡ some (p, rest)
unfolding read_text
read_text-append p rest h =
    rw (read_number-big_endian (length p) (p ++ rest) h) (read_bytes-append p rest)

number-decode :
    (f n : ℕ) (rest : Bytes)
    → n < 2 ^ 64
    → decode (suc f) (encode (number n) ++ rest) ≡ some (number n, rest)
unfolding decode encode
number-decode f n rest h = rw (read_number-big_endian n rest h)

text-decode :
    (f : ℕ) (s rest : Bytes)
    → length s < 2 ^ 64
    → decode (suc f) (encode (text s) ++ rest) ≡ some (text s, rest)
unfolding decode encode
text-decode f s rest h =
    rw (append_assoc (big_endian (length s)) s rest) (rw (read_text-append s rest h))

sequence-decode :
    (f : ℕ) (ts : Trees) (rest : Bytes)
    → count_trees ts < 2 ^ 64
    → decode_trees f (count_trees ts) (encode_trees ts ++ rest) ≡ some (ts, rest)
    → decode (suc f) (encode (sequence ts) ++ rest) ≡ some (sequence ts, rest)
unfolding decode encode
sequence-decode f ts rest h e =
    rw (append_assoc (big_endian (count_trees ts)) (encode_trees ts) rest)
      (rw (read_number-big_endian (count_trees ts) (encode_trees ts ++ rest) h) (rw e))

object-decode :
    (f : ℕ) (fs : Fields) (rest : Bytes)
    → count_fields fs < 2 ^ 64
    → decode_fields f (count_fields fs) (encode_fields fs ++ rest) ≡ some (fs, rest)
    → decode (suc f) (encode (object fs) ++ rest) ≡ some (object fs, rest)
unfolding decode encode
object-decode f fs rest h e =
    rw (append_assoc (big_endian (count_fields fs)) (encode_fields fs) rest)
      (rw (read_number-big_endian (count_fields fs) (encode_fields fs ++ rest) h) (rw e))

cons-decode :
    (f : ℕ) (t : Tree) (ts : Trees) (rest : Bytes)
    → decode f (encode t ++ (encode_trees ts ++ rest)) ≡ some (t, encode_trees ts ++ rest)
    → decode_trees f (count_trees ts) (encode_trees ts ++ rest) ≡ some (ts, rest)
    → decode_trees (suc f) (count_trees (Trees.cons t ts)) (encode_trees (Trees.cons t ts) ++ rest)
      ≡ some (Trees.cons t ts, rest)
unfolding decode encode count_trees
cons-decode f t ts rest h e = rw (append_assoc (encode t) (encode_trees ts) rest) (rw h (rw e))

field-decode :
    (f : ℕ) (k : Bytes) (t : Tree) (fs : Fields) (rest : Bytes)
    → length k < 2 ^ 64
    → decode f (encode t ++ (encode_fields fs ++ rest)) ≡ some (t, encode_fields fs ++ rest)
    → decode_fields f (count_fields fs) (encode_fields fs ++ rest) ≡ some (fs, rest)
    → decode_fields
        (suc f)
        (count_fields (Fields.field k t fs))
        (encode_fields (Fields.field k t fs) ++ rest)
      ≡ some (Fields.field k t fs, rest)
unfolding decode encode count_fields
field-decode f k t fs rest l h e =
    rw
      (
        append_assoc (big_endian (length k)) (k ++ (encode t ++ encode_fields fs)) rest,
        append_assoc k (encode t ++ encode_fields fs) rest,
        append_assoc (encode t) (encode_fields fs) rest,
      )
      (rw (read_text-append k (encode t ++ (encode_fields fs ++ rest)) l) (rw h (rw e)))

mutual
  unfolding depth FitsTree decode encode count_trees count_fields

  decode-tree :
      (t : Tree) (f : ℕ) (rest : Bytes)
      → FitsTree t
      → depth t ≤ f
      → decode f (encode t ++ rest) ≡ some (t, rest)
  decode-tree null zero rest h d = absurd (omega arith)
  decode-tree null (suc f) rest h d = refl
  decode-tree (truth b) zero rest h d = absurd (omega arith)
  decode-tree (truth true) (suc f) rest h d = refl
  decode-tree (truth false) (suc f) rest h d = refl
  decode-tree (number n) zero rest h d = absurd (omega arith)
  decode-tree (number n) (suc f) rest h d = number-decode f n rest h
  decode-tree (text s) zero rest h d = absurd (omega arith)
  decode-tree (text s) (suc f) rest h d = text-decode f s rest h
  decode-tree (sequence ts) zero rest h d = absurd (omega arith)
  decode-tree (sequence ts) (suc f) rest h d =
      sequence-decode f ts rest h.0 (decode-trees ts f rest h.1 (omega arith))
  decode-tree (object fs) zero rest h d = absurd (omega arith)
  decode-tree (object fs) (suc f) rest h d =
      object-decode f fs rest h.0 (decode-fields fs f rest h.1 (omega arith))

  decode-trees :
      (ts : Trees) (f : ℕ) (rest : Bytes)
      → FitsTrees ts
      → depth_trees ts ≤ f
      → decode_trees f (count_trees ts) (encode_trees ts ++ rest) ≡ some (ts, rest)
  decode-trees Trees.nil zero rest h d = absurd (omega arith)
  decode-trees Trees.nil (suc f) rest h d = refl
  decode-trees (Trees.cons t ts) zero rest h d = absurd (omega arith)
  decode-trees (Trees.cons t ts) (suc f) rest h d =
      cons-decode f t ts rest (decode-tree t f (encode_trees ts ++ rest) h.0 (omega arith))
        (decode-trees ts f rest h.1 (omega arith))

  decode-fields :
      (fs : Fields) (f : ℕ) (rest : Bytes)
      → FitsFields fs
      → depth_fields fs ≤ f
      → decode_fields f (count_fields fs) (encode_fields fs ++ rest) ≡ some (fs, rest)
  decode-fields Fields.end zero rest h d = absurd (omega arith)
  decode-fields Fields.end (suc f) rest h d = refl
  decode-fields (Fields.field k t fs) zero rest h d = absurd (omega arith)
  decode-fields (Fields.field k t fs) (suc f) rest h d =
      field-decode f k t fs rest h.0 (decode-tree t f (encode_fields fs ++ rest) h.1 (omega arith))
        (decode-fields fs f rest h.2 (omega arith))

-- An encoded tree whose lengths and floats fit 64 bits is read back by the decoder, with whatever
-- follows it left over.
pub decode-encode :
    (t : Tree) (rest : Bytes) → FitsTree t → decode (depth t) (encode t ++ rest) ≡ some (t, rest)
decode-encode t rest h = decode-tree t (depth t) rest h (omega arith)

-- No two trees share their bytes, and none is a prefix of another.
pub encode-injective :
    (t u : Tree) (r s : Bytes)
    → FitsTree t
    → FitsTree u
    → encode t ++ r ≡ encode u ++ s
    → (t ≡ u) × (r ≡ s)
encode-injective t u r s h k e =
    let f = max (depth t) (depth u) in
    both (
      sym (decode-tree t f r h (omega arith))
      ∙ (ap (decode f) e ∙ decode-tree u f s k (omega arith)))
  where
    both : ◌≡◌ {A = Option (Tree × Bytes)} (some (t, r)) (some (u, s)) → (t ≡ u) × (r ≡ s)
    both p = (cc, cc)
