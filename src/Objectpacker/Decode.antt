-- ===== src/Objectpacker/Decode.antt =====
-- A decoder for the format of objectpacker/objectpacker.go. The program has none; it shows that a
-- packed value can be read back, so that no two meanings share their bytes.
pub mod RoundTrip
use native.Mathlib.Nat.{add_assoc}
use icinga_go_library.Prelude.{
  ℕ, zero, suc, ◌+◌, ◌*◌, ◌/◌, ◌%◌, ◌^◌, ◌≤◌, ◌<◌, Bool, true, false, ◌≡◌, refl, sym, ap, ◌∙◌,
  Option, none, some, List, [], ◌∷◌, ◌++◌, append_assoc, length, arith, ◌==◌, if◌then◌else◌, max,
}
use icinga_go_library.Objectpacker.Value.{Bytes}
use icinga_go_library.Objectpacker.Writer.{big_endian}
use icinga_go_library.Objectpacker.Tree.{
  Tree, Trees, Fields, null, truth, number, text, sequence, object, encode, encode_trees,
  encode_fields, count_trees, count_fields,
}

infixl 5 ◌>>=◌
abbrev ◌>>=◌ : {A B : Type 0} → Option A → (A → Option B) → Option B
none >>= f = none
some a >>= f = f a

read_number : ℕ → ℕ → Bytes → Option (ℕ × Bytes)
read_number zero n s = some (n, s)
read_number (suc k) n [] = none
read_number (suc k) n (b ∷ s) = read_number k (n * 256 + b) s

read_bytes : ℕ → Bytes → Option (Bytes × Bytes)
read_bytes zero s = some ([], s)
read_bytes (suc k) [] = none
read_bytes (suc k) (b ∷ s) = do (p, rest) ← read_bytes k s; some (b ∷ p, rest)

read_text : Bytes → Option (Bytes × Bytes)
unfolding read_number read_bytes
read_text s = do (n, rest) ← read_number 8 0 s; read_bytes n rest

-- the branch of a tag, given how to read what follows it
branch :
    ℕ
    → Bytes
    → (ℕ → Bytes → Option (Trees × Bytes))
    → (ℕ → Bytes → Option (Fields × Bytes))
    → Option (Tree × Bytes)
unfolding read_number read_text
branch tag s trees fields =
    if tag == 0
    then some (null, s)
    else if tag == 1
    then some (truth false, s)
    else if tag == 2
    then some (truth true, s)
    else if tag == 3
    then (do (n, rest) ← read_number 8 0 s; some (number n, rest))
    else if tag == 4
    then (do (p, rest) ← read_text s; some (text p, rest))
    else if tag == 5
    then (do (n, rest) ← read_number 8 0 s; (ts, rest') ← trees n rest; some (sequence ts, rest'))
    else if tag == 6
    then (do (n, rest) ← read_number 8 0 s; (fs, rest') ← fields n rest; some (object fs, rest'))
    else none

mutual
  unfolding branch read_text

  pub decode : ℕ → Bytes → Option (Tree × Bytes)
  decode zero s = none
  decode (suc f) [] = none
  decode (suc f) (tag ∷ s) = branch tag s (λ n r. decode_trees f n r) (λ n r. decode_fields f n r)

  decode_trees : ℕ → ℕ → Bytes → Option (Trees × Bytes)
  decode_trees zero n s = none
  decode_trees (suc f) zero s = some (Trees.nil, s)
  decode_trees (suc f) (suc n) s = do
    (t, rest) ← decode f s
    (ts, rest') ← decode_trees f n rest
    some (Trees.cons t ts, rest')

  decode_fields : ℕ → ℕ → Bytes → Option (Fields × Bytes)
  decode_fields zero n s = none
  decode_fields (suc f) zero s = some (Fields.end, s)
  decode_fields (suc f) (suc n) s = do
    (k, rest) ← read_text s
    (t, rest') ← decode f rest
    (fs, rest'') ← decode_fields f n rest'
    some (Fields.field k t fs, rest'')

-- the fuel that a tree takes
mutual
  pub depth : Tree → ℕ
  depth null = 1
  depth (truth b) = 1
  depth (number n) = 1
  depth (text s) = 1
  depth (sequence ts) = suc (depth_trees ts)
  depth (object fs) = suc (depth_fields fs)

  depth_trees : Trees → ℕ
  depth_trees Trees.nil = 1
  depth_trees (Trees.cons t ts) = suc (max (depth t) (depth_trees ts))

  depth_fields : Fields → ℕ
  depth_fields Fields.end = 1
  depth_fields (Fields.field k t fs) = suc (max (depth t) (depth_fields fs))

-- Each number in the tree fits its eight bytes: the bits of a float64, and the lengths, which are of
-- Go's int.
unfoldable mutual
  pub FitsTree : Tree → Type 0
  FitsTree null = Unit
  FitsTree (truth b) = Unit
  FitsTree (number n) = n < 2 ^ 64
  FitsTree (text s) = length s < 2 ^ 64
  FitsTree (sequence ts) = (count_trees ts < 2 ^ 64) × FitsTrees ts
  FitsTree (object fs) = (count_fields fs < 2 ^ 64) × FitsFields fs

  pub FitsTrees : Trees → Type 0
  FitsTrees Trees.nil = Unit
  FitsTrees (Trees.cons t ts) = FitsTree t × FitsTrees ts

  pub FitsFields : Fields → Type 0
  FitsFields Fields.end = Unit
  FitsFields (Fields.field k t fs) = (length k < 2 ^ 64) × FitsTree t × FitsFields fs
