-- ===== src/Structify/Ranges.antt =====
-- structify/structify.go: the numbers in the struct stay in the ranges of their types.
use icinga_go_library.Prelude.{
  ℕ, zero, suc, ◌+◌, ◌-◌, ◌^◌, ◌≤◌, ◌<◌, ℤ, pos_part, neg_part, Bool, true, false, ◌||◌, Option,
  none, some, List, [], ◌∷◌, ◌++◌, Text, codes, text_eq, ◌≡◌, refl, arith, inl, inr, Bool-cases,
  Result, ok, err, ◌==◌,
}
use icinga_go_library.Strconv.{parse_uint, parse_int, NumError, signed, negated}
use icinga_go_library.Strconv.Digits.{parse_uint-ok}
use icinga_go_library.Strconv.RoundTrip.{pow_pos}
use icinga_go_library.Structify.{
  Scalar, unmarshaler, str, str_ptr, uint, int, float, unsupported, Value, scalar, struct, Fields,
  nil, field, Outcome, done, failed, panicked, MapValue, text_value, other_value, Parsers,
  parse_string, unmarshaled, stored_uint, stored_int, stored_float,
}
use icinga_go_library.Structify.Tree.{Branches, build_fields, set_leaf, structify_map_by_tree}
use icinga_go_library.Structify.Fill.{with_rest, fill_leaf, fill_field, fill_struct, fill}
use icinga_go_library.Structify.Agree.{structify-eq-fill}

-- an integer of so many bits, in two's complement
abbrev pub IsSigned : ℕ → ℤ → Type 0
IsSigned bits z = (neg_part z ≤ 2 ^ (bits - 1)) × (pos_part z < 2 ^ (bits - 1))

signed-IsSigned :
    (negative : Bool) (bits : ℕ) (r : Result NumError ℕ) (z : ℤ)
    → signed negative (2 ^ (bits - 1)) r ≡ ok z
    → IsSigned bits z
unfolding signed negated
signed-IsSigned negative bits (err e) z h = cc
signed-IsSigned false bits (ok n) z h = ground (arith, pow_pos (bits - 1))
signed-IsSigned true bits (ok zero) z h = ground (arith, pow_pos (bits - 1))
signed-IsSigned true bits (ok (suc n)) z h = ground (arith, pow_pos (bits - 1))

parse_int-IsSigned : (bits : ℕ) (s : Text) (z : ℤ) → parse_int bits s ≡ ok z → IsSigned bits z
unfolding parse_int
parse_int-IsSigned bits [] z h = cc
parse_int-IsSigned bits (c ∷ s) z h = elim (Bool-cases (c == 45)) [
  | inl minus ↦ signed-IsSigned true bits (parse_uint bits s) z (rw minus at h)
  | inr other ↦ elim (Bool-cases (c == 43)) [
    | inl plus ↦ signed-IsSigned false bits (parse_uint bits s) z (rw (other, plus) at h)
    | inr digit ↦ signed-IsSigned false bits (parse_uint bits (c ∷ s)) z (rw (other, digit) at h)
  ]
]

module _ {U : Type 0} where
  abbrev pub Fits : Scalar U → Type 0
  Fits (unmarshaler u) = Unit
  Fits (str s) = Unit
  Fits (str_ptr s) = Unit
  Fits (uint bits x) = x ≤ 2 ^ bits - 1
  Fits (int bits z) = IsSigned bits z
  Fits (float bits x) = Unit
  Fits unsupported = Unit

  abbrev mutual
    pub FitsValue : Value U → Type 0
    FitsValue (scalar x) = Fits x
    FitsValue (struct fs) = FitsFields fs

    pub FitsFields : Fields U → Type 0
    FitsFields nil = Unit
    FitsFields (field exported tag v rest) = FitsValue v × FitsFields rest

module _ {U E : Type 0} where
  unmarshaled-Fits : (r : U × Option E) → Fits (unmarshaled r).0
  unfolding unmarshaled
  unmarshaled-Fits (u, none) = tt
  unmarshaled-Fits (u, some e) = tt

  parse_string-Fits :
      (p : Parsers U E) (s : Text) (x : Scalar U) → Fits x → Fits (parse_string p s x).0
  unfolding parse_string stored_uint stored_int stored_float
  parse_string-Fits p s (unmarshaler u) h = unmarshaled-Fits (p.unmarshal u s)
  parse_string-Fits p s (str t) h = tt
  parse_string-Fits p s (str_ptr t) h = tt
  parse_string-Fits p s (uint bits x) h =
      elim (parse_uint bits s)
          as (λ r. parse_uint bits s ≡ r → Fits (stored_uint {U = U} {E = E} bits x r).0) [
            | ok n ↦ λ e. (parse_uint-ok bits s n e).3
            | err e ↦ λ _. h
          ]
        refl
  parse_string-Fits p s (int bits x) h =
      elim (parse_int bits s)
          as (λ r. parse_int bits s ≡ r → Fits (stored_int {U = U} {E = E} bits x r).0) [
            | ok z ↦ λ e. parse_int-IsSigned bits s z e
            | err e ↦ λ _. h
          ]
        refl
  parse_string-Fits p s (float bits x) h =
      elim (p.parse_float bits s) as (λ r. Fits (stored_float {U = U} {E = E} bits x r).0) [
        | ok n ↦ tt
        | err e ↦ tt
      ]
  parse_string-Fits p s unsupported h = tt

  fill_leaf-Fits :
      (p : Parsers U E) (m : Option MapValue) (key : Text) (path : List ℕ) (v : Value U)
      → FitsValue v
      → FitsValue (fill_leaf p m key path v).0
  unfolding fill_leaf set_leaf
  fill_leaf-Fits p none key path v h = h
  fill_leaf-Fits p (some other_value) key path v h = h
  fill_leaf-Fits p (some (text_value s)) key path (scalar x) h = parse_string-Fits p s x h
  fill_leaf-Fits p (some (text_value s)) key path (struct fs) h = h

  with_rest-Fits :
      (exported : Bool) (tag : Text) (r : Value U × Outcome E) (rest : Fields U)
      (r' : Fields U × Outcome E)
      → FitsValue r.0
      → FitsFields rest
      → FitsFields r'.0
      → FitsFields (with_rest exported tag r rest r').0
  unfolding with_rest
  with_rest-Fits exported tag (v, done) rest r' h k k' = (h, k')
  with_rest-Fits exported tag (v, failed e) rest r' h k k' = (h, k)
  with_rest-Fits exported tag (v, panicked) rest r' h k k' = (h, k)

module _ {U E : Type 0} (p : Parsers U E) (src : Text → Option MapValue) where
  fill_field-Fits :
      (exported : Bool) (tag : Text) (path : List ℕ) (v : Value U) (r : Value U × Outcome E)
      → FitsValue v
      → FitsValue r.0
      → FitsValue (fill_field p src exported tag path v r).0
  unfolding fill_field
  fill_field-Fits false tag path v r h k = h
  fill_field-Fits true tag path v r h k =
      elim (Bool-cases (text_eq tag [] || text_eq tag (codes "-"))) [
        | inl skip ↦ rw skip h
        | inr used ↦ elim (Bool-cases (text_eq tag (codes ",inline"))) [
          | inl inlined ↦ rw (used, inlined) k
          | inr keyed ↦ rw (used, keyed) (fill_leaf-Fits p (src tag) tag path v h)
        ]
      ]

  mutual
    unfolding fill_struct fill

    fill_struct-Fits :
        (v : Value U) (path : List ℕ) → FitsValue v → FitsValue (fill_struct p src v path).0
    fill_struct-Fits (scalar x) path h = h
    fill_struct-Fits (struct fs) path h = fill-Fits fs path 0 h

    fill-Fits :
        (fs : Fields U) (stack : List ℕ) (i : ℕ)
        → FitsFields fs
        → FitsFields (fill p src fs stack i).0
    fill-Fits nil stack i h = tt
    fill-Fits (field exported tag v rest) stack i (h, k) =
        with_rest-Fits exported tag _ rest _
          (fill_field-Fits exported tag (stack ++ i ∷ []) v _ h
            (fill_struct-Fits v (stack ++ i ∷ []) h))
          k (fill-Fits rest stack (i + 1) k)

-- Whatever the map holds, and whether or not an error ends the structifier: if each integer in a struct
-- of an accepted type is in the range of its type before, then each one is in the range behind.
pub structify-FitsFields :
    {U E : Type 0} (p : Parsers U E) (src : Text → Option MapValue) (dest : Fields U)
    (tree : Branches)
    → build_fields p dest 0 ≡ some tree
    → FitsFields dest
    → FitsFields (structify_map_by_tree p src tree [] dest).0
structify-FitsFields p src dest tree h fits =
    rw (structify-eq-fill p src dest tree h) (fill-Fits p src dest [] 0 fits)
