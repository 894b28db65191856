-- ===== src/Strconv/RoundTrip.antt =====
-- A number is read back from its decimal print.
use icinga_go_library.Prelude.{
  ℕ, zero, suc, ◌+◌, ◌-◌, ◌/◌, ◌%◌, ◌^◌, ◌≤◌, ◌<◌, ℤ, pos, negsuc, pos_part, neg_part, false, [],
  ◌∷◌, ◌++◌, Text, ltb, ok, ◌≡◌, ◌≢◌, refl, arith, append_assoc, append-nil, text_eq, codes, Lacks,
  Lacks-append, ap, Bool-cases, inl, inr, sym, ◌∙◌,
}
use icinga_go_library.Strconv.{
  scan_digits, parse_uint, digits, format_uint, format_int, parse_int, signed, negated,
}

scan_digits-digits :
    (most fuel n : ℕ) (s : Text)
    → n < fuel
    → n ≤ most
    → scan_digits most (digits fuel n ++ s) 0 ≡ scan_digits most s n
unfolding scan_digits digits
scan_digits-digits most zero n s h fits = absurd (omega arith)
scan_digits-digits most (suc fuel) n s h fits = elim (Bool-cases (ltb n 10)) [
  | inl small ↦ rw small (ground arith)
  | inr large ↦
      rw (large, append_assoc (digits fuel (n / 10)) ((48 + n % 10) ∷ []) s)
        (scan_digits-digits most fuel (n / 10) ((48 + n % 10) ∷ s) (ground arith) (omega arith)
          ∙ ground arith)
]

head_digit :
    (fuel n : ℕ) → n < fuel → (c : ℕ) × (s : Text) × (digits fuel n ≡ c ∷ s) × (48 ≤ c) × (c ≤ 57)
unfolding digits
head_digit zero n h = absurd (omega arith)
head_digit (suc fuel) n h = elim (Bool-cases (ltb n 10)) [
  | inl small ↦ (48 + n, [], rw small refl, omega arith, ground arith)
  | inr large ↦
      let (c, s, e, low, high) = head_digit fuel (n / 10) (ground arith) in
      (c, s ++ ((48 + n % 10) ∷ []), rw (large, e) refl, low, high)
]

-- Every number that fits the bits is read back from its print.
pub parse_uint-format_uint :
    (bits n : ℕ) → n ≤ 2 ^ bits - 1 → parse_uint bits (format_uint n) ≡ ok n
unfolding parse_uint format_uint
parse_uint-format_uint bits n h =
    let (c, s, e, low, high) = head_digit (suc n) n (omega arith) in
    let read : scan_digits (2 ^ bits - 1) (digits (suc n) n) 0 ≡ ok n =
      rw (← append-nil (digits (suc n) n)) (
        scan_digits-digits (2 ^ bits - 1) (suc n) n [] (omega arith) h
        ∙ unfold scan_digits in refl) in
    rw e (rw e at read)

pub pow_pos : (b : ℕ) → 1 ≤ 2 ^ b
pow_pos zero = omega arith
pow_pos (suc b) = omega (arith, pow_pos b)

half-le : (b : ℕ) → 1 ≤ b → 2 ^ (b - 1) ≤ 2 ^ b - 1
half-le zero h = absurd (omega arith)
half-le (suc b) h = let e : suc b - 1 ≡ b = omega arith in rw e (omega (arith, pow_pos b))

negative_print :
    (bits n : ℕ)
    → 1 ≤ bits
    → suc n ≤ 2 ^ (bits - 1)
    → parse_int bits (45 ∷ format_uint (suc n)) ≡ ok (negsuc n)
unfolding parse_int signed negated
negative_print bits n wide fits =
    rw (parse_uint-format_uint bits (suc n) (omega (arith, half-le bits wide))) (ground arith)

positive_print :
    (bits n : ℕ) → 1 ≤ bits → n < 2 ^ (bits - 1) → parse_int bits (format_uint n) ≡ ok (pos n)
unfolding parse_int signed negated format_uint
positive_print bits n wide fits =
    let (c, s, e, low, high) = head_digit (suc n) n (omega arith) in
    let read : parse_uint bits (digits (suc n) n) ≡ ok n =
      unfold format_uint in parse_uint-format_uint bits n (omega (arith, half-le bits wide)) in
    rw e (let read' : parse_uint bits (c ∷ s) ≡ ok n = rw e at read in ground arith)

-- Every integer that the bits hold is read back from its print.
pub parse_int-format_int :
    (bits : ℕ) (z : ℤ)
    → 1 ≤ bits
    → neg_part z ≤ 2 ^ (bits - 1)
    → pos_part z < 2 ^ (bits - 1)
    → parse_int bits (format_int z) ≡ ok z
unfolding format_int
parse_int-format_int bits (pos n) wide low high = positive_print bits n wide high
parse_int-format_int bits (negsuc n) wide low high = negative_print bits n wide low

pub format_int-ne-nil : (z : ℤ) → format_int z ≢ []
unfolding format_int format_uint
format_int-ne-nil (pos n) =
    let (c, s, e, low, high) = head_digit (suc n) n (omega arith) in rw e (λ k. cc)
format_int-ne-nil (negsuc n) = λ k. cc

-- A number starts with a digit or a minus.
pub format_int-ne-null : (z : ℤ) → text_eq (format_int z) (codes "null") ≡ false
unfolding format_int format_uint text_eq
format_int-ne-null (negsuc n) = refl
format_int-ne-null (pos n) =
    let (c, s, e, low, high) = head_digit (suc n) n (omega arith) in rw e (ground arith)

digits-Lacks : (b fuel n : ℕ) → 57 < b → Lacks b (digits fuel n)
unfolding digits
digits-Lacks b zero n h = tt
digits-Lacks b (suc fuel) n h = elim (Bool-cases (ltb n 10)) [
  | inl small ↦ rw small (ground arith, tt)
  | inr large ↦ rw large (
      Lacks-append b (digits fuel (n / 10)) ((48 + n % 10) ∷ []) (digits-Lacks b fuel (n / 10) h)
        (ground arith, tt))
]

pub format_uint-Lacks : (b n : ℕ) → 57 < b → Lacks b (format_uint n)
unfolding format_uint
format_uint-Lacks b n h = digits-Lacks b (suc n) n h

scan-format_uint : (most n : ℕ) → n ≤ most → scan_digits most (format_uint n) 0 ≡ ok n
unfolding format_uint
scan-format_uint most n h =
    rw (← append-nil (digits (suc n) n))
      (scan_digits-digits most (suc n) n [] (omega arith) h ∙ unfold scan_digits in refl)

pub format_uint-injective : (m n : ℕ) → format_uint m ≡ format_uint n → m ≡ n
format_uint-injective m n e =
    let q : ok m ≡ ok n =
      sym (scan-format_uint (m + n) m (omega arith))
      ∙ (ap (λ s. scan_digits (m + n) s 0) e ∙ scan-format_uint (m + n) n (omega arith)) in
    cc
