-- ===== src/Strconv/Digits.antt =====
-- What ParseUint and ParseInt accept, and what they return.
use icinga_go_library.Prelude.{
  ℕ, ◌+◌, ◌-◌, ◌*◌, ◌^◌, ◌≤◌, [], ◌∷◌, Text, ok, ◌≡◌, ◌≢◌, refl, arith, All,
}
use icinga_go_library.Strconv.{scan_digits, parse_uint}

abbrev pub IsDigit : ℕ → Type 0
IsDigit c = (48 ≤ c) × (c ≤ 57)

-- the number that digits spell behind `n`
abbrev pub number : ℕ → Text → ℕ
number n [] = n
number n (c ∷ s) = number (n * 10 + (c - 48)) s

scan_digits-ok :
    (most : ℕ) (s : Text) (n r : ℕ)
    → n ≤ most
    → scan_digits most s n ≡ ok r
    → All IsDigit s × (r ≡ number n s) × (r ≤ most)
unfolding scan_digits
scan_digits-ok most [] n r fits h = ground arith
scan_digits-ok most (c ∷ s) n r fits h = ground (arith, scan_digits-ok most s (n * 10 + (c - 48)) r)

le-number : (s : Text) (n : ℕ) → n ≤ number n s
le-number [] n = omega arith
le-number (c ∷ s) n = omega (arith, le-number s (n * 10 + (c - 48)))

scan_digits-number :
    (most : ℕ) (s : Text) (n : ℕ)
    → All IsDigit s
    → number n s ≤ most
    → scan_digits most s n ≡ ok (number n s)
unfolding scan_digits
scan_digits-number most [] n h fits = refl
scan_digits-number most (c ∷ s) n (hc, hs) fits =
    ground (
      arith,
      scan_digits-number most s (n * 10 + (c - 48)) hs fits,
      le-number s (n * 10 + (c - 48)),
    )

pub parse_uint-ok :
    (bits : ℕ) (s : Text) (r : ℕ)
    → parse_uint bits s ≡ ok r
    → (s ≢ []) × All IsDigit s × (r ≡ number 0 s) × (r ≤ 2 ^ bits - 1)
unfolding parse_uint
parse_uint-ok bits [] r h = cc
parse_uint-ok bits (c ∷ s) r h =
    let (all, exact, fits) = scan_digits-ok (2 ^ bits - 1) (c ∷ s) 0 r (omega arith) h in
    ((λ e. cc), all, exact, fits)

pub parse_uint-number :
    (bits : ℕ) (s : Text)
    → s ≢ []
    → All IsDigit s
    → number 0 s ≤ 2 ^ bits - 1
    → parse_uint bits s ≡ ok (number 0 s)
unfolding parse_uint
parse_uint-number bits [] ne h fits = absurd (ne refl)
parse_uint-number bits (c ∷ s) ne h fits = scan_digits-number (2 ^ bits - 1) (c ∷ s) 0 h fits
