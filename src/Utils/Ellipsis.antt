-- ===== src/Utils/Ellipsis.antt =====
-- `Ellipsize` of utils/utils.go: how long its result is, and where it panics.
use icinga_go_library.Prelude.{
  ℕ, ◌-◌, ◌<◌, ◌≤◌, ℤ, pos, negsuc, none, some, ◌++◌, Text, take, length, length-append,
  length-take, leb, ◌≡◌, ◌↔◌, ◌≤ℤ◌, refl, ◌⊎◌, arith, Bool-cases, inl, inr,
}
use icinga_go_library.Utils.{ellipsis, shortened, ellipsize}

-- With a limit of at least 3 there is a result, of at most that many runes: the text itself where it
-- fits, and else its first runes with the ellipsis behind them.
pub ellipsize_fits :
    (s : Text) (n : ℕ)
    → 3 ≤ n
    → (t : Text) × (ellipsize s (pos n) ≡ some t)
      × (length t ≤ n)
      × (((length s ≤ n) × (t ≡ s)) ⊎ ((n < length s) × (t ≡ take (n - 3) s ++ ellipsis)))
unfolding ellipsize shortened
ellipsize_fits s n h = elim (Bool-cases (leb (length s) n)) [
  | inl e ↦ (s, ground arith, ground arith, inl (ground arith, refl))
  | inr e ↦ (
    take (n - 3) s ++ ellipsis,
    ground arith,
    omega (arith, length-append (take (n - 3) s) ellipsis, length-take (n - 3) s),
    inr (ground arith, refl),
  )
]

-- `Ellipsize` panics exactly for a text of more than three runes and a limit below three.
pub ellipsize_panics :
    (s : Text) (limit : ℤ) → (ellipsize s limit ≡ none) ↔ ((limit ≤ℤ pos 2) × (3 < length s))
unfolding ellipsize shortened
ellipsize_panics s (pos n) = (λ h. (ground arith, ground arith), λ (h, k). ground arith)
ellipsize_panics s (negsuc n) = (λ h. (ground arith, ground arith), λ (h, k). ground arith)
