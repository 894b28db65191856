-- ===== src/Utils/Batches.antt =====
-- `BatchSliceOfStrings` of utils/utils.go: its batches are the slice, cut into pieces of the given size.
use icinga_go_library.Prelude.{
  ℕ, zero, suc, ◌+◌, ◌-◌, ◌<◌, ◌≤◌, pos, leb_ℤ, false, some, List, [], ◌∷◌, ◌++◌, take, drop,
  take-append-drop, length, length-take, length-drop, ltb, if◌then◌else◌, ◌≡◌, ◌≢◌, refl, sym, ap,
  append-nil, ◌∙◌, arith, Bool-cases, inl, inr, min, concat,
}
use icinga_go_library.Utils.{slice, batch_end, batches_from, batch_slice_of_strings}

pub take_all : {A : Type 0} (n : ℕ) (xs : List A) → length xs ≤ n → take n xs ≡ xs
take_all zero [] h = refl
take_all zero (x ∷ xs) h = absurd (omega arith)
take_all (suc n) [] h = refl
take_all (suc n) (x ∷ xs) h = ap (λ l. x ∷ l) (take_all n xs (omega arith))

drop_all : {A : Type 0} (n : ℕ) (xs : List A) → length xs ≤ n → drop n xs ≡ []
drop_all zero [] h = refl
drop_all zero (x ∷ xs) h = absurd (omega arith)
drop_all (suc n) [] h = refl
drop_all (suc n) (x ∷ xs) h = drop_all n xs (omega arith)

drop-drop : {A : Type 0} (c i : ℕ) (xs : List A) → drop c (drop i xs) ≡ drop (i + c) xs
drop-drop c zero xs = ap (λ n. drop n xs) (let e : c ≡ 0 + c = omega arith in e)
drop-drop c (suc i) [] = drop_all c [] (omega arith) ∙ sym (drop_all (suc i + c) [] (omega arith))
drop-drop c (suc i) (x ∷ xs) =
    let e : suc (i + c) ≡ suc i + c = omega arith in drop-drop c i xs ∙ ap (λ n. drop n (x ∷ xs)) e

module _ {A : Type 0} (keys : List A) (count : ℕ) where
  slice-drop :
      (i : ℕ)
      → i < length keys
      → slice i (batch_end (length keys) count i) keys ++ drop (i + count) keys ≡ drop i keys
  unfolding slice batch_end
  slice-drop i h = elim (Bool-cases (ltb (length keys) (i + count))) [
    | inl e ↦
        let behind : length keys < i + count = ground arith in
        rw
          (
            e,
            if◌then◌else◌,
            take_all (length keys - i) (drop i keys) (omega (arith, length-drop i keys)),
            drop_all (i + count) keys (omega arith),
          )
          (append-nil (drop i keys))
    | inr e ↦
        let size : i + count - i ≡ count = omega arith in
        rw (e, if◌then◌else◌, size, ← drop-drop count i keys) (take-append-drop count (drop i keys))
  ]

  length-slice :
      (i : ℕ)
      → length (slice i (batch_end (length keys) count i) keys) ≡ min count (length keys - i)
  unfolding slice batch_end
  length-slice i = elim (Bool-cases (ltb (length keys) (i + count))) [
    | inl e ↦
        rw (e, if◌then◌else◌)
          (ground (arith, length-take (length keys - i) (drop i keys), length-drop i keys))
    | inr e ↦
        rw (e, if◌then◌else◌)
          (omega (arith, length-take (i + count - i) (drop i keys), length-drop i keys))
  ]

-- every batch but the last has the full size
abbrev pub AreFull : {A : Type 0} → ℕ → List (List A) → Type 0
AreFull count [] = Unit
AreFull count (c ∷ []) = (0 < length c) × (length c ≤ count)
AreFull count (c ∷ d ∷ cs) = (length c ≡ count) × AreFull count (d ∷ cs)

AreFull-cons :
    {A : Type 0} (count : ℕ) (c : List A) (cs : List (List A))
    → (0 < length c) × (length c ≤ count)
    → (cs ≢ [] → length c ≡ count)
    → AreFull count cs
    → AreFull count (c ∷ cs)
AreFull-cons count c [] h f full = h
AreFull-cons count c (d ∷ cs) h f full = (f (λ e. cc), full)

module _ {A : Type 0} (keys : List A) (count : ℕ) (positive : 0 < count) where
  batches_from-some : (fuel i : ℕ) → batches_from keys count fuel i ≢ [] → i < length keys
  unfolding batches_from
  batches_from-some zero i h = absurd (h refl)
  batches_from-some (suc fuel) i h = elim (Bool-cases (ltb i (length keys))) [
    | inl e ↦ ground arith
    | inr e ↦ absurd (h (rw (e, if◌then◌else◌) refl))
  ]

  batches_from_lem :
      (fuel i : ℕ)
      → length keys ≤ fuel + i
      → (concat (batches_from keys count fuel i) ≡ drop i keys)
        × AreFull count (batches_from keys count fuel i)
  unfolding batches_from
  batches_from_lem zero i h = (sym (drop_all i keys (omega arith)), tt)
  batches_from_lem (suc fuel) i h =
      let (whole, full) = batches_from_lem fuel (i + count) (omega arith) in
      elim (Bool-cases (ltb i (length keys))) [
        | inr e ↦ rw (e, if◌then◌else◌) (sym (drop_all i keys (ground arith)), tt)
        | inl e ↦
            rw (e, if◌then◌else◌)
              (
                ap (λ l. slice i (batch_end (length keys) count i) keys ++ l) whole
                    ∙ slice-drop keys count i (ground arith),
                AreFull-cons count (slice i (batch_end (length keys) count i) keys)
                    (batches_from keys count fuel (i + count))
                    (
                      ground (arith, length-slice keys count i),
                      ground (arith, length-slice keys count i),
                    )
                    (λ some_batch. omega (
                      arith,
                      length-slice keys count i,
                      batches_from-some fuel (i + count) some_batch,
                    ))
                    full,
              )
      ]

-- For every positive size, and however many batches are received before the context ends: what
-- `BatchSliceOfStrings` sends is the beginning of a list of batches that are, joined, the slice,
-- the last one of at least one and at most `count` keys, and each other of exactly `count` keys.
pub batch_slice_of_strings_lem :
    {A : Type 0} (keys : List A) (n sends : ℕ)
    → (batches : List (List A)) × (batch_slice_of_strings keys (pos (suc n)) sends
        ≡ some (take sends batches))
      × (concat batches ≡ keys)
      × AreFull (suc n) batches
unfolding batch_slice_of_strings
batch_slice_of_strings_lem keys n sends =
    let (whole, full) = batches_from_lem keys (suc n) (omega arith) (length keys) 0 (omega arith) in
    let accepted : leb_ℤ (pos (suc n)) (pos 0) ≡ false = ground arith in
    (batches_from keys (suc n) (length keys) 0, rw (accepted, if◌then◌else◌) refl, whole, full)
