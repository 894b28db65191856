-- ===== src/Objectpacker/Sort.antt =====
-- `sort.Slice` by `bytes.Compare` on the keys, as an insertion sort.
pub mod Order
use icinga_go_library.Prelude.{
  ℕ, Bool, true, false, ◌&&◌, ◌||◌, List, [], ◌∷◌, ltb, ◌==◌, if◌then◌else◌,
}
use icinga_go_library.Objectpacker.Value.{Bytes}

-- `bytes.Compare(a, b) < 0`
unfoldable pub less : Bytes → Bytes → Bool
less [] [] = false
less [] (b ∷ bs) = true
less (a ∷ s) [] = false
less (a ∷ s) (b ∷ bs) = ltb a b || (a == b && less s bs)

module _ {ℓ} {A : Type ℓ} where
  unfoldable pub insert_key : Bytes × A → List (Bytes × A) → List (Bytes × A)
  insert_key (k, a) [] = (k, a) ∷ []
  insert_key (k, a) ((j, b) ∷ l) =
      if less j k then (j, b) ∷ insert_key (k, a) l else (k, a) ∷ (j, b) ∷ l

  unfoldable pub sort_keys : List (Bytes × A) → List (Bytes × A)
  unfolding insert_key
  sort_keys [] = []
  sort_keys (p ∷ l) = insert_key p (sort_keys l)
