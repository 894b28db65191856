-- ===== src/Objectpacker/Sort/Order.antt =====
-- Sorting by distinct keys gives one result for every order of the pairs.
use mathlib.Core.List.{Permᴰ, Nodup, Nodup-cons, Mem, mem-cons_self}
use mathlib.Core.List.Perm
use icinga_go_library.Prelude.{
  true, false, ◌≡◌, ◌≢◌, refl, sym, ap, ap₂, subst, ◌∙◌, List, [], ◌∷◌, map, length, suc, arith,
}
use icinga_go_library.Objectpacker.Value.{Bytes}
use icinga_go_library.Objectpacker.Sort.{less, insert_key, sort_keys}

less_asym : (a b : Bytes) → less a b ≡ true → less b a ≡ false
unfolding less
less_asym [] [] h = refl
less_asym [] (b ∷ bs) h = refl
less_asym (a ∷ s) [] h = cc
less_asym (a ∷ s) (b ∷ bs) h = ground (arith, less_asym s bs)

less_total : (a b : Bytes) → less a b ≡ false → less b a ≡ false → a ≡ b
unfolding less
less_total [] [] h k = refl
less_total [] (b ∷ bs) h k = cc
less_total (a ∷ s) [] h k = cc
less_total (a ∷ s) (b ∷ bs) h k = ground (arith, less_total s bs)

-- from p ≤ x and x < q
less_trans : (p x q : Bytes) → less x p ≡ false → less x q ≡ true → less p q ≡ true
unfolding less
less_trans p [] [] h k = cc
less_trans p (b ∷ x) [] h k = cc
less_trans [] x (c ∷ q) h k = refl
less_trans (a ∷ p) [] (c ∷ q) h k = cc
less_trans (a ∷ p) (b ∷ x) (c ∷ q) h k = ground (arith, less_trans p x q)

module _ {A : Type 0} where
  insert_key_comm :
      (p q : Bytes) (a b : A) (l : List (Bytes × A))
      → p ≢ q
      → insert_key (p, a) (insert_key (q, b) l) ≡ insert_key (q, b) (insert_key (p, a) l)
  unfolding insert_key
  insert_key_comm p q a b [] h = ground (arith, less_asym p q, less_asym q p, less_total p q)
  insert_key_comm p q a b ((x, c) ∷ l) h = ground (
    arith,
    less_asym p q,
    less_asym q p,
    less_total p q,
    less_trans p x q,
    less_trans q x p,
    insert_key_comm p q a b l h,
  )

  abbrev pub keys : List (Bytes × A) → List Bytes
  keys l = map (λ p. p.0) l

  insert_pair_comm :
      (p q : Bytes × A) (l : List (Bytes × A))
      → p.0 ≢ q.0
      → insert_key p (insert_key q l) ≡ insert_key q (insert_key p l)
  insert_pair_comm p q l h = insert_key_comm p.0 q.0 p.1 q.1 l h

  pub sort_keys-Permᴰ :
      {l m : List (Bytes × A)} → Permᴰ l m → Nodup (keys l) → sort_keys l ≡ sort_keys m
  unfolding sort_keys
  sort_keys-Permᴰ Permᴰ.nil h = refl
  sort_keys-Permᴰ (Permᴰ.cons e p) h = ap₂ insert_key e (sort_keys-Permᴰ p (Nodup-cons.0 h).1)
  sort_keys-Permᴰ (Permᴰ.swap {a = a} {b = b} {l = l} e f) h =
      insert_pair_comm a b (sort_keys l)
        (λ same. (Nodup-cons.0 h).0 (subst (λ k. Mem k (keys (b ∷ l))) (sym same) mem-cons_self))
      ∙ ap₂ (λ p q. insert_key p (insert_key q (sort_keys l))) f e
  sort_keys-Permᴰ (Permᴰ.trans p q) h =
      sort_keys-Permᴰ p h
      ∙ sort_keys-Permᴰ q (Perm.nodup (Perm.map (λ (p : Bytes × A). p.0) ∣ p ∣₁) h)

pub length-Permᴰ : {A : Type 0} {l m : List A} → Permᴰ l m → length l ≡ length m
length-Permᴰ Permᴰ.nil = refl
length-Permᴰ (Permᴰ.cons _ p) = ap suc (length-Permᴰ p)
length-Permᴰ (Permᴰ.swap _ _) = refl
length-Permᴰ (Permᴰ.trans p q) = length-Permᴰ p ∙ length-Permᴰ q
