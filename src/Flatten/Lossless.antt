-- ===== src/Flatten/Lossless.antt =====
-- flatten/flatten.go: each leaf is found under its key.
use icinga_go_library.Prelude.{
  ℕ, ◌+◌, ◌<◌, Option, none, some, List, [], ◌∷◌, ◌++◌, Text, text_eq, text_eq_iff, text_eq_refl,
  ◌≡◌, ◌≢◌, refl, arith, Lacks, All, All-append, All-imp, inl, inr, Bool-cases,
}
use icinga_go_library.Flatten.{
  Value, null, float, other, object, array, Pairs, no_pairs, pair, Items, no_items, item, Entry,
  flatten, value_of,
}
use icinga_go_library.Flatten.Paths.{
  Step, field, index, Leaf, below, leaves, leaves_pairs, leaves_items, render, rendered,
  flatten-eq-rendered,
}
use icinga_go_library.Flatten.Collision.{IsPlain, render-injective}

abbrev pub HasNoKey : Text → Pairs → Type 0
HasNoKey k no_pairs = Unit
HasNoKey k (pair l v ps) = (l ≢ k) × HasNoKey k ps

-- The keys of each object differ, and hold no dot and no opening bracket.
abbrev mutual
  pub IsClean : Value → Type 0
  IsClean null = Unit
  IsClean (float s) = Unit
  IsClean (other s) = Unit
  IsClean (object ps) = ArePairsClean ps
  IsClean (array vs) = AreItemsClean vs

  pub ArePairsClean : Pairs → Type 0
  ArePairsClean no_pairs = Unit
  ArePairsClean (pair k v ps) =
      Lacks 46 k × Lacks 91 k × IsClean v × HasNoKey k ps × ArePairsClean ps

  pub AreItemsClean : Items → Type 0
  AreItemsClean no_items = Unit
  AreItemsClean (item v vs) = IsClean v × AreItemsClean vs

-- a plain path that does not begin with a step
abbrev Avoids : Step → Leaf → Type 0
Avoids s leaf = (rest : List Step) → leaf.0 ≢ s ∷ rest

abbrev ArePlain : List Leaf → Type 0
ArePlain = All (λ leaf. IsPlain leaf.0)

-- the paths are pairwise different
abbrev AreApart : List Leaf → Type 0
AreApart [] = Unit
AreApart (x ∷ xs) = All (λ y. y.0 ≢ x.0) xs × AreApart xs

AreApart-append :
    (xs ys : List Leaf)
    → AreApart xs
    → AreApart ys
    → All (λ x. All (λ y. y.0 ≢ x.0) ys) xs
    → AreApart (xs ++ ys)
AreApart-append [] ys h k across = k
AreApart-append (x ∷ xs) ys (a, h) k (b, across) =
    (All-append (λ y. y.0 ≢ x.0) xs ys a b, AreApart-append xs ys h k across)

below-apart :
    (s : Step) (p : List Step) (xs : List Leaf)
    → All (λ y. y.0 ≢ p) xs
    → All (λ y. y.0 ≢ s ∷ p) (below s xs)
below-apart s p [] h = tt
below-apart s p ((q, v) ∷ xs) (h, hs) = ((λ e. h cc), below-apart s p xs hs)

AreApart-below : (s : Step) (xs : List Leaf) → AreApart xs → AreApart (below s xs)
AreApart-below s [] h = tt
AreApart-below s ((p, v) ∷ xs) (a, h) = (below-apart s p xs a, AreApart-below s xs h)

-- what avoids a step lies apart from what is below it
across_below :
    (s : Step) (xs ys : List Leaf)
    → All (Avoids s) ys
    → All (λ x. All (λ y. y.0 ≢ x.0) ys) (below s xs)
across_below s [] ys h = tt
across_below s ((p, v) ∷ xs) ys h =
    (All-imp (Avoids s) (λ y. y.0 ≢ s ∷ p) ys (λ y a. a p) h, across_below s xs ys h)

Avoids-below : (s t : Step) (xs : List Leaf) → t ≢ s → All (Avoids s) (below t xs)
Avoids-below s t [] h = tt
Avoids-below s t ((p, v) ∷ xs) h = ((λ rest e. h cc), Avoids-below s t xs h)

Avoids-pairs : (k : Text) (ps : Pairs) → HasNoKey k ps → All (Avoids (field k)) (leaves_pairs ps)
unfolding leaves_pairs
Avoids-pairs k no_pairs h = tt
Avoids-pairs k (pair l v ps) (h, hs) =
    All-append (Avoids (field k)) (below (field l) (leaves v)) (leaves_pairs ps)
      (Avoids-below (field k) (field l) (leaves v) (λ e. h cc)) (Avoids-pairs k ps hs)

Avoids-items : (j i : ℕ) (vs : Items) → j < i → All (Avoids (index j)) (leaves_items i vs)
unfolding leaves_items
Avoids-items j i no_items h = tt
Avoids-items j i (item v vs) h =
    All-append (Avoids (index j)) (below (index i) (leaves v)) (leaves_items (i + 1) vs)
      (Avoids-below (index j) (index i) (leaves v)
        (λ e. let q : i ≡ j = cc in absurd (omega arith)))
      (Avoids-items j (i + 1) vs (omega arith))

ArePlain-field :
    (k : Text) (xs : List Leaf)
    → Lacks 46 k
    → Lacks 91 k
    → ArePlain xs
    → ArePlain (below (field k) xs)
ArePlain-field k [] a b h = tt
ArePlain-field k ((p, v) ∷ xs) a b (h, hs) = ((a, b, h), ArePlain-field k xs a b hs)

ArePlain-index : (i : ℕ) (xs : List Leaf) → ArePlain xs → ArePlain (below (index i) xs)
ArePlain-index i [] h = tt
ArePlain-index i ((p, v) ∷ xs) (h, hs) = (h, ArePlain-index i xs hs)

-- leaves that do not collide
abbrev AreGood : List Leaf → Type 0
AreGood xs = ArePlain xs × AreApart xs

AreGood-join :
    (s : Step) (xs ys : List Leaf)
    → ArePlain (below s xs)
    → AreApart xs
    → All (Avoids s) ys
    → AreGood ys
    → AreGood (below s xs ++ ys)
AreGood-join s xs ys plain apart avoids (p, a) = (
  All-append (λ leaf. IsPlain leaf.0) (below s xs) ys plain p,
  AreApart-append (below s xs) ys (AreApart-below s xs apart) a (across_below s xs ys avoids),
)

mutual
  unfolding leaves

  leaves-AreGood : (v : Value) → IsClean v → AreGood (leaves v)
  leaves-AreGood null h = ((tt, tt), (tt, tt))
  leaves-AreGood (float s) h = ((tt, tt), (tt, tt))
  leaves-AreGood (other s) h = ((tt, tt), (tt, tt))
  leaves-AreGood (object no_pairs) h = ((tt, tt), (tt, tt))
  leaves-AreGood (object (pair k v ps)) (a, b, h, free, hs) =
      let (plain, apart) = leaves-AreGood v h in
      AreGood-join (field k) (leaves v) (leaves_pairs ps) (ArePlain-field k (leaves v) a b plain)
        apart (Avoids-pairs k ps free) (pairs-AreGood ps hs)
  leaves-AreGood (array no_items) h = ((tt, tt), (tt, tt))
  leaves-AreGood (array (item v vs)) (h, hs) =
      let (plain, apart) = leaves-AreGood v h in
      AreGood-join (index 0) (leaves v) (leaves_items 1 vs) (ArePlain-index 0 (leaves v) plain)
        apart (Avoids-items 0 1 vs (omega arith)) (items-AreGood 1 vs hs)

  pairs-AreGood : (ps : Pairs) → ArePairsClean ps → AreGood (leaves_pairs ps)
  pairs-AreGood no_pairs h = (tt, tt)
  pairs-AreGood (pair k v ps) (a, b, h, free, hs) =
      let (plain, apart) = leaves-AreGood v h in
      AreGood-join (field k) (leaves v) (leaves_pairs ps) (ArePlain-field k (leaves v) a b plain)
        apart (Avoids-pairs k ps free) (pairs-AreGood ps hs)

  items-AreGood : (i : ℕ) (vs : Items) → AreItemsClean vs → AreGood (leaves_items i vs)
  items-AreGood i no_items h = (tt, tt)
  items-AreGood i (item v vs) (h, hs) =
      let (plain, apart) = leaves-AreGood v h in
      AreGood-join (index i) (leaves v) (leaves_items (i + 1) vs)
        (ArePlain-index i (leaves v) plain) apart (Avoids-items i (i + 1) vs (omega arith))
        (items-AreGood (i + 1) vs hs)

value_of-none :
    (key : Text) (p : List Step) (xs : List Leaf)
    → IsPlain p
    → ArePlain xs
    → All (λ y. y.0 ≢ p) xs
    → value_of (render key p) (rendered key xs) ≡ none
unfolding value_of
value_of-none key p [] plain h k = refl
value_of-none key p ((q, v) ∷ xs) plain (h, hs) (k, ks) =
    let rest = value_of-none key p xs plain hs ks in
    elim (Bool-cases (text_eq (render key q) (render key p))) [
      | inl e ↦
          absurd
            (k (render-injective key q p h plain ((text_eq_iff (render key q) (render key p)).0 e)))
      | inr e ↦ rw (rest, e) refl
    ]

-- the lookups in a list hold, whatever is in front of it
value_of-later :
    (key k : Text) (v : Option Text) (es : List Entry) (w : Option Text)
    → value_of key es ≡ some w
    → value_of key ((k, v) ∷ es) ≡ some w
unfolding value_of
value_of-later key k v es w h = rw h refl

value_of-rendered :
    (key : Text) (xs : List Leaf)
    → AreGood xs
    → All (λ x. value_of (render key x.0) (rendered key xs) ≡ some x.1) xs
value_of-rendered key [] h = tt
value_of-rendered key ((p, v) ∷ xs) ((plain, ps), (apart, as_)) = (
  unfold value_of in rw (value_of-none key p xs plain ps apart, text_eq_refl (render key p)) refl,
  All-imp (λ x. value_of (render key x.0) (rendered key xs) ≡ some x.1)
      (λ x. value_of (render key x.0) (rendered key ((p, v) ∷ xs)) ≡ some x.1) xs
      (λ x h. value_of-later (render key x.0) (render key p) v (rendered key xs) x.1 h)
      (value_of-rendered key xs (ps, as_)),
)

-- In the map that Flatten makes of a value whose objects each have different keys without dots and
-- opening brackets, each leaf of the value is found, under the prefix with its path: nothing is lost.
pub flatten_lossless :
    (key : Text) (v : Value)
    → IsClean v
    → All (λ leaf. value_of (render key leaf.0) (flatten key v) ≡ some leaf.1) (leaves v)
flatten_lossless key v h =
    rw (flatten-eq-rendered key v) (value_of-rendered key (leaves v) (leaves-AreGood v h))
