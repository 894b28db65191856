-- ===== src/Database/ColumnMap.antt =====
-- `columnMap` of database/column_map.go. `reflectx.TypeMap` is a parameter: the fields of a type, each with
-- its path, and of each parent field what the code asks of it: whether its zero value is valid, and whether
-- it is a `driver.Valuer`, as a pointer or as a value.
use icinga_go_library.Prelude.{
  ℕ, not, Bool, true, false, ◌≡◌, refl, List, [], ◌∷◌, map, Option, none, some, Text, ◌==◌, arith,
  if◌then◌else◌, Bool-cases, Option-cases, inl, inr,
}

pub record Parent : Type 0 where
  pub zero_is_valid : Bool
  pub pointer_valuer : Bool
  pub value_valuer : Bool

-- A field that `reflectx` lists, and its chain of parents, the closest first.
pub record Field : Type 0 where
  pub path : Text
  pub parents : List Parent

-- the inner loop: whether a parent makes the field to be ignored
unfoldable pub is_ignored : List Parent → Bool
is_ignored [] = false
is_ignored (p ∷ ps) =
    let rest = is_ignored ps in
    if not p.zero_is_valid
    then false
    else if p.pointer_valuer
    then true
    else if p.value_valuer
    then true
    else rest

unfoldable pub get_columns : List Field → List Text
unfolding is_ignored
get_columns [] = []
get_columns (f ∷ fs) =
    let rest = get_columns fs in if is_ignored f.parents then rest else f.path ∷ rest

-- `cache`: the types are numbered
abbrev pub Cache : Type 0
Cache = List (ℕ × List Text)

unfoldable pub cached : ℕ → Cache → Option (List Text)
cached t [] = none
cached t ((u, cols) ∷ es) = let rest = cached t es in if u == t then some cols else rest

module _ (type_map : ℕ → List Field) where
  unfoldable pub cached_or_mapped : ℕ → Cache → Option (List Text) → List Text × Cache
  unfolding get_columns
  cached_or_mapped t cache (some cols) = (cols, cache)
  cached_or_mapped t cache none = let cols = get_columns (type_map t) in (cols, (t, cols) ∷ cache)

  unfoldable pub columns : ℕ → Cache → List Text × Cache
  unfolding cached_or_mapped cached
  columns t cache = cached_or_mapped t cache (cached t cache)

  -- the answers to a series of requests that starts with an empty cache
  unfoldable pub answers : Cache → List ℕ → List (List Text)
  unfolding columns
  answers cache [] = []
  answers cache (t ∷ ts) = let (cols, cache') = columns t cache in cols ∷ answers cache' ts

  -- what the cache says is what the mapper says
  pub IsFaithful : Cache → Type 0
  IsFaithful cache =
      (t : ℕ) (cols : List Text) → cached t cache ≡ some cols → cols ≡ get_columns (type_map t)

  cons-IsFaithful :
      (t : ℕ) (cache : Cache)
      → IsFaithful cache
      → IsFaithful ((t, get_columns (type_map t)) ∷ cache)
  unfolding IsFaithful cached
  cons-IsFaithful t cache h u cols q = elim (Bool-cases (t == u)) [
    | inl e ↦
        let same : t ≡ u = ground arith in
        let answer : get_columns (type_map t) ≡ cols = ground arith in cc
    | inr e ↦ h u cols (ground arith)
  ]

  columns-IsFaithful :
      (t : ℕ) (cache : Cache)
      → IsFaithful cache
      → ((columns t cache).0 ≡ get_columns (type_map t)) × IsFaithful (columns t cache).1
  unfolding columns cached_or_mapped IsFaithful
  columns-IsFaithful t cache h = elim (Option-cases (cached t cache)) [
    | inl e ↦ rw e (refl, cons-IsFaithful t cache h)
    | inr (cols, e) ↦ rw e (h t cols e, h)
  ]

  answers_lem :
      (cache : Cache) (ts : List ℕ)
      → IsFaithful cache
      → answers cache ts ≡ map (λ t. get_columns (type_map t)) ts
  unfolding answers
  answers_lem cache [] h = refl
  answers_lem cache (t ∷ ts) h =
      let (same, faithful) = columns-IsFaithful t cache h in
      rw (same, answers_lem (columns t cache).1 ts faithful)

  -- For each mapper and each series of requests, the cache is not to be seen: each answer is what the
  -- mapper's fields of that type give.
  pub answers-transparent : (ts : List ℕ) → answers [] ts ≡ map (λ t. get_columns (type_map t)) ts
  answers-transparent ts = answers_lem [] ts (unfold IsFaithful cached in λ t cols h. cc)
