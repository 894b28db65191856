-- ===== src/Flatten/Collision.antt =====
-- flatten/flatten.go: keys without dots and brackets keep the paths apart.
use icinga_go_library.Prelude.{
  ℕ, List, [], ◌∷◌, ◌++◌, Text, ◌≡◌, refl, arith, append_assoc, append-nil, ◌∙◌, sym, ap₂, Lacks,
  cut_unique, ◌⊎◌, inl, inr,
}
use icinga_go_library.Strconv.{format_uint}
use icinga_go_library.Strconv.RoundTrip.{format_uint-injective, format_uint-Lacks}
use icinga_go_library.Flatten.Paths.{Step, field, index, render_step, render}

-- The keys on a path hold no dot and no opening bracket.
abbrev pub IsPlain : List Step → Type 0
IsPlain [] = Unit
IsPlain (field k ∷ path) = Lacks 46 k × Lacks 91 k × IsPlain path
IsPlain (index i ∷ path) = IsPlain path

-- the path as it is written, without a prefix
abbrev written : List Step → Text
written [] = []
written (s ∷ path) = render_step s ++ written path

render-written : (key : Text) (path : List Step) → render key path ≡ key ++ written path
unfolding render
render-written key [] = sym (append-nil key)
render-written key (s ∷ path) =
    render-written (key ++ render_step s) path ∙ append_assoc key (render_step s) (written path)

same_suffix : (key s t : Text) → key ++ s ≡ key ++ t → s ≡ t
same_suffix [] s t e = e
same_suffix (c ∷ key) s t e = same_suffix key s t cc

-- where a key ends: at the end of the text, or before the next step
abbrev Stops : Text → Type 0
Stops [] = Unit
Stops (c ∷ s) = (c ≡ 46) ⊎ (c ≡ 91)

written-Stops : (path : List Step) → Stops (written path)
unfolding render_step
written-Stops [] = tt
written-Stops (field k ∷ path) = inl refl
written-Stops (index i ∷ path) = inr refl

key_unique :
    (k l s t : Text)
    → Lacks 46 k
    → Lacks 91 k
    → Lacks 46 l
    → Lacks 91 l
    → Stops s
    → Stops t
    → k ++ s ≡ l ++ t
    → (k ≡ l) × (s ≡ t)
key_unique [] [] s t a b c d st st' e = (refl, e)
key_unique [] (y ∷ l) [] t a b c d st st' e = cc
key_unique [] (y ∷ l) (x ∷ s) t a b (c, cs) (d, ds) st st' e =
    let q : x ≡ y = cc in absurd (ground arith)
key_unique (x ∷ k) [] s [] a b c d st st' e = cc
key_unique (x ∷ k) [] s (y ∷ t) (a, as_) (b, bs) c d st st' e =
    let q : x ≡ y = cc in absurd (ground arith)
key_unique (x ∷ k) (y ∷ l) s t (a, as_) (b, bs) (c, cs) (d, ds) st st' e =
    let q : x ≡ y = cc in
    let (p, r) = key_unique k l s t as_ bs cs ds st st' cc in (ap₂ (λ z zs. z ∷ zs) q p, r)

written-injective : (p q : List Step) → IsPlain p → IsPlain q → written p ≡ written q → p ≡ q
unfolding render_step
written-injective [] [] h k e = refl
written-injective [] (field l ∷ q) h k e = cc
written-injective [] (index j ∷ q) h k e = cc
written-injective (field l ∷ p) [] h k e = cc
written-injective (index i ∷ p) [] h k e = cc
written-injective (field l ∷ p) (index j ∷ q) h k e =
    let c : ◌≡◌ {A = ℕ} 46 91 = cc in absurd (omega arith)
written-injective (index i ∷ p) (field l ∷ q) h k e =
    let c : ◌≡◌ {A = ℕ} 91 46 = cc in absurd (omega arith)
written-injective (field l ∷ p) (field m ∷ q) (a, b, h) (c, d, k) e =
    let (same, rest) =
      key_unique l m (written p) (written q) a b c d (written-Stops p) (written-Stops q) cc in
    ap₂ (λ x xs. field x ∷ xs) same (written-injective p q h k rest)
written-injective (index i ∷ p) (index j ∷ q) h k e =
    let cut_off : (format_uint i ++ (93 ∷ [])) ++ written p
        ≡ (format_uint j ++ (93 ∷ [])) ++ written q =
      cc in
    let joined : format_uint i ++ (93 ∷ written p) ≡ format_uint j ++ (93 ∷ written q) =
      sym (append_assoc (format_uint i) (93 ∷ []) (written p))
      ∙ (cut_off ∙ append_assoc (format_uint j) (93 ∷ []) (written q)) in
    let (same, rest) =
      cut_unique 93 (format_uint i) (format_uint j) (written p) (written q)
        (format_uint-Lacks 93 i (omega arith)) (format_uint-Lacks 93 j (omega arith)) joined in
    ap₂ (λ x xs. index x ∷ xs) (format_uint-injective i j same) (written-injective p q h k rest)

-- Under one prefix, two different paths are written differently, if their keys hold no dot and no
-- opening bracket: no leaf of such a value overwrites another.
pub render-injective :
    (key : Text) (p q : List Step) → IsPlain p → IsPlain q → render key p ≡ render key q → p ≡ q
render-injective key p q h k e = written-injective p q h k (
    same_suffix key (written p) (written q)
      (sym (render-written key p) ∙ (e ∙ render-written key q)))
