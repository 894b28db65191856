-- ===== src/Prelude/Strings.antt =====
-- Texts as lists of code points. A Go string is read as its runes where the code ranges over runes,
-- and as its bytes elsewhere; the two agree on ASCII text.
use Prim.Native.Nat.{ℕ}
use Prim.Native.Char.{code}
use Prim.Native.String.{String}
use mathlib.Core.Path.{◌≡◌, refl, sym, ap, ◌∙◌}
use mathlib.Core.Logic.{◌↔◌, ◌≢◌}
use mathlib.Core.Option.{Option, none, some}
use mathlib.Core.Bool.{Bool, true, false, ◌&&◌}
use mathlib.Core.List.{List, [], ◌∷◌, ◌++◌}
use native.Mathlib.Omega.{arith}
use icinga_go_library.Prelude.Tests.{◌==◌, if◌then◌else◌}
use icinga_go_library.Prelude.Lists.{All, All-append}

abbrev pub Text : Type 0
Text = List ℕ

abbrev pub codes : String → Text
codes String.[] = []
codes (String.◌∷◌ c s) = code c ∷ codes s

unfoldable pub text_eq : Text → Text → Bool
text_eq [] [] = true
text_eq [] (y ∷ ys) = false
text_eq (x ∷ xs) [] = false
text_eq (x ∷ xs) (y ∷ ys) = x == y && text_eq xs ys

pub text_eq_iff : (s t : Text) → (text_eq s t ≡ true) ↔ (s ≡ t)
unfolding text_eq
text_eq_iff [] [] = (λ _. refl, λ _. refl)
text_eq_iff [] (y ∷ ys) = (λ h. cc, λ h. cc)
text_eq_iff (x ∷ xs) [] = (λ h. cc, λ h. cc)
text_eq_iff (x ∷ xs) (y ∷ ys) =
    (λ h. ground (arith, text_eq_iff xs ys), λ h. ground (arith, text_eq_iff xs ys))

pub text_eq_refl : (s : Text) → text_eq s s ≡ true
text_eq_refl s = (text_eq_iff s s).1 refl

-- strings.HasPrefix
unfoldable pub has_prefix : Text → Text → Bool
has_prefix s [] = true
has_prefix [] (p ∷ ps) = false
has_prefix (c ∷ s) (p ∷ ps) = c == p && has_prefix s ps

-- strings.Join
unfoldable pub join : List Text → Text → Text
join [] sep = []
join (p ∷ []) sep = p
join (p ∷ q ∷ ps) sep = p ++ (sep ++ join (q ∷ ps) sep)

-- a text without a byte
abbrev pub Lacks : ℕ → Text → Type 0
Lacks b s = All (λ c. c ≢ b) s

pub Lacks-append : (b : ℕ) (s t : Text) → Lacks b s → Lacks b t → Lacks b (s ++ t)
Lacks-append b s t h k = All-append (λ c. c ≢ b) s t h k

before_cut : ℕ → Option (Text × Text) → Option (Text × Text)
before_cut c none = none
before_cut c (some (k, v)) = some (c ∷ k, v)

-- strings.Cut with one byte, which is also strings.SplitN into two parts; `none` where it is not found
unfoldable pub cut : ℕ → Text → Option (Text × Text)
unfolding before_cut
cut sep [] = none
cut sep (c ∷ s) = let rest = before_cut c (cut sep s) in if c == sep then some ([], s) else rest

pub cut-found :
    (sep : ℕ) (s rest : Text) → Lacks sep s → cut sep (s ++ (sep ∷ rest)) ≡ some (s, rest)
unfolding cut
cut-found sep [] rest h = ground arith
cut-found sep (c ∷ s) rest (h, hs) = rw (cut-found sep s rest hs) (ground arith)

pub cut-none : (sep : ℕ) (s : Text) → Lacks sep s → cut sep s ≡ none
unfolding cut
cut-none sep [] h = refl
cut-none sep (c ∷ s) (h, hs) = ground (arith, cut-none sep s hs)

-- A text up to a separator is determined, as is what follows.
pub cut_unique :
    (sep : ℕ) (s t rest rest' : Text)
    → Lacks sep s
    → Lacks sep t
    → s ++ (sep ∷ rest) ≡ t ++ (sep ∷ rest')
    → (s ≡ t) × (rest ≡ rest')
cut_unique sep s t rest rest' h k e =
    let q : ◌≡◌ {A = Option (Text × Text)} (some (s, rest)) (some (t, rest')) =
      sym (cut-found sep s rest h) ∙ (ap (cut sep) e ∙ cut-found sep t rest' k) in
    (cc, cc)
