-- ===== src/Strcase.antt =====
-- strcase/strcase.go. The tables of Go's package `unicode` are a parameter: any classification of the runes
-- and any mapping of them.
use icinga_go_library.Prelude.{
  ℕ, Bool, true, false, ◌&&◌, ◌||◌, ◌≡◌, refl, sym, ap, subst, ◌∙◌, List, [], ◌∷◌, map, Text, join,
  concat, All, if◌then◌else◌, Bool-cases, inl, inr,
}

pub record Unicode : Type 0 where
  pub is_upper : ℕ → Bool
  pub is_lower : ℕ → Bool
  pub is_number : ℕ → Bool
  pub to_upper : ℕ → ℕ
  pub to_lower : ℕ → ℕ

-- `unicode.LowerCase` and `unicode.UpperCase`
pub data Case : Type 0 where
  lower_case upper_case : Case

join-cons :
    (r : ℕ) (p : Text) (ps : List Text) (sep : Text)
    → join ((r ∷ p) ∷ ps) sep ≡ r ∷ join (p ∷ ps) sep
unfolding join
join-cons r p [] sep = refl
join-cons r p (q ∷ ps) sep = refl

module _ (u : Unicode) where
  unfoldable pub to : Case → ℕ → ℕ
  to lower_case r = u.to_lower r
  to upper_case r = u.to_upper r

  unfoldable pub is_transition : ℕ → ℕ → Bool
  is_transition prev r = u.is_upper r && (u.is_number prev || u.is_lower prev)

  -- the loop behind the first rune, with the rune before
  unfoldable pub convert_from : Case → ℕ → ℕ → Text → Text
  unfolding to is_transition
  convert_from c d prev [] = []
  convert_from c d prev (r ∷ s) =
      let rest = convert_from c d r s in
      if is_transition prev r then d ∷ to c r ∷ rest else to c r ∷ rest

  unfoldable pub convert : Text → Case → ℕ → Text
  unfolding convert_from
  convert [] c d = []
  convert (r ∷ s) c d = to c r ∷ convert_from c d r s

  unfoldable pub delimited : Text → ℕ → Text
  unfolding convert
  delimited s d = convert s lower_case d

  unfoldable pub screaming_delimited : Text → ℕ → Text
  unfolding convert
  screaming_delimited s d = convert s upper_case d

  unfoldable pub snake : Text → Text
  unfolding delimited
  snake s = delimited s 95

  unfoldable pub screaming_snake : Text → Text
  unfolding screaming_delimited
  screaming_snake s = screaming_delimited s 95

  -- A word and the words behind it, cut at the transitions.
  pub extend : ℕ → List Text → List Text
  extend r [] = (r ∷ []) ∷ []
  extend r (w ∷ ws) = (r ∷ w) ∷ ws

  -- the words of a text whose first rune is given
  unfoldable pub words_from : ℕ → Text → List Text
  words_from r [] = (r ∷ []) ∷ []
  words_from r (q ∷ s) =
      let rest = words_from q s in if is_transition r q then (r ∷ []) ∷ rest else extend r rest

  unfoldable pub words : Text → List Text
  unfolding words_from
  words [] = []
  words (r ∷ s) = words_from r s

  words_from-some :
      (r : ℕ) (s : Text) → (w : Text) × (ws : List Text) × (words_from r s ≡ (r ∷ w) ∷ ws)
  unfolding words_from extend
  words_from-some r [] = ([], [], refl)
  words_from-some r (q ∷ s) =
      let (w, ws, e) = words_from-some q s in
      elim (Bool-cases (is_transition r q)) [
        | inl t ↦ rw t ([], words_from q s, refl)
        | inr t ↦ rw (t, e) (q ∷ w, ws, refl)
      ]

  concat-words_from : (r : ℕ) (s : Text) → concat (words_from r s) ≡ r ∷ s
  unfolding words_from extend
  concat-words_from r [] = refl
  concat-words_from r (q ∷ s) =
      let (w, ws, e) = words_from-some q s in
      let rest : concat ((q ∷ w) ∷ ws) ≡ q ∷ s = ap concat (sym e) ∙ concat-words_from q s in
      elim (Bool-cases (is_transition r q)) [
        | inl t ↦ rw t (ap (λ l. r ∷ l) (concat-words_from q s))
        | inr t ↦ rw (t, e) (ap (λ l. r ∷ l) rest)
      ]

  convert_from-words :
      (c : Case) (d r : ℕ) (s : Text)
      → to c r ∷ convert_from c d r s ≡ join (map (map (to c)) (words_from r s)) (d ∷ [])
  unfolding words_from extend convert_from join
  convert_from-words c d r [] = refl
  convert_from-words c d r (q ∷ s) =
      let (w, ws, e) = words_from-some q s in
      let rest = convert_from-words c d q s ∙ ap (λ l. join (map (map (to c)) l) (d ∷ [])) e in
      elim (Bool-cases (is_transition r q)) [
        | inl t ↦ rw (t, e) (ap (λ l. to c r ∷ d ∷ l) rest)
        | inr t ↦
            rw (t, e)
              (ap (λ l. to c r ∷ l) rest
                ∙ sym (join-cons (to c r) (map (to c) (q ∷ w)) (map (map (to c)) ws) (d ∷ [])))
      ]

  -- whether a word has a transition inside
  abbrev pub IsWord : Text → Type 0
  IsWord [] = Unit
  IsWord (r ∷ []) = Unit
  IsWord (r ∷ q ∷ s) = (is_transition r q ≡ false) × IsWord (q ∷ s)

  -- the last rune before a word and the first of it are a transition
  abbrev last_rune : ℕ → Text → ℕ
  last_rune r [] = r
  last_rune r (q ∷ s) = last_rune q s

  abbrev pub AreCut : List Text → Type 0
  AreCut [] = Unit
  AreCut (w ∷ []) = Unit
  AreCut ([] ∷ (v ∷ ws)) = ⊥
  AreCut ((r ∷ w) ∷ ([] ∷ ws)) = ⊥
  AreCut ((r ∷ w) ∷ ((q ∷ v) ∷ ws)) =
      (is_transition (last_rune r w) q ≡ true) × AreCut ((q ∷ v) ∷ ws)

  opened-AreWords :
      (r q : ℕ) (w : Text) (ws : List Text)
      → is_transition r q ≡ false
      → All IsWord ((q ∷ w) ∷ ws) × AreCut ((q ∷ w) ∷ ws)
      → All IsWord ((r ∷ q ∷ w) ∷ ws) × AreCut ((r ∷ q ∷ w) ∷ ws)
  opened-AreWords r q w [] t ((first, rest), cut) = (((t, first), rest), tt)
  opened-AreWords r q w ([] ∷ ws) t ((first, rest), cut) = absurd cut
  opened-AreWords r q w ((p ∷ v) ∷ ws) t ((first, rest), cut) = (((t, first), rest), cut)

  words_from-AreWords : (r : ℕ) (s : Text) → All IsWord (words_from r s) × AreCut (words_from r s)
  unfolding words_from extend
  words_from-AreWords r [] = ((tt, tt), tt)
  words_from-AreWords r (q ∷ s) =
      let (w, ws, e) = words_from-some q s in
      let rest = subst (λ l. All IsWord l × AreCut l) e (words_from-AreWords q s) in
      elim (Bool-cases (is_transition r q)) [
        | inl t ↦ rw (t, e) ((tt, rest.0), (t, rest.1))
        | inr t ↦ rw (t, e) (opened-AreWords r q w ws t rest)
      ]

  -- For every classification of runes: the conversion cuts the text into words, maps the runes of each
  -- word, and joins the words by the delimiter. The words are, put together again, the text, no word has a
  -- transition inside, and between two words there is one.
  pub convert-words :
      (c : Case) (d : ℕ) (s : Text)
      → (convert s c d ≡ join (map (map (to c)) (words s)) (d ∷ []))
        × (concat (words s) ≡ s)
        × All IsWord (words s)
        × AreCut (words s)
  unfolding convert words
  convert-words c d [] = (unfold join in refl, refl, tt, tt)
  convert-words c d (r ∷ s) = (
    convert_from-words c d r s,
    concat-words_from r s,
    (words_from-AreWords r s).0,
    (words_from-AreWords r s).1,
  )
