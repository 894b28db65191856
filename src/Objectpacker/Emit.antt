-- ===== src/Objectpacker/Emit.antt =====
-- Writers on which no write fails, and the actions of objectpacker/objectpacker.go on them, each as one
-- write of all its bytes.
use mathlib.Core.Path.{fun_ext}
use icinga_go_library.Prelude.{
  ℕ, zero, suc, Bool, true, ◌≡◌, refl, sym, ap, ◌∙◌, Option, none, some, [], ◌∷◌, ◌++◌, append-nil,
  append_assoc, length, Bool-cases, inl, inr,
}
use icinga_go_library.Objectpacker.Value.{Bytes, GoType, zero_packs}
use icinga_go_library.Objectpacker.Writer.{
  Writer, wrote, Action, ◌>>◌, done, panic, put, big_endian, discard, buffer,
}
use icinga_go_library.Objectpacker.Pack.{pack_string, pack_zero, pack_zero_if}
use icinga_go_library.Objectpacker.Tree.{option_map, require, zero_packs_if}

-- a writer on which no write fails
pub record IsTotal (w : Writer) : Type 0 where
  pub append : w.State → Bytes → w.State
  pub write_lem : (s : w.State) (p : Bytes) → w.write s p ≡ (append s p, true)
  pub append-append : (s : w.State) (p q : Bytes) → append (append s p) q ≡ append s (p ++ q)
  pub append-nil : (s : w.State) → append s [] ≡ s

pub discard-IsTotal : IsTotal discard
discard-IsTotal = record {
  append = λ s p. tt;
  write_lem = λ s p. refl;
  append-append = λ s p q. refl;
  append-nil = λ s. refl;
}

pub buffer-IsTotal : IsTotal buffer
buffer-IsTotal = record {
  append = λ s p. s ++ p;
  write_lem = λ s p. refl;
  append-append = λ s p q. append_assoc s p q;
  append-nil = λ s. append-nil s;
}

-- the bytes of two actions in turn
abbrev pub then_bytes : Option Bytes → Option Bytes → Option Bytes
then_bytes none q = none
then_bytes (some p) none = none
then_bytes (some p) (some q) = some (p ++ q)

-- an action that writes these bytes in one piece, or panics
unfoldable pub emit : (w : Writer) → Option Bytes → Action w
unfolding panic put
emit w none = panic w
emit w (some p) = put w p

module _ (w : Writer) (t : IsTotal w) where
  pub emit-some : (s : w.State) (p : Bytes) → emit w (some p) s ≡ wrote (t.append s p)
  unfolding emit
  emit-some s p =
      rw (t.write_lem s p, put) (ap (λ (r : w.State × Bool). wrote r.0) (t.write_lem s p))

  after-emit :
      (s : w.State) (p : Bytes) (b : Action w) → (emit w (some p) >> b) s ≡ b (t.append s p)
  after-emit s p b = rw (emit-some s p, ◌>>◌)

  pub emit-emit : (o q : Option Bytes) → (emit w o >> emit w q) ≡ emit w (then_bytes o q)
  emit-emit none q = unfold emit panic in refl
  emit-emit (some p) none = fun_ext λ s. after-emit s p (emit w none) ∙ (unfold emit panic in refl)
  emit-emit (some p) (some q) = fun_ext λ s.
      after-emit s p (emit w (some q))
      ∙ (emit-some (t.append s p) q
          ∙ (ap wrote (t.append-append s p q) ∙ sym (emit-some s (p ++ q))))

  pub done-emit : done w ≡ emit w (some [])
  unfolding done
  done-emit = fun_ext λ s. sym (emit-some s [] ∙ ap wrote (t.append-nil s))

  pub put-emit : (p : Bytes) → put w p ≡ emit w (some p)
  unfolding emit
  put-emit p = refl

  pub panic-emit : panic w ≡ emit w none
  unfolding emit
  panic-emit = refl

  pub pack_string-emit :
      (s : Bytes) → pack_string w s ≡ emit w (some (4 ∷ (big_endian (length s) ++ s)))
  unfolding pack_string emit
  pack_string-emit s =
      ap (λ (b : Action w). emit w (some (4 ∷ [])) >> b)
        (emit-emit (some (big_endian (length s))) (some s))
      ∙ emit-emit (some (4 ∷ [])) (some (big_endian (length s) ++ s))

  pub pack_zero-emit : (t : GoType) → pack_zero w t ≡ emit w (require (zero_packs t) (some []))
  unfolding pack_zero
  pack_zero-emit t = elim (Bool-cases (zero_packs t)) [
    | inl e ↦ rw e done-emit
    | inr e ↦ rw e panic-emit
  ]

  pub pack_zero_if-emit :
      (n : ℕ) (t : GoType) → pack_zero_if w n t ≡ emit w (require (zero_packs_if n t) (some []))
  unfolding pack_zero_if
  pack_zero_if-emit zero t = pack_zero-emit t
  pack_zero_if-emit (suc n) t = done-emit

  pub two-emit :
      (a b : Bytes) (o : Option Bytes)
      → (put w a >> (put w b >> emit w o)) ≡ emit w (option_map (λ p. a ++ (b ++ p)) o)
  unfolding put emit
  two-emit a b none =
      ap (λ (k : Action w). emit w (some a) >> k) (emit-emit (some b) none)
      ∙ emit-emit (some a) none
  two-emit a b (some p) =
      ap (λ (k : Action w). emit w (some a) >> k) (emit-emit (some b) (some p))
      ∙ emit-emit (some a) (some (b ++ p))
