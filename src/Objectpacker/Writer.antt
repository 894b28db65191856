-- ===== src/Objectpacker/Writer.antt =====
-- `io.Writer` as the packer uses it, and the sequence of writes with their early return on an error.
use icinga_go_library.Prelude.{ℕ, ◌/◌, ◌%◌, ◌^◌, Bool, true, false, [], ◌∷◌, ◌++◌}
use icinga_go_library.Objectpacker.Value.{Bytes}

-- A writer of the caller: `write` returns the new state and whether it succeeded.
pub record Writer : Type 1 where
  pub State : Type 0
  pub write : State → Bytes → State × Bool

-- The writer's error is handed on as it is, and not looked at.
pub data Outcome (S : Type 0) : Type 0 where
  wrote : S → Outcome S
  failed : S → Outcome S
  panicked : Outcome S

abbrev pub Action : Writer → Type 0
Action w = w.State → Outcome w.State

infixl 5 ◌>>◌
abbrev pub ◌>>◌ : {S : Type 0} → (S → Outcome S) → (S → Outcome S) → S → Outcome S
◌>>◌ a b s = elim (a s) [ wrote s' ↦ b s' | failed s' ↦ failed s' | panicked ↦ panicked ]

unfoldable pub done : (w : Writer) → Action w
done w s = wrote s

unfoldable pub panic : (w : Writer) → Action w
panic w s = panicked

-- `if _, err := out.Write(p); err != nil { return err }`
unfoldable pub put : (w : Writer) → Bytes → Action w
put w p s =
    let (s', succeeded) = w.write s p in elim succeeded [ true ↦ wrote s' | false ↦ failed s' ]

-- `binary.BigEndian.PutUint64`
unfoldable pub big_endian : ℕ → Bytes
big_endian n =
    n / 2 ^ 56 % 256
    ∷ n / 2 ^ 48 % 256
    ∷ n / 2 ^ 40 % 256
    ∷ n / 2 ^ 32 % 256
    ∷ n / 2 ^ 24 % 256
    ∷ n / 2 ^ 16 % 256
    ∷ n / 2 ^ 8 % 256
    ∷ n % 256
    ∷ []

-- io.Discard
abbrev pub discard : Writer
discard = record { State = Unit {0}; write = λ s p. (tt, true) }

-- bytes.Buffer
abbrev pub buffer : Writer
buffer = record { State = Bytes; write = λ s p. (s ++ p, true) }
