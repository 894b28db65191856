-- ===== src/Version/OsRelease/Assignments.antt =====
-- version/version.go: what the os-release parser makes of the lines of a file.
use icinga_go_library.Prelude.{
  ℕ, ◌≡◌, refl, true, false, ◌⊎◌, inl, inr, some, List, [], ◌∷◌, ◌++◌, Text, codes, text_eq,
  has_prefix, ap, All, arith, Lacks, cut, cut-found, cut-none,
}
use icinga_go_library.Version.OsRelease.{
  OsRelease, assign, assign_parts, unquote, last_byte, without_last, read_line, read_lines,
}

-- a value between quotes, as distributions write it
abbrev pub quoted : ℕ → Text → Text
quoted q val = q ∷ (val ++ (q ∷ []))

last_byte-snoc : (c q : ℕ) (s : Text) → last_byte c (s ++ (q ∷ [])) ≡ q
unfolding last_byte
last_byte-snoc c q [] = refl
last_byte-snoc c q (d ∷ s) = last_byte-snoc d q s

without_last-snoc : (c q : ℕ) (s : Text) → without_last c (s ++ (q ∷ [])) ≡ c ∷ s
unfolding without_last
without_last-snoc c q [] = refl
without_last-snoc c q (d ∷ s) = ap (λ l. c ∷ l) (without_last-snoc d q s)

-- Whatever the value holds, quotes of either kind included, the outer pair alone is taken away.
pub unquote-quoted : (q : ℕ) (val : Text) → (q ≡ 34) ⊎ (q ≡ 39) → unquote (quoted q val) ≡ val
unfolding unquote last_byte without_last
unquote-quoted q [] h = ground arith
unquote-quoted q (c ∷ s) h = rw (last_byte-snoc c q s, without_last-snoc c q s) (ground arith)

-- the lines of a file that set all fields, in the order of the manual, with quotes `q`
abbrev pub print_release : ℕ → OsRelease → List Text
print_release q o =
    (codes "NAME=" ++ quoted q o.name)
    ∷ (codes "VERSION=" ++ quoted q o.version)
    ∷ (codes "VERSION_ID=" ++ quoted q o.version_id)
    ∷ (codes "BUILD_ID=" ++ quoted q o.build_id)
    ∷ []

-- a line with the key of another field
pub record HasOtherKey (line : Text) : Type 0 where
  pub key : Text
  pub value : Text
  pub plain : Lacks 61 key
  pub is_line : line ≡ key ++ (61 ∷ value)
  pub not_name : text_eq key (codes "NAME") ≡ false
  pub not_version : text_eq key (codes "VERSION") ≡ false
  pub not_version_id : text_eq key (codes "VERSION_ID") ≡ false
  pub not_build_id : text_eq key (codes "BUILD_ID") ≡ false

-- a comment, a line with no `=`, or the key of another field
abbrev pub IsForeign : Text → Type 0
IsForeign line = (has_prefix line (codes "#") ≡ true) ⊎ (Lacks 61 line) ⊎ HasOtherKey line

assign_other :
    (o : OsRelease) (line : Text) (h : HasOtherKey line) → assign o h.key (unquote h.value) ≡ o
unfolding assign
assign_other o line h = rw (h.not_name, h.not_version, h.not_version_id, h.not_build_id) refl

read_line-IsForeign : (o : OsRelease) (line : Text) → IsForeign line → read_line o line ≡ o
unfolding read_line assign_parts
read_line-IsForeign o line (inl comment) = rw comment refl
read_line-IsForeign o line (inr (inl no_assign)) = rw (cut-none 61 line no_assign) (ground arith)
read_line-IsForeign o line (inr (inr other)) =
    let e : cut 61 line ≡ some (other.key, other.value) =
      rw other.is_line (cut-found 61 other.key other.value other.plain) in
    rw e (ground (arith, assign_other o line other))

read_lines-append :
    (o : OsRelease) (xs ys : List Text) → read_lines o (xs ++ ys) ≡ read_lines (read_lines o xs) ys
unfolding read_lines
read_lines-append o [] ys = refl
read_lines-append o (x ∷ xs) ys = read_lines-append (read_line o x) xs ys

read_lines-IsForeign : (o : OsRelease) (xs : List Text) → All IsForeign xs → read_lines o xs ≡ o
unfolding read_lines
read_lines-IsForeign o [] h = refl
read_lines-IsForeign o (x ∷ xs) (h, hs) =
    rw (read_line-IsForeign o x h) (read_lines-IsForeign o xs hs)

read_lines-print :
    (q : ℕ) (o r : OsRelease) → (q ≡ 34) ⊎ (q ≡ 39) → read_lines o (print_release q r) ≡ r
unfolding read_lines read_line cut assign_parts assign text_eq has_prefix
read_lines-print q o r h =
    rw
      (
        unquote-quoted q r.name h,
        unquote-quoted q r.version h,
        unquote-quoted q r.version_id h,
        unquote-quoted q r.build_id h,
      )
      refl

-- From whatever record the parser starts: it reads back each field of a printed release, in quotes of
-- either kind, whatever the values hold and whatever lines stand before, if every line behind is a
-- comment, has no `=`, or has the key of another field.
pub read_lines-print_release :
    (q : ℕ) (o r : OsRelease) (before after : List Text)
    → (q ≡ 34) ⊎ (q ≡ 39)
    → All IsForeign after
    → read_lines o (before ++ (print_release q r ++ after)) ≡ r
read_lines-print_release q o r before after h foreign =
    rw
      (
        read_lines-append o before (print_release q r ++ after),
        read_lines-append (read_lines o before) (print_release q r) after,
        read_lines-print q (read_lines o before) r h,
      )
      (read_lines-IsForeign r after foreign)
