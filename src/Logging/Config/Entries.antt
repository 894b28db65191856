-- ===== src/Logging/Config/Entries.antt =====
-- logging/config.go: the options that a text of entries stands for.
use icinga_go_library.Prelude.{
  ℕ, Option, none, some, List, [], ◌∷◌, ◌++◌, map, Text, Result, ok, join, if◌then◌else◌, ◌≡◌, refl,
  arith, ◌∙◌, Lacks, Lacks-append, cut-found, inl, inr, Option-cases, ap, All, text_eq,
}
use icinga_go_library.Logging.{find}
use icinga_go_library.Logging.Config.{
  add_first, split, level_entry, read_cut, read_entry, with_entry, read_entries, stored,
  unmarshal_text,
}

-- an entry as it is written, with the level that its text stands for
pub record Entry (L : Type 0) : Type 0 where
  pub key : Text
  pub text : Text
  pub level : L

abbrev pub print_entry : {L : Type 0} → Entry L → Text
print_entry e = e.key ++ (58 ∷ e.text)

abbrev pub print_entries : {L : Type 0} → List (Entry L) → Text
print_entries es = join (map print_entry es) (44 ∷ [])

-- keys without the separators, levels without a comma that are parsed
pub record IsWritten {L E : Type 0} (parse_level : Text → Result E L) (e : Entry L) : Type 0 where
  pub key_lacks_colon : Lacks 58 e.key
  pub key_lacks_comma : Lacks 44 e.key
  pub text_lacks_comma : Lacks 44 e.text
  pub parses : parse_level e.text ≡ ok e.level

abbrev entry_pair : {L : Type 0} → Entry L → Text × L
entry_pair e = (e.key, e.level)

-- the map behind the entries
abbrev add_all : {L : Type 0} → List (Text × L) → List (Entry L) → List (Text × L)
add_all m [] = m
add_all m (e ∷ es) = add_all (entry_pair e ∷ m) es

-- the level of the last entry of a key
abbrev pub last_level : {L : Type 0} → Text → List (Entry L) → Option L
last_level key [] = none
last_level key (e ∷ es) = elim (last_level key es) [
  | some level ↦ some level
  | none ↦ if text_eq e.key key then some e.level else none
]

find-add_all :
    {L : Type 0} (key : Text) (m : List (Text × L)) (es : List (Entry L))
    → find key (add_all m es)
      ≡ elim (last_level key es) [ some level ↦ some level | none ↦ find key m ]
unfolding find
find-add_all key m [] = refl
find-add_all key m (e ∷ es) =
    find-add_all key (entry_pair e ∷ m) es ∙ elim (Option-cases (last_level key es)) [
      | inr (l, q) ↦ rw q refl
      | inl q ↦ rw q (ground arith)
    ]

or_none : {L : Type 0} (o : Option L) → elim o [ some level ↦ some level | none ↦ none ] ≡ o
or_none none = refl
or_none (some level) = refl

split-last : (sep : ℕ) (s : Text) → Lacks sep s → split sep s ≡ s ∷ []
unfolding split add_first
split-last sep [] h = refl
split-last sep (c ∷ s) (h, hs) = rw (split-last sep s hs) (ground arith)

split-next :
    (sep : ℕ) (s rest : Text) → Lacks sep s → split sep (s ++ (sep ∷ rest)) ≡ s ∷ split sep rest
unfolding split add_first
split-next sep [] rest h = ground arith
split-next sep (c ∷ s) rest (h, hs) = rw (split-next sep s rest hs) (ground arith)

module _ {L E : Type 0} (parse_level : Text → Result E L) where
  print_entry-Lacks : (e : Entry L) → IsWritten parse_level e → Lacks 44 (print_entry e)
  print_entry-Lacks e w =
      Lacks-append 44 e.key (58 ∷ e.text) w.key_lacks_comma (ground arith, w.text_lacks_comma)

  split-print :
      (e : Entry L) (es : List (Entry L))
      → All (IsWritten parse_level) (e ∷ es)
      → split 44 (print_entries (e ∷ es)) ≡ map print_entry (e ∷ es)
  unfolding join
  split-print e [] (w, ws) = split-last 44 (print_entry e) (print_entry-Lacks e w)
  split-print e (f ∷ es) (w, ws) =
      split-next 44 (print_entry e) (print_entries (f ∷ es)) (print_entry-Lacks e w)
      ∙ ap (λ l. print_entry e ∷ l) (split-print f es ws)

  read_entry-print :
      (e : Entry L)
      → IsWritten parse_level e
      → read_entry parse_level (print_entry e) ≡ ok (entry_pair e)
  unfolding read_entry read_cut level_entry
  read_entry-print e w = rw (cut-found 58 e.key e.text w.key_lacks_colon, w.parses) refl

  read_entries-print :
      (m : List (Text × L)) (es : List (Entry L))
      → All (IsWritten parse_level) es
      → read_entries parse_level m (map print_entry es) ≡ ok (add_all m es)
  unfolding with_entry read_entries
  read_entries-print m [] h = refl
  read_entries-print m (e ∷ es) (w, ws) =
      rw (read_entries, read_entry-print e w) (read_entries-print (entry_pair e ∷ m) es ws)

  -- Options that are written as entries, the first of any number, with keys that hold no colon and no
  -- comma and levels that are parsed, are read without an error, whatever they were before; and each
  -- key has then the level of its last entry, and no other key has one.
  pub unmarshal_text-print :
      (old : List (Text × L)) (e : Entry L) (es : List (Entry L))
      → All (IsWritten parse_level) (e ∷ es)
      → ((unmarshal_text parse_level old (print_entries (e ∷ es))).1 ≡ none)
        × ((key : Text)
            → find key (unmarshal_text parse_level old (print_entries (e ∷ es))).0
              ≡ last_level key (e ∷ es))
  unfolding unmarshal_text stored find
  unmarshal_text-print old e es h =
      rw (split-print e es h, read_entries-print [] (e ∷ es) h)
        (refl, λ key. find-add_all key [] (e ∷ es) ∙ or_none (last_level key (e ∷ es)))
