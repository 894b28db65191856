-- ===== src/Config/Loads.antt =====
-- config/config.go: when a configuration is accepted, and what becomes of the file.
use icinga_go_library.Prelude.{
  true, false, Option, none, some, List, [], ◌∷◌, ◌++◌, ◌≡◌, ◌↔◌, ◌⊎◌, inl, inr, refl, sym, ◌∙◌,
  Bool-cases, Option-cases,
}
use icinga_go_library.Config.{
  Target, no_pointer, nil_pointer, pointer_to_other, pointer_to_struct, is_struct_pointer, Step,
  opened, closed, defaults_set, parsed, validated, Steps, after_validate, after_parse,
  after_defaults, load, with_file, after_open, from_yaml_file,
}

-- a value that has its defaults, was read without an error and is valid
abbrev pub IsLoaded : {S E : Type 0} → Steps S E → S → S → Type 0
IsLoaded f v w =
    ((f.set_defaults v).1 ≡ none)
    × ((f.parse (f.set_defaults v).0).1 ≡ none)
    × (w ≡ (f.parse (f.set_defaults v).0).0)
    × (f.validate w ≡ none)

-- nothing was opened, or the file was opened first and closed last, with the steps in between
abbrev pub IsClosed : List Step → Type 0
IsClosed steps =
    (steps ≡ [])
    ⊎ (steps ≡ opened ∷ defaults_set ∷ closed ∷ [])
    ⊎ (steps ≡ opened ∷ defaults_set ∷ parsed ∷ closed ∷ [])
    ⊎ (steps ≡ opened ∷ defaults_set ∷ parsed ∷ validated ∷ closed ∷ [])

is_struct_pointer_iff : (t : Target) → (is_struct_pointer t ≡ true) ↔ (t ≡ pointer_to_struct)
unfolding is_struct_pointer
is_struct_pointer_iff no_pointer = (λ h. cc, λ h. cc)
is_struct_pointer_iff nil_pointer = (λ h. cc, λ h. cc)
is_struct_pointer_iff pointer_to_other = (λ h. cc, λ h. cc)
is_struct_pointer_iff pointer_to_struct = (λ h. refl, λ h. refl)

module _ {S E : Type 0} where
  after_parse_lem :
      (validate : S → Option E) (p : S × Option E)
      → ((after_parse validate p).error ≡ none) ↔ (
          (p.1 ≡ none)
          × ((after_parse validate p).value ≡ p.0)
          × (validate (after_parse validate p).value ≡ none))
  unfolding after_parse after_validate
  after_parse_lem validate (v, some e) = (λ h. cc, λ h. cc)
  after_parse_lem validate (v, none) = elim (Option-cases (validate v)) [
    | inl valid ↦ rw valid (λ h. (refl, refl, valid), λ h. refl)
    | inr (e, invalid) ↦ rw invalid (λ h. cc, λ h. cc)
  ]

  after_defaults_lem :
      (f : Steps S E) (p : S × Option E)
      → ((after_defaults f p).error ≡ none) ↔ (
          (p.1 ≡ none)
          × ((f.parse p.0).1 ≡ none)
          × ((after_defaults f p).value ≡ (f.parse p.0).0)
          × (f.validate (after_defaults f p).value ≡ none))
  unfolding after_defaults
  after_defaults_lem f (v, some e) = (λ h. cc, λ h. cc)
  after_defaults_lem f (v, none) =
      let (to, from) = after_parse_lem f.validate (f.parse v) in
      (λ h. (refl, (to h).0, (to h).1, (to h).2), λ h. from (h.1, h.2, h.3))

  after_open_lem :
      (f : Steps S E) (o : Option E) (v : S)
      → ((after_open f o v).error ≡ none) ↔ ((o ≡ none) × IsLoaded f v (after_open f o v).value)
  unfolding after_open with_file load
  after_open_lem f (some e) v = (λ h. cc, λ h. cc)
  after_open_lem f none v =
      let (to, from) = after_defaults_lem f (f.set_defaults v) in (λ h. (refl, to h), λ h. from h.1)

  -- FromYAMLFile returns nil exactly if it is given a non-nil pointer to a struct, the file can be opened,
  -- and the value that it leaves is the one with the defaults as it was read from the file, both without
  -- an error, and is valid.
  pub from_yaml_file_lem :
      (f : Steps S E) (o : Option E) (t : Target) (v : S)
      → ((from_yaml_file f o t v).error ≡ none)
        ↔ ((t ≡ pointer_to_struct) × (o ≡ none) × IsLoaded f v (from_yaml_file f o t v).value)
  unfolding from_yaml_file
  from_yaml_file_lem f o t v = elim (Bool-cases (is_struct_pointer t)) [
    | inl yes_ ↦
        let (to, from) = after_open_lem f o v in
        rw yes_ (λ h. ((is_struct_pointer_iff t).0 yes_, (to h).0, (to h).1), λ h. from (h.1, h.2))
    | inr no_ ↦ rw no_ (
      λ h. cc,
      λ h. absurd (let e : true ≡ false = sym ((is_struct_pointer_iff t).1 h.0) ∙ no_ in cc),
    )
  ]

  after_parse_steps :
      (validate : S → Option E) (p : S × Option E)
      → ((after_parse validate p).steps ≡ defaults_set ∷ parsed ∷ [])
        ⊎ ((after_parse validate p).steps ≡ defaults_set ∷ parsed ∷ validated ∷ [])
  unfolding after_parse after_validate
  after_parse_steps validate (v, some e) = inl refl
  after_parse_steps validate (v, none) = elim (Option-cases (validate v)) [
    | inl valid ↦ rw valid (inr refl)
    | inr (e, invalid) ↦ rw invalid (inr refl)
  ]

  after_defaults-IsClosed :
      (f : Steps S E) (p : S × Option E)
      → IsClosed (opened ∷ ((after_defaults f p).steps ++ (closed ∷ [])))
  unfolding after_defaults
  after_defaults-IsClosed f (v, some e) = inr (inl refl)
  after_defaults-IsClosed f (v, none) = elim (after_parse_steps f.validate (f.parse v)) [
    | inl e ↦ rw e (inr (inr (inl refl)))
    | inr e ↦ rw e (inr (inr (inr refl)))
  ]

  -- Whatever fails: FromYAMLFile does nothing, or it opens the file, takes its steps in the order
  -- defaults, parsing, validation, as far as none fails, and closes the file last.
  pub from_yaml_file-IsClosed :
      (f : Steps S E) (o : Option E) (t : Target) (v : S) → IsClosed (from_yaml_file f o t v).steps
  unfolding from_yaml_file after_open with_file load
  from_yaml_file-IsClosed f o t v = elim (Bool-cases (is_struct_pointer t)) [
    | inr no_ ↦ rw no_ (inl refl)
    | inl yes_ ↦ elim (Option-cases o) [
      | inl e ↦ rw (yes_, e) (after_defaults-IsClosed f (f.set_defaults v))
      | inr (x, e) ↦ rw (yes_, e) (inl refl)
    ]
  ]
