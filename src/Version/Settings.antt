-- ===== src/Version/Settings.antt =====
-- version/version.go: which settings of the build decide.
use icinga_go_library.Prelude.{
  ◌≡◌, refl, Bool, true, false, ◌⊎◌, inl, inr, Option, none, some, List, [], ◌∷◌, ◌++◌, Text, codes,
  text_eq, has_prefix, arith, if◌then◌else◌, Bool-cases, length, take, leb, text_eq_iff,
  append_assoc, append-nil,
}
use icinga_go_library.Version.{
  VersionInfo, Setting, Vcs, parse_bool, read_setting, read_settings, augmented, with_hash,
  version_info, from_build, hash_len,
}

-- the value of the last setting of a key
unfoldable pub last_value : Text → List Setting → Option Text
last_value key [] = none
last_value key (s ∷ rest) = elim (last_value key rest) [
  | some v ↦ some v
  | none ↦ if text_eq s.key key then some s.value else none
]

unfoldable pub or_else : {A : Type 0} → A → Option A → A
or_else a none = a
or_else a (some b) = b

unfoldable pub is_true : Bool → Option Text → Bool
is_true b none = b
is_true b (some v) = parse_bool v

keys_differ :
    (key : Text)
    → text_eq key (codes "vcs.revision") ≡ true
    → text_eq key (codes "vcs.modified") ≡ false
unfolding text_eq
keys_differ key h = rw ((text_eq_iff key (codes "vcs.revision")).0 h) refl

read_settings_lem :
    (c : Vcs) (settings : List Setting)
    → read_settings c settings ≡ record {
      commit = or_else c.commit (last_value (codes "vcs.revision") settings);
      modified = is_true c.modified (last_value (codes "vcs.modified") settings);
    }
unfolding read_settings read_setting last_value or_else is_true
read_settings_lem c [] = refl
read_settings_lem c (s ∷ rest) =
    rw (read_settings_lem (read_setting c s) rest) (ground (arith, keys_differ s.key))

-- the description of a build that was not made of an archive
abbrev pub build_version : Text → Text → Bool → Text
build_version version revision modified =
    version ++ (codes "-g" ++ (take hash_len revision ++ (if modified then codes "-dirty" else [])))

abbrev pub build_commit : Text → Bool → Text
build_commit revision modified = revision ++ (if modified then codes " (modified)" else [])

abbrev pub built : Text → Text → Bool → VersionInfo
built version revision modified =
    if leb hash_len (length revision)
    then record {
      version = build_version version revision modified;
      commit = build_commit revision modified;
    }
    else record { version = version; commit = revision }

augmented-eq-built :
    (version : Text) (c : Vcs) → augmented version c ≡ built version c.commit c.modified
unfolding augmented with_hash
augmented-eq-built version c = elim (Bool-cases c.modified) [
  | inl e ↦ rw e (simp (append_assoc))
  | inr e ↦ rw e (simp (append-nil))
]

-- Where git archive filled in neither or only one of the placeholders, the version is the hardcoded one
-- and the commit is the last vcs.revision setting of the build, or empty; if that has at least 7 bytes,
-- the version is marked with the first 7, and both are marked as modified exactly if the last
-- vcs.modified setting says so.
pub version_info-eq-built :
    (version describe hash : Text) (settings : List Setting)
    → (has_prefix describe (codes "$") ≡ true) ⊎ (has_prefix hash (codes "$") ≡ true)
    → version_info version describe hash (some settings)
      ≡ built version
          (or_else [] (last_value (codes "vcs.revision") settings))
          (is_true false (last_value (codes "vcs.modified") settings))
unfolding version_info from_build
version_info-eq-built version describe hash settings h =
    let c = read_settings (record { commit = []; modified = false }) settings in
    let e : version_info version describe hash (some settings) ≡ augmented version c =
      ground arith in
    rw
      (
        e,
        augmented-eq-built version c,
        read_settings_lem (record { commit = []; modified = false }) settings,
      )
      refl
