-- ===== src/Version.antt =====
-- version/version.go: the version of a binary, and what it prints of itself and of the system. The
-- settings that `go build` left are an argument, `none` where there are none.
pub mod OsRelease
pub mod Settings
pub mod Print
use icinga_go_library.Prelude.{
  ℕ, ◌≡◌, refl, Bool, true, false, ◌||◌, not, ◌&&◌, Option, none, some, List, [], ◌∷◌, ◌++◌, Text,
  codes, text_eq, has_prefix, length, take, leb, if◌then◌else◌,
}

pub record VersionInfo : Type 0 where
  pub version : Text
  pub commit : Text

pub record Setting : Type 0 where
  pub key : Text
  pub value : Text

-- `const hashLen = 7`
abbrev pub hash_len : ℕ
hash_len = 7

-- strconv.ParseBool, whose error the code drops: false comes with it.
unfoldable pub parse_bool : Text → Bool
parse_bool s =
    text_eq s (codes "1")
    || text_eq s (codes "t")
    || text_eq s (codes "T")
    || text_eq s (codes "true")
    || text_eq s (codes "TRUE")
    || text_eq s (codes "True")

-- the variables of the loop over the settings
pub record Vcs : Type 0 where
  pub commit : Text
  pub modified : Bool

unfoldable pub read_setting : Vcs → Setting → Vcs
unfolding parse_bool
read_setting c s =
    if text_eq s.key (codes "vcs.revision")
    then record c { commit = s.value }
    else if text_eq s.key (codes "vcs.modified")
    then record c { modified = parse_bool s.value }
    else c

unfoldable pub read_settings : Vcs → List Setting → Vcs
unfolding read_setting
read_settings c [] = c
read_settings c (s ∷ rest) = read_settings (read_setting c s) rest

-- `version += "-g" + commit[:hashLen]`
unfoldable pub with_hash : Text → Text → Text
with_hash version hash = version ++ (codes "-g" ++ take hash_len hash)

unfoldable pub augmented : Text → Vcs → VersionInfo
unfolding with_hash
augmented version c =
    if leb hash_len (length c.commit)
    then (if c.modified
        then record {
          version = with_hash version c.commit ++ codes "-dirty";
          commit = c.commit ++ codes " (modified)";
        }
        else record { version = with_hash version c.commit; commit = c.commit })
    else record { version = version; commit = c.commit }

unfoldable pub from_build : Text → Option (List Setting) → VersionInfo
unfolding augmented read_settings
from_build version none = record { version = version; commit = [] }
from_build version (some settings) =
    augmented version (read_settings (record { commit = []; modified = false }) settings)

unfoldable pub from_archive : Text → Text → Text → Text
unfolding with_hash
from_archive version describe hash =
    if has_prefix describe (codes "%")
    then (if leb hash_len (length hash) then with_hash version hash else version)
    else describe

unfoldable pub version_info : Text → Text → Text → Option (List Setting) → VersionInfo
unfolding from_archive from_build
version_info version describe hash build =
    if not (has_prefix describe (codes "$")) && not (has_prefix hash (codes "$"))
    then record { version = from_archive version describe hash; commit = hash }
    else from_build version build
