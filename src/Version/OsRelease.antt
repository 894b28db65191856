-- ===== src/Version/OsRelease.antt =====
-- version/version.go: the os-release file. A file is what `bufio.Scanner` makes of it: its lines, and
-- the error that ended the scan, if any.
pub mod Assignments
use icinga_go_library.Prelude.{
  ℕ, zero, suc, ◌-◌, ◌≡◌, refl, Bool, true, false, ◌||◌, ◌&&◌, Option, none, some, List, [], ◌∷◌,
  ◌++◌, Text, codes, text_eq, has_prefix, length, take, drop, leb, ◌==◌, if◌then◌else◌, Result, ok,
  err, cut,
}

pub record OsRelease : Type 0 where
  pub name : Text
  pub version : Text
  pub version_id : Text
  pub build_id : Text

-- `&osRelease{Name: "Linux"}`
abbrev pub default_release : OsRelease
default_release = record { name = codes "Linux"; version = []; version_id = []; build_id = [] }

unfoldable pub display_version : OsRelease → Text
display_version o =
    if leb 1 (length o.version)
    then o.version
    else if leb 1 (length o.version_id)
    then o.version_id
    else if leb 1 (length o.build_id)
    then o.build_id
    else codes "(unknown)"

-- the last byte, or `c` of an empty text
unfoldable pub last_byte : ℕ → Text → ℕ
last_byte c [] = c
last_byte c (d ∷ s) = last_byte d s

unfoldable pub without_last : ℕ → Text → Text
without_last c [] = []
without_last c (d ∷ s) = c ∷ without_last d s

-- The value has at least two bytes where something follows the first.
unfoldable pub unquote : Text → Text
unfolding last_byte without_last
unquote [] = []
unquote (q ∷ []) = q ∷ []
unquote (q ∷ d ∷ s) =
    if (q == 34 || q == 39) && q == last_byte d s then without_last d s else q ∷ d ∷ s

unfoldable pub assign : OsRelease → Text → Text → OsRelease
assign o key val =
    if text_eq key (codes "NAME")
    then record o { name = val }
    else if text_eq key (codes "VERSION")
    then record o { version = val }
    else if text_eq key (codes "VERSION_ID")
    then record o { version_id = val }
    else if text_eq key (codes "BUILD_ID")
    then record o { build_id = val }
    else o

unfoldable pub assign_parts : OsRelease → Option (Text × Text) → OsRelease
unfolding assign unquote
assign_parts o none = o
assign_parts o (some (key, val)) = assign o key (unquote val)

unfoldable pub read_line : OsRelease → Text → OsRelease
unfolding assign_parts cut
read_line o line = if has_prefix line (codes "#") then o else assign_parts o (cut b'=' line)

unfoldable pub read_lines : OsRelease → List Text → OsRelease
unfolding read_line
read_lines o [] = o
read_lines o (line ∷ rest) = read_lines (read_line o line) rest

-- what `os.Open` and the scanner do with a path; `E` stands for their errors
pub data Opened (E : Type 0) : Type 0 where
  not_exist : Opened E
  refused : E → Opened E
  scanned : List Text → Option E → Opened E

pub data ReadError (E : Type 0) : Type 0 where
  failed : E → ReadError E
  not_found : ReadError E

abbrev pub paths : List Text
paths = codes "/etc/os-release" ∷ codes "/usr/lib/os-release" ∷ []

unfoldable pub scan_result : {E : Type 0} → List Text → Option E → Result (ReadError E) OsRelease
unfolding read_lines
scan_result lines (some e) = err (failed e)
scan_result lines none = ok (read_lines default_release lines)

-- one round of the loop over the paths; `next` is what the rest of the loop returns
unfoldable pub read_path :
    {E : Type 0} → Opened E → Result (ReadError E) OsRelease → Result (ReadError E) OsRelease
unfolding scan_result
read_path not_exist next = next
read_path (refused e) next = err (failed e)
read_path (scanned lines e) next = scan_result lines e

unfoldable pub read_os_release_from :
    {E : Type 0} → (Text → Opened E) → List Text → Result (ReadError E) OsRelease
unfolding read_path
read_os_release_from open_file [] = err not_found
read_os_release_from open_file (path ∷ rest) =
    read_path (open_file path) (read_os_release_from open_file rest)

unfoldable pub read_os_release : {E : Type 0} → (Text → Opened E) → Result (ReadError E) OsRelease
unfolding read_os_release_from
read_os_release open_file = read_os_release_from open_file paths
