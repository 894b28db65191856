-- ===== src/Version/Print.antt =====
-- version/version.go: the lines that Print writes. What the runtime says of itself is an argument.
use icinga_go_library.Prelude.{
  List, [], ◌∷◌, ◌++◌, Text, codes, length, leb, if◌then◌else◌, Result, ok, err,
}
use icinga_go_library.Version.{VersionInfo}
use icinga_go_library.Version.OsRelease.{OsRelease, ReadError, display_version}

pub record Runtime : Type 0 where
  pub version : Text
  pub os : Text
  pub arch : Text

unfoldable pub system_lines : {E : Type 0} → Result (ReadError E) OsRelease → List Text
system_lines (err e) = []
system_lines (ok r) =
    []
    ∷ codes "System information:"
    ∷ (codes "  Platform: " ++ r.name)
    ∷ (codes "  Platform version: " ++ display_version r)
    ∷ []

unfoldable pub commit_lines : Text → List Text
commit_lines commit = if leb 1 (length commit) then (codes "  Git commit: " ++ commit) ∷ [] else []

unfoldable pub print_lines :
    {E : Type 0} → Text → VersionInfo → Runtime → Result (ReadError E) OsRelease → List Text
unfolding system_lines commit_lines
print_lines project v rt release =
    (project ++ (codes " version: " ++ v.version))
    ∷ []
    ∷ codes "Build information:"
    ∷ (codes "  Go version: "
        ++ (rt.version ++ (codes " (" ++ (rt.os ++ (codes ", " ++ (rt.arch ++ codes ")"))))))
    ∷ (commit_lines v.commit ++ system_lines release)
