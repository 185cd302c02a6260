-- ===== src/Build/Sources.antt =====
-- The source files, directories and packages that `init` of magefile.go finds.
pub mod Listing
use proxyreverse.Prelude.{
  ◌≡◌, refl, Bool, true, false, ◌&&◌, ◌||◌, Option, none, some, List, [], ◌∷◌, ◌++◌, Text, codes,
  ◌==◌, if◌then◌else◌, Result, ok, err, ◌>>=◌, contains, text_eq,
}
use proxyreverse.Go.Panic.{Panic, must_failed}
use proxyreverse.Go.Paths.{clean}
use proxyreverse.Go.Split.{split, join}
use proxyreverse.Build.Hooks.{newline}

-- `strings.HasPrefix`, `strings.Contains` and `strings.HasSuffix`
unfoldable pub has_prefix : Text → Text → Bool
has_prefix s [] = true
has_prefix [] (c ∷ p) = false
has_prefix (b ∷ s) (c ∷ p) = b == c && has_prefix s p

unfoldable pub contains_text : Text → Text → Bool
unfolding has_prefix
contains_text [] p = has_prefix [] p
contains_text (b ∷ s) p = has_prefix (b ∷ s) p || contains_text s p

unfoldable pub has_suffix : Text → Text → Bool
has_suffix [] p = text_eq [] p
has_suffix (b ∷ s) p = text_eq (b ∷ s) p || has_suffix s p

unfoldable pub any_prefix : Text → List Text → Bool
any_prefix path [] = false
any_prefix path (exclusion ∷ exclusions) = has_prefix path exclusion || any_prefix path exclusions

-- The tests of the walk on the absolute path of a file.
unfoldable pub is_source : List Text → Text → Bool
unfolding any_prefix contains_text has_suffix
is_source exclusions path =
    if any_prefix path exclusions
      || contains_text path (codes "/vendor/")
      || contains_text path (codes ".git")
    then false
    else has_suffix path (codes ".go")

-- `goSrc`, from the walk's paths and whether each is a directory. `filepath.Abs` may fail.
module _ (abs : Text → Option Text) where
  unfoldable pub go_src : List Text → List (Text × Bool) → Result Panic (List Text)
  unfolding is_source
  go_src exclusions [] = ok []
  go_src exclusions ((rel_path, is_dir) ∷ entries) =
      let rest = go_src exclusions entries in
      elim (abs rel_path) [
        | none ↦ err must_failed
        | some path ↦
            if is_dir
            then rest
            else (if is_source exclusions path then (rest >>= λ paths. ok (path ∷ paths)) else rest)
      ]

abbrev blank_last : List Text → List Text
blank_last [] = []
blank_last (w ∷ []) = [] ∷ []
blank_last (w ∷ (v ∷ vs)) = w ∷ blank_last (v ∷ vs)

-- `filepath.Dir`
unfoldable pub path_dir : Text → Text
unfolding clean
path_dir path = clean (join b'/' (blank_last (split b'/' path)))

-- `goDirs`, of absolute paths; the list stands for the map's keys.
unfoldable pub dirs_from : List Text → List Text → List Text
unfolding path_dir
dirs_from found [] = found
dirs_from found (path ∷ paths) =
    let dir = path_dir path in dirs_from (if contains dir found then found else dir ∷ found) paths

unfoldable pub go_dirs : List Text → List Text
unfolding dirs_from
go_dirs go_src = dirs_from [] go_src

-- `goPkgs`, from the output of `go list ./...`.
unfoldable pub without_vendor : List Text → List Text
unfolding contains_text
without_vendor [] = []
without_vendor (line ∷ lines) =
    let rest = without_vendor lines in
    if contains_text line (codes "/vendor/") then rest else line ∷ rest

unfoldable pub go_pkgs : Option Text → Result Panic (List Text)
unfolding without_vendor
go_pkgs none = err must_failed
go_pkgs (some output) = ok (without_vendor (split newline output))

-- `goCmds`, from the entries of the directory.
unfoldable pub go_cmds : Option (List Text) → Result Panic (List Text)
go_cmds none = err must_failed
go_cmds (some names) = ok names

test_dir : path_dir (codes "/a/b/c.go") ≡ codes "/a/b"
unfolding path_dir split join text_eq
test_dir = refl
