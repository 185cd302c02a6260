-- ===== src/Build/Start.antt =====
-- `init` of magefile.go, which runs before every target.
use proxyreverse.Prelude.{
  Option, none, some, List, [], ◌∷◌, ◌++◌, Bool, Text, codes, text_eq, if◌then◌else◌, Result, ok,
  err, ◌>>=◌,
}
use proxyreverse.Go.Panic.{Panic}
use proxyreverse.Build.Checks.{Shell}
use proxyreverse.Build.Directories.{Directories, output_dirs, panic_on_error}
use proxyreverse.Build.Sources.{go_src, go_dirs, go_pkgs, go_cmds}

-- The variables that `init` fills.
pub record BuildFiles : Type 0 where
  pub src : List Text
  pub dirs : List Text
  pub pkgs : List Text
  pub cmds : List Text

-- The environment after the two calls of `os.Setenv`.
unfoldable pub build_environment : Text → (Text → Text) → Text → Text
build_environment tools_bin_dir getenv name =
    if text_eq name (codes "PATH")
    then tools_bin_dir ++ (codes ":" ++ getenv (codes "PATH"))
    else if text_eq name (codes "GOBIN")
    then tools_bin_dir
    else getenv name

abbrev if_ok : {E A : Type 0} → Result E A → Option A
if_ok (ok a) = some a
if_ok (err e) = none

module _ (sh : Shell) where
  -- The loop that makes the output directories.
  unfoldable pub make_dirs : List Text → sh.World → Result Panic (sh.World)
  unfolding panic_on_error
  make_dirs [] w = ok w
  make_dirs (dir ∷ dirs) w =
      let (w', failed) = sh.mkdir_all dir w in panic_on_error failed >>= λ _. make_dirs dirs w'

  -- `init`, on the entries that the walk finds.
  unfoldable pub init :
      (Text → Option Text)
      → Directories
      → List (Text × Bool)
      → sh.World
      → Result Panic (BuildFiles × sh.World)
  unfolding make_dirs output_dirs
  init abs dirs walked w = do
    src ←
        go_src abs (dirs.tools_bin_dir ∷ dirs.bin_dir ∷ dirs.release_dir ∷ dirs.coverage_dir ∷ [])
          walked
    let (w', listed) = sh.output (codes "go" ∷ codes "list" ∷ codes "./..." ∷ []) w
    pkgs ← go_pkgs (if_ok listed)
    cmds ← go_cmds (if_ok (sh.read_dir dirs.cmd_dir w'))
    v ← make_dirs (output_dirs dirs) w'
    ok (record { src = src; dirs = go_dirs src; pkgs = pkgs; cmds = cmds }, v)
