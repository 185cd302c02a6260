-- ===== src/Build/Directories.antt =====
-- The directories of magefile.go, as its package variables make them.
use proxyreverse.Prelude.{Option, none, some, List, [], ◌∷◌, Text, codes, Result, ok, err, ◌>>=◌}
use proxyreverse.Go.Panic.{Panic, must_failed}
use proxyreverse.Go.Paths.{path_join}

-- `must`, and `panicOnError`
unfoldable pub must : {A E : Type 0} → A × Option E → Result Panic A
must (result, none) = ok result
must (result, some e) = err must_failed

unfoldable pub panic_on_error : {E : Type 0} → Option E → Result Panic (Unit {0})
panic_on_error none = ok tt
panic_on_error (some e) = err must_failed

pub record Directories : Type 0 where
  pub coverage_dir : Text
  pub tools_bin_dir : Text
  pub git_hook_dir : Text
  pub bin_dir : Text
  pub release_dir : Text
  pub cmd_dir : Text
  pub junit_dir : Text

-- `outputDirs`
unfoldable pub output_dirs : Directories → List Text
output_dirs dirs = dirs.bin_dir ∷ dirs.release_dir ∷ dirs.coverage_dir ∷ dirs.junit_dir ∷ []

-- `filepath.Abs`, with its error.
module _ {E : Type 0} (abs : Text → Text × Option E) where
  -- `normalizePath`
  unfoldable pub normalize_path : Text → Result Panic Text
  unfolding must
  normalize_path name = must (abs name)

  unfoldable pub below : Text → Text → Result Panic Text
  unfolding normalize_path
  below cur_dir name = normalize_path (path_join (cur_dir ∷ name ∷ []))

  -- The package variables, in their order.
  unfoldable pub directories : Text → Result Panic Directories
  unfolding below
  directories cur_dir = do
    coverage_dir ← below cur_dir (codes ".coverage")
    tools_bin_dir ← below cur_dir (codes ".bin")
    git_hook_dir ← below cur_dir (codes "githooks")
    bin_dir ← below cur_dir (codes "bin")
    release_dir ← below cur_dir (codes "release")
    cmd_dir ← below cur_dir (codes "cmd")
    junit_dir ← below cur_dir (codes ".junit")
    ok (record {
      coverage_dir = coverage_dir;
      tools_bin_dir = tools_bin_dir;
      git_hook_dir = git_hook_dir;
      bin_dir = bin_dir;
      release_dir = release_dir;
      cmd_dir = cmd_dir;
      junit_dir = junit_dir;
    })
