-- ===== src/Build/Checks.antt =====
-- The targets of magefile.go that install the tools, run the tests and clean up, on a machine whose
-- state their operations pass on.
pub mod Failures
use proxyreverse.Prelude.{
  Bool, true, false, Option, none, some, List, [], ◌∷◌, ◌++◌, map, Text, codes, text_eq, ◌==◌,
  if◌then◌else◌, Result, ok, err,
}
use proxyreverse.Go.Paths.{path_join}
use proxyreverse.Build.Targets.{BuildError, parallel_build_failed}

-- The results of `concurrencyLimitedBuild` in the order in which they arrive, and its error so far.
unfoldable pub errors_from :
    {E F : Type 0} → Option (BuildError F) → List (Option E) → Option (BuildError F)
errors_from result_err [] = result_err
errors_from result_err (none ∷ results) = errors_from result_err results
errors_from result_err (some e ∷ results) = errors_from (some parallel_build_failed) results

unfoldable pub concurrency_limited_build : {E F : Type 0} → List (Option E) → Option (BuildError F)
unfolding errors_from
concurrency_limited_build results = errors_from none results

-- What the targets use of the operating system and of mage's `sh`.
pub record Shell : Type 1 where
  pub World : Type 0
  pub Failure : Type 0
  pub mkdir_all : Text → World → World × Option Failure
  pub rm : Text → World → World × Option Failure
  pub read_dir : Text → World → Result Failure (List Text)
  pub stat : Text → World → Option Failure
  -- `sh.Run` and `sh.RunV`
  pub run : List Text → World → World × Option Failure
  -- `sh.Output`
  pub output : List Text → World → World × Result Failure Text
  pub write_file : Text → Text → World → World × Option Failure

module _ (sh : Shell) where
  abbrev pub Command : Type 0
  Command = sh.World → sh.World × Option sh.Failure

  -- One command, and the next if it does not fail.
  unfoldable pub and_then : Command → Command → Command
  and_then first next w =
      let (w', failed) = first w in elim failed [ some e ↦ (w', some e) | none ↦ next w' ]

  -- A loop that returns the first error.
  unfoldable pub until_failure : List Command → Command
  until_failure [] w = (w, none)
  until_failure (command ∷ commands) w = and_then command (until_failure commands) w

  -- `listCoverageFiles`
  unfoldable pub list_coverage_files : Text → sh.World → Result sh.Failure (List Text)
  list_coverage_files coverage_dir w = elim (sh.read_dir coverage_dir w) [
    | ok names ↦ ok (map (λ name. path_join (coverage_dir ∷ name ∷ [])) names)
    | err e ↦ err e
  ]

  -- `strings.ReplaceAll(pkg, "/", "-")`
  abbrev pub dashed : Text → Text
  dashed pkg = map (λ c. if c == b'/' then b'-' else c) pkg

  -- The test of one package, with its coverage profile.
  unfoldable pub test_package : Text → Text → Command
  test_package coverage_dir pkg =
      let profile = path_join (coverage_dir ∷ (dashed pkg ++ codes ".out") ∷ []) in
      sh.run (
        codes "go"
        ∷ codes "test"
        ∷ codes "-v"
        ∷ codes "-covermode"
        ∷ codes "count"
        ∷ (codes "-coverprofile=" ++ profile)
        ∷ pkg
        ∷ [])

  unfoldable pub remove_coverage : Text → Command
  unfolding until_failure list_coverage_files
  remove_coverage coverage_dir w = elim (list_coverage_files coverage_dir w) [
    | err e ↦ (w, some e)
    | ok files ↦ until_failure (map sh.rm files) w
  ]

  -- `Test`, after the tools.
  unfoldable pub test : Text → List Text → Command
  unfolding and_then until_failure
  test coverage_dir go_pkgs = and_then (sh.mkdir_all coverage_dir) (
      and_then (remove_coverage coverage_dir)
        (until_failure (map (test_package coverage_dir) go_pkgs)))

  -- `Coverage`
  unfoldable pub coverage : Text → Command
  unfolding list_coverage_files
  coverage coverage_dir w = elim (list_coverage_files coverage_dir w) [
    | err e ↦ (w, some e)
    | ok files ↦
        let (w', merged) = sh.output (codes "gocovmerge" ∷ files) w in
        elim merged [ err e ↦ (w', some e) | ok text ↦ sh.write_file (codes ".cover.out") text w' ]
  ]

  -- `Clean`
  unfoldable pub clean_outputs : Text → List Text → List Text → Command
  unfolding until_failure
  clean_outputs bin_dir go_cmds output_dirs =
      and_then (until_failure (map (λ name. sh.rm (path_join (bin_dir ∷ name ∷ []))) go_cmds))
        (until_failure (map sh.rm output_dirs))

  -- `formattingLinter`, after the tools.
  unfoldable pub formatting_linter : Bool → Command
  formatting_linter do_fixes =
      let args =
        codes "golangci-lint"
        ∷ codes "run"
        ∷ codes "--no-config"
        ∷ codes "--disable-all"
        ∷ codes "--enable=gofmt"
        ∷ codes "--enable=goimports"
        ∷ codes "--enable=godot"
        ∷ [] in
      sh.run (if do_fixes then args ++ (codes "--fix" ∷ []) else args)

  -- The imports to install: a named binary that is there already is left out.
  unfoldable pub tool_targets : Text → List (Text × Text) → sh.World → List Text
  tool_targets tools_bin_dir [] w = []
  tool_targets tools_bin_dir ((bin_name, tool_import) ∷ tools) w =
      let rest = tool_targets tools_bin_dir tools w in
      let wanted = tool_import ∷ rest in
      if text_eq bin_name []
      then wanted
      else elim (sh.stat (path_join (tools_bin_dir ∷ bin_name ∷ [])) w) [
        | none ↦ rest
        | some e ↦ wanted
      ]

  -- The installations one after the other, with their results.
  unfoldable pub install_all : List Text → sh.World → sh.World × List (Option sh.Failure)
  install_all [] w = (w, [])
  install_all (tool_import ∷ imports) w =
      let (w', e) = sh.run (codes "go" ∷ codes "install" ∷ codes "-v" ∷ tool_import ∷ []) w in
      let (v, rest) = install_all imports w' in (v, e ∷ rest)

  -- `Tools`, the installations one after the other.
  unfoldable pub tools : Text → sh.World → sh.World × Option (BuildError sh.Failure)
  unfolding tool_targets install_all concurrency_limited_build
  tools tools_bin_dir w =
      let wanted =
        tool_targets tools_bin_dir
          ((codes "", codes "github.com/golangci/golangci-lint/cmd/golangci-lint@v1.60.2")
            ∷ (codes "gocovmerge", codes "github.com/wadey/gocovmerge@latest")
            ∷ [])
          w in
      let (w', results) = install_all wanted w in (w', concurrency_limited_build results)
