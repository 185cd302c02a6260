-- ===== src/Build/Suite.antt =====
-- Targets of magefile.go that depend on others, and the dependencies by mage.
pub mod Once
use proxyreverse.Prelude.{
  ℕ, zero, suc, ◌≡◌, Bool, true, false, if◌then◌else◌, Option, none, some, List, [], ◌∷◌, ◌++◌,
  Text, codes, Result, ok, err, ◌>>=◌,
}
use proxyreverse.Go.Panic.{Panic, must_failed}
use proxyreverse.Build.Targets.{BuildError}
use proxyreverse.Build.Settings.{lint_args}
use proxyreverse.Build.Checks.{
  Shell, Command, and_then, until_failure, test, coverage, formatting_linter, tools,
}

-- How a process of mage ends early: a target returns an error, or a dependency does, which `mg.Deps`
-- makes a panic.
pub data Stopped (Failure : Type 0) : Type 0 where
  target_failed : Failure → Stopped Failure
  dependency_failed : BuildError Failure → Stopped Failure

module _ (sh : Shell) where
  -- The process of mage: the machine, and the result of `Tools` if it was a dependency before.
  -- `mg.Deps` of mage, which is not part of the repository, runs a target once in a process.
  pub record Process : Type 0 where
    pub world : sh.World
    pub tools_result : Option (Option (BuildError sh.Failure))

  abbrev pub Target : Type 0
  Target = Process → Result (Stopped sh.Failure) Process

  stop_if : Process → Option (BuildError sh.Failure) → Result (Stopped sh.Failure) Process
  stop_if p none = ok p
  stop_if p (some e) = err (dependency_failed e)

  -- `mg.Deps(Tools)`
  unfoldable pub deps_tools : Text → Target
  unfolding stop_if
  deps_tools tools_bin_dir p = elim p.tools_result [
    | some result ↦ stop_if p result
    | none ↦
        let (w, result) = tools sh tools_bin_dir p.world in
        stop_if (record { world = w; tools_result = some result }) result
  ]

  -- A target that has no dependency.
  unfoldable pub command : Command sh → Target
  command c p =
      let (w, failed) = c p.world in
      elim failed [ none ↦ ok (record p { world = w }) | some e ↦ err (target_failed e) ]

  abbrev pub golangci : ℕ → Text → List Text → Command sh
  golangci jobs deadline go_dirs =
      sh.run (codes "golangci-lint" ∷ (lint_args jobs deadline (codes "run" ∷ []) ++ go_dirs))

  -- `Style`, `Fmt`, `Lint` and `Test`
  module _ (tools_bin_dir : Text) where
    unfoldable pub style : Target
    style p = deps_tools tools_bin_dir p >>= command (formatting_linter sh false)

    unfoldable pub fmt : Target
    fmt p = deps_tools tools_bin_dir p >>= command (formatting_linter sh true)

    unfoldable pub lint_target : ℕ → Text → List Text → Target
    lint_target jobs deadline go_dirs p =
        deps_tools tools_bin_dir p >>= command (golangci jobs deadline go_dirs)

    unfoldable pub test_target : Text → List Text → Target
    test_target coverage_dir go_pkgs p =
        deps_tools tools_bin_dir p >>= command (test sh coverage_dir go_pkgs)

  -- `mg.SerialDeps` of targets, each with the number of its arguments: mage takes none that has
  -- arguments, and panics before it runs the first.
  unfoldable pub any_arguments : List (ℕ × Target) → Bool
  any_arguments [] = false
  any_arguments ((zero, target) ∷ targets) = any_arguments targets
  any_arguments ((suc n, target) ∷ targets) = true

  unfoldable pub run_serially : List (ℕ × Target) → Target
  run_serially [] p = ok p
  run_serially ((n, target) ∷ targets) p = target p >>= run_serially targets

  unfoldable pub serial_deps :
      List (ℕ × Target) → Process → Result Panic (Result (Stopped sh.Failure) Process)
  unfolding any_arguments run_serially
  serial_deps targets p =
      if any_arguments targets then err must_failed else ok (run_serially targets p)

  -- `All`; `Release` takes the platform for argument.
  module _ (tools_bin_dir deadline coverage_dir : Text) (jobs : ℕ)
      (go_dirs go_pkgs : List Text) where
    abbrev pub checks : List (ℕ × Target)
    checks =
        (0, style tools_bin_dir)
        ∷ (0, lint_target tools_bin_dir jobs deadline go_dirs)
        ∷ (0, test_target tools_bin_dir coverage_dir go_pkgs)
        ∷ (0, command (coverage sh coverage_dir))
        ∷ []

    unfoldable pub all : Target → Process → Result Panic (Result (Stopped sh.Failure) Process)
    unfolding serial_deps
    all release = serial_deps (checks ++ ((1, release) ∷ []))
