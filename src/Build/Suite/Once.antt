-- ===== src/Build/Suite/Once.antt =====
-- The tools and the targets of magefile.go that depend on them.
use proxyreverse.Prelude.{
  ℕ, Bool, true, false, ap, ◌≡◌, refl, none, some, List, [], ◌∷◌, Text, arith, ok, err, ◌>>=◌,
  Result-cases, inl, inr,
}
use proxyreverse.Go.Panic.{must_failed}
use proxyreverse.Build.Checks.{Shell, Command, test, coverage, formatting_linter}
use proxyreverse.Build.Suite.{
  Process, Target, deps_tools, command, style, lint_target, golangci, test_target, run_serially,
  checks, all,
}

module _ (sh : Shell) where
  -- The tools are there.
  abbrev HasTools : Process sh → Type 0
  HasTools p = p.tools_result ≡ some none

  deps_tools-HasTools :
      (tools_bin_dir : Text) (p q : Process sh)
      → p.tools_result ≡ none
      → deps_tools sh tools_bin_dir p ≡ ok q
      → HasTools q
  unfolding deps_tools
  deps_tools-HasTools tools_bin_dir p q none_yet e = ground (arith, none_yet)

  deps_tools_again :
      (tools_bin_dir : Text) (p : Process sh) → HasTools p → deps_tools sh tools_bin_dir p ≡ ok p
  unfolding deps_tools
  deps_tools_again tools_bin_dir p h = ground (arith, h)

  command-HasTools :
      (c : Command sh) (p q : Process sh) → HasTools p → command sh c p ≡ ok q → HasTools q
  unfolding command
  command-HasTools c p q h e = ground (arith, h)

  -- The commands without their dependencies.
  abbrev pub plain : List (Bool × Command sh) → List (ℕ × Target sh)
  plain [] = []
  plain (c ∷ cs) = (0, command sh c.1) ∷ plain cs

  module _ (tools_bin_dir : Text) where
    -- A command, with the tools as a dependency or without.
    abbrev pub target_of : Bool × Command sh → Target sh
    target_of (true, c) p = deps_tools sh tools_bin_dir p >>= command sh c
    target_of (false, c) p = command sh c p

    abbrev pub dependent : List (Bool × Command sh) → List (ℕ × Target sh)
    dependent [] = []
    dependent (c ∷ cs) = (0, target_of c) ∷ dependent cs

    target_of_again :
        (c : Bool × Command sh) (p : Process sh) → HasTools p → target_of c p ≡ command sh c.1 p
    target_of_again (true, c) p h =
        ap (λ r. r >>= command sh c) (deps_tools_again tools_bin_dir p h)
    target_of_again (false, c) p h = refl

    after_tools :
        (cs : List (Bool × Command sh)) (p : Process sh)
        → HasTools p
        → run_serially sh (dependent cs) p ≡ run_serially sh (plain cs) p
    unfolding run_serially
    after_tools [] p h = refl
    after_tools (c ∷ cs) p h = elim (Result-cases (command sh c.1 p)) [
      | inr (e, failed) ↦ ground (arith, failed, target_of_again c p h)
      | inl (q, done) ↦
          let rest = after_tools cs q (command-HasTools c.1 p q h done) in
          ground (arith, done, rest, target_of_again c p h)
    ]

    run_dependent :
        (c : Command sh) (cs : List (Bool × Command sh)) (p : Process sh)
        → p.tools_result ≡ none
        → run_serially sh (dependent ((true, c) ∷ cs)) p
          ≡ (deps_tools sh tools_bin_dir p >>= run_serially sh (plain ((true, c) ∷ cs)))
    unfolding run_serially
    run_dependent c cs p none_yet = elim (Result-cases (deps_tools sh tools_bin_dir p)) [
      | inr (e, failed) ↦ ground (arith, failed)
      | inl (q, done) ↦
          let h = deps_tools-HasTools tools_bin_dir p q none_yet done in
          let rest = after_tools ((true, c) ∷ cs) q h in
          ground (arith, done, rest, deps_tools_again tools_bin_dir q h)
    ]

  module _ (tools_bin_dir deadline coverage_dir : Text) (jobs : ℕ)
      (go_dirs go_pkgs : List Text) where
    -- The checks of `All` without their dependencies.
    abbrev pub check_commands : List (Bool × Command sh)
    check_commands =
        (true, formatting_linter sh false)
        ∷ (true, golangci sh jobs deadline go_dirs)
        ∷ (true, test sh coverage_dir go_pkgs)
        ∷ (false, coverage sh coverage_dir)
        ∷ []

    -- In a process of mage that has not run the tools, the checks of the target `All` one after the
    -- other run the tools once, before the first of them, and then each check without them; a check
    -- or the tools that fail end the run.
    pub checks_install_once :
        (p : Process sh)
        → p.tools_result ≡ none
        → run_serially sh (checks sh tools_bin_dir deadline coverage_dir jobs go_dirs go_pkgs) p
          ≡ (deps_tools sh tools_bin_dir p >>= run_serially sh (plain check_commands))
    unfolding style lint_target test_target
    checks_install_once p none_yet =
        run_dependent tools_bin_dir (formatting_linter sh false)
          ((true, golangci sh jobs deadline go_dirs)
            ∷ (true, test sh coverage_dir go_pkgs)
            ∷ (false, coverage sh coverage_dir)
            ∷ [])
          p none_yet

    -- `All` runs nothing: mage takes no dependency with an argument that it is not given.
    all_panics :
        (release : Target sh) (p : Process sh)
        → all sh tools_bin_dir deadline coverage_dir jobs go_dirs go_pkgs release p
          ≡ err must_failed
    unfolding all
    all_panics release p = refl
