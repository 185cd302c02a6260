-- ===== src/Tests/Builds.antt =====
-- The settings, sources and linters of magefile.go on small inputs.
use proxyreverse.Prelude.{
  ◌≡◌, ◌^◌, ◌≤◌, ◌<◌, refl, false, none, some, [], ◌∷◌, ◌++◌, Text, codes, arith, ok, err, List, ℕ,
  Option, inl, text_eq, Among, contains, if◌then◌else◌,
}
use proxyreverse.Go.Split.{split, join, cut}
use proxyreverse.Go.Decimal.{parse_uint, decimal}
use proxyreverse.Build.Hooks.{newline}
use proxyreverse.Build.Settings.{
  concurrency, concurrency_bounds, lint_args, path_base, version, version_short, product_name,
}
use proxyreverse.Build.Sources.{go_src, is_source}
use proxyreverse.Build.Sources.Listing.{go_src-excluded}
use proxyreverse.Build.Linters.{
  lint_bisect, linters_bisect, lint_bisect_failed, linters_failed, list_linters, lint_failures,
  failed_linters, any_failed, read_linters, linter_of, trim,
}
use proxyreverse.Build.Linters.Listed.{listed, read_linters-listed}

runs : Unit {0}
unfolding lint_bisect linters_bisect list_linters lint_failures failed_linters any_failed lint_args
    text_eq contains cut split join parse_uint decimal concurrency path_base version version_short
    product_name go_src is_source read_linters linter_of trim listed
runs = tt

-- An environment in which one variable is set.
abbrev set_to : Text → Text → Text → Text
set_to name value asked = if text_eq name asked then value else []

setting_tests :
    (concurrency (set_to (codes "CONCURRENCY") (codes "3")) 8 ≡ ok 3)
    × (concurrency (set_to (codes "CONCURRENCY") (codes "0")) 8 ≡ ok 1)
    × (concurrency (set_to (codes "CONCURRENCY") (codes "18446744073709551615")) 8 ≡ ok 1)
    × (concurrency (set_to (codes "X") (codes "3")) 8 ≡ ok 8)
    × (path_base (codes "/home/proxyreverse/") ≡ codes "proxyreverse")
unfolding runs
setting_tests = (refl, refl, refl, refl, refl)

concurrency_bounds_example : (1 ≤ 3) × (3 < 2 ^ 63)
concurrency_bounds_example =
    concurrency_bounds (set_to (codes "CONCURRENCY") (codes "3")) 8 3 (omega arith) (omega arith)
      (unfold runs in refl)

go_src-excluded_test :
    (¬ Among (codes "/r/bin" ++ codes "ary/a.go") (codes "/r/a.go" ∷ []))
    × (¬ Among (codes "/r/x" ++ (codes ".git" ++ codes "hub/a.go")) (codes "/r/a.go" ∷ []))
go_src-excluded_test =
    go_src-excluded (λ path. some path) (codes "/r/bin" ∷ [])
      ((codes "/r/a.go", false) ∷ (codes "/r/binary/a.go", false) ∷ (codes "/r/b.txt", false) ∷ [])
      (codes "/r/a.go" ∷ []) (codes "/r/bin") (codes "ary/a.go") (codes "/r/x") (codes "hub/a.go")
      (unfold runs in refl) (inl refl)

-- What golangci-lint prints.
abbrev linters_output : Text
linters_output =
    codes "Enabled by your configuration linters:"
    ++ (newline
        ∷ (codes "bar (foo): x"
            ++ (newline
                ∷ newline
                ∷ (codes "Disabled by your configuration linters:" ++ (newline ∷ codes "baz: y")))))

linters_tests :
    (read_linters 9 linters_output [] ≡ some (codes "bar" ∷ []))
    × (read_linters 99 (codes "bar: x") [] ≡ none)
unfolding runs
linters_tests = (refl, refl)

-- golangci-lint that fails for one linter and finds no directory bad.
abbrev fails_for_bar : List Text → Option ℕ
fails_for_bar args = if contains (codes "--enable=bar") args then some 3 else none

bisect_tests :
    (lint_bisect fails_for_bar 2 (codes "1m0s") (codes "/r" ∷ []) ≡ none)
    × (linters_bisect fails_for_bar 9 2
          (codes "1m0s")
          (codes "/r" ∷ [])
          (ok (codes "t.yml"))
          (ok linters_output)
        ≡ some (some lint_bisect_failed))
    × (linters_bisect fails_for_bar 9 2 (codes "1m0s") [] (ok (codes "t.yml")) (err 1)
        ≡ some (some (linters_failed 1)))
unfolding runs
bisect_tests = (refl, refl, refl)

read_linters-listed_example :
    read_linters 200 linters_output [] ≡ listed (split newline linters_output)
read_linters-listed_example = read_linters-listed linters_output 200 (omega arith)
