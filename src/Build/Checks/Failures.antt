-- ===== src/Build/Checks/Failures.antt =====
-- Where the tests of magefile.go stop.
use proxyreverse.Prelude.{◌≡◌, ap, ◌∙◌, none, some, List, [], ◌∷◌, ◌++◌, map, Text}
use proxyreverse.Build.Checks.{
  Shell, Command, and_then, until_failure, remove_coverage, test, test_package,
}

module _ (sh : Shell) where
  and_then-pass :
      (first next : Command sh) (w v : sh.World)
      → first w ≡ (v, none)
      → and_then sh first next w ≡ next v
  unfolding and_then
  and_then-pass first next w v e = ap (λ r. elim r.1 [ some e ↦ (r.0, some e) | none ↦ next r.0 ]) e

  and_then-fail :
      (first next : Command sh) (w v : sh.World) (e : sh.Failure)
      → first w ≡ (v, some e)
      → and_then sh first next w ≡ (v, some e)
  unfolding and_then
  and_then-fail first next w v e h =
      ap (λ r. elim r.1 [ some e ↦ (r.0, some e) | none ↦ next r.0 ]) h

  module _ {X : Type 0} (command : X → Command sh) where
    -- The commands of a list succeed in turn.
    abbrev pub AllPass : List X → sh.World → sh.World → Type 0
    AllPass [] w v = w ≡ v
    AllPass (x ∷ xs) w v = (u : sh.World) × (command x w ≡ (u, none)) × AllPass xs u v

    until_failure-append :
        (pre post : List X) (w v : sh.World)
        → AllPass pre w v
        → until_failure sh (map command (pre ++ post)) w ≡ until_failure sh (map command post) v
    unfolding until_failure
    until_failure-append [] post w v h = ap (until_failure sh (map command post)) h
    until_failure-append (x ∷ pre) post w v (u, e, h) =
        and_then-pass (command x) (until_failure sh (map command (pre ++ post))) w u e
        ∙ until_failure-append pre post u v h

    until_failure-fail :
        (x : X) (xs : List X) (w v : sh.World) (e : sh.Failure)
        → command x w ≡ (v, some e)
        → until_failure sh (map command (x ∷ xs)) w ≡ (v, some e)
    unfolding until_failure
    until_failure-fail x xs w v e h =
        and_then-fail (command x) (until_failure sh (map command xs)) w v e h

  -- Once the directory for the coverage is there and emptied, the tests of the packages run in the
  -- order of their list: when those before one pass and that one fails, its error comes back, and
  -- the packages after it are not tested.
  test_stops :
      (coverage_dir : Text) (pre post : List Text) (pkg : Text) (w made emptied u v : sh.World)
      (e : sh.Failure)
      → sh.mkdir_all coverage_dir w ≡ (made, none)
      → remove_coverage sh coverage_dir made ≡ (emptied, none)
      → AllPass (test_package sh coverage_dir) pre emptied u
      → test_package sh coverage_dir pkg u ≡ (v, some e)
      → test sh coverage_dir (pre ++ (pkg ∷ post)) w ≡ (v, some e)
  unfolding test
  test_stops coverage_dir pre post pkg w made emptied u v e mkdir empty pass fail =
      let command = test_package sh coverage_dir in
      let run = until_failure sh (map command (pre ++ (pkg ∷ post))) in
      and_then-pass (sh.mkdir_all coverage_dir) (and_then sh (remove_coverage sh coverage_dir) run)
        w made mkdir
      ∙ and_then-pass (remove_coverage sh coverage_dir) run made emptied empty
      ∙ until_failure-append command pre (pkg ∷ post) emptied u pass
      ∙ until_failure-fail command pkg post u v e fail
