-- ===== src/Tests/Suites.antt =====
-- The checks of magefile.go on a machine that counts its commands, its start, its list of platforms
-- and the assets.
use proxyreverse.Prelude.{
  ℕ, suc, ◌≡◌, refl, true, false, none, some, [], ◌∷◌, Text, codes, ok, err, ◌>>=◌, text_eq,
  contains,
}
use proxyreverse.Go.Panic.{must_failed}
use proxyreverse.Go.Paths.{path_join, clean}
use proxyreverse.Go.Split.{split, join}
use proxyreverse.Assets.{Files, assets, initial, use_filesystem, read_file, dir_fs, embedded}
use proxyreverse.Build.Checks.{Shell}
use proxyreverse.Build.Directories.{
  directories, below, normalize_path, must, panic_on_error, output_dirs,
}
use proxyreverse.Build.Start.{init, make_dirs, build_environment}
use proxyreverse.Build.Sources.{
  go_src, go_dirs, go_pkgs, go_cmds, is_source, dirs_from, path_dir, without_vendor, has_prefix,
  contains_text, has_suffix, any_prefix,
}
use proxyreverse.Build.Suite.{Process, deps_tools, run_serially, checks}
use proxyreverse.Build.Suite.Once.{plain, check_commands, checks_install_once}
use proxyreverse.Build.Platforms.{platforms_lookup}
use proxyreverse.Build.Sorted.{platform_targets, print_lines}
use proxyreverse.Build.Sorted.Order.{by_insertion}
use proxyreverse.Build.Sorted.Listing.{
  platform_lines, platforms_lookup-HasDistinctKeys, platform_targets-sorted,
}

-- Commands never fail, and are counted.
abbrev shell : Shell
shell = record {
  World = ℕ;
  Failure = Text;
  mkdir_all = λ dir w. (w, none);
  rm = λ path w. (w, none);
  read_dir = λ dir w. ok (codes "prog" ∷ []);
  stat = λ path w. some (codes "missing");
  run = λ args w. (suc w, none);
  output = λ args w. (suc w, ok (codes "pkg"));
  write_file = λ path text w. (w, none);
}

abbrev fresh : Process shell
fresh = record { world = 0; tools_result = none }

checks_install_once_test :
    run_serially shell
      (checks shell
        (codes "/p/.bin")
        (codes "5m")
        (codes "/p/.coverage")
        1
        (codes "/p" ∷ [])
        (codes "pkg" ∷ []))
      fresh
    ≡ (deps_tools shell (codes "/p/.bin") fresh
        >>= run_serially shell (
            plain shell (
              check_commands shell
                (codes "/p/.bin")
                (codes "5m")
                (codes "/p/.coverage")
                1
                (codes "/p" ∷ [])
                (codes "pkg" ∷ []))))
checks_install_once_test =
    checks_install_once shell (codes "/p/.bin") (codes "5m") (codes "/p/.coverage") 1
      (codes "/p" ∷ []) (codes "pkg" ∷ []) fresh refl

platform_targets-sorted_example :
    platform_targets by_insertion platforms_lookup ≡ print_lines platform_lines
platform_targets-sorted_example =
    platform_targets-sorted by_insertion platforms_lookup platforms_lookup-HasDistinctKeys
      (λ k. refl)

abbrev dirs : proxyreverse.Build.Directories.Directories
dirs = record {
  coverage_dir = codes "/p/.coverage";
  tools_bin_dir = codes "/p/.bin";
  git_hook_dir = codes "/p/githooks";
  bin_dir = codes "/p/bin";
  release_dir = codes "/p/release";
  cmd_dir = codes "/p/cmd";
  junit_dir = codes "/p/.junit";
}

start_tests :
    (directories {E = Text} (λ s. (s, none)) (codes "/p") ≡ ok dirs)
    × (directories {E = Text} (λ s. (s, some s)) (codes "/p") ≡ err must_failed)
    × (init shell (λ s. some s) dirs ((codes "/p/main.go", false) ∷ []) 0
        ≡ ok (
          record {
            src = codes "/p/main.go" ∷ [];
            dirs = codes "/p" ∷ [];
            pkgs = codes "pkg" ∷ [];
            cmds = codes "prog" ∷ [];
          },
          1,
        ))
    × (build_environment (codes "/p/.bin") (λ name. codes "/bin") (codes "PATH")
        ≡ codes "/p/.bin:/bin")
unfolding directories below normalize_path must path_join clean split join init make_dirs
    panic_on_error output_dirs go_src go_dirs go_pkgs go_cmds is_source dirs_from path_dir
    without_vendor has_prefix contains_text has_suffix any_prefix text_eq contains build_environment
start_tests = (refl, refl, refl, refl)

-- Files that are named by where they come from.
abbrev files : Files Text
files = record {
  open_file = λ p name. elim p [ dir_fs dir ↦ ok dir | embedded ↦ err (codes "no file") ];
  read_all = λ f. (f, none);
}

asset_tests :
    (read_file files (codes "a") (use_filesystem true initial) ≡ (codes "assets", none))
    × (read_file files (codes "a") initial
        ≡ ([], some (codes "assets.ReadFile Open Error (use-filesystem: false): no file")))
unfolding read_file use_filesystem assets
asset_tests = (refl, refl)
