-- ===== src/Tests/Hooks.antt =====
-- The hooks that magefile.go installs, on small ones.
use proxyreverse.Prelude.{
  ◌≡◌, ◌+◌, ◌-◌, refl, true, false, none, List, [], ◌∷◌, ◌++◌, Text, codes, arith, ok, err, inr,
  text_eq, length, drop, lookup,
}
use proxyreverse.Go.Split.{split, join}
use proxyreverse.Go.Paths.{path_join, clean}
use proxyreverse.Build.Hooks.{
  newline, shebang, trim_right, scan, script_lines, script_package, append_to, replace_section,
  update_lines, update_hook, add_scripts, autogen, managed_script_section_head,
  managed_script_section_foot, multiple_script_sections, unknown_pre_commit_script_format, DirEntry,
  Files,
}
use proxyreverse.Build.Hooks.Section.{IsHook}
use proxyreverse.Build.Hooks.Reruns.{IsSplit, update_hook_again}
use proxyreverse.Build.Hooks.Overrun.{update_hook_overruns}
use proxyreverse.Build.Hooks.Install.{add_scripts_installs, written_hook}

runs : Unit {0}
unfolding text_eq clean trim_right scan script_lines script_package append_to replace_section
    update_lines update_hook add_scripts autogen split join path_join lookup
runs = tt

abbrev head : Text
head = managed_script_section_head

abbrev foot : Text
foot = managed_script_section_foot

abbrev scripts : List Text
scripts = codes "a" ∷ []

-- Four lines after an empty section.
abbrev after : List Text
after = codes "w" ∷ codes "x" ∷ codes "y" ∷ codes "z" ∷ []

-- A hook whose section is empty, with some lines after it.
abbrev hook_with : List Text → Text
hook_with post = join newline ((shebang ∷ []) ++ (head ∷ ([] ++ (foot ∷ post))))

after-IsHook : IsHook shebang [] [] after head foot
unfolding runs
after-IsHook = record {
  bash = refl;
  before = ((refl, refl), tt);
  inside = tt;
  after = ((refl, refl), ((refl, refl), ((refl, refl), ((refl, refl), tt))));
  heads = refl;
  foots = refl;
}

after-IsSplit : IsSplit shebang [] [] after head foot
after-IsSplit = record {
  before = omega arith;
  inside = tt;
  after = omega arith;
  heads = omega arith;
  foots = omega arith;
}

short-IsHook : IsHook shebang [] [] [] head foot
unfolding runs
short-IsHook = record {
  bash = refl;
  before = ((refl, refl), tt);
  inside = tt;
  after = tt;
  heads = refl;
  foots = refl;
}

short-IsSplit : IsSplit shebang [] [] [] head foot
short-IsSplit = record {
  before = omega arith;
  inside = tt;
  after = tt;
  heads = omega arith;
  foots = omega arith;
}

hook_tests :
    (update_hook (codes "#!/bin/sh") scripts ≡ err unknown_pre_commit_script_format)
    × (update_hook (hook_with (foot ∷ [])) scripts ≡ err multiple_script_sections)
unfolding runs
hook_tests = (refl, refl)

update_hook_again_example :
    let updated = join newline ((shebang ∷ []) ++ (script_package scripts ++ [])) in
    (update_hook (hook_with []) scripts ≡ ok updated) × (update_hook updated scripts ≡ ok updated)
update_hook_again_example =
    update_hook_again shebang [] [] [] head foot short-IsHook short-IsSplit scripts (omega arith)
      (inr (omega arith))

update_hook_overruns_example :
    let overrun = join newline (
      (shebang ∷ [])
      ++ (script_package scripts
          ++ (drop (length {A = Text} [] + 2) (script_package scripts)
              ++ drop (length scripts + 5 - (length {A = Text} [] + 2)) after))) in
    (update_hook (hook_with after) scripts ≡ ok overrun)
    × (update_hook overrun scripts ≡ err multiple_script_sections)
update_hook_overruns_example =
    update_hook_overruns shebang [] [] after head foot after-IsHook after-IsSplit scripts scripts
      (omega arith) (omega arith) (omega arith)

-- One script and a directory beside it.
abbrev entries : List DirEntry
entries = (codes "a", false) ∷ (codes "b", true) ∷ []

abbrev hook_path : Text
hook_path = codes ".git/hooks/pre-push"

add_scripts_installs_example :
    (files' : Files) × (add_scripts
        (λ p. p)
        (codes "/r/githooks")
        (λ p. true)
        (codes "pre-push")
        hook_path
        []
        entries
        []
      ≡ (files', none))
    × (lookup hook_path files' ≡ written_hook (codes "/r/githooks/pre-push/a" ∷ []))
    × (lookup (codes "x") files' ≡ none)
unfolding runs
add_scripts_installs_example =
    add_scripts_installs (λ p. p) (codes "/r/githooks") (λ p. true) (codes "pre-push") hook_path
      entries [] (codes "x") refl (omega arith) refl refl
