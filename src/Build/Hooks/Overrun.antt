-- ===== src/Build/Hooks/Overrun.antt =====
-- A section that has grown over the lines after it: `Autogen` of magefile.go.
use proxyreverse.Prelude.{
  ℕ, zero, suc, ◌+◌, ◌-◌, ◌≤◌, ◌<◌, ◌≡◌, ◌∙◌, ap, refl, none, some, List, [], ◌∷◌, ◌++◌, Text,
  arith, length, length-append, drop, All, All-append, ok, err, text_eq, text_eq_iff,
}
use mathlib.Core.List.{append_assoc}
use proxyreverse.Go.Split.{join}
use proxyreverse.Build.Hooks.{
  newline, shebang, scan, trim_right, script_package, update_lines, update_hook,
  multiple_script_sections, managed_script_section_head, managed_script_section_foot,
}
use proxyreverse.Build.Hooks.Scan.{IsUnmarked, scan_section, scan-append, scan_second_foot}
use proxyreverse.Build.Hooks.Section.{
  IsHook, inner_lines, script_package-eq, length-script_package, inner_lines-IsUnmarked,
  update_lines_overruns,
}
use proxyreverse.Build.Hooks.Reruns.{
  IsLine, IsSplit, split-All, script_package-IsLine, update_hook-join, update_hook-join-err,
}

drop-All : (P : Text → Type 0) (n : ℕ) (xs : List Text) → All P xs → All P (drop n xs)
drop-All P zero xs h = h
drop-All P (suc n) [] h = h
drop-All P (suc n) (x ∷ xs) h = drop-All P n xs h.1

drop-snoc :
    (n : ℕ) (xs : List Text) (y : Text)
    → n ≤ length xs
    → drop n (xs ++ (y ∷ [])) ≡ drop n xs ++ (y ∷ [])
drop-snoc zero xs y h = refl
drop-snoc (suc n) [] y h = absurd (omega arith)
drop-snoc (suc n) (x ∷ xs) y h = drop-snoc n xs y (omega arith)

-- The last lines of a section: unmarked ones, and the foot.
last_lines :
    (scripts : List Text) (n : ℕ)
    → suc n < length scripts + 5
    → drop (suc n) (script_package scripts)
      ≡ drop n (inner_lines scripts) ++ (managed_script_section_foot ∷ [])
last_lines scripts n h =
    let k : length (script_package scripts) ≡ suc (length (inner_lines scripts) + 1) = omega (
      arith,
      ap length (script_package-eq scripts),
      length-append (inner_lines scripts) (managed_script_section_foot ∷ []),
    ) in
    ap (drop (suc n)) (script_package-eq scripts)
    ∙ drop-snoc n (inner_lines scripts) managed_script_section_foot
        (omega (arith, k, length-script_package scripts))

regroup :
    (h f : Text) (inner last rest : List Text)
    → (h ∷ (inner ++ (f ∷ []))) ++ ((last ++ (f ∷ [])) ++ rest)
      ≡ h ∷ (inner ++ (f ∷ (last ++ (f ∷ rest))))
regroup h f inner last rest =
    ap (λ l. h ∷ l)
      (append_assoc inner (f ∷ []) ((last ++ (f ∷ [])) ++ rest)
        ∙ ap (λ l. inner ++ (f ∷ l)) (append_assoc last (f ∷ []) rest))

module _ (first : Text) (pre old post : List Text) (head foot : Text)
    (hook : IsHook first pre old post head foot) where
  abbrev pub overrun_lines : List Text → List Text
  overrun_lines scripts =
      (first ∷ pre)
      ++ (script_package scripts
          ++ (drop (length old + 2) (script_package scripts)
              ++ drop (length scripts + 5 - (length old + 2)) post))

  overrun_lines-eq :
      (scripts : List Text)
      → length old + 2 < length scripts + 5
      → overrun_lines scripts
        ≡ (first ∷ pre)
          ++ (managed_script_section_head
              ∷ (inner_lines scripts
                  ++ (managed_script_section_foot
                      ∷ (drop (length old + 1) (inner_lines scripts)
                          ++ (managed_script_section_foot
                              ∷ drop (length scripts + 5 - (length old + 2)) post)))))
  overrun_lines-eq scripts longer =
      let rest = drop (length scripts + 5 - (length old + 2)) post in
      let e : length old + 2 ≡ suc (length old + 1) = omega arith in
      let last = last_lines scripts (length old + 1) (omega arith) in
      ap (λ l. (first ∷ pre) ++ (script_package scripts ++ (l ++ rest)))
        (ap (λ n. drop n (script_package scripts)) e ∙ last)
      ∙ ap
          (λ l.
            (first ∷ pre)
            ++ (l
                ++ ((drop (length old + 1) (inner_lines scripts)
                      ++ (managed_script_section_foot ∷ []))
                    ++ rest)))
          (script_package-eq scripts)
      ∙ ap (λ l. (first ∷ pre) ++ l)
          (regroup managed_script_section_head managed_script_section_foot (inner_lines scripts)
            (drop (length old + 1) (inner_lines scripts)) rest)

  scan_overrun :
      (scripts : List Text)
      → length old + 2 < length scripts + 5
      → scan 0 none none (overrun_lines scripts) ≡ err multiple_script_sections
  unfolding text_eq
  scan_overrun scripts longer =
      let dropped = drop (length old + 1) (inner_lines scripts) in
      let rest = drop (length scripts + 5 - (length old + 2)) post in
      let n = length (first ∷ pre) + (length (inner_lines scripts) + 2) in
      ap (scan 0 none none) (overrun_lines-eq scripts longer)
      ∙ scan_section (first ∷ pre) (inner_lines scripts)
          (dropped ++ (managed_script_section_foot ∷ rest)) managed_script_section_head
          managed_script_section_foot hook.before (inner_lines-IsUnmarked scripts) refl refl
      ∙ scan-append n (some (length (first ∷ pre))) (some n) dropped
          (managed_script_section_foot ∷ rest)
          (drop-All IsUnmarked (length old + 1) (inner_lines scripts)
            (inner_lines-IsUnmarked scripts))
      ∙ scan_second_foot (n + length dropped) n (some (length (first ∷ pre)))
          managed_script_section_foot rest refl

  overrun_refused :
      (scripts again : List Text)
      → length old + 2 < length scripts + 5
      → update_lines (overrun_lines scripts) again ≡ err multiple_script_sections
  unfolding update_lines
  overrun_refused scripts again longer =
      ground (arith, hook.bash, text_eq_iff (trim_right first) shebang, scan_overrun scripts longer)

  module _ (lines : IsSplit first pre old post head foot) where
    overrun-All : (scripts : List Text) → All IsLine scripts → All IsLine (overrun_lines scripts)
    overrun-All scripts h =
        let package_lines = script_package-IsLine scripts h in
        let rest =
          All-append IsLine (drop (length old + 2) (script_package scripts))
            (drop (length scripts + 5 - (length old + 2)) post)
            (drop-All IsLine (length old + 2) (script_package scripts) package_lines)
            (drop-All IsLine (length scripts + 5 - (length old + 2)) post lines.after) in
        All-append IsLine (first ∷ pre) _ lines.before
          (All-append IsLine (script_package scripts) _ package_lines rest)

    -- A hook whose new section is longer than the old one, with enough lines after it to hold what
    -- it has grown by, loses that many of these lines; the last lines of the section stand in their
    -- place. From then on every update of the hook is refused, for several sections.
    pub update_hook_overruns :
        (scripts again : List Text)
        → All IsLine scripts
        → length old + 2 < length scripts + 5
        → length scripts + 5 ≤ length old + 2 + length post
        → let overrun = join newline (
            (first ∷ pre)
            ++ (script_package scripts
                ++ (drop (length old + 2) (script_package scripts)
                    ++ drop (length scripts + 5 - (length old + 2)) post))) in
          (update_hook (join newline ((first ∷ pre) ++ (head ∷ (old ++ (foot ∷ post))))) scripts
            ≡ ok overrun)
          × (update_hook overrun again ≡ err multiple_script_sections)
    update_hook_overruns scripts again h longer room = (
      update_hook-join first (pre ++ (head ∷ (old ++ (foot ∷ post)))) scripts
          (split-All first pre old post head foot lines) _
          (update_lines_overruns first pre old post head foot hook scripts longer room),
      update_hook-join-err first _ again multiple_script_sections (overrun-All scripts h)
          (overrun_refused scripts again longer),
    )
