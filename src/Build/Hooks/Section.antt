-- ===== src/Build/Hooks/Section.antt =====
-- A hook with a managed section, updated by `Autogen` of magefile.go.
use proxyreverse.Prelude.{
  ◌+◌, ◌-◌, ◌≤◌, ◌<◌, ◌≡◌, ◌⊎◌, inl, inr, ◌∙◌, ap, sym, refl, true, some, List, [], ◌∷◌, ◌++◌, Text,
  arith, text_eq, text_eq_iff, length, length-append, drop, All, All-append, ok, codes,
}
use mathlib.Core.List.{append_assoc}
use proxyreverse.Build.Hooks.{
  shebang, is_head, is_foot, trim_right, script_lines, script_package, replace_section,
  update_lines, managed_script_section_head, managed_script_section_foot,
}
use proxyreverse.Build.Hooks.Scan.{IsUnmarked, scan_section, scan_unmarked}
use proxyreverse.Build.Hooks.Update.{replace_fits, replace_overruns}

-- The lines of a script: the first is that of bash, and one section stands between others.
pub record IsHook (first : Text) (pre old post : List Text) (head foot : Text) : Type 0 where
  pub bash : trim_right first ≡ shebang
  pub before : All IsUnmarked (first ∷ pre)
  pub inside : All IsUnmarked old
  pub after : All IsUnmarked post
  pub heads : is_head head ≡ true
  pub foots : is_foot foot ≡ true

-- The lines between the head and the foot of a section.
abbrev pub inner_lines : List Text → List Text
inner_lines scripts =
    codes "# These lines were added by go run mage.go autogen."
    ∷ []
    ∷ (script_lines scripts ++ ([] ∷ []))

pub length-script_package :
    (scripts : List Text) → length (script_package scripts) ≡ length scripts + 5
unfolding script_package script_lines
length-script_package [] = omega arith
length-script_package (s ∷ scripts) = omega (arith, length-script_package scripts)

pub script_package-eq :
    (scripts : List Text)
    → script_package scripts
      ≡ managed_script_section_head ∷ (inner_lines scripts ++ (managed_script_section_foot ∷ []))
unfolding script_package
script_package-eq scripts =
    ap
      (λ l.
        managed_script_section_head
        ∷ (codes "# These lines were added by go run mage.go autogen." ∷ ([] ∷ l)))
      (sym (append_assoc (script_lines scripts) ([] ∷ []) (managed_script_section_foot ∷ [])))

script_lines-IsUnmarked : (scripts : List Text) → All IsUnmarked (script_lines scripts)
unfolding script_lines text_eq
script_lines-IsUnmarked [] = tt
script_lines-IsUnmarked (s ∷ scripts) = ((refl, refl), script_lines-IsUnmarked scripts)

pub inner_lines-IsUnmarked : (scripts : List Text) → All IsUnmarked (inner_lines scripts)
unfolding text_eq
inner_lines-IsUnmarked scripts =
    let rest =
      All-append IsUnmarked (script_lines scripts) ([] ∷ []) (script_lines-IsUnmarked scripts)
        ((refl, refl), tt) in
    ((refl, refl), ((refl, refl), rest))

module _ (first : Text) (pre old post : List Text) (head foot : Text)
    (hook : IsHook first pre old post head foot) where
  abbrev pub hook_lines : List Text
  hook_lines = (first ∷ pre) ++ (head ∷ (old ++ (foot ∷ post)))

  -- An update replaces the section that was found.
  update_lines_section :
      (scripts : List Text)
      → update_lines hook_lines scripts
        ≡ ok (
            replace_section hook_lines
              (length (first ∷ pre))
              (length (first ∷ pre) + (length old + 2))
              (script_package scripts))
  unfolding update_lines
  update_lines_section scripts = ground (
    arith,
    hook.bash,
    text_eq_iff (trim_right first) shebang,
    scan_section (first ∷ pre) old post head foot hook.before hook.inside hook.heads hook.foots,
    scan_unmarked (length (first ∷ pre) + (length old + 2)) (some (length (first ∷ pre)))
        (some (length (first ∷ pre) + (length old + 2))) post hook.after,
  )

  abbrev old_section : List Text
  old_section = head ∷ (old ++ (foot ∷ []))

  hook_lines-eq : hook_lines ≡ (first ∷ pre) ++ (old_section ++ post)
  hook_lines-eq = ap (λ l. (first ∷ pre) ++ (head ∷ l)) (sym (append_assoc old (foot ∷ []) post))

  length-old_section : length old_section ≡ length old + 2
  length-old_section = omega (arith, length-append old (foot ∷ []))

  replace_section-eq :
      (script : List Text)
      → replace_section hook_lines
          (length (first ∷ pre))
          (length (first ∷ pre) + (length old + 2))
          script
        ≡ replace_section
            ((first ∷ pre) ++ (old_section ++ post))
            (length (first ∷ pre))
            (length (first ∷ pre) + length old_section)
            script
  replace_section-eq script =
      ap
        (λ l.
          replace_section l (length (first ∷ pre)) (length (first ∷ pre) + (length old + 2)) script)
        hook_lines-eq
      ∙ ap
          (λ n.
            replace_section ((first ∷ pre) ++ (old_section ++ post)) (length (first ∷ pre))
              (length (first ∷ pre) + n) script)
          (sym length-old_section)

  -- If the new section is no longer than the old one, or longer than all the lines from the old one
  -- on, it takes the place of the old one, and all other lines stay.
  pub update_lines_keeps :
      (scripts : List Text)
      → (length scripts + 5 ≤ length old + 2) ⊎ (length old + 2 + length post < length scripts + 5)
      → update_lines hook_lines scripts ≡ ok ((first ∷ pre) ++ (script_package scripts ++ post))
  update_lines_keeps scripts fits =
      update_lines_section scripts
      ∙ ap ok (
          replace_section-eq (script_package scripts)
          ∙ replace_fits (first ∷ pre) old_section post (script_package scripts) (grow fits))
    where
      grow :
          (length scripts + 5 ≤ length old + 2)
            ⊎ (length old + 2 + length post < length scripts + 5)
          → (length (script_package scripts) ≤ length old_section)
            ⊎ (length (old_section ++ post) < length (script_package scripts))
      grow (inl short) =
          inl (omega (arith, short, length-old_section, length-script_package scripts))
      grow (inr long) = inr (
          omega (
            arith,
            long,
            length-old_section,
            length-append old_section post,
            length-script_package scripts,
          ))

  pub update_lines_overruns :
      (scripts : List Text)
      → length old + 2 < length scripts + 5
      → length scripts + 5 ≤ length old + 2 + length post
      → update_lines hook_lines scripts
        ≡ ok (
            (first ∷ pre)
            ++ (script_package scripts
                ++ (drop (length old + 2) (script_package scripts)
                    ++ drop (length scripts + 5 - (length old + 2)) post)))
  update_lines_overruns scripts longer room =
      let k = length-script_package scripts in
      let m = length-old_section in
      update_lines_section scripts
      ∙ ap ok (
          replace_section-eq (script_package scripts)
          ∙ replace_overruns (first ∷ pre) old_section post (script_package scripts)
              (omega (arith, k, m)) (omega (arith, k, m, length-append old_section post))
          ∙ ap
              (λ n.
                (first ∷ pre)
                ++ (script_package scripts
                    ++ (drop n (script_package scripts)
                        ++ drop (length (script_package scripts) - n) post)))
              m
          ∙ ap
              (λ n.
                (first ∷ pre)
                ++ (script_package scripts
                    ++ (drop (length old + 2) (script_package scripts)
                        ++ drop (n - (length old + 2)) post)))
              k)
