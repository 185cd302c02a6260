-- ===== src/Build/Hooks/Reruns.antt =====
-- Running `Autogen` of magefile.go again on what it has written.
use proxyreverse.Prelude.{
  ◌+◌, ◌≤◌, ◌<◌, ◌≡◌, ◌⊎◌, inl, ◌∙◌, ap, sym, refl, List, [], ◌∷◌, ◌++◌, Text, arith, text_eq,
  length, length-append, All, All-append, ok, err, codes, ◌≢◌,
}
use mathlib.Core.List.{append_assoc}
use proxyreverse.Go.Split.{join, split-join, Lacks}
use proxyreverse.Build.Hooks.{
  newline, script_lines, script_package, update_lines, update_hook, managed_script_section_head,
  managed_script_section_foot, AutogenError,
}
use proxyreverse.Build.Hooks.Section.{
  IsHook, inner_lines, length-script_package, script_package-eq, inner_lines-IsUnmarked,
  update_lines_keeps,
}

abbrev pub IsLine : Text → Type 0
IsLine line = Lacks newline line

script_lines-IsLine : (scripts : List Text) → All IsLine scripts → All IsLine (script_lines scripts)
unfolding script_lines
script_lines-IsLine [] h = tt
script_lines-IsLine (s ∷ scripts) (h, hs) = (
  (
    omega arith,
    (
      omega arith,
      (omega arith, All-append (λ c. c ≢ newline) s (codes "\" || exit $?") h (omega arith)),
    ),
  ),
  script_lines-IsLine scripts hs,
)

pub script_package-IsLine :
    (scripts : List Text) → All IsLine scripts → All IsLine (script_package scripts)
unfolding script_package
script_package-IsLine scripts h =
    let rest =
      All-append IsLine (script_lines scripts) ([] ∷ managed_script_section_foot ∷ [])
        (script_lines-IsLine scripts h) (tt, (omega arith, tt)) in
    (omega arith, (omega arith, (tt, rest)))

-- Lines as the text of a hook.
pub update_hook-join :
    (line : Text) (lines scripts : List Text)
    → All IsLine (line ∷ lines)
    → (result : List Text) → update_lines (line ∷ lines) scripts ≡ ok result
    → update_hook (join newline (line ∷ lines)) scripts ≡ ok (join newline result)
unfolding update_hook
update_hook-join line lines scripts h result e = ground (arith, split-join newline line lines h, e)

pub update_hook-join-err :
    (line : Text) (lines scripts : List Text) (x : AutogenError)
    → All IsLine (line ∷ lines)
    → update_lines (line ∷ lines) scripts ≡ err x
    → update_hook (join newline (line ∷ lines)) scripts ≡ err x
unfolding update_hook
update_hook-join-err line lines scripts x h e = ground (arith, split-join newline line lines h, e)

pub length-inner_lines :
    (scripts : List Text) → length (inner_lines scripts) + 2 ≡ length scripts + 5
length-inner_lines scripts = omega (
  arith,
  length-script_package scripts,
  ap length (script_package-eq scripts),
  length-append (inner_lines scripts) (managed_script_section_foot ∷ []),
)

-- The lines of a hook are lines: none holds a newline.
pub record IsSplit (first : Text) (pre old post : List Text) (head foot : Text) : Type 0 where
  pub before : All IsLine (first ∷ pre)
  pub inside : All IsLine old
  pub after : All IsLine post
  pub heads : IsLine head
  pub foots : IsLine foot

pub split-All :
    (first : Text) (pre old post : List Text) (head foot : Text)
    → IsSplit first pre old post head foot
    → All IsLine ((first ∷ pre) ++ (head ∷ (old ++ (foot ∷ post))))
split-All first pre old post head foot s =
    All-append IsLine (first ∷ pre) (head ∷ (old ++ (foot ∷ post))) s.before
      (s.heads, All-append IsLine old (foot ∷ post) s.inside (s.foots, s.after))

module _ (first : Text) (pre old post : List Text) (head foot : Text)
    (hook : IsHook first pre old post head foot)
    (lines : IsSplit first pre old post head foot) where
  abbrev pub hook_text : Text
  hook_text = join newline ((first ∷ pre) ++ (head ∷ (old ++ (foot ∷ post))))

  pub updated-IsHook :
      (scripts : List Text)
      → IsHook first pre
          (inner_lines scripts)
          post
          managed_script_section_head
          managed_script_section_foot
  unfolding text_eq
  updated-IsHook scripts = record {
    bash = hook.bash;
    before = hook.before;
    inside = inner_lines-IsUnmarked scripts;
    after = hook.after;
    heads = refl;
    foots = refl;
  }

  updated-All :
      (scripts : List Text)
      → All IsLine scripts
      → All IsLine ((first ∷ pre) ++ (script_package scripts ++ post))
  updated-All scripts h =
      All-append IsLine (first ∷ pre) (script_package scripts ++ post) lines.before (
        All-append IsLine (script_package scripts) post (script_package-IsLine scripts h)
          lines.after)

  pub updated-eq :
      (scripts : List Text)
      → (first ∷ pre)
          ++ (managed_script_section_head
              ∷ (inner_lines scripts ++ (managed_script_section_foot ∷ post)))
        ≡ (first ∷ pre) ++ (script_package scripts ++ post)
  updated-eq scripts =
      ap (λ l. (first ∷ pre) ++ l)
        (ap (λ l. managed_script_section_head ∷ l)
            (sym (append_assoc (inner_lines scripts) (managed_script_section_foot ∷ []) post))
          ∙ ap (λ l. l ++ post) (sym (script_package-eq scripts)))

  -- A hook whose old section is at least as long as the new one, or followed by too few lines to
  -- hold the new one, gets the new section in the place of the old one and keeps all other lines;
  -- and running the update again changes nothing.
  pub update_hook_again :
      (scripts : List Text)
      → All IsLine scripts
      → (length scripts + 5 ≤ length old + 2) ⊎ (length old + 2 + length post < length scripts + 5)
      → let updated = join newline ((first ∷ pre) ++ (script_package scripts ++ post)) in
        (update_hook hook_text scripts ≡ ok updated) × (update_hook updated scripts ≡ ok updated)
  update_hook_again scripts h fits =
      let kept = update_lines_keeps first pre old post head foot hook scripts fits in
      let again =
        update_lines_keeps first pre (inner_lines scripts) post managed_script_section_head
          managed_script_section_foot (updated-IsHook scripts) scripts
          (inl (omega (arith, length-inner_lines scripts))) in
      (
        update_hook-join first (pre ++ (head ∷ (old ++ (foot ∷ post)))) scripts
            (split-All first pre old post head foot lines) _ kept,
        update_hook-join first (pre ++ (script_package scripts ++ post)) scripts
            (updated-All scripts h) _
            (ap (λ l. update_lines l scripts) (sym (updated-eq scripts)) ∙ again),
      )
