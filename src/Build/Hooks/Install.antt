-- ===== src/Build/Hooks/Install.antt =====
-- Hooks without a managed section, and the installation of a new one: `Autogen` of magefile.go.
use proxyreverse.Prelude.{
  ◌+◌, ◌≤◌, ◌<◌, ◌≡◌, ◌⊎◌, inl, inr, ◌∙◌, ap, sym, refl, true, false, Option, none, some, List, [],
  ◌∷◌, ◌++◌, Text, arith, length, length-append, All, All-left, ok, text_eq, text_eq_iff,
  text_eq_refl, leb, Bool-cases, lookup, insert, lookup-insert, if◌then◌else◌, Bool,
}
use mathlib.Core.List.{append-nil, append_assoc}
use proxyreverse.Go.Split.{join}
use proxyreverse.Build.Hooks.{
  newline, shebang, trim_right, script_package, replace_section, update_lines, update_hook,
  DirEntry, Files, hook_or_new, script_path, add_scripts, managed_script_section_head,
  managed_script_section_foot,
}
use proxyreverse.Build.Hooks.Scan.{IsUnmarked, scan_unmarked}
use proxyreverse.Build.Hooks.Update.{replace_fits}
use proxyreverse.Build.Hooks.Section.{
  IsHook, inner_lines, script_package-eq, inner_lines-IsUnmarked, update_lines_keeps,
}
use proxyreverse.Build.Hooks.Reruns.{
  IsLine, script_package-IsLine, length-inner_lines, update_hook-join,
}

replace_all :
    (first : Text) (rest script : List Text)
    → replace_section (first ∷ rest) 1 (length (first ∷ rest)) script ≡ first ∷ script
replace_all first rest script =
    let e : length (first ∷ rest) ≡ length (first ∷ []) + length rest = omega arith in
    ap (λ n. replace_section (first ∷ rest) 1 n script) e
    ∙ ap (λ l. replace_section (first ∷ l) 1 (length (first ∷ []) + length rest) script)
        (sym (append-nil rest))
    ∙ replace_fits (first ∷ []) rest [] script
        (fits (Bool-cases (leb (length script) (length rest))))
    ∙ ap (λ l. first ∷ l) (append-nil script)
  where
    fits :
        (leb (length script) (length rest) ≡ true) ⊎ (leb (length script) (length rest) ≡ false)
        → (length script ≤ length rest) ⊎ (length (rest ++ []) < length script)
    fits (inl short) = inl (ground arith)
    fits (inr long) = inr (ground (arith, append-nil rest))

update_lines_unmarked :
    (first : Text) (rest scripts : List Text)
    → trim_right first ≡ shebang
    → All IsUnmarked (first ∷ rest)
    → update_lines (first ∷ rest) scripts ≡ ok (first ∷ script_package scripts)
unfolding update_lines
update_lines_unmarked first rest scripts bash u = ground (
  arith,
  bash,
  text_eq_iff (trim_right first) shebang,
  scan_unmarked 0 none none (first ∷ rest) u,
  replace_all first rest (script_package scripts),
)

-- A hook of bash without a managed section keeps its first line alone: whatever else it did is
-- replaced by the section.
update_hook_unmarked :
    (first : Text) (rest scripts : List Text)
    → trim_right first ≡ shebang
    → All IsUnmarked (first ∷ rest)
    → All IsLine (first ∷ rest)
    → update_hook (join newline (first ∷ rest)) scripts
      ≡ ok (join newline (first ∷ script_package scripts))
update_hook_unmarked first rest scripts bash u lines =
    update_hook-join first rest scripts lines (first ∷ script_package scripts)
      (update_lines_unmarked first rest scripts bash u)

-- The hook that is written for some scripts, and none for no script.
abbrev pub written_hook : List Text → Option Text
written_hook [] = none
written_hook (s ∷ scripts) = some (join newline (shebang ∷ script_package (s ∷ scripts)))

shebang-IsUnmarked : IsUnmarked shebang × (trim_right shebang ≡ shebang)
unfolding text_eq trim_right
shebang-IsUnmarked = ((refl, refl), refl)

update_written_lines :
    (scripts : List Text) (s : Text)
    → update_lines (shebang ∷ script_package scripts) (scripts ++ (s ∷ []))
      ≡ ok (shebang ∷ script_package (scripts ++ (s ∷ [])))
unfolding text_eq
update_written_lines scripts s =
    let hook : IsHook shebang [] (inner_lines scripts) [] managed_script_section_head
        managed_script_section_foot =
      record {
        bash = shebang-IsUnmarked.1;
        before = (shebang-IsUnmarked.0, tt);
        inside = inner_lines-IsUnmarked scripts;
        after = tt;
        heads = refl;
        foots = refl;
      } in
    ap (λ l. update_lines (shebang ∷ l) (scripts ++ (s ∷ []))) (script_package-eq scripts)
    ∙ update_lines_keeps shebang [] (inner_lines scripts) [] managed_script_section_head
        managed_script_section_foot hook (scripts ++ (s ∷ []))
        (inr (omega (arith, length-inner_lines scripts, length-append scripts (s ∷ []))))
    ∙ ap (λ l. ok (shebang ∷ l)) (append-nil (script_package (scripts ++ (s ∷ []))))

written-IsLine :
    (scripts : List Text) → All IsLine scripts → All IsLine (shebang ∷ script_package scripts)
written-IsLine scripts h = (omega arith, script_package-IsLine scripts h)

update_written :
    (scripts : List Text) (s : Text)
    → All IsLine scripts
    → update_hook (hook_or_new (written_hook scripts)) (scripts ++ (s ∷ []))
      ≡ ok (join newline (shebang ∷ script_package (scripts ++ (s ∷ []))))
update_written [] s h =
    ap (λ t. update_hook t (s ∷ [])) new_hook
    ∙ update_hook_unmarked shebang ([] ∷ []) (s ∷ []) shebang-IsUnmarked.1
        (shebang-IsUnmarked.0, ((unfold text_eq in (refl, refl)), tt)) (omega arith)
  where
    new_hook : hook_or_new (written_hook []) ≡ join newline (shebang ∷ [] ∷ [])
    new_hook = unfold join in refl
update_written (d ∷ scripts) s h =
    update_hook-join shebang (script_package (d ∷ scripts)) ((d ∷ scripts) ++ (s ∷ []))
      (written-IsLine (d ∷ scripts) h) (shebang ∷ script_package ((d ∷ scripts) ++ (s ∷ [])))
      (update_written_lines (d ∷ scripts) s)

written_hook-snoc :
    (scripts : List Text) (s : Text)
    → written_hook (scripts ++ (s ∷ []))
      ≡ some (join newline (shebang ∷ script_package (scripts ++ (s ∷ []))))
written_hook-snoc [] s = refl
written_hook-snoc (d ∷ scripts) s = refl

module _ (relative : Text → Text) (git_hook_dir : Text) (writable : Text → Bool)
    (hook_name hook_path : Text) where
  -- The scripts of a hook's directory: its entries but for directories.
  abbrev pub scripts_in : List DirEntry → List Text
  scripts_in [] = []
  scripts_in ((script_name, is_dir) ∷ entries) =
      if is_dir
      then scripts_in entries
      else script_path relative git_hook_dir writable hook_name script_name ∷ scripts_in entries

  add_scripts_written :
      (entries : List DirEntry) (scripts : List Text) (files : Files)
      → writable hook_path ≡ true
      → All IsLine (scripts ++ scripts_in entries)
      → lookup hook_path files ≡ written_hook scripts
      → (files' : Files) × (add_scripts relative git_hook_dir writable hook_name hook_path scripts
            entries files
          ≡ (files', none))
        × (lookup hook_path files' ≡ written_hook (scripts ++ scripts_in entries))
        × ((path : Text) → text_eq hook_path path ≡ false → lookup path files' ≡ lookup path files)
  unfolding add_scripts
  add_scripts_written [] scripts files w h e =
      (files, refl, e ∙ ap written_hook (sym (append-nil scripts)), λ path d. refl)
  add_scripts_written ((name, true) ∷ entries) scripts files w h e =
      add_scripts_written entries scripts files w h e
  add_scripts_written ((name, false) ∷ entries) scripts files w h e =
      let s = script_path relative git_hook_dir writable hook_name name in
      let text = join newline (shebang ∷ script_package (scripts ++ (s ∷ []))) in
      let added = insert hook_path text files in
      let assoc : (scripts ++ (s ∷ [])) ++ scripts_in entries
          ≡ scripts ++ (s ∷ scripts_in entries) =
        append_assoc scripts (s ∷ []) (scripts_in entries) in
      let found : lookup hook_path added ≡ written_hook (scripts ++ (s ∷ [])) =
        lookup-insert hook_path hook_path text files
        ∙ ap (λ b. if b then some text else lookup hook_path files) (text_eq_refl hook_path)
        ∙ sym (written_hook-snoc scripts s) in
      let (files', run, read, others) =
        add_scripts_written entries (scripts ++ (s ∷ [])) added w (rw assoc h) found in
      let updated = update_written scripts s (All-left IsLine scripts _ h) in
      (
        files',
        ground (arith, e, updated, w, run),
        read ∙ ap written_hook assoc,
        λ path d. others path d ∙ lookup-insert hook_path path text files ∙ rw d refl,
      )

  -- Installing a hook that is not there, where it can be written, writes the first line of bash and
  -- the section with all scripts of its directory, in their order, or nothing if there is none, and
  -- no other file.
  pub add_scripts_installs :
      (entries : List DirEntry) (files : Files) (other : Text)
      → writable hook_path ≡ true
      → All IsLine (scripts_in entries)
      → lookup hook_path files ≡ none
      → text_eq hook_path other ≡ false
      → (files' : Files) × (add_scripts relative git_hook_dir writable hook_name hook_path []
            entries files
          ≡ (files', none))
        × (lookup hook_path files' ≡ written_hook (scripts_in entries))
        × (lookup other files' ≡ lookup other files)
  add_scripts_installs entries files other w h e different =
      let (files', run, written, kept) = add_scripts_written entries [] files w h e in
      (files', run, written, kept other different)
