-- ===== src/Build/Hooks.antt =====
-- `Autogen` of magefile.go: the managed section of the git hooks.
pub mod Scan
pub mod Update
pub mod Section
pub mod Reruns
pub mod Overrun
pub mod Install
use proxyreverse.Prelude.{
  ℕ, zero, suc, ◌+◌, ◌≡◌, Bool, true, false, Option, none, some, List, [], ◌∷◌, ◌++◌, Text, codes,
  text_eq, length, take, drop, leb, ◌==◌, ◌||◌, if◌then◌else◌, Assoc, lookup, insert, Result, ok,
  err, ◌>>=◌,
}
use proxyreverse.Go.Split.{split, join}
use proxyreverse.Go.Paths.{path_join}

abbrev pub newline : ℕ
newline = 10

abbrev pub tab : ℕ
tab = 9

-- `constManagedScriptSectionHead` and `constManagedScriptSectionFoot`
abbrev pub managed_script_section_head : Text
managed_script_section_head = codes "## ++ BUILD SYSTEM MANAGED - DO NOT EDIT ++ ##"

abbrev pub managed_script_section_foot : Text
managed_script_section_foot = codes "## -- BUILD SYSTEM MANAGED - DO NOT EDIT -- ##"

abbrev pub shebang : Text
shebang = codes "#!/bin/bash"

pub data AutogenError : Type 0 where
  multiple_script_sections unknown_pre_commit_script_format : AutogenError
  unwritable : Text → AutogenError

-- `strings.TrimPrefix(line, " ")`
abbrev pub trim_space : Text → Text
trim_space [] = []
trim_space (c ∷ s) = if c == b' ' then s else c ∷ s

-- `strings.TrimRight(line, " \t")`
unfoldable pub trim_right : Text → Text
trim_right [] = []
trim_right (c ∷ s) = elim (trim_right s) [
  | [] ↦ if c == b' ' || c == tab then [] else c ∷ []
  | d ∷ r ↦ c ∷ d ∷ r
]

abbrev pub is_head : Text → Bool
is_head line = text_eq (trim_space line) managed_script_section_head

abbrev pub is_foot : Text → Bool
is_foot line = text_eq (trim_space line) managed_script_section_foot

-- The search for the section: the line of the head, and the line after the foot; `none` is -1.
unfoldable pub scan :
    ℕ → Option ℕ → Option ℕ → List Text → Result AutogenError (Option ℕ × Option ℕ)
scan idx head_at tail_at [] = ok (head_at, tail_at)
scan idx head_at tail_at (line ∷ lines) =
    let after_head = scan (suc idx) (some idx) tail_at lines in
    let after_foot = scan (suc idx) head_at (some (suc idx)) lines in
    let rest = scan (suc idx) head_at tail_at lines in
    if is_head line
    then elim head_at [ some first ↦ err multiple_script_sections | none ↦ after_head ]
    else if is_foot line
    then elim tail_at [ some first ↦ err multiple_script_sections | none ↦ after_foot ]
    else rest

abbrev pub script_line : Text → Text
script_line path = codes "\"./" ++ (path ++ codes "\" || exit $?")

unfoldable pub script_lines : List Text → List Text
script_lines [] = []
script_lines (path ∷ paths) = script_line path ∷ script_lines paths

-- `scriptPackage`
unfoldable pub script_package : List Text → List Text
script_package scripts =
    managed_script_section_head
    ∷ codes "# These lines were added by go run mage.go autogen."
    ∷ []
    ∷ (script_lines scripts ++ ([] ∷ managed_script_section_foot ∷ []))

-- `append(array[:n], xs...)` where the array is the whole of its slice: the array afterwards, which
-- the append writes into if there is room, and the elements of the result.
unfoldable pub append_to : List Text → ℕ → List Text → List Text × List Text
append_to array n xs =
    if leb (n + length xs) (length array)
    then (take n array ++ (xs ++ drop (n + length xs) array), take n array ++ xs)
    else (array, take n array ++ xs)

-- The new lines of a hook: the second append reads the array that the first may have written.
unfoldable pub replace_section : List Text → ℕ → ℕ → List Text → List Text
unfolding append_to
replace_section split_hook head_at tail_at script =
    let (array, updated) = append_to split_hook head_at script in updated ++ drop tail_at array

-- the first line; `strings.Split` gives at least one
abbrev pub first_line : List Text → Text
first_line [] = []
first_line (line ∷ lines) = line

-- a position that was not found is replaced by another
abbrev pub at_or : ℕ → Option ℕ → ℕ
at_or n none = n
at_or n (some i) = i

-- The update of a hook's text for the scripts so far.
unfoldable pub update_lines : List Text → List Text → Result AutogenError (List Text)
unfolding scan replace_section script_package
update_lines split_hook scripts =
    if text_eq (trim_right (first_line split_hook)) shebang
    then (scan 0 none none split_hook >>= λ found. ok (
        replace_section split_hook (at_or 1 found.0) (at_or (length split_hook) found.1)
          (script_package scripts)))
    else err unknown_pre_commit_script_format

unfoldable pub update_hook : Text → List Text → Result AutogenError Text
unfolding update_lines
update_hook text scripts =
    update_lines (split newline text) scripts >>= λ lines. ok (join newline lines)

-- An entry of a directory: its name, and whether it is a directory.
abbrev pub DirEntry : Type 0
DirEntry = Text × Bool

-- The files by their paths.
abbrev pub Files : Type 0
Files = Assoc Text

-- a hook that cannot be read is an empty script
abbrev pub hook_or_new : Option Text → Text
hook_or_new none = shebang ++ (newline ∷ [])
hook_or_new (some text) = text

-- `filepath.Rel` from the repository's root, and the files that can be written.
module _ (relative : Text → Text) (git_hook_dir : Text) (writable : Text → Bool) where
  abbrev pub script_path : Text → Text → Text
  script_path hook_name script_name =
      relative (path_join (git_hook_dir ∷ hook_name ∷ script_name ∷ []))

  -- The loop over the scripts of one hook; the hook is written for each of them.
  unfoldable pub add_scripts :
      Text → Text → List Text → List DirEntry → Files → Files × Option AutogenError
  add_scripts hook_name hook_path scripts [] files = (files, none)
  add_scripts hook_name hook_path scripts ((script_name, is_dir) ∷ more) files =
      let scripts' = scripts ++ (script_path hook_name script_name ∷ []) in
      let skipped = add_scripts hook_name hook_path scripts more files in
      if is_dir
      then skipped
      else elim (update_hook (hook_or_new (lookup hook_path files)) scripts') [
        | err e ↦ (files, some e)
        | ok text ↦
            let rest =
              add_scripts hook_name hook_path scripts' more (insert hook_path text files) in
            if writable hook_path then rest else (files, some (unwritable hook_path))
      ]

  -- `Autogen`, on the entries of the directory of hooks, each with its own entries.
  unfoldable pub autogen : List (DirEntry × List DirEntry) → Files → Files × Option AutogenError
  autogen [] files = (files, none)
  autogen (((hook_name, is_dir), entries) ∷ hooks) files =
      let skipped = autogen hooks files in
      let (files', failed) =
        add_scripts hook_name (codes ".git/hooks/" ++ hook_name) [] entries files in
      let rest = autogen hooks files' in
      if is_dir then elim failed [ some e ↦ (files', some e) | none ↦ rest ] else skipped
