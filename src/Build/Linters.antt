-- ===== src/Build/Linters.antt =====
-- The linter targets of magefile.go.
pub mod Listed
use proxyreverse.Prelude.{
  ℕ, zero, suc, Bool, true, false, ◌||◌, Option, none, some, List, [], ◌∷◌, ◌++◌, Text, codes,
  text_eq, ◌==◌, if◌then◌else◌, Result, ok, err, ◌>>=◌, Assoc, delete,
}
use proxyreverse.Go.Panic.{Panic}
use proxyreverse.Go.Split.{cut, split}
use proxyreverse.Build.Directories.{must}
use proxyreverse.Build.Hooks.{newline, tab, first_line}
use proxyreverse.Build.Settings.{lint_args}

abbrev pub is_blank : ℕ → Bool
is_blank c = c == b' ' || c == newline || c == tab

unfoldable pub trim_end : Text → Text
trim_end [] = []
trim_end (c ∷ s) = elim (trim_end s) [ [] ↦ if is_blank c then [] else c ∷ [] | d ∷ r ↦ c ∷ d ∷ r ]

unfoldable pub trim_start : Text → Text
trim_start [] = []
trim_start (c ∷ s) = if is_blank c then trim_start s else c ∷ s

-- `strings.Trim(line, " \n\t")`
unfoldable pub trim : Text → Text
unfolding trim_end trim_start
trim s = trim_start (trim_end s)

-- `bio.ReadString('\n')` without its error: the line with its newline, or at the end of the output
-- what is left, which may be nothing; and what is left to read.
unfoldable pub read_string : Text → Text × Text
read_string s = elim (cut newline s) [ none ↦ (s, []) | some (u, v) ↦ (u ++ (newline ∷ []), v) ]

abbrev pub enabled_heading : Text
enabled_heading = codes "Enabled by your configuration linters:"

abbrev pub disabled_heading : Text
disabled_heading = codes "Disabled by your configuration linters:"

-- The name at the start of a line, before a colon and before a parenthesis.
unfoldable pub linter_of : Text → Text
linter_of line = trim (first_line (split b'(' (first_line (split b':' line))))

-- The loop of `listLinters` over what is left of the output; `none` if it has not ended in so many
-- rounds.
unfoldable pub read_linters : ℕ → Text → List Text → Option (List Text)
unfolding read_string
read_linters zero output linters = none
read_linters (suc fuel) output linters =
    let line = trim (read_string output).0 in
    let left = (read_string output).1 in
    let skip = read_linters fuel left linters in
    let more = read_linters fuel left (linters ++ (linter_of line ∷ [])) in
    if text_eq line [] || text_eq line enabled_heading
    then skip
    else if text_eq line disabled_heading
    then some linters
    else more

pub data LintError (Failure : Type 0) : Type 0 where
  linters_failed no_temp_file : Failure → LintError Failure
  lint_bisect_failed : LintError Failure

-- `listLinters`, on what the command printed, in so many rounds.
unfoldable pub list_linters :
    {Failure : Type 0} → ℕ → Result Failure Text → Option (Result (LintError Failure) (List Text))
unfolding read_linters
list_linters fuel (err e) = some (err (linters_failed e))
list_linters fuel (ok output) = elim (read_linters fuel output []) [
  | none ↦ none
  | some linters ↦ some (ok linters)
]

-- `len(errs) > 0`
unfoldable pub any_failed : {A : Type 0} → List A → Bool
any_failed [] = false
any_failed (x ∷ xs) = true

-- The configuration that `LintersBisect` writes to its temporary file: that of the project without
-- its linters, read and printed by a YAML library. What cannot be read of it is left out.
module _ {V E : Type 0} (unmarshal : Text → Assoc V) (marshal : Assoc V → Text × Option E) where
  unfoldable pub bisect_config : Text × Option E → Result Panic Text
  unfolding must
  bisect_config file =
      must file >>= λ text. must (marshal (delete (codes "linters") (unmarshal text)))

-- golangci-lint, which takes its arguments, the concurrency, the printed deadline and the
-- directories of the sources.
module _ {Failure : Type 0} (run_golangci : List Text → Option Failure) where
  -- The directories that have an error, of `LintBisect`.
  unfoldable pub lint_failures : ℕ → Text → List Text → List Failure
  lint_failures jobs deadline [] = []
  lint_failures jobs deadline (dir ∷ dirs) =
      let rest = lint_failures jobs deadline dirs in
      elim (run_golangci (lint_args jobs deadline (codes "run" ∷ dir ∷ []))) [
        | none ↦ rest
        | some e ↦ e ∷ rest
      ]

  -- The linters that fail, of `LintersBisect`.
  unfoldable pub failed_linters : ℕ → Text → Text → List Text → List Text → List Text
  failed_linters jobs deadline temp_config go_dirs [] = []
  failed_linters jobs deadline temp_config go_dirs (linter ∷ linters) =
      let args =
        codes "run"
        ∷ (codes "--config=" ++ temp_config)
        ∷ codes "--disable-all"
        ∷ (codes "--enable=" ++ linter)
        ∷ [] in
      let rest = failed_linters jobs deadline temp_config go_dirs linters in
      elim (run_golangci (lint_args jobs deadline args ++ go_dirs)) [
        | none ↦ rest
        | some e ↦ linter ∷ rest
      ]

  -- `Lint`, after the tools.
  unfoldable pub lint : ℕ → Text → List Text → Option Failure
  lint jobs deadline go_dirs = run_golangci (lint_args jobs deadline (codes "run" ∷ []) ++ go_dirs)

  unfoldable pub lint_bisect : ℕ → Text → List Text → Option (LintError Failure)
  unfolding lint_failures any_failed
  lint_bisect jobs deadline go_dirs =
      if any_failed (lint_failures jobs deadline go_dirs) then some lint_bisect_failed else none

  -- `LintersBisect` after the listing; `none` while the listing has not ended.
  unfoldable bisect_listed :
      ℕ
      → Text
      → List Text
      → Result Failure Text
      → Option (Result (LintError Failure) (List Text))
      → Option (Option (LintError Failure))
  unfolding failed_linters any_failed
  bisect_listed jobs deadline go_dirs temp_config none = none
  bisect_listed jobs deadline go_dirs temp_config (some (err e)) = some (some e)
  bisect_listed jobs deadline go_dirs (err e) (some (ok linters)) = some (some (no_temp_file e))
  bisect_listed jobs deadline go_dirs (ok temp) (some (ok linters)) = some (
      if any_failed (failed_linters jobs deadline temp go_dirs linters)
      then some lint_bisect_failed
      else none)

  -- `LintersBisect`, with the temporary file for the configuration and what the listing printed.
  unfoldable pub linters_bisect :
      ℕ
      → ℕ
      → Text
      → List Text
      → Result Failure Text
      → Result Failure Text
      → Option (Option (LintError Failure))
  unfolding bisect_listed list_linters
  linters_bisect fuel jobs deadline go_dirs temp_config output =
      bisect_listed jobs deadline go_dirs temp_config (list_linters fuel output)
