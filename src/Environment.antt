-- ===== src/Environment.antt =====
-- pkg/envutil/inputprocessors.go: the environment as a map.
use proxyreverse.Prelude.{
  ◌≡◌, ◌↔◌, ◌≢◌, refl, Option, Option-cases, inl, inr, none, some, List, [], ◌∷◌, Text, arith,
  length, All, Assoc, ◌==◌, if◌then◌else◌, codes,
}
use proxyreverse.Go.Split.{split_two, cut}

-- `EnvironmentVariablesError`
pub record EnvironmentVariablesError : Type 0 where
  pub reason : Text
  pub raw_env_var : Text

-- The loop of `FromEnvironment`: the map, which it never writes, and the error.
unfoldable pub check_all : Assoc Text → List Text → Assoc Text × Option EnvironmentVariablesError
check_all results [] = (results, none)
check_all results (keyval ∷ env) =
    let rest = check_all results env in
    if length (split_two b'=' keyval) == 2 then rest else (
      results,
      some (record {
        reason = codes "Could not find an equals value to split on";
        raw_env_var = keyval;
      }),
    )

-- `FromEnvironment`; without a list the environment of the process is taken.
unfoldable pub from_environment :
    List Text → Option (List Text) → Assoc Text × Option EnvironmentVariablesError
unfolding check_all
from_environment environ none = check_all [] environ
from_environment environ (some env) = check_all [] env

-- A variable that can be split: it holds an equals sign.
abbrev pub HasEquals : Text → Type 0
HasEquals keyval = cut b'=' keyval ≢ none

check_all-fst : (results : Assoc Text) (env : List Text) → (check_all results env).0 ≡ results
unfolding check_all
check_all-fst results [] = refl
check_all-fst results (keyval ∷ env) = ground (arith, check_all-fst results env)

check_all_iff :
    (results : Assoc Text) (env : List Text)
    → ((check_all results env).1 ≡ none) ↔ All HasEquals env
unfolding check_all split_two
check_all_iff results [] = (λ e. tt, λ h. refl)
check_all_iff results (keyval ∷ env) =
    let ih = check_all_iff results env in
    elim (Option-cases (cut b'=' keyval)) [
      | inl missing ↦ (λ e. absurd (ground (arith, missing)), λ h. absurd (h.0 missing))
      | inr (parts, found) ↦ (
        λ e. (λ m. ground (arith, found), ih.0 (ground (arith, found))),
        λ h. ground (arith, found, ih.1 h.1),
      )
    ]

-- The environment is accepted exactly when every variable holds an equals sign, and whatever it
-- is, the map that comes back is empty.
pub from_environment_empty :
    (environ env : List Text)
    → ((from_environment environ (some env)).0 ≡ [])
      × (((from_environment environ (some env)).1 ≡ none) ↔ All HasEquals env)
unfolding from_environment
from_environment_empty environ env = (check_all-fst [] env, check_all_iff [] env)
