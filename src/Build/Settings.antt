-- ===== src/Build/Settings.antt =====
-- The settings of magefile.go that the environment gives: names, version and concurrency. `int` and
-- `uint` have 64 bits, as on the platforms that the build runs on.
use proxyreverse.Prelude.{
  ℕ, suc, zero, ◌-◌, ◌^◌, ◌≡◌, ◌≤◌, ◌<◌, refl, Option, none, some, List, [], ◌∷◌, ◌++◌, Text, codes,
  text_eq, text_eq_iff, if◌then◌else◌, Result, ok, err, ℤ, pos, negsuc, ltb, arith, Bool-cases, inl,
  inr,
}
use proxyreverse.Go.Decimal.{NumError, parse_uint, parse_uint-decimal, decimal, decimal-ne-nil}
use proxyreverse.Go.Panic.{Panic, must_failed, nil_dereference}
use proxyreverse.Go.Split.{split}

abbrev pub max_uint : ℕ
max_uint = 2 ^ 64 - 1

-- `int(pv)` of a `uint64`
abbrev pub int_of : ℕ → ℤ
int_of pv = if ltb pv (2 ^ 63) then pos pv else negsuc (max_uint - pv)

-- The positive number, or 1 where `i < 1`.
abbrev pub at_least_one : ℤ → ℕ
at_least_one (pos zero) = 1
at_least_one (pos (suc n)) = suc n
at_least_one (negsuc n) = 1

concurrency_of : ℕ × Option NumError → Result Panic ℕ
concurrency_of (pv, some e) = err must_failed
concurrency_of (pv, none) = ok (at_least_one (int_of pv))

-- `path.Base` keeps the last part that is not empty.
unfoldable pub last_part : Text → List Text → Text
last_part found [] = found
last_part found (part ∷ parts) =
    if text_eq part [] then last_part found parts else last_part part parts

unfoldable pub path_base : Text → Text
unfolding last_part
path_base s = if text_eq s [] then codes "." else last_part (codes "/") (split b'/' s)

-- `os.Getenv`, which gives an empty text for a variable that is not set.
module _ (getenv : Text → Text) where
  unfoldable pub product_name : Text → Text
  unfolding path_base
  product_name working_dir =
      let name = getenv (codes "PRODUCT_NAME") in
      if text_eq name [] then path_base working_dir else name

  unfoldable pub container_name : Text → Text
  container_name docker_image_name =
      let name = getenv (codes "CONTAINER_NAME") in
      if text_eq name [] then docker_image_name else name

  -- `sh.Output("git", ...)` without its error.
  module _ (git : List Text → Text) where
    unfoldable pub version : Text
    version =
        let v = getenv (codes "VERSION") in
        let out = git (codes "describe" ∷ codes "--dirty" ∷ []) in
        let commit = git (codes "describe" ∷ codes "--dirty" ∷ codes "--always" ∷ []) in
        if text_eq v []
        then (if text_eq out []
            then (if text_eq commit [] then codes "v0.0.0" else codes "v0.0.0-0-" ++ commit)
            else out)
        else v

    unfoldable pub version_short : Text
    version_short =
        let v = getenv (codes "VERSION_SHORT") in
        let out = git (codes "describe" ∷ codes "--abbrev=0" ∷ []) in
        if text_eq v [] then (if text_eq out [] then codes "v0.0.0" else out) else v

  unfoldable pub concurrency : ℕ → Result Panic ℕ
  unfolding concurrency_of
  concurrency num_cpu =
      let v = getenv (codes "CONCURRENCY") in
      if text_eq v [] then ok num_cpu else concurrency_of (parse_uint max_uint v)

  -- `time.ParseDuration` without its error, in nanoseconds.
  unfoldable pub linter_deadline : (Text → ℤ) → ℤ
  linter_deadline parse_duration =
      let v = getenv (codes "LINTER_DEADLINE") in
      if text_eq v []
      then pos 60000000000
      else elim (parse_duration v) [ pos zero ↦ pos 60000000000 | d ↦ d ]

-- The arguments of golangci-lint, with the concurrency and the printed deadline.
unfoldable pub lint_args : ℕ → Text → List Text → List Text
lint_args jobs deadline args = codes "-j" ∷ decimal jobs ∷ (codes "--timeout=" ++ deadline) ∷ args

-- `versionSymbol`, with the reading of `go.mod` and `modfile.ParseLax`, which gives the path of the
-- module if the file names one.
unfoldable pub version_symbol : Option Text → (Text → Option (Option Text)) → Result Panic Text
version_symbol none parse_lax = err must_failed
version_symbol (some gomod) parse_lax = elim (parse_lax gomod) [
  | none ↦ err must_failed
  | some none ↦ err nil_dereference
  | some (some path) ↦ ok (path ++ codes "/version.Version")
]

at_least_one-bounds :
    (pv : ℕ) → (1 ≤ at_least_one (int_of pv)) × (at_least_one (int_of pv) < 2 ^ 63)
at_least_one-bounds zero = omega arith
at_least_one-bounds (suc n) = elim (Bool-cases (ltb (suc n) (2 ^ 63))) [
  | inl e ↦ rw e (ground arith)
  | inr e ↦ rw e (omega arith)
]

concurrency_of-bounds :
    (r : ℕ × Option NumError) (c : ℕ) → concurrency_of r ≡ ok c → (1 ≤ c) × (c < 2 ^ 63)
unfolding concurrency_of
concurrency_of-bounds (pv, some e) c h = absurd (ground arith)
concurrency_of-bounds (pv, none) c h = ground (arith, at_least_one-bounds pv)

at_least_one-int_of :
    (n : ℕ) → at_least_one (int_of n) ≡ (if ltb 0 n then (if ltb n (2 ^ 63) then n else 1) else 1)
at_least_one-int_of zero = refl
at_least_one-int_of (suc n) = ground arith

-- On a machine with some processors, fewer than 2^63, the concurrency that is not a panic is at
-- least one and fits an `int`.
pub concurrency_bounds :
    (getenv : Text → Text) (num_cpu c : ℕ)
    → 1 ≤ num_cpu
    → num_cpu < 2 ^ 63
    → concurrency getenv num_cpu ≡ ok c
    → (1 ≤ c) × (c < 2 ^ 63)
unfolding concurrency
concurrency_bounds getenv num_cpu c some_cpu fits e =
    ground (arith, concurrency_of-bounds (parse_uint max_uint (getenv (codes "CONCURRENCY"))) c)

-- A number of 64 bits in CONCURRENCY is taken as it is if it is from 1 to 2^63 - 1; 0 and the larger
-- ones, which `int` takes for negative, give 1.
concurrency-decimal :
    (getenv : Text → Text) (num_cpu n : ℕ)
    → n ≤ max_uint
    → getenv (codes "CONCURRENCY") ≡ decimal n
    → concurrency getenv num_cpu ≡ ok (if ltb 0 n then (if ltb n (2 ^ 63) then n else 1) else 1)
unfolding concurrency
concurrency-decimal getenv num_cpu n le e = rw e (
    ground (
      arith,
      text_eq_iff (decimal n) [],
      decimal-ne-nil n,
      parse_uint-decimal max_uint n le,
      at_least_one-int_of n,
    ))
