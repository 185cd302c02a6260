-- ===== src/Program.antt =====
-- cmd/proxyreverse/main.go: the program.
pub mod Whole
use proxyreverse.Prelude.{
  ◌≡◌, ◌↔◌, ◌⊎◌, true, ◌∙◌, ap, sym, List, Text, none, some, Result, ok, err, All, codes,
  Option-cases, inl, inr, arith,
}
use proxyreverse.Go.Panic.{must_failed}
use proxyreverse.Environment.{from_environment, HasEquals, from_environment_empty}
use proxyreverse.Entrypoint.{Options, Steps, Stop, panicked, Exit, entrypoint}
use proxyreverse.Entrypoint.Codes.{IsUnderWay, Loads, entrypoint_reverse_proxy}

-- `main`, on the environment and the arguments after the program's name: what it exits with, or its
-- panic, or the wait that goes on.
unfoldable pub main : Steps → List Text → List Text → Result Stop Exit
unfolding from_environment entrypoint
main steps environ args = elim (from_environment environ (some environ)).1 [
  | some e ↦ err (panicked must_failed)
  | none ↦ entrypoint steps args
]

-- The program gets to its entry point exactly when every variable can be split.
main-entrypoint :
    (steps : Steps) (environ args : List Text)
    → All HasEquals environ
    → main steps environ args ≡ entrypoint steps args
unfolding main
main-entrypoint steps environ args h =
    let accepted = (from_environment_empty environ environ).1.1 h in ground (arith, accepted)

HasEquals-main :
    (steps : Steps) (environ args : List Text) (x : Exit)
    → main steps environ args ≡ ok x
    → All HasEquals environ × (entrypoint steps args ≡ ok x)
unfolding main
HasEquals-main steps environ args x e =
    elim (Option-cases (from_environment environ (some environ)).1) [
      | inl accepted ↦
          ((from_environment_empty environ environ).1.0 accepted, ground (arith, accepted))
      | inr (f, refused) ↦ absurd (ground (arith, refused))
    ]

-- With understood arguments and a logger, the command "reverse-proxy" exits with 0 exactly when
-- every variable of the environment holds an equals sign, and either the version is asked for, or the
-- configuration file is read and loaded both ways and the server ends without an error or a panic.
pub main_reverse_proxy :
    (steps : Steps) (environ args : List Text) (options : Options)
    → IsUnderWay steps args options
    → options.command ≡ codes "reverse-proxy"
    → ((x : Exit) × (main steps environ args ≡ ok x) × (x.code ≡ 0)) ↔ (
        All HasEquals environ
        × ((options.show_version ≡ true)
            ⊎ ((cfg : steps.Config) × (sanitized : Text) × Loads steps args options cfg sanitized
                × (steps.server cfg ≡ ok none))))
main_reverse_proxy steps environ args options under command =
    let (only, enough) = entrypoint_reverse_proxy steps args options under command in
    (
      λ h.
          let (equals, same) = HasEquals-main steps environ args h.0 h.1 in
          (equals, only (h.0, same, h.2)),
      λ h.
          let (x, ends, zero_code) = enough h.1 in
          (x, main-entrypoint steps environ args h.0 ∙ ends, zero_code),
    )
