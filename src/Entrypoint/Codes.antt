-- ===== src/Entrypoint/Codes.antt =====
-- The exit codes of pkg/entrypoint/entrypoint.go.
use proxyreverse.Prelude.{
  ◌≡◌, ◌↔◌, ◌⊎◌, [], true, false, Bool-cases, none, List, Text, codes, text_eq_iff, arith,
  Result-cases, Result, ok, err, some, refl, ◌>>=◌, inl, inr,
}
use proxyreverse.Entrypoint.{Options, Steps, Stop, Exit, exit_with, finish, raise, entrypoint}

module _ (steps : Steps) (args : List Text) (options : Options) where
  -- The arguments are understood, and there is a logger.
  abbrev pub IsUnderWay : Type 0
  IsUnderWay = (steps.parse args ≡ ok options) × (steps.build_logger options ≡ none)

  -- The configuration file is read and loaded both ways.
  abbrev pub Loads : steps.Config → Text → Type 0
  Loads cfg sanitized =
      (bytes : Text) × (steps.read_file options.config ≡ ok bytes)
      × (steps.load bytes ≡ ok (ok cfg))
      × (steps.load_and_sanitize_config bytes ≡ ok sanitized)

  -- The process ends with code 0.
  abbrev pub Succeeds : Result Stop Exit → Type 0
  Succeeds r = (x : Exit) × (r ≡ ok x) × (x.code ≡ 0)

  Succeeds-Loads :
      IsUnderWay
      → options.show_version ≡ false
      → Succeeds (entrypoint steps args)
      → (cfg : steps.Config) × (sanitized : Text) × Loads cfg sanitized
  unfolding entrypoint raise
  Succeeds-Loads (parsed, logger) not_version (x, ends, zero_code) =
      elim (Result-cases (steps.read_file options.config)) [
        | inr (e, failed) ↦ absurd (ground (arith, failed))
        | inl (bytes, read) ↦ elim (Result-cases (steps.load bytes)) [
          | inr (p, panicked) ↦ absurd (ground (arith, read, panicked))
          | inl (err e, failed) ↦ absurd (ground (arith, read, failed))
          | inl (ok cfg, loaded) ↦ elim (Result-cases (steps.load_and_sanitize_config bytes)) [
            | inr (e, failed) ↦ absurd (ground (arith, read, loaded, failed))
            | inl (sanitized, clean) ↦ (cfg, sanitized, (bytes, read, loaded, clean))
          ]
        ]
      ]

  entrypoint_of_Loads :
      (cfg : steps.Config) (sanitized : Text)
      → IsUnderWay
      → options.show_version ≡ false
      → options.command ≡ codes "reverse-proxy"
      → Loads cfg sanitized
      → entrypoint steps args ≡ (steps.server cfg >>= λ failed. ok (finish failed))
  unfolding entrypoint raise
  entrypoint_of_Loads cfg sanitized (parsed, logger) not_version c (bytes, read, loaded, clean) =
      ground (
        arith,
        parsed,
        logger,
        not_version,
        read,
        loaded,
        clean,
        text_eq_iff options.command (codes "reverse-proxy"),
      )

  entrypoint_version : IsUnderWay → options.show_version ≡ true → Succeeds (entrypoint steps args)
  unfolding entrypoint
  entrypoint_version (parsed, logger) version =
      let said : Exit = record { code = 0; std_out = steps.version; std_err = [] } in
      (said, ground (arith, parsed, logger, version), refl)

  -- With understood arguments and a logger, the command "reverse-proxy" exits with 0 exactly when
  -- the version is asked for, or the configuration file is read and loaded both ways and the server
  -- ends without an error.
  pub entrypoint_reverse_proxy :
      IsUnderWay
      → options.command ≡ codes "reverse-proxy"
      → Succeeds (entrypoint steps args) ↔ (
          (options.show_version ≡ true)
          ⊎ ((cfg : steps.Config) × (sanitized : Text) × Loads cfg sanitized
              × (steps.server cfg ≡ ok none)))
  unfolding finish
  entrypoint_reverse_proxy u c = elim (Bool-cases options.show_version) [
    | inl version ↦ ((λ e. inl version), λ h. entrypoint_version u version)
    | inr no_version ↦ (
      (λ e.
          let (cfg, sanitized, loads) = Succeeds-Loads u no_version e in
          let same = entrypoint_of_Loads cfg sanitized u no_version c loads in
          elim (Result-cases (steps.server cfg)) [
            | inr (p, stopped) ↦ absurd (ground (arith, stopped, same, e.1))
            | inl (some failure, failed) ↦ absurd (ground (arith, failed, same, e.1, e.2))
            | inl (none, ends) ↦ inr (cfg, sanitized, loads, ends)
          ]),
      λ h. elim h [
        | inl version ↦ absurd (ground (arith, version, no_version))
        | inr (cfg, sanitized, loads, ends) ↦
            let same = entrypoint_of_Loads cfg sanitized u no_version c loads in
            (exit_with 0, ground (arith, same, ends), refl)
      ],
    )
  ]
