-- ===== src/Entrypoint.antt =====
-- pkg/entrypoint/entrypoint.go: the stages of the program and its exit code.
pub mod Codes
use proxyreverse.Prelude.{
  ℕ, ◌≡◌, ◌⊎◌, ◌↔◌, refl, Bool, true, false, Option, none, some, List, [], ◌∷◌, ◌++◌, Text, codes,
  text_eq, text_eq_iff, arith, if◌then◌else◌, Result, ok, err, ◌>>=◌, inl, inr,
}
use proxyreverse.Go.Panic.{Panic}

-- Why the entry point has not returned: a panic, or the wait for the end of a context that goes on.
pub data Stop : Type 0 where
  panicked : Panic → Stop
  waits : Stop

unfoldable pub raise : {A : Type 0} → Result Panic A → Result Stop A
raise (ok a) = ok a
raise (err p) = err (panicked p)

-- The options that the entry point reads.
pub record Options : Type 0 where
  pub logging_level : Text
  pub logging_format : Text
  pub config : Text
  pub show_version : Bool
  pub command : Text

-- The steps that other packages take: parsing the arguments, setting the log level and building
-- the logger, reading the file, the two loads of the configuration, and the server, which gives
-- the error that it ends with. The load may panic, and the server may panic or wait.
pub record Steps : Type 1 where
  pub Config : Type 0
  pub LoadFailure : Type 0
  pub ServerFailure : Type 0
  pub parse : List Text → Result Text Options
  pub unmarshal_level : Text → Option Text
  pub build_logger : Options → Option Text
  pub read_file : Text → Result Text Text
  pub load : Text → Result Panic (Result LoadFailure Config)
  pub load_and_sanitize_config : Text → Result LoadFailure Text
  pub server : Config → Result Stop (Option ServerFailure)
  pub version : Text

-- What the process leaves: its exit code and what it wrote.
pub record Exit : Type 0 where
  pub code : ℕ
  pub std_out : Text
  pub std_err : Text

abbrev pub exit_with : ℕ → Exit
exit_with n = record { code = n; std_out = []; std_err = [] }

-- the messages kept until there is a logger
deferred : Option Text → Text
deferred none = []
deferred (some line) = line

-- the exit code after a command that may have failed
unfoldable pub finish : {E : Type 0} → Option E → Exit
finish none = exit_with 0
finish (some e) = exit_with 1

module _ (steps : Steps) where
  run_command : Options → steps.Config → Text → Result Stop Exit
  run_command options cfg sanitized =
      if text_eq options.command (codes "reverse-proxy")
      then (steps.server cfg >>= λ failed. ok (finish failed))
      else if text_eq options.command (codes "dump-config")
      then ok (record { code = 0; std_out = sanitized; std_err = [] })
      else ok (exit_with 0)

  after_load : Options → Text → Result steps.LoadFailure steps.Config → Result Stop Exit
  after_load options config_bytes (err e) = ok (exit_with 1)
  after_load options config_bytes (ok cfg) = elim (steps.load_and_sanitize_config config_bytes) [
    | err e ↦ ok (exit_with 1)
    | ok sanitized ↦ run_command options cfg sanitized
  ]

  with_config : Options → Text → Result Stop Exit
  with_config options config_bytes =
      raise (steps.load config_bytes) >>= λ loaded. after_load options config_bytes loaded

  after_logger : Options → Result Stop Exit
  after_logger options =
      if options.show_version
      then ok (record { code = 0; std_out = steps.version; std_err = [] })
      else elim (steps.read_file options.config) [
        | err e ↦ ok (exit_with 1)
        | ok config_bytes ↦ with_config options config_bytes
      ]

  with_options : Options → Result Stop Exit
  with_options options = elim (steps.build_logger options) [
    | some e ↦ ok (record {
      code = 1;
      std_out = [];
      std_err =
          deferred (steps.unmarshal_level options.logging_level)
          ++ codes "Failure while building logger";
    })
    | none ↦ after_logger options
  ]

  -- `Entrypoint`
  unfoldable pub entrypoint : List Text → Result Stop Exit
  unfolding deferred finish raise run_command after_load with_config after_logger with_options
  entrypoint args = elim (steps.parse args) [
    | err e ↦ ok (record { code = 1; std_out = []; std_err = codes "Argument error: " ++ e })
    | ok options ↦ with_options options
  ]
