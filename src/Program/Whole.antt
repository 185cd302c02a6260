-- ===== src/Program/Whole.antt =====
-- The program with its parts put together: cmd/proxyreverse/main.go with the loads of
-- pkg/server/config/loading.go and the server of pkg/server/server.go.
use proxyreverse.Prelude.{Bool, true, false, Option, none, some, List, Text, Result, ok, err}
use proxyreverse.Go.Lo.{Lo}
use proxyreverse.Entrypoint.{Options, Steps, Stop, panicked, waits}
use proxyreverse.Config.Models.{Config}
use proxyreverse.Config.Loading.{Formats, LoadError, load, load_and_sanitize_config}
use proxyreverse.Target.{SelectorDecoder}
use proxyreverse.Proxychain.{ProxyLibrary, panics as chain_panics}
use proxyreverse.Startup.{StartError, Surroundings, chain_failed, panics, server}

-- A panic of the start goes on, and its other errors are returned. A server that has started waits
-- until its context is cancelled, and ends then without an error.
unfoldable pub ended : {A : Type 0} → Bool → Result StartError A → Result Stop (Option StartError)
ended true (ok running) = ok none
ended false (ok running) = err waits
ended cancelled (err (panics p)) = err (panicked p)
ended cancelled (err (chain_failed (chain_panics p))) = err (panicked p)
ended cancelled (err e) = ok (some e)

-- The parts that are not modelled: the command line, the logger, and the files.
pub record Outside : Type 0 where
  pub parse : List Text → Result Text Options
  pub unmarshal_level : Text → Option Text
  pub build_logger : Options → Option Text
  pub read_file : Text → Result Text Text
  pub default_config : Text
  pub version : Text

module _ (lo : Lo) (lib : ProxyLibrary) (decoder : SelectorDecoder) (around : Surroundings)
    (formats : Formats Config) (outside : Outside) (cancelled : Bool) where
  -- The steps of the entry point, in a process of which the context is cancelled or not: the signal
  -- SIGTERM cancels it, by the steps of Lifetime.
  abbrev pub program : Steps
  program = record {
    Config = Config;
    LoadFailure = LoadError;
    ServerFailure = StartError;
    parse = outside.parse;
    unmarshal_level = outside.unmarshal_level;
    build_logger = outside.build_logger;
    read_file = outside.read_file;
    load = load formats outside.default_config;
    load_and_sanitize_config = load_and_sanitize_config formats;
    server = λ cfg. ended cancelled (server lo lib decoder around (some cfg));
    version = outside.version;
  }
