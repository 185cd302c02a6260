-- ===== src/Tests/Whole.antt =====
-- The whole program on a file that decodes to a small configuration.
use proxyreverse.Prelude.{none, [], codes, ok}
use proxyreverse.Config.Models.{Config}
use proxyreverse.Config.Value.{end}
use proxyreverse.Config.Loading.{Formats}
use proxyreverse.Program.Whole.{Outside}
use proxyreverse.Tests.Program.{options}
use proxyreverse.Tests.Starting.{config}

-- Every file decodes to the configuration.
abbrev formats : Formats Config
formats = record {
  unmarshal = λ t. ok end;
  marshal = λ m. ok (codes "{}");
  build_error = λ allow_unused. none;
  decode = λ allow_unused m. ok config;
}

abbrev outside : Outside
outside = record {
  parse = λ args. ok options;
  unmarshal_level = λ t. none;
  build_logger = λ o. none;
  read_file = λ t. ok (codes "sites: []");
  default_config = [];
  version = codes "1";
}
