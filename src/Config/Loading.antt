-- ===== src/Config/Loading.antt =====
-- The loads of pkg/server/config/loading.go: the configuration, and its print for a user.
pub mod Loads
use proxyreverse.Prelude.{
  ◌≡◌, Bool, true, false, Option, none, some, Text, Result, ok, err, ◌>>=◌, ◌⊎◌, inl, inr,
}
use proxyreverse.Go.Panic.{Panic, logged}
use proxyreverse.Config.Value.{Entries}
use proxyreverse.Config.Merge.{config_map_merge}

-- YAML, and mapstructure with or without unused keys allowed: whether the decoder can be built,
-- and what it makes of a map.
pub record Formats (Config : Type 0) : Type 0 where
  pub unmarshal : Text → Result Text Entries
  pub marshal : Entries → Result Text Text
  pub build_error : (allow_unused : Bool) → Option Text
  pub decode : (allow_unused : Bool) → Entries → Result Text Config

pub data LoadError : Type 0 where
  yaml_failed : Text → LoadError
  decoder_failed : Text → LoadError
  decode_failed : Text → LoadError
  reserialization_failed : Text → LoadError

-- The function of `MapStructureDecodeHookFunc`: a value for a type that decodes itself is decoded
-- into that type, from its zero value, and any other is passed on.
unfoldable pub decode_hook : {V T E : Type 0} → Option (V → T × Option E) → V → Result E (V ⊎ T)
decode_hook none value = ok (inl value)
decode_hook (some decode) value =
    let (result, failed) = decode value in elim failed [ some e ↦ err e | none ↦ ok (inr result) ]

module _ {Config : Type 0} (formats : Formats Config) where
  -- `loadConfigMap`
  unfoldable pub load_config_map : Text → Result LoadError Entries
  load_config_map bytes = elim (formats.unmarshal bytes) [
    | ok m ↦ ok m
    | err e ↦ err (yaml_failed e)
  ]

  -- `loadDefaultConfigMap` panics on a default that cannot be read
  unfoldable pub load_default_config_map : Text → Result Panic Entries
  unfolding load_config_map
  load_default_config_map default_config = elim (load_config_map default_config) [
    | ok m ↦ ok m
    | err e ↦ err logged
  ]

  -- A decoder, built and used once.
  unfoldable pub decode_with : Bool → Entries → Result LoadError Config
  decode_with allow_unused m = elim (formats.build_error allow_unused) [
    | some e ↦ err (decoder_failed e)
    | none ↦ elim (formats.decode allow_unused m) [
      | ok cfg ↦ ok cfg
      | err e ↦ err (decode_failed e)
    ]
  ]

  -- The rest of `Load`, with the default configuration read.
  load_over : Entries → Text → Result LoadError Config
  unfolding load_config_map decode_with
  load_over default_map config_data = do
    config_map ← load_config_map config_data
    first ← decode_with false (config_map_merge default_map config_map)
    decode_with true (config_map_merge default_map config_map)

  -- `Load`, given the embedded default configuration
  unfoldable pub load : Text → Text → Result Panic (Result LoadError Config)
  unfolding load_default_config_map load_over
  load default_config config_data = load_default_config_map default_config >>= λ default_map.
      ok (load_over default_map config_data)

  -- `LoadAndSanitizeConfig`
  unfoldable pub load_and_sanitize_config : Text → Result LoadError Text
  unfolding load_config_map
  load_and_sanitize_config config_data = load_config_map config_data >>= λ m.
      elim (formats.marshal m) [ ok t ↦ ok t | err e ↦ err (reserialization_failed e) ]
