-- ===== src/Config/Loading/Loads.antt =====
-- What a load of pkg/server/config/loading.go guarantees.
use proxyreverse.Prelude.{
  ◌≡◌, ◌↔◌, List, some, sym, ◌∙◌, ap, true, false, Bool, Text, Result-cases, ok, inl, inr, arith,
}
use proxyreverse.Config.Value.{Value, map, Entries, AreTrees}
use proxyreverse.Config.Merge.Laws.{IsLeaf, IsSettled, value_at, config_map_merge-IsSettled}
use proxyreverse.Config.Merge.{config_map_merge}
use proxyreverse.Config.Loading.{Formats, load, load_and_sanitize_config, decode_with}

module _ {Config : Type 0} (formats : Formats Config) where
  decode_with-ok :
      (allow : Bool) (m : Entries) (cfg : Config)
      → decode_with formats allow m ≡ ok cfg
      → formats.decode allow m ≡ ok cfg
  unfolding decode_with
  decode_with-ok allow m cfg e = ground arith

  -- A configuration that loads is the decoding of the file's map with the defaults merged under
  -- it, and the decoder that refuses unused keys takes this merged map too.
  load_ok :
      (default_config config_data : Text) (cfg : Config)
      → load formats default_config config_data ≡ ok (ok cfg)
      → (defaults : Entries) × (file : Entries) × (strict : Config) × (formats.unmarshal
            default_config
          ≡ ok defaults)
        × (formats.unmarshal config_data ≡ ok file)
        × (formats.decode false (config_map_merge defaults file) ≡ ok strict)
        × (formats.decode true (config_map_merge defaults file) ≡ ok cfg)
  unfolding load
  load_ok default_config config_data cfg e =
      elim (Result-cases (formats.unmarshal default_config)) [
        | inr (x, failed) ↦ absurd (ground (arith, failed))
        | inl (defaults, d) ↦ elim (Result-cases (formats.unmarshal config_data)) [
          | inr (x, failed) ↦ absurd (ground (arith, d, failed))
          | inl (file, f) ↦
              elim (Result-cases (decode_with formats false (config_map_merge defaults file))) [
                | inr (x, failed) ↦ absurd (ground (arith, d, f, failed))
                | inl (strict, s) ↦ (
                  defaults,
                  file,
                  strict,
                  d,
                  f,
                  decode_with-ok false (config_map_merge defaults file) strict s,
                  decode_with-ok true (config_map_merge defaults file) cfg
                      (ground (arith, d, f, s)),
                )
              ]
        ]
      ]

  -- A configuration that loads is the decoding of a map which the decoder that refuses unused keys
  -- takes too. At every path of keys this map has a value that is no map exactly where the file has
  -- it, or where the file has nothing at this path or on the way to it and the defaults have it. The
  -- maps that YAML is read to hold each key once, at every depth.
  pub load-IsSettled :
      (default_config config_data : Text) (cfg : Config)
      → ((t : Text) (m : Entries) → formats.unmarshal t ≡ ok m → AreTrees m)
      → load formats default_config config_data ≡ ok (ok cfg)
      → (defaults : Entries) × (file : Entries) × (merged : Entries) × (strict : Config)
        × (formats.unmarshal default_config ≡ ok defaults)
        × (formats.unmarshal config_data ≡ ok file)
        × (formats.decode false merged ≡ ok strict)
        × (formats.decode true merged ≡ ok cfg)
        × ((path : List Text) (v : Value)
            → IsLeaf v
            → (value_at path (some (map merged)) ≡ some v)
              ↔ IsSettled path (some (map defaults)) (some (map file)) v)
  load-IsSettled default_config config_data cfg trees e =
      let (defaults, file, strict, d, f, first, second) =
        load_ok default_config config_data cfg e in
      (
        defaults,
        file,
        config_map_merge defaults file,
        strict,
        d,
        f,
        first,
        second,
        (λ path v leaf.
            config_map_merge-IsSettled path defaults file v (trees default_config defaults d) leaf),
      )

  -- Where reading YAML inverts writing it, the print of a configuration for a user reads back as
  -- the whole map of the file: no key is removed.
  load_and_sanitize_keeps :
      (config_data printed : Text)
      → ((m : Entries) (t : Text) → formats.marshal m ≡ ok t → formats.unmarshal t ≡ ok m)
      → load_and_sanitize_config formats config_data ≡ ok printed
      → formats.unmarshal printed ≡ formats.unmarshal config_data
  unfolding load_and_sanitize_config
  load_and_sanitize_keeps config_data printed inverse e =
      elim (Result-cases (formats.unmarshal config_data)) [
        | inr (x, failed) ↦ absurd (ground (arith, failed))
        | inl (m, read) ↦ elim (Result-cases (formats.marshal m)) [
          | inr (x, failed) ↦ absurd (ground (arith, read, failed))
          | inl (t, written) ↦
              let same : t ≡ printed = ground (arith, read, written) in
              inverse m printed (written ∙ ap ok same) ∙ sym read
        ]
      ]
