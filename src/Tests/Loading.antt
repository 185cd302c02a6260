-- ===== src/Tests/Loading.antt =====
-- The configuration of pkg/server/config: addresses, merged defaults, loads and certificates.
use proxyreverse.Prelude.{
  ◌≡◌, ◌≢◌, ◌⊎◌, ◌↔◌, subst, refl, true, false, none, some, List, [], ◌∷◌, ◌++◌, Text, codes, arith,
  text_eq, text_eq_iff, if◌then◌else◌, Result, ok, err, pos, ℕ, inl,
}
use proxyreverse.Go.Lo.{plain_lo, map_index, fold_index}
use proxyreverse.Go.HostPort.{has, too_many_colons}
use proxyreverse.Go.Decimal.{decimal}
use proxyreverse.Config.HostSpec.{HostSpec, bad_address, unmarshal_text, string_of}
use proxyreverse.Config.HostSpec.RoundTrip.{
  unmarshal_text-string_of, unmarshal_text-string_of_colons,
}
use proxyreverse.Config.Value.{
  Value, integer, text, boolean, list, map, Entries, end, entry, find_entry, AreTrees, items,
}
use proxyreverse.Config.Merge.{config_map_merge}
use proxyreverse.Config.Merge.Laws.{
  combine, find_entry-config_map_merge, IsLeaf, IsSettled, value_at,
}
use proxyreverse.Config.Models.{CertificatePool}
use proxyreverse.Config.Loading.{
  Formats, load, load_config_map, load_default_config_map, decode_with, decode_hook,
}
use proxyreverse.Config.Loading.Loads.{load-IsSettled}
use proxyreverse.Config.Certificates.{
  Trust, invalid_pem_file, strings_of, decode_pool, first_pool, add_entry, add_entries, item_sample,
  source_of, as_string, first_error,
}
use proxyreverse.Config.Certificates.Entries.{texts}
use proxyreverse.Config.Certificates.Pool.{decode_pool_result}

abbrev any : HostSpec
any = record { host = codes "old"; port = 1; network = codes "udp" }

abbrev app : HostSpec
app = record { host = codes "app"; port = 8080; network = codes "tcp" }

abbrev six : HostSpec
six = record { host = codes "::1"; port = 80; network = codes "tcp6" }

unmarshal_text-string_of_example : unmarshal_text (string_of app) any ≡ (app, none)
unmarshal_text-string_of_example =
    unmarshal_text-string_of app any (omega arith) (omega arith) (omega arith)

unmarshal_text-string_of_colons_example :
    (unmarshal_text
        ((b'[' ∷ (codes "::1" ++ (b']' ∷ (b':' ∷ decimal 80)))) ++ (b'/' ∷ codes "tcp6"))
        any
      ≡ (six, none))
    × ((unmarshal_text (string_of six) any).1 ≡ some (bad_address too_many_colons))
unmarshal_text-string_of_colons_example =
    unmarshal_text-string_of_colons six any (unfold has in refl) (omega arith) (omega arith)
      (omega arith) (omega arith)

-- Defaults and a configuration: `web.port` is set, `web.tls` is not.
abbrev defaults : Entries
defaults =
    entry (codes "web")
      (map (entry (codes "port") (integer (pos 80)) (entry (codes "tls") (boolean false) end))) end

defaults-AreTrees : AreTrees defaults
unfolding find_entry text_eq
defaults-AreTrees = (refl, (refl, tt, (refl, tt, tt)), tt)

abbrev file : Entries
file = entry (codes "web") (map (entry (codes "port") (integer (pos 8080)) end)) end

find_entry-config_map_merge_example :
    find_entry (codes "web") (config_map_merge defaults file)
    ≡ combine (find_entry (codes "web") defaults) (find_entry (codes "web") file)
find_entry-config_map_merge_example =
    find_entry-config_map_merge defaults file (codes "web") defaults-AreTrees

-- Formats that know two files: the defaults and a configuration.
abbrev formats : Formats Entries
formats = record {
  unmarshal = λ t. elim t [ [] ↦ ok defaults | c ∷ s ↦ ok file ];
  marshal = λ m. err (codes "not printed");
  build_error = λ allow_unused. none;
  decode = λ allow_unused m. ok m;
}

unmarshal-AreTrees : (t : Text) (m : Entries) → formats.unmarshal t ≡ ok m → AreTrees m
unmarshal-AreTrees [] m e =
    let same : defaults ≡ m = ground (arith, e) in subst AreTrees same defaults-AreTrees
unmarshal-AreTrees (c ∷ s) m e =
    let same : file ≡ m = ground (arith, e) in
    subst AreTrees same (unfold find_entry in (refl, (refl, tt, tt), tt))

load-IsSettled_example :
    (l : Entries) × (r : Entries) × (merged : Entries) × (strict : Entries) × (formats.unmarshal []
      ≡ ok l)
    × (formats.unmarshal (codes "web:") ≡ ok r)
    × (formats.decode false merged ≡ ok strict)
    × (formats.decode true merged ≡ ok (config_map_merge defaults file))
    × ((path : List Text) (v : Value)
        → IsLeaf v
        → (value_at path (some (map merged)) ≡ some v)
          ↔ IsSettled path (some (map l)) (some (map r)) v)
load-IsSettled_example =
    load-IsSettled formats [] (codes "web:") (config_map_merge defaults file) unmarshal-AreTrees
      (unfold load load_default_config_map load_config_map decode_with in refl)

-- A format of one text under one key.
print_scalar : Entries → Result Text Text
print_scalar (entry k (text t) end) =
    if text_eq k (codes "key") then ok t else err (codes "another key")
print_scalar m = err (codes "no scalar")

abbrev scalar : Formats Entries
scalar = record {
  unmarshal = λ t. ok (entry (codes "key") (text t) end);
  marshal = print_scalar;
  build_error = λ allow_unused. none;
  decode = λ allow_unused m. ok m;
}

scalar-inverse : (m : Entries) (t : Text) → scalar.marshal m ≡ ok t → scalar.unmarshal t ≡ ok m
unfolding print_scalar
scalar-inverse (entry k (text s) end) t e = ground (arith, text_eq_iff k (codes "key"))
scalar-inverse m t e = absurd (ground arith)

-- No files, no pool of the system, and PEM texts that are certificates if they are not empty.
abbrev pub trust : Trust
trust = record {
  exists = λ t. false;
  read_file = λ t. none;
  system_cert_pool = some (codes "root" ∷ []);
  append_certs_from_pem =
      λ pool pem. elim pem [ [] ↦ (pool, false) | c ∷ s ↦ ((c ∷ s) ∷ pool, true) ];
}

abbrev no_pool : CertificatePool
no_pool = record { cert_pool = none; original = [] }

-- The list of the example: the system's pool and a certificate.
abbrev trusted : List Text
trusted = codes "system" ∷ codes "a" ∷ []

decode_pool_result_test :
    (((decode_pool trust plain_lo (list (texts trusted)) no_pool).1 ≡ none)
      × ((decode_pool trust plain_lo (list (texts trusted)) no_pool).0.original ≡ trusted)
      × ((decode_pool trust plain_lo (list (texts trusted)) no_pool).0.cert_pool
          ≡ some (add_entries trust 0 trusted (first_pool trust trusted)).0))
    ⊎ (((decode_pool trust plain_lo (list (texts trusted)) no_pool).1 ≢ none)
        × ((decode_pool trust plain_lo (list (texts trusted)) no_pool).0.original ≡ []))
decode_pool_result_test = decode_pool_result trust plain_lo trusted no_pool

-- An entry that is no certificate ends the list.
decode_pool_tests :
    ((decode_pool trust plain_lo (list (texts trusted)) no_pool).0.cert_pool
      ≡ some (codes "a" ∷ codes "root" ∷ []))
    × ((decode_pool trust plain_lo (list (texts (codes "a" ∷ [] ∷ []))) no_pool).1
        ≡ some (invalid_pem_file 1 []))
unfolding decode_pool first_pool add_entries add_entry source_of item_sample strings_of as_string
    first_error text_eq texts items map_index fold_index
decode_pool_tests = (refl, refl)

-- The hook decodes into a pool, and passes a value on for another type.
decode_hook_tests :
    (decode_hook
        (some (λ v. decode_pool trust plain_lo v no_pool))
        (list (texts (codes "a" ∷ [] ∷ [])))
      ≡ err (invalid_pem_file 1 []))
    × (decode_hook {T = CertificatePool} {E = ℕ} none (text (codes "a"))
        ≡ ok (inl (text (codes "a"))))
unfolding decode_hook decode_pool first_pool add_entries add_entry source_of item_sample strings_of
    as_string first_error text_eq texts items map_index fold_index
decode_hook_tests = (refl, refl)
