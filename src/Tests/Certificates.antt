-- ===== src/Tests/Certificates.antt =====
-- `TLSCertificateMap` of pkg/server/config/x509_models.go.
use proxyreverse.Prelude.{◌≡◌, refl, ◌||◌, none, some, [], ◌∷◌, codes, lookup, insert, text_eq}
use proxyreverse.Go.Lo.{plain_lo, map_index, fold_index}
use proxyreverse.Config.Value.{items, list}
use proxyreverse.Config.Certificates.{strings_of, as_string, first_error, source_of, item_sample}
use proxyreverse.Config.Certificates.Entries.{texts}
use proxyreverse.Pem.{load_certificates_from_pem, load_loop}
use proxyreverse.Config.CertificateMap.{
  CertificateMap, has_cert, get_certs, add_to, add_cert, add_certs, add_spec, add_specs, decode_map,
}
use proxyreverse.Config.CertificateMap.Laws.{has_hash, all_certs, has_cert-decode_map}
use proxyreverse.Tests.Program.{bytewise}
use proxyreverse.Tests.Loading.{trust}

runs : Unit {0}
unfolding decode_map add_specs add_spec add_certs add_cert add_to has_cert
    load_certificates_from_pem load_loop strings_of as_string first_error source_of item_sample
    lookup insert text_eq texts items map_index fold_index
runs = tt

abbrev no_map : CertificateMap
no_map = record { cert_map = none; original = [] }

-- Each byte is a certificate, and its own hash.
abbrev decoded : CertificateMap
decoded = record {
  cert_map = some ((codes "a", codes "a") ∷ (codes "b", codes "b") ∷ []);
  original = codes "ab" ∷ codes "b" ∷ [];
}

decode_map_test :
    decode_map
      (λ c. c)
      trust
      bytewise
      (λ t. some t)
      plain_lo
      (list (texts (codes "ab" ∷ codes "b" ∷ [])))
      no_map
    ≡ (decoded, none)
unfolding runs
decode_map_test = refl

get_certs_test : get_certs decoded ≡ codes "a" ∷ codes "b" ∷ []
get_certs_test = refl

has_cert-decode_map_example : has_cert (λ c. c) decoded (codes "b") ≡ (
    has_hash
      (λ c. c)
      (codes "b")
      (all_certs (λ c. c) trust bytewise (λ t. some t) (codes "ab" ∷ codes "b" ∷ []))
    || has_cert (λ c. c) no_map (codes "b"))
has_cert-decode_map_example =
    has_cert-decode_map (λ c. c) trust bytewise (λ t. some t) plain_lo (codes "ab" ∷ codes "b" ∷ [])
      (codes "b") no_map decoded decode_map_test
