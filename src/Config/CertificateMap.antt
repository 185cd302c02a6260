-- ===== src/Config/CertificateMap.antt =====
-- `TLSCertificateMap` of pkg/server/config/x509_models.go: certificates by the hash of their bytes.
-- A certificate is its raw bytes.
pub mod Laws
use proxyreverse.Prelude.{
  ℕ, suc, ◌≡◌, Bool, true, false, Option, none, some, List, [], ◌∷◌, Text, Assoc, lookup, insert,
  if◌then◌else◌, Result, ok, err,
}
use proxyreverse.Go.Lo.{Lo}
use proxyreverse.Pem.{Pem, Loaded, load_certificates_from_pem}
use proxyreverse.Config.Value.{Value}
use proxyreverse.Config.Certificates.{
  Trust, CertificateError, invalid_pem_file, strings_of, source_of,
}

-- `certMap` may be nil.
pub record CertificateMap : Type 0 where
  pub cert_map : Option (Assoc Text)
  pub original : List Text

-- reading from a nil map finds nothing
abbrev pub entries_of : Option (Assoc Text) → Assoc Text
entries_of none = []
entries_of (some m) = m

abbrev pub values_of : Assoc Text → List Text
values_of [] = []
values_of ((sum, cert) ∷ m) = cert ∷ values_of m

-- `GetCerts`, in the order in which the map is visited
abbrev pub get_certs : CertificateMap → List Text
get_certs t = values_of (entries_of t.cert_map)

module _ (sum224 : Text → Text) where
  -- `HasCert`
  unfoldable pub has_cert : CertificateMap → Text → Bool
  has_cert t cert = elim t.cert_map [
    | none ↦ false
    | some m ↦ elim (lookup (sum224 cert) m) [ none ↦ false | some c ↦ true ]
  ]

  -- A certificate is put under its hash, unless there is one.
  unfoldable pub add_to : Text → Assoc Text → Assoc Text
  add_to cert m = elim (lookup (sum224 cert) m) [ some c ↦ m | none ↦ insert (sum224 cert) cert m ]

  -- `AddCert`, of a nil certificate or of one; the error is always nil
  unfoldable pub add_cert : Option Text → CertificateMap → CertificateMap × Option CertificateError
  unfolding add_to
  add_cert none t = (record t { cert_map = some (entries_of t.cert_map) }, none)
  add_cert (some cert) t =
      (record t { cert_map = some (add_to cert (entries_of t.cert_map)) }, none)

  -- The loop over the certificates of one entry.
  unfoldable pub add_certs :
      ℕ → Text → List Text → CertificateMap → CertificateMap × Option CertificateError
  unfolding add_cert
  add_certs idx sample [] t = (t, none)
  add_certs idx sample (cert ∷ certs) t =
      let (t', failed) = add_cert (some cert) t in
      let rest = add_certs (suc idx) sample certs t' in
      elim failed [ some e ↦ (t', some (invalid_pem_file idx sample)) | none ↦ rest ]

  module _ (trust : Trust) (pem : Pem) (parse_certificate : Text → Option Text) where
    -- what `LoadCertificatesFromPem` made of an entry; its loop never runs out of fuel
    add_loaded :
        ℕ → Text → Option Loaded → CertificateMap → CertificateMap × Option CertificateError
    add_loaded idx sample none t = (t, some (invalid_pem_file idx sample))
    add_loaded idx sample (some (certs, some block)) t = (t, some (invalid_pem_file idx sample))
    add_loaded idx sample (some (certs, none)) t = add_certs 0 sample certs t

    -- One entry.
    unfoldable pub add_spec : ℕ → Text → CertificateMap → CertificateMap × Option CertificateError
    unfolding add_loaded
    add_spec idx entry t = elim (source_of trust entry) [
      | err e ↦ (t, some e)
      | ok (text, sample) ↦
          add_loaded idx sample (load_certificates_from_pem pem parse_certificate text) t
    ]

    -- The loop over the entries ends at the first error.
    unfoldable pub add_specs :
        ℕ → List Text → CertificateMap → CertificateMap × Option CertificateError
    add_specs idx [] t = (t, none)
    add_specs idx (entry ∷ entries) t =
        let (t', failed) = add_spec idx entry t in
        let rest = add_specs (suc idx) entries t' in
        elim failed [ some e ↦ (t', some e) | none ↦ rest ]

    set_originals :
        List Text
        → CertificateMap × Option CertificateError
        → CertificateMap × Option CertificateError
    set_originals entries (t, some e) = (t, some e)
    set_originals entries (t, none) = (record t { original = entries }, none)

    -- `MapStructureDecode` of `TLSCertificateMap`, on a receiver
    unfoldable pub decode_map :
        Lo → Value → CertificateMap → CertificateMap × Option CertificateError
    unfolding add_specs set_originals
    decode_map lo input t = elim (strings_of lo input) [
      | err e ↦ (t, some e)
      | ok entries ↦ set_originals entries (add_specs 0 entries t)
    ]
