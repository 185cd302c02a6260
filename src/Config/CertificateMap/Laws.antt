-- ===== src/Config/CertificateMap/Laws.antt =====
-- Which certificates a `TLSCertificateMap` of pkg/server/config/x509_models.go has.
use proxyreverse.Prelude.{
  ℕ, suc, ◌≡◌, refl, Bool, false, ◌||◌, Option, none, some, List, [], ◌∷◌, ◌++◌, Text, arith,
  lookup, lookup-insert, text_eq, text_eq_iff, Option-cases, Result-cases, inl, inr, ok, err,
}
use proxyreverse.Go.Lo.{Lo}
use proxyreverse.Pem.{Pem, Loaded, load_certificates_from_pem}
use proxyreverse.Config.Value.{list}
use proxyreverse.Config.Certificates.{Trust, source_of}
use proxyreverse.Config.Certificates.Entries.{texts, strings_of_iff}
use proxyreverse.Config.CertificateMap.{
  CertificateMap, has_cert, add_to, add_cert, add_certs, add_spec, add_specs, decode_map,
}

module _ (sum224 : Text → Text) where
  -- One of the certificates has the hash of a certificate.
  abbrev pub has_hash : Text → List Text → Bool
  has_hash cert [] = false
  has_hash cert (c ∷ cs) = text_eq (sum224 c) (sum224 cert) || has_hash cert cs

  has_hash-append :
      (cert : Text) (cs ds : List Text)
      → has_hash cert (cs ++ ds) ≡ (has_hash cert cs || has_hash cert ds)
  has_hash-append cert [] ds = refl
  has_hash-append cert (c ∷ cs) ds = ground (arith, has_hash-append cert cs ds)

  has_cert-add_cert :
      (c cert : Text) (t : CertificateMap)
      → has_cert sum224 (add_cert sum224 (some c) t).0 cert
        ≡ (text_eq (sum224 c) (sum224 cert) || has_cert sum224 t cert)
  unfolding has_cert add_cert add_to lookup
  has_cert-add_cert c cert t = elim (Option-cases t.cert_map) [
    | inl missing ↦ ground (
      arith,
      missing,
      lookup-insert (sum224 c) (sum224 cert) c [],
      text_eq_iff (sum224 c) (sum224 cert),
    )
    | inr (m, there) ↦ ground (
      arith,
      there,
      lookup-insert (sum224 c) (sum224 cert) c m,
      text_eq_iff (sum224 c) (sum224 cert),
    )
  ]

  has_cert-add_certs :
      (idx : ℕ) (sample cert : Text) (cs : List Text) (t : CertificateMap)
      → (has_cert sum224 (add_certs sum224 idx sample cs t).0 cert
          ≡ (has_hash cert cs || has_cert sum224 t cert))
        × ((add_certs sum224 idx sample cs t).1 ≡ none)
  unfolding add_certs
  has_cert-add_certs idx sample cert [] t = (refl, refl)
  has_cert-add_certs idx sample cert (c ∷ cs) t =
      let t' = (add_cert sum224 (some c) t).0 in
      let ih = has_cert-add_certs (suc idx) sample cert cs t' in
      (ground (arith, ih.0, has_cert-add_cert c cert t), ih.1)

  module _ (trust : Trust) (pem : Pem) (parse_certificate : Text → Option Text) where
    loaded_certs : Option Loaded → List Text
    loaded_certs none = []
    loaded_certs (some r) = r.0

    -- The certificates of an entry, a file or a text.
    pub certs_of : Text → List Text
    unfolding loaded_certs
    certs_of entry = elim (source_of trust entry) [
      | err e ↦ []
      | ok (text, sample) ↦ loaded_certs (load_certificates_from_pem pem parse_certificate text)
    ]

    pub all_certs : List Text → List Text
    unfolding certs_of
    all_certs [] = []
    all_certs (entry ∷ entries) = certs_of entry ++ all_certs entries

    has_cert-add_spec :
        (idx : ℕ) (entry cert : Text) (t t' : CertificateMap)
        → add_spec sum224 trust pem parse_certificate idx entry t ≡ (t', none)
        → has_cert sum224 t' cert ≡ (has_hash cert (certs_of entry) || has_cert sum224 t cert)
    unfolding add_spec certs_of
    has_cert-add_spec idx entry cert t t' e = elim (Result-cases (source_of trust entry)) [
      | inr (x, failed) ↦ absurd (ground (arith, failed))
      | inl ((text, sample), found) ↦
          elim (Option-cases (load_certificates_from_pem pem parse_certificate text)) [
            | inl missing ↦ absurd (ground (arith, found, missing))
            | inr ((certs, some block), bad) ↦ absurd (ground (arith, found, bad))
            | inr ((certs, none), fine) ↦
                ground (arith, found, fine, has_cert-add_certs 0 sample cert certs t)
          ]
    ]

    has_cert-add_specs :
        (idx : ℕ) (entries : List Text) (cert : Text) (t t' : CertificateMap)
        → add_specs sum224 trust pem parse_certificate idx entries t ≡ (t', none)
        → has_cert sum224 t' cert ≡ (has_hash cert (all_certs entries) || has_cert sum224 t cert)
    unfolding add_specs all_certs
    has_cert-add_specs idx [] cert t t' e = ground arith
    has_cert-add_specs idx (entry ∷ entries) cert t t' e =
        let step = add_spec sum224 trust pem parse_certificate idx entry t in
        elim (Option-cases step.1) [
          | inr (x, failed) ↦ absurd (ground (arith, failed))
          | inl fine ↦ ground (
            arith,
            fine,
            has_cert-add_specs (suc idx) entries cert step.0 t' (ground (arith, fine)),
            has_cert-add_spec idx entry cert t step.0 (ground (arith, fine)),
            has_hash-append cert (certs_of entry) (all_certs entries),
          )
        ]

    -- A map that is decoded without an error from a list of texts has a certificate exactly when it
    -- had it before, or some certificate of the files and texts of the list has the same hash.
    pub has_cert-decode_map :
        (lo : Lo) (entries : List Text) (cert : Text) (t t' : CertificateMap)
        → decode_map sum224 trust pem parse_certificate lo (list (texts entries)) t ≡ (t', none)
        → has_cert sum224 t' cert ≡ (has_hash cert (all_certs entries) || has_cert sum224 t cert)
    unfolding decode_map has_cert
    has_cert-decode_map lo entries cert t t' e =
        let strings = (strings_of_iff lo (list (texts entries)) entries).1 refl in
        let loop = add_specs sum224 trust pem parse_certificate 0 entries t in
        elim (Option-cases loop.1) [
          | inr (x, failed) ↦ absurd (ground (arith, strings, failed))
          | inl fine ↦ ground (
            arith,
            strings,
            fine,
            has_cert-add_specs 0 entries cert t loop.0 (ground (arith, fine)),
          )
        ]
