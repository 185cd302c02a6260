-- ===== src/Config/Certificates/Pool.antt =====
-- `TLSCertificatePool` of pkg/server/config/x509_models.go: what a decoded pool holds.
use proxyreverse.Prelude.{
  ◌≡◌, ◌≢◌, ◌⊎◌, refl, none, some, List, Text, arith, Option-cases, inl, inr,
}
use proxyreverse.Go.Lo.{Lo}
use proxyreverse.Config.Value.{list}
use proxyreverse.Config.Models.{CertificatePool}
use proxyreverse.Config.Certificates.{Trust, first_pool, add_entries, decode_pool}
use proxyreverse.Config.Certificates.Entries.{texts, strings_of_iff}

module _ (trust : Trust) (lo : Lo) where
  -- A list of texts is decoded into the pool of its entries, or refused with an error, and then
  -- the receiver keeps its list of originals.
  pub decode_pool_result :
      (entries : List Text) (t : CertificatePool)
      → (((decode_pool trust lo (list (texts entries)) t).1 ≡ none)
          × ((decode_pool trust lo (list (texts entries)) t).0.original ≡ entries)
          × ((decode_pool trust lo (list (texts entries)) t).0.cert_pool
              ≡ some (add_entries trust 0 entries (first_pool trust entries)).0))
        ⊎ (((decode_pool trust lo (list (texts entries)) t).1 ≢ none)
            × ((decode_pool trust lo (list (texts entries)) t).0.original ≡ t.original))
  unfolding decode_pool
  decode_pool_result entries t =
      let strings = (strings_of_iff lo (list (texts entries)) entries).1 refl in
      elim (Option-cases (add_entries trust 0 entries (first_pool trust entries)).1) [
        | inl fine ↦ inl (ground (arith, strings, fine))
        | inr (x, bad) ↦ inr (ground (arith, strings, bad))
      ]
