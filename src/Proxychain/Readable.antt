-- ===== src/Proxychain/Readable.antt =====
-- The chains of proxies that are read from texts: pkg/server/config/proxy_models.go and
-- pkg/server/proxychains.go.
use proxyreverse.Prelude.{
  ℕ, suc, ◌≡◌, ◌≢◌, ◌∙◌, ap, sym, refl, none, some, List, [], ◌∷◌, map, Text, text_eq_iff, arith,
  Option-cases, Result-cases, err, inl, inr, ◌⊎◌,
}
use proxyreverse.Config.Models.{Proxy, proxy_direct, proxy_environment}
use proxyreverse.Config.Urls.{proxy_unmarshal_text}
use proxyreverse.Go.Panic.{must_failed}
use proxyreverse.Proxychain.{ProxyLibrary, panics, stage, stages, new_proxychain_from_config}

module _ (lib : ProxyLibrary) where
  open lib use {Dialer, direct, parse_url}

  -- A proxy that the configuration's text is read into, new before.
  abbrev pub read_proxy : Text → Proxy
  read_proxy text = record { proxy = proxy_unmarshal_text parse_url [] text }

  -- What a stage can make something of.
  abbrev IsReadable : Proxy → Type 0
  IsReadable p =
      (p.proxy ≡ proxy_direct) ⊎ ((p.proxy ≡ proxy_environment) ⊎ (parse_url p.proxy ≢ none))

  -- What is read: a text that parses, or one of the two names, or nothing.
  read_parsed :
      (text : Text) (url : lib.ProxyUrl)
      → parse_url text ≡ some url
      → proxy_unmarshal_text parse_url [] text ≡ text
  unfolding proxy_unmarshal_text
  read_parsed text url e = rw (proxy_unmarshal_text, e) refl

  read_refused :
      (text : Text)
      → parse_url text ≡ none
      → (proxy_unmarshal_text parse_url [] text ≡ proxy_direct)
        ⊎ ((proxy_unmarshal_text parse_url [] text ≡ proxy_environment)
            ⊎ (proxy_unmarshal_text parse_url [] text ≡ []))
  unfolding proxy_unmarshal_text
  read_refused text e =
      rw (proxy_unmarshal_text, e)
        (ground (arith, text_eq_iff text proxy_direct, text_eq_iff text proxy_environment))

  read_proxy-IsReadable : parse_url [] ≢ none → (text : Text) → IsReadable (read_proxy text)
  read_proxy-IsReadable blank text = elim (Option-cases (parse_url text)) [
    | inl refused ↦ elim (read_refused text refused) [
      | inl e ↦ inl e
      | inr (inl e) ↦ inr (inl e)
      | inr (inr e) ↦ inr (inr (λ k. blank (sym (ap parse_url e) ∙ k)))
    ]
    | inr (url, e) ↦ inr (
        inr (λ k.
          let found = sym (ap parse_url (read_parsed text url e) ∙ e) ∙ k in
          absurd (ground (arith, found))))
  ]

  stage-IsReadable :
      (idx : ℕ) (p : Proxy) (dialer : Dialer)
      → IsReadable p
      → stage lib idx p dialer ≢ err (panics must_failed)
  unfolding stage
  stage-IsReadable idx p dialer h = elim (Option-cases (parse_url p.proxy)) [
    | inl refused ↦
        ground (arith, text_eq_iff p.proxy proxy_direct, text_eq_iff p.proxy proxy_environment)
    | inr (url, e) ↦ elim (Result-cases (lib.from_url url dialer)) [
      | inl (d, done) ↦
          ground (arith, text_eq_iff p.proxy proxy_direct, text_eq_iff p.proxy proxy_environment)
      | inr (x, failed) ↦
          ground (arith, text_eq_iff p.proxy proxy_direct, text_eq_iff p.proxy proxy_environment)
    ]
  ]

  stages-IsReadable :
      parse_url [] ≢ none
      → (idx : ℕ) (texts : List Text) (dialer : Dialer)
      → stages lib idx (map read_proxy texts) dialer ≢ err (panics must_failed)
  unfolding stages
  stages-IsReadable blank idx [] dialer = ground arith
  stages-IsReadable blank idx (text ∷ texts) dialer =
      elim (Result-cases (stage lib idx (read_proxy text) dialer)) [
        | inl (d, done) ↦ rw done (stages-IsReadable blank (suc idx) texts d)
        | inr (x, failed) ↦
            let fine =
              stage-IsReadable idx (read_proxy text) dialer (read_proxy-IsReadable blank text) in
            rw failed (λ e. fine (failed ∙ e))
      ]

  -- If the empty text is a URL, a chain of proxies whose texts were read by the configuration never
  -- panics at a text that is no URL, though reading accepts every text: such a text is read as the
  -- empty one.
  pub new_proxychain_of_texts :
      (texts : List Text)
      → parse_url [] ≢ none
      → new_proxychain_from_config lib (map read_proxy texts) ≢ err (panics must_failed)
  unfolding new_proxychain_from_config
  new_proxychain_of_texts texts blank =
      elim (Result-cases (stages lib 0 (map read_proxy texts) direct)) [
        | inl (d, done) ↦ ground (arith, done)
        | inr (x, failed) ↦
            let fine = stages-IsReadable blank 0 texts direct in rw failed (λ e. fine (failed ∙ e))
      ]
