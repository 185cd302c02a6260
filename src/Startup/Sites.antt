-- ===== src/Startup/Sites.antt =====
-- The sites of a configuration that are mapped without an error: pkg/server/server.go.
use proxyreverse.Prelude.{
  ◌≡◌, ◌≢◌, refl, All, none, List, [], ◌∷◌, ◌++◌, Text, arith, find, put, find-put, ok, Assoc,
}
use proxyreverse.Config.Models.{SiteConfig}
use proxyreverse.Target.{SelectorDecoder}
use proxyreverse.Startup.{
  SiteKey, SiteMapping, Built, site_key_eq, map_site, site_backend, collect_sites,
}
use proxyreverse.Startup.Mapping.{site_key_eq_iff}

-- The hosts of the sites, each with each of its listeners.
abbrev pub keys_at : Text → List Text → List SiteKey
keys_at host [] = []
keys_at host (name ∷ names) = record { host = host; listener = name } ∷ keys_at host names

abbrev pub site_keys : List SiteConfig → List SiteKey
site_keys [] = []
site_keys (site ∷ sites) = keys_at site.host site.listener ++ site_keys sites

abbrev pub HasNoClash : List SiteKey → Type 0
HasNoClash [] = Unit
HasNoClash (k ∷ keys) = All (λ j. k ≢ j) keys × HasNoClash keys

module _ {B : Type 0} where
  abbrev pub AreFree : SiteMapping B → List SiteKey → Type 0
  AreFree mapping keys = All (λ k. find site_key_eq k mapping ≡ none) keys

  put-AreFree :
      (k : SiteKey) (b : B) (mapping : SiteMapping B) (keys : List SiteKey)
      → All (λ j. k ≢ j) keys
      → AreFree mapping keys
      → AreFree (put site_key_eq k b mapping) keys
  put-AreFree k b mapping [] d h = tt
  put-AreFree k b mapping (j ∷ keys) (d, ds) (h, hs) = (
    ground (arith, find-put site_key_eq site_key_eq_iff k j b mapping, site_key_eq_iff k j),
    put-AreFree k b mapping keys ds hs,
  )

  map_site-AreFree :
      (host : Text) (b : B) (names : List Text) (mapping : SiteMapping B) (keys : List SiteKey)
      → HasNoClash (keys_at host names ++ keys)
      → AreFree mapping (keys_at host names ++ keys)
      → (m : SiteMapping B) × (map_site host b names mapping ≡ ok m)
        × HasNoClash keys
        × AreFree m keys
  unfolding map_site
  map_site-AreFree host b [] mapping keys d h = (mapping, refl, d, h)
  map_site-AreFree host b (name ∷ names) mapping keys (differ, d) (free, h) =
      let key : SiteKey = record { host = host; listener = name } in
      let (m, e, d', h') =
        map_site-AreFree host b names (put site_key_eq key b mapping) keys d
          (put-AreFree key b mapping (keys_at host names ++ keys) differ h) in
      (m, ground (arith, free, e), d', h')

module _ (decoder : SelectorDecoder) {D : Type 0} (chains : Assoc D) where
  -- Each site's backend can be built.
  abbrev pub AreBuilt : List SiteConfig → Type 0
  AreBuilt sites = All (λ site. (b : Built D) × (site_backend decoder chains site ≡ ok b)) sites

  pub collect_sites-AreFree :
      (sites : List SiteConfig) (mapping : SiteMapping (Built D))
      → AreBuilt sites
      → HasNoClash (site_keys sites)
      → AreFree mapping (site_keys sites)
      → (m : SiteMapping (Built D)) × (collect_sites decoder chains sites mapping ≡ ok m)
  unfolding collect_sites
  collect_sites-AreFree [] mapping built d h = (mapping, refl)
  collect_sites-AreFree (site ∷ sites) mapping ((b, e), built) d h =
      let (m, mapped, d', h') =
        map_site-AreFree site.host b site.listener mapping (site_keys sites) d h in
      let (m', rest) = collect_sites-AreFree sites m built d' h' in
      (m', ground (arith, e, mapped, rest))

pub AreFree-nil : (B : Type 0) (keys : List SiteKey) → AreFree {B = B} [] keys
unfolding find
AreFree-nil B [] = tt
AreFree-nil B (k ∷ keys) = (refl, AreFree-nil B keys)
