-- ===== src/Startup/Clashes.antt =====
-- Sites that pkg/server/server.go maps without an error have no host twice at a listener.
use proxyreverse.Prelude.{
  ◌≡◌, ◌≢◌, sym, subst, All, List, [], ◌∷◌, ◌++◌, Text, arith, put, find-put, ok, Assoc,
}
use proxyreverse.Config.Models.{SiteConfig}
use proxyreverse.Target.{SelectorDecoder}
use proxyreverse.Startup.{SiteKey, SiteMapping, Built, site_key_eq, map_site, collect_sites}
use proxyreverse.Startup.Mapping.{site_key_eq_iff, map_site-inv, map_site-nil, collect_sites-inv}
use proxyreverse.Startup.Sites.{keys_at, site_keys, HasNoClash, AreFree, AreBuilt}

module _ {B : Type 0} where
  put-AreFree_before :
      (k : SiteKey) (b : B) (mapping : SiteMapping B) (keys : List SiteKey)
      → AreFree (put site_key_eq k b mapping) keys
      → All (λ j. k ≢ j) keys × AreFree mapping keys
  put-AreFree_before k b mapping [] h = (tt, tt)
  put-AreFree_before k b mapping (j ∷ keys) (h, hs) =
      let added = find-put site_key_eq site_key_eq_iff k j b mapping in
      let same = site_key_eq_iff k j in
      let (differ, free) = put-AreFree_before k b mapping keys hs in
      (((λ e. ground (arith, h, added, same)), differ), (ground (arith, h, added, same), free))

  map_site-HasNoClash :
      (host : Text) (b : B) (names : List Text) (mapping m : SiteMapping B) (keys : List SiteKey)
      → map_site host b names mapping ≡ ok m
      → HasNoClash keys
      → AreFree m keys
      → HasNoClash (keys_at host names ++ keys) × AreFree mapping (keys_at host names ++ keys)
  map_site-HasNoClash host b [] mapping m keys e d h =
      (d, subst (λ q. AreFree q keys) (sym (map_site-nil host b mapping m e)) h)
  map_site-HasNoClash host b (name ∷ names) mapping m keys e d h =
      let key : SiteKey = record { host = host; listener = name } in
      let (free, rest) = map_site-inv host b name names mapping m e in
      let (d', h') =
        map_site-HasNoClash host b names (put site_key_eq key b mapping) m keys rest d h in
      let (differ, h'') = put-AreFree_before key b mapping (keys_at host names ++ keys) h' in
      ((differ, d'), (free, h''))

module _ (decoder : SelectorDecoder) {D : Type 0} (chains : Assoc D) where
  pub collect_sites-HasNoClash :
      (sites : List SiteConfig) (mapping mapping' : SiteMapping (Built D))
      → collect_sites decoder chains sites mapping ≡ ok mapping'
      → AreBuilt decoder chains sites
        × HasNoClash (site_keys sites)
        × AreFree mapping (site_keys sites)
  collect_sites-HasNoClash [] mapping mapping' e = (tt, tt, tt)
  collect_sites-HasNoClash (site ∷ sites) mapping mapping' e =
      let (b, m, built, mapped, rest) =
        collect_sites-inv decoder chains site sites mapping mapping' e in
      let (all_built, d, h) = collect_sites-HasNoClash sites m mapping' rest in
      let (d', h') =
        map_site-HasNoClash site.host b site.listener mapping m (site_keys sites) mapped d h in
      (((b, built), all_built), d', h')
