-- ===== src/Startup/Starts.antt =====
-- A start that goes through: pkg/server/server.go.
use proxyreverse.Prelude.{
  ◌≡◌, ◌≢◌, refl, subst, All, All-imp, visit-All, none, some, List, [], ◌∷◌, Text, arith, put,
  put-All, ok, Assoc, lookup, insert,
}
use proxyreverse.Go.Lo.{Lo}
use proxyreverse.Config.Models.{Config, SiteConfig}
use proxyreverse.Target.{SelectorDecoder}
use proxyreverse.Proxychain.{ProxyLibrary}
use proxyreverse.Listener.{add_site}
use proxyreverse.Startup.{
  SiteKey, SiteMapping, Listeners, Surroundings, Built, site_key_eq, map_site, collect_sites,
  attach_sites, build_chains, server,
}
use proxyreverse.Startup.Collect.{HasDistinctSockets, AreUnseen-nil}
use proxyreverse.Startup.Mapping.{
  site_key_eq_iff, collect_sites-AreDistinct, map_site-nil, map_site-inv, collect_sites-nil,
  collect_sites-inv,
}
use proxyreverse.Startup.Sites.{site_keys, HasNoClash, AreBuilt, collect_sites-AreFree, AreFree-nil}
use proxyreverse.Startup.Ready.{
  IsUp, insert-IsUp, AreOpening, collect_listeners-append, start_listeners-IsUp,
}

-- The listeners of the mapped sites satisfy a predicate.
abbrev pub AllAt : {B : Type 0} → (Text → Type 0) → SiteMapping B → Type 0
AllAt Q mapping = All (λ m. Q m.0.listener) mapping

module _ {B : Type 0} where
  map_site-AllAt :
      (Q : Text → Type 0) (host : Text) (b : B) (names : List Text)
      (mapping mapping' : SiteMapping B)
      → map_site host b names mapping ≡ ok mapping'
      → All Q names
      → AllAt Q mapping
      → AllAt Q mapping'
  map_site-AllAt Q host b [] mapping mapping' e q h =
      subst (AllAt Q) (map_site-nil host b mapping mapping' e) h
  map_site-AllAt Q host b (name ∷ names) mapping mapping' e (q, qs) h =
      let key : SiteKey = record { host = host; listener = name } in
      map_site-AllAt Q host b names (put site_key_eq key b mapping) mapping'
        (map_site-inv host b name names mapping mapping' e).1 qs
        (put-All site_key_eq (λ m. Q m.0.listener) key b mapping q h)

  -- With every listener of the mapped sites up, the sites are attached.
  pub attach_sites-IsUp :
      (lo : Lo) (mapping : SiteMapping B) (listeners : Listeners B)
      → AllAt (λ name. IsUp name listeners) mapping
      → (listeners' : Listeners B) × (attach_sites lo mapping listeners ≡ ok listeners')
  unfolding attach_sites add_site
  attach_sites-IsUp lo [] listeners h = (listeners, refl)
  attach_sites-IsUp lo ((k, b) ∷ mapping) listeners ((l, found), h) =
      let l' = (add_site lo k.host b l).0 in
      let (listeners', e) = attach_sites-IsUp lo mapping (insert k.listener (some l') listeners) (
        All-imp (λ m. IsUp m.0.listener listeners)
          (λ m. IsUp m.0.listener (insert k.listener (some l') listeners))
          (λ m u. insert-IsUp k.listener m.0.listener l' listeners u) mapping h) in
      (listeners', ground (arith, found, e))

-- The listeners of the sites satisfy a predicate, and so do those of the mapping.
pub collect_sites-AllAt :
    (decoder : SelectorDecoder) {D : Type 0} (chains : Assoc D) (Q : Text → Type 0)
    (sites : List SiteConfig) (mapping mapping' : SiteMapping (Built D))
    → collect_sites decoder chains sites mapping ≡ ok mapping'
    → All (λ (site : SiteConfig). All Q site.listener) sites
    → AllAt Q mapping
    → AllAt Q mapping'
collect_sites-AllAt decoder chains Q [] mapping mapping' e q h =
    subst (AllAt Q) (collect_sites-nil decoder chains mapping mapping' e) h
collect_sites-AllAt decoder chains Q (site ∷ sites) mapping mapping' e (q, qs) h =
    let (b, m, built, mapped, rest) =
      collect_sites-inv decoder chains site sites mapping mapping' e in
    collect_sites-AllAt decoder chains Q sites m mapping' rest qs
      (map_site-AllAt Q site.host b site.listener mapping m mapped q h)

module _ (lo : Lo) (lib : ProxyLibrary) (decoder : SelectorDecoder) (around : Surroundings) where
  -- The server starts if its chains can be built, no two listeners have the same address, port and
  -- network, every listener is of the type "http-edge" and its socket opens, each site's backend can
  -- be built, no host stands twice at a listener, and every listener of a site is configured.
  pub server_starts :
      (cfg : Config) (chains : Assoc (lib.Dialer))
      → build_chains lib cfg.proxychains [] ≡ ok chains
      → HasDistinctSockets around cfg.listeners
      → AreOpening around cfg.listeners
      → AreBuilt decoder chains cfg.sites
      → HasNoClash (site_keys cfg.sites)
      → All
          (λ (site : SiteConfig). All (λ name. lookup name cfg.listeners ≢ none) site.listener)
          cfg.sites
      → (running : Listeners (Built (lib.Dialer))) × (server lo lib decoder around (some cfg)
          ≡ ok running)
  unfolding server
  server_starts cfg chains made distinct opening built unique configured =
      let fresh = AreUnseen-nil around cfg.listeners in
      let collected = collect_listeners-append around cfg.listeners [] [] distinct fresh fresh in
      let (listeners, listening, up) = start_listeners-IsUp around cfg.listeners distinct opening in
      let (mapping, mapped) =
        collect_sites-AreFree decoder chains cfg.sites [] built unique
          (AreFree-nil (Built (lib.Dialer)) (site_keys cfg.sites)) in
      let at =
        collect_sites-AllAt decoder chains (λ name. lookup name cfg.listeners ≢ none) cfg.sites []
          mapping mapped configured tt in
      let unique_keys = collect_sites-AreDistinct decoder chains cfg.sites [] mapping mapped tt in
      let ready =
        All-imp (λ m. lookup m.0.listener cfg.listeners ≢ none) (λ m. IsUp m.0.listener listeners)
          (λ m c. up m.0.listener c) mapping at in
      let visit = around.visit_sites (Built (lib.Dialer)) in
      let (running, attached) = attach_sites-IsUp lo (visit mapping) listeners (
        visit-All site_key_eq site_key_eq_iff (λ m. IsUp m.0.listener listeners) visit mapping
          (around.visit_sites_law (Built (lib.Dialer))) unique_keys ready) in
      (running, ground (arith, made, collected, listening, mapped, attached))
