-- ===== src/Startup/Serves.antt =====
-- A server that starts serves its configuration: pkg/server/server.go as a whole.
use proxyreverse.Prelude.{
  ◌≡◌, ap, ◌∙◌, some, [], Text, arith, Assoc, lookup, Among, find, Result-cases, inl, inr, ok,
}
use proxyreverse.Go.Lo.{Lo}
use proxyreverse.Config.Models.{Config, SiteConfig}
use proxyreverse.Target.{SelectorDecoder}
use proxyreverse.Proxychain.{ProxyLibrary}
use proxyreverse.Listener.{HttpEdgeListener, new_listener, match_site}
use proxyreverse.Listener.Attach.{attach}
use proxyreverse.Listener.Routing.{match_site_configured}
use proxyreverse.Startup.{
  SiteKey, SiteMapping, Listeners, ListenPorts, Surroundings, Built, build_chains,
  collect_listeners, start_listeners, collect_sites, site_backend, attach_sites, server,
  site_key_eq,
}
use proxyreverse.Startup.Mapping.{collect_sites-AreDistinct, collect_sites-maps}
use proxyreverse.Startup.Attached.{
  AreNew, start_listeners-AreNew, sites_of, lookup-sites_of, sites_of-HasDistinctKeys,
  attached_listener, attach_sites-attach,
}

module _ (lo : Lo) (lib : ProxyLibrary) (decoder : SelectorDecoder) (around : Surroundings) where
  -- The stages of a start that succeeds.
  pub record Stages (cfg : Config) (running : Listeners (Built (lib.Dialer))) : Type 0 where
    pub chains : Assoc (lib.Dialer)
    pub keys : ListenPorts × ListenPorts
    pub listeners : Listeners (Built (lib.Dialer))
    pub mapping : SiteMapping (Built (lib.Dialer))
    pub built : build_chains lib cfg.proxychains [] ≡ ok chains
    pub collected : collect_listeners around cfg.listeners [] [] ≡ ok keys
    pub listening : start_listeners around (around.visit_ports keys.0) keys.1 [] ≡ ok listeners
    pub mapped : collect_sites decoder chains cfg.sites [] ≡ ok mapping
    pub attached :
        attach_sites lo (around.visit_sites (Built (lib.Dialer)) mapping) listeners ≡ ok running

  pub server-Stages :
      (cfg : Config) (running : Listeners (Built (lib.Dialer)))
      → server lo lib decoder around (some cfg) ≡ ok running
      → Stages cfg running
  unfolding server
  server-Stages cfg running e = elim (Result-cases (build_chains lib cfg.proxychains [])) [
    | inr (x, failed) ↦ absurd (ground (arith, failed))
    | inl (chains, built) ↦ elim (Result-cases (collect_listeners around cfg.listeners [] [])) [
      | inr (x, failed) ↦ absurd (ground (arith, built, failed))
      | inl (keys, collected) ↦
          elim (Result-cases (
            start_listeners around {B = Built (lib.Dialer)} (around.visit_ports keys.0) keys.1
              [])) [
                | inr (x, failed) ↦ absurd (ground (arith, built, collected, failed))
                | inl (listeners, listening) ↦
                    elim (Result-cases (collect_sites decoder chains cfg.sites [])) [
                      | inr (x, failed) ↦
                          absurd (ground (arith, built, collected, listening, failed))
                      | inl (mapping, mapped) ↦ record {
                        chains = chains;
                        keys = keys;
                        listeners = listeners;
                        mapping = mapping;
                        built = built;
                        collected = collected;
                        listening = listening;
                        mapped = mapped;
                        attached = ground (arith, built, collected, listening, mapped);
                      }
                    ]
              ]
    ]
  ]

  pub AreNew-nil : AreNew {B = Built (lib.Dialer)} []
  AreNew-nil name l e = absurd (unfold lookup in cc)

  -- In a server that starts, each site is served at each of its listeners: a request host equal to
  -- the site's host reaches the backend that was built from the site's configuration, with the
  -- dialer of its proxychain, in whatever order the runtime visits the maps.
  pub server_serves :
      (cfg : Config) (running : Listeners (Built (lib.Dialer))) (site : SiteConfig) (name : Text)
      → server lo lib decoder around (some cfg) ≡ ok running
      → Among site cfg.sites
      → Among name site.listener
      → (chains : Assoc (lib.Dialer)) × (b : Built (lib.Dialer)) × (l : HttpEdgeListener
          (Built (lib.Dialer)))
        × (build_chains lib cfg.proxychains [] ≡ ok chains)
        × (site_backend decoder chains site ≡ ok b)
        × (lookup name running ≡ some (some l))
        × (match_site lo site.host l ≡ some b)
  server_serves cfg running site name e listed attached_to =
      let s = server-Stages cfg running e in
      let key : SiteKey = record { host = site.host; listener = name } in
      let (b, built, found) =
        collect_sites-maps decoder s.chains cfg.sites [] s.mapping site name s.mapped listed
          attached_to in
      let distinct =
        collect_sites-AreDistinct decoder s.chains cfg.sites [] s.mapping s.mapped tt in
      let visited = around.visit_sites (Built (lib.Dialer)) s.mapping in
      let (apart, as_mapped) = around.visit_sites_law (Built (lib.Dialer)) s.mapping distinct in
      let found' : find site_key_eq key visited ≡ some b = as_mapped key ∙ found in
      let (l, has) = attached_listener lo key b visited s.listeners running s.attached found' in
      let new : l ≡ new_listener =
        start_listeners-AreNew around (around.visit_ports s.keys.0) s.keys.1 [] s.listeners
          s.listening AreNew-nil name l has in
      let sites = sites_of name visited in
      (
        s.chains,
        b,
        attach lo sites new_listener,
        s.built,
        built,
        attach_sites-attach lo visited s.listeners running name new_listener s.attached
            (has ∙ ap (λ x. some (some x)) new),
        match_site_configured lo sites site.host b (sites_of-HasDistinctKeys name visited apart)
            (lookup-sites_of site.host name visited ∙ found'),
      )
