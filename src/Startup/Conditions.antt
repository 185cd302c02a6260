-- ===== src/Startup/Conditions.antt =====
-- When the start of pkg/server/server.go goes through.
use proxyreverse.Prelude.{
  ◌≡◌, ◌↔◌, refl, ap, ◌∙◌, subst, All, All-imp, visit-All, Among, some, List, [], ◌∷◌, arith, ok,
  Assoc, lookup, HasDistinctKeys, inl, inr,
}
use proxyreverse.Go.Lo.{Lo}
use proxyreverse.Config.Models.{Config, SiteConfig}
use proxyreverse.Target.{SelectorDecoder}
use proxyreverse.Proxychain.{ProxyLibrary}
use proxyreverse.Startup.{
  SiteKey, Listeners, ListenPorts, Surroundings, Built, site_key_eq, start_listeners,
  collect_listeners, build_chains, server,
}
use proxyreverse.Startup.Collect.{HasDistinctSockets, AreUnseen-nil, collect_listeners_iff}
use proxyreverse.Startup.Mapping.{site_key_eq_iff, collect_sites-AreDistinct, collect_sites-maps}
use proxyreverse.Startup.Sites.{site_keys, HasNoClash, AreBuilt, collect_sites-AreFree, AreFree-nil}
use proxyreverse.Startup.Clashes.{collect_sites-HasNoClash}
use proxyreverse.Startup.Attached.{attached_listener}
use proxyreverse.Startup.Keys.{ports_of, names_of}
use proxyreverse.Startup.Ready.{IsUp, collect_listeners-append}
use proxyreverse.Startup.Opened.{AreEdge, Opens, start_listeners-Opens, start_listeners-AreEdge}
use proxyreverse.Startup.Starts.{attach_sites-IsUp, collect_sites-AllAt}
use proxyreverse.Startup.Serves.{server-Stages}

All_of_Among : {A : Type 0} (P : A → Type 0) (xs : List A) → ((x : A) → Among x xs → P x) → All P xs
All_of_Among P [] h = tt
All_of_Among P (x ∷ xs) h = (h x (inl refl), All_of_Among P xs (λ y a. h y (inr a)))

module _ (lib : ProxyLibrary) (decoder : SelectorDecoder) (around : Surroundings) where
  -- The chains can be built, no two listeners have the same address, port and network, every
  -- listener is of the type "http-edge", each site's backend can be built, no host stands twice at
  -- a listener, and every listener of a site is configured and its socket opens.
  pub record CanStart (cfg : Config) : Type 0 where
    pub chains : Assoc (lib.Dialer)
    pub made : build_chains lib cfg.proxychains [] ≡ ok chains
    pub sockets : HasDistinctSockets around cfg.listeners
    pub edge : AreEdge around cfg.listeners
    pub built : AreBuilt decoder chains cfg.sites
    pub unique : HasNoClash (site_keys cfg.sites)
    pub opening :
        All (λ (site : SiteConfig). All (Opens around cfg.listeners) site.listener) cfg.sites

module _ (lo : Lo) (lib : ProxyLibrary) (decoder : SelectorDecoder) (around : Surroundings)
    (cfg : Config) (named : HasDistinctKeys cfg.listeners) where
  collected :
      HasDistinctSockets around cfg.listeners
      → collect_listeners around cfg.listeners [] []
        ≡ ok (ports_of around cfg.listeners, names_of around cfg.listeners)
  collected sockets =
      let fresh = AreUnseen-nil around cfg.listeners in
      collect_listeners-append around cfg.listeners [] [] sockets fresh fresh

  CanStart-server :
      CanStart lib decoder around cfg
      → (running : Listeners (Built (lib.Dialer))) × (server lo lib decoder around (some cfg)
          ≡ ok running)
  unfolding server
  CanStart-server c =
      let (up, listening, is_up) =
        start_listeners-Opens around cfg.listeners named c.sockets c.edge in
      let (mapping, mapped) =
        collect_sites-AreFree decoder c.chains cfg.sites [] c.built c.unique
          (AreFree-nil (Built (lib.Dialer)) (site_keys cfg.sites)) in
      let at =
        collect_sites-AllAt decoder c.chains (Opens around cfg.listeners) cfg.sites [] mapping
          mapped c.opening tt in
      let ready =
        All-imp (λ m. Opens around cfg.listeners m.0.listener) (λ m. IsUp m.0.listener up)
          (λ m o. (is_up m.0.listener).1 o) mapping at in
      let visit = around.visit_sites (Built (lib.Dialer)) in
      let (running, attached) = attach_sites-IsUp lo (visit mapping) up (
        visit-All site_key_eq site_key_eq_iff (λ m. IsUp m.0.listener up) visit mapping
          (around.visit_sites_law (Built (lib.Dialer)))
          (collect_sites-AreDistinct decoder c.chains cfg.sites [] mapping mapped tt) ready) in
      (running, ground (arith, c.made, collected c.sockets, listening, mapped, attached))

  server-CanStart :
      (running : Listeners (Built (lib.Dialer)))
      → server lo lib decoder around (some cfg) ≡ ok running
      → CanStart lib decoder around cfg
  server-CanStart running e =
      let s = server-Stages lo lib decoder around cfg running e in
      let sockets = (collect_listeners_iff around cfg.listeners).0 (s.keys, s.collected) in
      let keys : s.keys ≡ (ports_of around cfg.listeners, names_of around cfg.listeners) =
        ground (arith, s.collected, collected sockets) in
      let listening : start_listeners around (around.visit_ports (ports_of around cfg.listeners))
            (names_of around cfg.listeners) []
          ≡ ok s.listeners =
        subst
          (λ (q : ListenPorts × ListenPorts).
            start_listeners around (around.visit_ports q.0) q.1 [] ≡ ok s.listeners)
          keys s.listening in
      let edge = start_listeners-AreEdge around cfg.listeners named sockets s.listeners listening in
      let (up, started, is_up) = start_listeners-Opens around cfg.listeners named sockets edge in
      let one : up ≡ s.listeners = ground (arith, started, listening) in
      let (built, unique, free) =
        collect_sites-HasNoClash decoder s.chains cfg.sites [] s.mapping s.mapped in
      let distinct =
        collect_sites-AreDistinct decoder s.chains cfg.sites [] s.mapping s.mapped tt in
      let visited = around.visit_sites (Built (lib.Dialer)) s.mapping in
      let (apart, as_mapped) = around.visit_sites_law (Built (lib.Dialer)) s.mapping distinct in
      record {
        chains = s.chains;
        made = s.built;
        sockets = sockets;
        edge = edge;
        built = built;
        unique = unique;
        opening =
            All_of_Among (λ (site : SiteConfig). All (Opens around cfg.listeners) site.listener)
              cfg.sites
              (λ site listed. All_of_Among (Opens around cfg.listeners) site.listener (λ name at.
                let key : SiteKey = record { host = site.host; listener = name } in
                let (b, made, found) =
                  collect_sites-maps decoder s.chains cfg.sites [] s.mapping site name s.mapped
                    listed at in
                let (l, there) =
                  attached_listener lo key b visited s.listeners running s.attached
                    (as_mapped key ∙ found) in
                (is_up name).0 (l, ap (lookup name) one ∙ there)));
      }

  -- The server starts exactly from the configurations of which the chains can be built, no two
  -- listeners have the same address, port and network, every listener is of the type "http-edge",
  -- each site's backend can be built, no host stands twice at a listener, and every listener of a
  -- site is configured and its socket opens; in whatever order the runtime visits the maps. The
  -- listeners have distinct names.
  pub server_starts_iff :
      ((running : Listeners (Built (lib.Dialer))) × (server lo lib decoder around (some cfg)
          ≡ ok running))
      ↔ CanStart lib decoder around cfg
  server_starts_iff = ((λ h. server-CanStart h.0 h.1), CanStart-server)
