-- ===== src/Startup/Table.antt =====
-- The sites of a listener that pkg/server/server.go has started, as the configuration gives them.
use proxyreverse.Prelude.{
  ◌≡◌, ◌⊎◌, ◌↔◌, refl, false, sym, ap, ◌∙◌, subst, some, List, [], ◌∷◌, Text, arith, find, put,
  find-put, Among, Assoc, lookup, HasDistinctKeys, Bool-cases, inl, inr, ok,
}
use proxyreverse.Go.Lo.{Lo}
use proxyreverse.Config.Models.{Config, SiteConfig}
use proxyreverse.Target.{SelectorDecoder}
use proxyreverse.Proxychain.{ProxyLibrary}
use proxyreverse.Listener.{HttpEdgeListener, new_listener, match_site, components}
use proxyreverse.Listener.Attach.{attach, knows, site_at, match_site-attach}
use proxyreverse.Listener.Walk.{resolve}
use proxyreverse.Startup.{
  SiteKey, SiteMapping, Listeners, Surroundings, Built, site_key_eq, map_site, build_chains,
  collect_sites, site_backend, server,
}
use proxyreverse.Startup.Mapping.{
  site_key_eq_iff, map_site-nil, map_site-inv, collect_sites-nil, collect_sites-inv,
  collect_sites-maps, collect_sites-AreDistinct,
}
use proxyreverse.Startup.Attached.{
  start_listeners-AreNew, attach_sites-attach, sites_of, lookup-sites_of, sites_of-HasDistinctKeys,
}
use proxyreverse.Startup.Live.Parts.{attach_sites_from}
use proxyreverse.Startup.Serves.{server-Stages, AreNew-nil}

-- What is mapped for a site's host was mapped before, or is the site's.
map_site_sound :
    {B : Type 0} (host : Text) (b : B) (names : List Text) (mapping mapping' : SiteMapping B)
    (k : SiteKey) (c : B)
    → map_site host b names mapping ≡ ok mapping'
    → find site_key_eq k mapping' ≡ some c
    → (find site_key_eq k mapping ≡ some c) ⊎ ((k.host ≡ host) × Among k.listener names × (c ≡ b))
map_site_sound host b [] mapping mapping' k c e f =
    inl
      (subst (λ m. find site_key_eq k m ≡ some c) (sym (map_site-nil host b mapping mapping' e)) f)
map_site_sound host b (name ∷ names) mapping mapping' k c e f =
    let key : SiteKey = record { host = host; listener = name } in
    let (free, rest) = map_site-inv host b name names mapping mapping' e in
    let added = find-put site_key_eq site_key_eq_iff key k b mapping in
    elim (map_site_sound host b names (put site_key_eq key b mapping) mapping' k c rest f) [
      | inr (at, later, same) ↦ inr (at, inr later, same)
      | inl before ↦ elim (Bool-cases (site_key_eq key k)) [
        | inl here ↦
            let one : key ≡ k = (site_key_eq_iff key k).0 here in
            inr (
              ap (λ (q : SiteKey). q.host) (sym one),
              inl (ap (λ (q : SiteKey). q.listener) (sym one)),
              ground (arith, added, before, here),
            )
        | inr away ↦ inl (ground (arith, added, before, away))
      ]
    ]

module _ (decoder : SelectorDecoder) {D : Type 0} (chains : Assoc D) where
  -- A site of the configuration that stands for a host at a listener, with its backend.
  abbrev pub IsSiteOf : List SiteConfig → Text → Text → Built D → Type 0
  IsSiteOf sites name host b =
      (site : SiteConfig) × Among site sites
      × Among name site.listener
      × (site.host ≡ host)
      × (site_backend decoder chains site ≡ ok b)

  collect_sites_sound :
      (sites : List SiteConfig) (mapping mapping' : SiteMapping (Built D)) (k : SiteKey)
      (c : Built D)
      → collect_sites decoder chains sites mapping ≡ ok mapping'
      → find site_key_eq k mapping' ≡ some c
      → (find site_key_eq k mapping ≡ some c) ⊎ IsSiteOf sites k.listener k.host c
  collect_sites_sound [] mapping mapping' k c e f = inl (
      subst (λ m. find site_key_eq k m ≡ some c)
        (sym (collect_sites-nil decoder chains mapping mapping' e)) f)
  collect_sites_sound (site ∷ sites) mapping mapping' k c e f =
      let (b, m, built, mapped, rest) =
        collect_sites-inv decoder chains site sites mapping mapping' e in
      elim (collect_sites_sound sites m mapping' k c rest f) [
        | inr (s, later, at, host, made) ↦ inr (s, inr later, at, host, made)
        | inl before ↦ elim (map_site_sound site.host b site.listener mapping m k c mapped before) [
          | inl old ↦ inl old
          | inr (host, at, same) ↦
              inr (site, inl refl, at, sym host, built ∙ ap (λ q. ok q) (sym same))
        ]
      ]

  collect_sites_complete :
      (sites : List SiteConfig) (mapping : SiteMapping (Built D)) (name host : Text) (c : Built D)
      → collect_sites decoder chains sites [] ≡ ok mapping
      → IsSiteOf sites name host c
      → find site_key_eq (record { host = host; listener = name }) mapping ≡ some c
  collect_sites_complete sites mapping name host c e (site, listed, at, same, made) =
      let (b, built, found) =
        collect_sites-maps decoder chains sites [] mapping site name e listed at in
      let one : b ≡ c = ground (arith, built, made) in
      subst (λ h. find site_key_eq (record { host = h; listener = name }) mapping ≡ some c) same
        (found ∙ ap (λ q. some q) one)

module _ (lo : Lo) (lib : ProxyLibrary) (decoder : SelectorDecoder) (around : Surroundings) where
  -- In a server that starts, each of its listeners stands for a table of sites with distinct hosts,
  -- which has exactly the sites of the configuration that name the listener, each with the backend
  -- that is built from it, in whatever order the runtime visits the maps: the backend for a host is
  -- that of the path to which the search over the hosts of the table resolves it.
  pub server_table :
      (cfg : Config) (running : Listeners (Built (lib.Dialer))) (name : Text)
      (l : HttpEdgeListener (Built (lib.Dialer)))
      → server lo lib decoder around (some cfg) ≡ ok running
      → lookup name running ≡ some (some l)
      → (chains : Assoc (lib.Dialer)) × (sites : Assoc (Built (lib.Dialer))) × (build_chains lib
            cfg.proxychains []
          ≡ ok chains)
        × HasDistinctKeys sites
        × ((host : Text) (b : Built (lib.Dialer))
            → (lookup host sites ≡ some b) ↔ IsSiteOf decoder chains cfg.sites name host b)
        × ((host : Text)
            → match_site lo host l
              ≡ site_at lo sites (resolve (knows lo sites) false [] (components lo host)))
  server_table cfg running name l e there =
      let s = server-Stages lo lib decoder around cfg running e in
      let distinct =
        collect_sites-AreDistinct decoder s.chains cfg.sites [] s.mapping s.mapped tt in
      let visited = around.visit_sites (Built (lib.Dialer)) s.mapping in
      let (apart, as_mapped) = around.visit_sites_law (Built (lib.Dialer)) s.mapping distinct in
      let sites = sites_of name visited in
      let (l0, before) = attach_sites_from lo visited s.listeners running name l s.attached there in
      let new : l0 ≡ new_listener =
        start_listeners-AreNew around (around.visit_ports s.keys.0) s.keys.1 [] s.listeners
          s.listening (AreNew-nil lo lib decoder around) name l0 before in
      let after = attach_sites-attach lo visited s.listeners running name l0 s.attached before in
      let found : (host : Text)
          → lookup host sites
            ≡ find site_key_eq (record { host = host; listener = name }) s.mapping =
        λ host. lookup-sites_of host name visited ∙ as_mapped _ in
      let attached : l ≡ attach lo sites new_listener = ground (arith, there, after, new) in
      (
        s.chains,
        sites,
        s.built,
        sites_of-HasDistinctKeys name visited apart,
        (λ host b. (
          (λ h.
              elim (collect_sites_sound decoder s.chains cfg.sites [] s.mapping
                (record { host = host; listener = name }) b s.mapped (sym (found host) ∙ h)) [
                  | inl nowhere ↦ absurd (unfold find in cc)
                  | inr site ↦ site
                ]),
          (λ h.
              found host
              ∙ collect_sites_complete decoder s.chains cfg.sites s.mapping name host b s.mapped h),
        )),
        (λ host.
            ap (match_site lo host) attached
            ∙ match_site-attach lo sites host (sites_of-HasDistinctKeys name visited apart)),
      )
