-- ===== src/Listener/Routing.antt =====
-- Which backend a request's host reaches: `matchSite` and `handler` of pkg/server/listeners.go on
-- a listener with the sites of a configuration.
use proxyreverse.Prelude.{
  ◌≡◌, ◌⊎◌, inl, inr, sym, ap, ◌∙◌, true, false, some, List, [], ◌∷◌, ◌++◌, Text, arith, Assoc,
  lookup, HasDistinctKeys,
}
use mathlib.Core.List.{append-nil}
use proxyreverse.Go.HostPort.{split_host_port_of_IsPlain, split_host_port_no_colon, IsPlain}
use proxyreverse.Go.Lo.{Lo}
use proxyreverse.Listener.{
  HttpEdgeListener, new_listener, components, wildcard_match, match_site, handler, status, serve,
}
use proxyreverse.Listener.Walk.{resolve}
use proxyreverse.Listener.Attach.{attach, knows, site_at, site_at-components, match_site-attach}
use proxyreverse.Listener.Known.{
  is_prefix_refl, resolve_known, resolve_leaf, resolve_wildcard, resolve_end, resolve_unknown,
  site_at-root, components-wildcard, knows_prefix, knows_of_lookup, components-append,
}

-- The host of a request is a name, or a name and a port.
abbrev pub IsHostOf : Text → Text → Type 0
IsHostOf request_host host =
    (request_host ≡ host) ⊎ ((port : Text) × IsPlain port × (request_host ≡ host ++ (b':' ∷ port)))

module _ (lo : Lo) {B : Type 0} where
  -- The listener of a configuration's sites.
  abbrev pub listening : Assoc B → HttpEdgeListener B
  listening sites = attach lo sites new_listener

  pub match_site_resolved :
      (sites : Assoc B) (host : Text) (path : List Text)
      → HasDistinctKeys sites
      → resolve (knows lo sites) false [] (components lo host) ≡ path
      → match_site lo host (listening sites) ≡ site_at lo sites path
  match_site_resolved sites host path h e =
      match_site-attach lo sites host h ∙ ap (site_at lo sites) e

  resolve-components :
      (sites : Assoc B) (host : Text) (rest : List Text)
      → knows lo sites (components lo host) ≡ true
      → resolve (knows lo sites) false [] (components lo host ++ rest)
        ≡ resolve (knows lo sites) false (components lo host) rest
  resolve-components sites host rest h =
      resolve_known (knows lo sites) (knows_prefix lo sites) [] (components lo host) rest h

  -- A host whose labels lead to or towards a configured site, sites with distinct hosts, reaches
  -- the backend configured for exactly that host, and no backend if there is none: a wildcard
  -- never applies to it.
  pub match_site_known :
      (sites : Assoc B) (host : Text)
      → HasDistinctKeys sites
      → knows lo sites (components lo host) ≡ true
      → match_site lo host (listening sites) ≡ lookup host sites
  match_site_known sites host h k =
      let e : resolve (knows lo sites) false [] (components lo host) ≡ components lo host =
        ap (resolve (knows lo sites) false []) (sym (append-nil (components lo host)))
        ∙ resolve-components sites host [] k
        ∙ resolve_end (knows lo sites) false (components lo host) in
      match_site_resolved sites host (components lo host) h e ∙ site_at-components lo sites host

  -- A configured host reaches its own backend, whatever else is configured under other hosts.
  pub match_site_configured :
      (sites : Assoc B) (host : Text) (b : B)
      → HasDistinctKeys sites
      → lookup host sites ≡ some b
      → match_site lo host (listening sites) ≡ some b
  match_site_configured sites host b h e =
      match_site_known sites host h
        (knows_of_lookup lo sites host b (components lo host) e (is_prefix_refl _))
      ∙ e

  -- A host under a configured one with nothing configured below it, at any depth and with no
  -- wildcard involved, reaches the backend of the configured host.
  pub match_site_under_configured :
      (sites : Assoc B) (host s : Text) (b : B)
      → HasDistinctKeys sites
      → lookup host sites ≡ some b
      → ((d : Text) → knows lo sites (components lo host ++ (d ∷ [])) ≡ false)
      → match_site lo (s ++ (b'.' ∷ host)) (listening sites) ≡ some b
  match_site_under_configured sites host s b h e leaf =
      let known = knows_of_lookup lo sites host b (components lo host) e (is_prefix_refl _) in
      let path : resolve (knows lo sites) false [] (components lo (s ++ (b'.' ∷ host)))
          ≡ components lo host =
        ap (resolve (knows lo sites) false []) (components-append lo s host)
        ∙ resolve-components sites host (components lo s) known
        ∙ resolve_leaf (knows lo sites) false (components lo host) (components lo s) leaf in
      match_site_resolved sites (s ++ (b'.' ∷ host)) (components lo host) h path
      ∙ site_at-components lo sites host
      ∙ e

  -- With a site `*.host` and nothing configured below it, a host that ends in `.host` reaches the
  -- backend of that site, however many labels stand before, if the label next to `host` is not
  -- that of another site below `host`.
  pub match_site_wildcard :
      (sites : Assoc B) (host s d : Text) (ds : List Text) (b : B)
      → HasDistinctKeys sites
      → lookup (wildcard_match ++ (b'.' ∷ host)) sites ≡ some b
      → components lo s ≡ d ∷ ds
      → knows lo sites (components lo host ++ (d ∷ [])) ≡ false
      → ((e : Text)
          → knows lo sites ((components lo host ++ (wildcard_match ∷ [])) ++ (e ∷ [])) ≡ false)
      → match_site lo (s ++ (b'.' ∷ host)) (listening sites) ≡ some b
  match_site_wildcard sites host s d ds b h e labels other leaf =
      let k = knows lo sites in
      let here = components lo host in
      let star = wildcard_match ++ (b'.' ∷ host) in
      let starred : k (here ++ (wildcard_match ∷ [])) ≡ true =
        knows_of_lookup lo sites star b (here ++ (wildcard_match ∷ [])) e
          (rw (components-wildcard lo host) (is_prefix_refl _)) in
      let path : resolve k false [] (components lo (s ++ (b'.' ∷ host))) ≡ components lo star =
        ap (resolve k false []) (components-append lo s host)
        ∙ resolve-components sites host (components lo s)
            (knows_prefix lo sites here (wildcard_match ∷ []) starred)
        ∙ ap (resolve k false here) labels
        ∙ resolve_wildcard k false here ds d other starred
        ∙ resolve_leaf k true (here ++ (wildcard_match ∷ [])) ds leaf
        ∙ sym (components-wildcard lo host) in
      match_site_resolved sites (s ++ (b'.' ∷ host)) (components lo star) h path
      ∙ site_at-components lo sites star
      ∙ e

  handler_plain :
      (request_host host : Text) (l : HttpEdgeListener B)
      → IsPlain host
      → IsHostOf request_host host
      → handler lo request_host l ≡ handler lo host l
  unfolding handler
  handler_plain request_host host l plain (inl same) = ap (λ h. handler lo h l) same
  handler_plain request_host host l plain (inr (port, plain_port, same)) = ground (
    arith,
    same,
    split_host_port_of_IsPlain host port plain plain_port,
    split_host_port_no_colon host plain.0,
  )

  -- A request for a host without colons and brackets, given with a port or without, whose last label
  -- is known to no site, without a site for a wildcard there, is answered by 502 with its body
  -- closed.
  pub handler_unknown :
      (sites : Assoc B) (request_host host d : Text) (ds : List Text)
      → HasDistinctKeys sites
      → IsPlain host
      → IsHostOf request_host host
      → components lo host ≡ d ∷ ds
      → knows lo sites (d ∷ []) ≡ false
      → knows lo sites (wildcard_match ∷ []) ≡ false
      → handler lo request_host (listening sites) ≡ status 502 true
  unfolding handler
  handler_unknown sites request_host host d ds h plain of_host labels other star =
      let path : resolve (knows lo sites) false [] (components lo host) ≡ [] =
        ap (resolve (knows lo sites) false []) labels
        ∙ resolve_unknown (knows lo sites) [] ds d other star in
      handler_plain request_host host (listening sites) plain of_host
      ∙ ground (
        arith,
        split_host_port_no_colon host plain.0,
        match_site_resolved sites host [] h path,
        site_at-root lo sites,
      )

  -- The port of the request's host plays no part in the choice of the backend.
  pub handler_of_host :
      (request_host host : Text) (l : HttpEdgeListener B) (b : B)
      → IsPlain host
      → IsHostOf request_host host
      → match_site lo host l ≡ some b
      → handler lo request_host l ≡ serve b
  unfolding handler
  handler_of_host request_host host l b plain of_host e =
      handler_plain request_host host l plain of_host
      ∙ ground (arith, split_host_port_no_colon host plain.0, e)
