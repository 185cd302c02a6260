-- ===== src/Startup/Forwards.antt =====
-- A request's way through the whole server: from its `Host`, by the listeners of
-- pkg/server/listeners.go that pkg/server/server.go has set up, to what pkg/server/backends.go sends.
use proxyreverse.Prelude.{
  ◌≡◌, inl, inr, some, [], Text, arith, Assoc, lookup, Among, Option-cases, Result-cases, ok,
}
use proxyreverse.Go.Lo.{Lo}
use proxyreverse.Go.HostPort.{IsPlain}
use proxyreverse.Config.Models.{Config, SiteConfig}
use proxyreverse.Http.{Header, Request}
use proxyreverse.Target.{SelectorDecoder}
use proxyreverse.Proxychain.{ProxyLibrary}
use proxyreverse.Backend.{new_http_backend, serve_http, Served, Exchange}
use proxyreverse.Backend.Forwards.{IsFixed, IsForwarded, serve_http-IsForwarded}
use proxyreverse.Listener.{HttpEdgeListener, handler, serve}
use proxyreverse.Listener.Routing.{IsHostOf, handler_of_host}
use proxyreverse.Startup.{Listeners, Surroundings, Built, build_chains, site_backend, server}
use proxyreverse.Startup.Serves.{server_serves}

site_backend-inv :
    (decoder : SelectorDecoder) {D : Type 0} (chains : Assoc D) (site : SiteConfig) (b : Built D)
    → site_backend decoder chains site ≡ ok b
    → (chain : D) × (lookup site.proxychain chains ≡ some chain)
      × (new_http_backend decoder site.backend chain ≡ ok b)
unfolding site_backend
site_backend-inv decoder chains site b e = elim (Option-cases (lookup site.proxychain chains)) [
  | inl missing ↦ absurd (ground (arith, missing))
  | inr (chain, found) ↦ elim (Result-cases (new_http_backend decoder site.backend chain)) [
    | inl (b', built) ↦ (chain, found, ground (arith, found, built))
    | inr (x, failed) ↦ absurd (ground (arith, found, failed))
  ]
]

module _ (lo : Lo) (lib : ProxyLibrary) (decoder : SelectorDecoder) (around : Surroundings) where
  -- In a server that starts, a request that comes to one of a site's listeners with the site's
  -- host, with or without a port, is passed to a backend of which the client was given the dialer of
  -- the site's proxychain, and is sent through this client, without a panic, to the host and port of
  -- the site's target, with the scheme, the TLS configuration and the headers that the site
  -- configures, and with its method, query and body as they came; of its path, what it decodes to is
  -- sent and the encoding in which it came is lost. What comes back is the answer, and 502 if nothing
  -- does. The site has a target host and the default selector, its hosts have no colons or brackets,
  -- and the headers that it sets differ from one another.
  pub server_forwards :
      (cfg : Config) (running : Listeners (Built (lib.Dialer))) (site : SiteConfig) (name : Text)
      (request : Request) (headers : Header) (exchange : Exchange (lib.Dialer))
      → server lo lib decoder around (some cfg) ≡ ok running
      → Among site cfg.sites
      → Among name site.listener
      → IsPlain site.host
      → IsHostOf request.host site.host
      → IsFixed site.backend
      → (chains : Assoc (lib.Dialer)) × (chain : lib.Dialer) × (l : HttpEdgeListener
          (Built (lib.Dialer)))
        × (b : Built (lib.Dialer)) × (s : Served) × (build_chains lib cfg.proxychains []
            ≡ ok chains)
        × (lookup site.proxychain chains ≡ some chain)
        × (lookup name running ≡ some (some l))
        × (handler lo request.host l ≡ serve b)
        × (serve_http b.0 exchange headers b.1 request ≡ ok s)
        × IsForwarded site.backend chain exchange headers request s
  server_forwards cfg running site name request headers exchange e listed at plain host fixed =
      let (chains, b, l, chained, built, running_l, matched) =
        server_serves lo lib decoder around cfg running site name e listed at in
      let (chain, found, made) = site_backend-inv decoder chains site b built in
      let (s, served, forwarded) =
        serve_http-IsForwarded decoder site.backend chain b.0 b.1 made fixed exchange headers
          request in
      (
        chains,
        chain,
        l,
        b,
        s,
        chained,
        found,
        running_l,
        handler_of_host lo request.host site.host l b plain host matched,
        served,
        forwarded,
      )
