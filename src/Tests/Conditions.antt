-- ===== src/Tests/Conditions.antt =====
-- The conditions of a start, and the table of a started listener, on the small configuration.
use proxyreverse.Prelude.{
  ◌≡◌, ◌↔◌, refl, false, some, [], Text, codes, Assoc, lookup, HasDistinctKeys, ok,
}
use proxyreverse.Go.Lo.{plain_lo}
use proxyreverse.Listener.{HttpEdgeListener, new_listener, add_site, match_site, components}
use proxyreverse.Listener.Attach.{knows, site_at}
use proxyreverse.Listener.Walk.{resolve}
use proxyreverse.Startup.{Built, Listeners, build_chains, server}
use proxyreverse.Startup.Conditions.{CanStart, server_starts_iff}
use proxyreverse.Startup.Table.{IsSiteOf, server_table}
use proxyreverse.Tests.Starting.{library, decoder, around, config, built, running, starts, runs}

abbrev web_listener : HttpEdgeListener (Built (library.Dialer))
web_listener = (add_site plain_lo (codes "a.b") built new_listener).0

server_table_example :
    (chains : Assoc (library.Dialer)) × (sites : Assoc (Built (library.Dialer))) × (build_chains
        library config.proxychains []
      ≡ ok chains)
    × HasDistinctKeys sites
    × ((host : Text) (b : Built (library.Dialer))
        → (lookup host sites ≡ some b) ↔ IsSiteOf decoder chains config.sites (codes "web") host b)
    × ((host : Text)
        → match_site plain_lo host web_listener
          ≡ site_at plain_lo sites
              (resolve (knows plain_lo sites) false [] (components plain_lo host)))
server_table_example =
    server_table plain_lo library decoder around config running (codes "web") web_listener starts
      (unfold runs in refl)

server_starts_iff_example :
    ((l : Listeners (Built (library.Dialer))) × (server plain_lo library decoder around
          (some config)
        ≡ ok l))
    ↔ CanStart library decoder around config
server_starts_iff_example =
    server_starts_iff plain_lo library decoder around config (unfold lookup in refl, tt)
