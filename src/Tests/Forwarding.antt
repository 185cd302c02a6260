-- ===== src/Tests/Forwarding.antt =====
-- A request through the server of a small configuration.
use proxyreverse.Prelude.{
  ℕ, ◌≡◌, refl, false, none, some, [], codes, arith, Assoc, lookup, ok, inl, inr,
}
use proxyreverse.Go.Lo.{plain_lo}
use proxyreverse.Http.{Request}
use proxyreverse.Backend.{serve_http, Served}
use proxyreverse.Backend.Forwards.{IsFixed, IsForwarded}
use proxyreverse.Listener.{HttpEdgeListener, handler, serve}
use proxyreverse.Startup.{Built, build_chains}
use proxyreverse.Startup.Forwards.{server_forwards}
use proxyreverse.Tests.Starting.{library, decoder, around, config, site, running, starts}

abbrev request : Request
request = record {
  method = codes "GET";
  host = codes "a.b:80";
  url = record {
    scheme = [];
    opaque = [];
    user = none;
    host = [];
    path = codes "/a/b";
    raw_path = codes "/a%2Fb";
    force_query = false;
    raw_query = [];
    fragment = [];
    raw_fragment = [];
  };
  header = [];
  body = [];
}

site-IsFixed : IsFixed site.backend
site-IsFixed = record { plain = omega arith; named = λ e. cc; default = refl; distinct = tt }

server_forwards_example :
    (chains : Assoc ℕ) × (chain : ℕ) × (l : HttpEdgeListener (Built ℕ)) × (b : Built ℕ)
    × (s : Served) × (build_chains library config.proxychains [] ≡ ok chains)
    × (lookup (codes "out") chains ≡ some chain)
    × (lookup (codes "web") running ≡ some (some l))
    × (handler plain_lo (codes "a.b:80") l ≡ serve b)
    × (serve_http b.0 (λ dial client outbound. none) [] b.1 request ≡ ok s)
    × IsForwarded site.backend chain (λ dial client outbound. none) [] request s
server_forwards_example =
    server_forwards plain_lo library decoder around config running site (codes "web") request []
      (λ dial client outbound. none) starts (inl refl) (inl refl) (omega arith)
      (inr (codes "80", omega arith, refl)) site-IsFixed
