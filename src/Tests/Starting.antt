-- ===== src/Tests/Starting.antt =====
-- The start of pkg/server/server.go on a small configuration, and the chains of
-- pkg/server/proxychains.go.
use proxyreverse.Prelude.{
  ◌≡◌, ◌≢◌, ◌↔◌, map, Option, ◌==◌, if◌then◌else◌, refl, true, false, none, some, [], ◌∷◌, Text,
  codes, arith, lookup, insert, text_eq, ok, err, ℕ, ◌+◌, Assoc, find, put, inl,
}
use proxyreverse.Go.Lo.{plain_lo}
use proxyreverse.Go.Panic.{nil_dereference, must_failed}
use proxyreverse.Go.Split.{split}
use proxyreverse.Config.Models.{Config, ListenerConfig, SiteConfig, Proxy}
use proxyreverse.Config.Value.{end}
use proxyreverse.Target.{SelectorDecoder, new_target_selector}
use proxyreverse.Backend.{new_http_backend}
use proxyreverse.Listener.{HttpEdgeListener, new_listener, add_site, components, match_site}
use proxyreverse.Proxychain.{
  ProxyLibrary, ChainError, url_refused, error_text, panics as chain_panics, stage, stages,
  as_context_dialer, new_proxychain_from_config,
}
use proxyreverse.Proxychain.Chains.{new_proxychain_late_direct}
use proxyreverse.Proxychain.Readable.{read_proxy, new_proxychain_of_texts}
use proxyreverse.Startup.{
  Surroundings, key_of, ListenPorts, listener_key_eq, site_key_eq, collect_listeners,
  new_http_edge_listener, started, start_listeners, build_chains, map_site, Built, site_backend,
  collect_sites, Listeners, SiteMapping, attach_sites, start, server, panics,
}
use proxyreverse.Startup.Collect.{HasDistinctSockets, collect_listeners_iff}
use proxyreverse.Startup.Attached.{attach_sites_nil}
use proxyreverse.Startup.Starts.{server_starts}
use proxyreverse.Startup.Serves.{server_serves}

unfoldable pub runs : Unit {0}
unfolding text_eq lookup insert find put key_of collect_listeners new_http_edge_listener started
    start_listeners build_chains map_site site_backend collect_sites attach_sites start server
    listener_key_eq site_key_eq new_target_selector new_http_backend stage stages as_context_dialer
    new_proxychain_from_config add_site components split match_site
runs = tt

-- A library whose dialers count the proxies that they go through.
abbrev pub library : ProxyLibrary
library = record {
  Dialer = ℕ;
  ProxyUrl = Text;
  parse_url = λ t. some t;
  direct = 0;
  from_environment_using = λ d. d + 1;
  from_url = λ u d. ok (d + 1);
  is_context_dialer = λ d. true;
}

-- A library that takes a text that begins with a colon for no URL.
abbrev strict_url : Text → Option Text
strict_url [] = some []
strict_url (c ∷ s) = if c == b':' then none else some (c ∷ s)

abbrev strict : ProxyLibrary
strict = record library { parse_url = strict_url }

abbrev pub decoder : SelectorDecoder
decoder = record {
  build_error = none;
  decode_default = λ m. none;
  decode_path_index = λ m. err (codes "no index");
}

abbrev pub around : Surroundings
around = record {
  parse_addr = λ t. some t;
  listen = λ key. none;
  visit_ports = λ m. m;
  visit_sites = λ B m. m;
  visit_ports_law = λ m d. (d, λ k. refl);
  visit_sites_law = λ B m d. (d, λ k. refl);
}

abbrev web : ListenerConfig
web = record {
  listen_addr = record { host = codes "::"; port = 80; network = codes "tcp" };
  listener_type = codes "http-edge";
}

abbrev direct_proxy : Proxy
direct_proxy = record { proxy = codes "direct" }

abbrev url_proxy : Proxy
url_proxy = record { proxy = codes "socks5://p" }

abbrev pub site : SiteConfig
site = record {
  listener = codes "web" ∷ [];
  host = codes "a.b";
  backend = record {
    target = record { host = codes "app"; port = 8080; network = codes "tcp" };
    tls = record {
      enable = false;
      no_verify = false;
      server_name_indication = none;
      ca_certs = record { cert_pool = none; original = [] };
    };
    target_select = codes "";
    target_select_params = end;
    http_headers = record { set_headers = []; del_headers = [] };
  };
  proxychain = codes "out";
  method = codes "";
}

abbrev pub config : Config
config = record {
  proxychains = (codes "out", direct_proxy ∷ url_proxy ∷ []) ∷ [];
  listeners = (codes "web", web) ∷ [];
  sites = site ∷ [];
}

abbrev pub built : Built ℕ
built = (
  record {
    dial = some 1;
    proxychain = 1;
    target = codes "app";
    port = 8080;
    tls = site.backend.tls;
    set_headers = [];
    del_headers = [];
    target_selector = proxyreverse.Http.default_selector;
  },
  proxyreverse.Backend.no_tls,
)

abbrev pub mapping : SiteMapping (Built ℕ)
mapping = (record { host = codes "a.b"; listener = codes "web" }, built) ∷ []

abbrev pub running : Listeners (Built ℕ)
running = (codes "web", some (add_site plain_lo (codes "a.b") built new_listener).0) ∷ []

pub starts : server plain_lo library decoder around (some config) ≡ ok running
unfolding runs
starts = refl

server_serves_test :
    (chains : Assoc ℕ) × (b : Built ℕ) × (l : HttpEdgeListener (Built ℕ)) × (build_chains library
        config.proxychains []
      ≡ ok chains)
    × (site_backend decoder chains site ≡ ok b)
    × (lookup (codes "web") running ≡ some (some l))
    × (match_site plain_lo (codes "a.b") l ≡ some b)
server_serves_test =
    server_serves plain_lo library decoder around config running site (codes "web") starts
      (inl refl) (inl refl)

server_starts_test :
    (l : Listeners (Built ℕ)) × (server plain_lo library decoder around (some config) ≡ ok l)
server_starts_test =
    server_starts plain_lo library decoder around config ((codes "out", 1) ∷ [])
      (unfold runs in refl) (tt, tt) ((refl, refl), tt) ((built, unfold runs in refl), tt) (tt, tt)
      ((((λ missing. unfold runs in ground arith), tt)), tt)

collect_listeners_iff_example :
    ((r : ListenPorts × ListenPorts) × (collect_listeners around
          ((codes "a", web) ∷ (codes "b", web) ∷ [])
          []
          []
        ≡ ok r))
    ↔ HasDistinctSockets around ((codes "a", web) ∷ (codes "b", web) ∷ [])
collect_listeners_iff_example =
    collect_listeners_iff around ((codes "a", web) ∷ (codes "b", web) ∷ [])

attach_sites_nil_test :
    attach_sites plain_lo mapping ((codes "web", none) ∷ []) ≡ err (panics nil_dereference)
attach_sites_nil_test =
    attach_sites_nil plain_lo mapping ((codes "web", none) ∷ [])
      (record { host = codes "a.b"; listener = codes "web" }) built (unfold runs in ground arith)
      (unfold runs in refl) (unfold runs in refl)

new_proxychain_late_direct_test :
    (e : ChainError) × (new_proxychain_from_config library (url_proxy ∷ direct_proxy ∷ []) ≡ err e)
new_proxychain_late_direct_test =
    new_proxychain_late_direct library url_proxy [] direct_proxy [] refl

new_proxychain_of_texts_example :
    new_proxychain_from_config strict
      (map (read_proxy strict) (codes "direct" ∷ codes "::" ∷ codes "http" ∷ []))
    ≢ err (chain_panics must_failed)
new_proxychain_of_texts_example =
    new_proxychain_of_texts strict (codes "direct" ∷ codes "::" ∷ codes "http" ∷ []) (ground arith)

chain_tests :
    (new_proxychain_from_config library (direct_proxy ∷ url_proxy ∷ []) ≡ ok 1)
    × (new_proxychain_from_config library (url_proxy ∷ url_proxy ∷ []) ≡ ok 2)
unfolding runs
chain_tests = (refl, refl)

error_tests : error_text (url_refused (codes "bad")) ≡ some (codes "invalid proxy url: bad")
unfolding error_text
error_tests = refl
