-- ===== src/Tests/Backends.antt =====
-- The requests of pkg/server/backends.go and the targets of pkg/server/target_selectors.go.
use proxyreverse.Prelude.{
  ◌≡◌, refl, true, false, Option, none, some, [], ◌∷◌, Text, codes, arith, lookup, insert, delete,
  contains, text_eq, ok, err, ℕ, pos, Result, if◌then◌else◌,
}
use proxyreverse.Go.HostPort.{split_host_port, too_many_colons}
use proxyreverse.Go.Decimal.{decimal}
use proxyreverse.Go.Panic.{Panic}
use proxyreverse.Config.Models.{BackendConfig}
use proxyreverse.Config.Value.{end}
use proxyreverse.Http.{Header, Request, HttpBackend, path_index_selector}
use proxyreverse.Target.{
  SelectorDecoder, path_index_target, new_target_selector, get_target, default_target,
}
use proxyreverse.Backend.{
  ClientTls, new_http_backend, Exchange, Served, Response, serve_http, serve_at, edit_headers,
  retarget_tls, outbound_of, client_tls,
}
use proxyreverse.Backend.Headers.{or_else, serve_http_headers, serve_http_response}
use proxyreverse.Backend.ServerName.{
  server_name_configured, server_name_of_host, server_name_doubled,
}

runs : Unit {0}
unfolding new_http_backend serve_http get_target edit_headers retarget_tls outbound_of
    default_target path_index_target new_target_selector split_host_port decimal text_eq
runs = tt

-- A decoder that reads the index 1 whatever the parameters are.
abbrev pub decoder : SelectorDecoder
decoder = record {
  build_error = none;
  decode_default = λ m. none;
  decode_path_index = λ m. ok (pos 1);
}

abbrev config_for : Text → Option Text → BackendConfig
config_for host name = record {
  target = record { host = host; port = 443; network = codes "tcp" };
  tls = record {
    enable = true;
    no_verify = false;
    server_name_indication = name;
    ca_certs = record { cert_pool = none; original = [] };
  };
  target_select = codes "";
  target_select_params = end;
  http_headers = record {
    set_headers = (codes "X-Proxy", codes "p" ∷ []) ∷ [];
    del_headers = codes "Cookie" ∷ [];
  };
}

abbrev pub built_of : BackendConfig → HttpBackend ℕ
built_of config = record {
  dial = some 0;
  proxychain = 0;
  target = config.target.host;
  port = 443;
  tls = config.tls;
  set_headers = config.http_headers.set_headers;
  del_headers = config.http_headers.del_headers;
  target_selector = proxyreverse.Http.default_selector;
}

abbrev pub client_of : BackendConfig → ClientTls
client_of config = client_tls config

abbrev pub request_for : Text → Text → Request
request_for host path = record {
  method = codes "GET";
  host = host;
  url = record {
    scheme = codes "";
    opaque = [];
    user = none;
    host = codes "";
    path = path;
    raw_path = [];
    force_query = false;
    raw_query = codes "";
    fragment = [];
    raw_fragment = codes "";
  };
  header = (codes "Cookie", codes "c" ∷ []) ∷ (codes "X-Proxy", codes "q" ∷ []) ∷ [];
  body = codes "";
}

abbrev response : Response
response = record {
  status_code = 201;
  header = (codes "Server", codes "s" ∷ []) ∷ [];
  body = codes "made";
}

abbrev answers : Exchange ℕ
answers dial client outbound = some response

abbrev silent : Exchange ℕ
silent dial client outbound = none

-- The backend of `config` serving a request for `host`.
abbrev run : BackendConfig → Exchange ℕ → Text → Result Panic Served
run config exchange host =
    serve_http (built_of config) exchange [] (client_of config) (request_for host (codes "/"))

abbrev outcome : BackendConfig → Exchange ℕ → Text → Served
outcome config exchange host =
    let b = built_of config in
    let request = edit_headers b (request_for host (codes "/")) in
    serve_at b exchange [] (client_of config) (default_target b request, request)

run-outcome :
    (config : BackendConfig) (exchange : Exchange ℕ) (host : Text)
    → run config exchange host ≡ ok (outcome config exchange host)
unfolding serve_http get_target
run-outcome config exchange host = refl

-- A configured backend, one with a name of its own, and one without a host.
abbrev pub named : BackendConfig
named = config_for (codes "app") none

abbrev renamed : BackendConfig
renamed = config_for (codes "app") (some (codes "sni"))

abbrev pub unnamed : BackendConfig
unnamed = config_for (codes "") (some (codes "sni"))

pub named-built : new_http_backend decoder named 0 ≡ ok (built_of named, client_of named)
unfolding runs
named-built = refl

renamed-built : new_http_backend decoder renamed 0 ≡ ok (built_of renamed, client_of renamed)
unfolding runs
renamed-built = refl

unnamed-built : new_http_backend decoder unnamed 0 ≡ ok (built_of unnamed, client_of unnamed)
unfolding runs
unnamed-built = refl

serving_tests :
    ((outcome named answers (codes "h")).outbound.url.host ≡ codes "app:443")
    × ((outcome unnamed answers (codes "h")).outbound.url.host ≡ codes "h:443")
    × ((outcome unnamed answers (codes "h:80")).outbound.url.host ≡ codes "h:80:443")
    × ((outcome named answers (codes "h")).outbound.headers
        ≡ (codes "X-Proxy", codes "p" ∷ []) ∷ [])
unfolding runs serve_at insert delete
serving_tests = (refl, refl, refl, refl)

serve_http_headers_example :
    (lookup (codes "X-Proxy") (outcome named answers (codes "h")).outbound.headers ≡ (
      if contains (codes "X-Proxy") (codes "Cookie" ∷ [])
      then none
      else or_else
          (lookup (codes "X-Proxy") named.http_headers.set_headers)
          (lookup (codes "X-Proxy") (request_for (codes "h") (codes "/")).header)))
    × ((outcome named answers (codes "h")).request.header
        ≡ (outcome named answers (codes "h")).outbound.headers)
serve_http_headers_example =
    serve_http_headers (built_of named) answers [] (client_of named)
      (request_for (codes "h") (codes "/")) (outcome named answers (codes "h")) (codes "X-Proxy")
      (unfold lookup in (refl, tt)) (run-outcome named answers (codes "h"))

serve_http_response_test :
    ((outcome named answers (codes "h")).status ≡ 201)
    × ((outcome named answers (codes "h")).body ≡ codes "made")
    × (lookup (codes "Server") (outcome named answers (codes "h")).headers
        ≡ or_else (lookup (codes "Server") response.header) (lookup (codes "Server") []))
serve_http_response_test =
    serve_http_response (built_of named) answers [] (client_of named)
      (request_for (codes "h") (codes "/")) (outcome named answers (codes "h")) response
      (codes "Server") (run-outcome named answers (codes "h")) refl (unfold lookup in (refl, tt))

server_name_configured_test :
    ((outcome renamed answers (codes "h")).client ≡ client_of renamed)
    × ((outcome renamed answers (codes "h")).client.server_name ≡ codes "sni")
server_name_configured_test =
    server_name_configured decoder renamed 0 (built_of renamed) (client_of renamed) renamed-built
      answers [] (request_for (codes "h") (codes "/")) (client_of renamed)
      (outcome renamed answers (codes "h")) (run-outcome renamed answers (codes "h")) (ground arith)
      refl refl

server_name_of_host_example :
    ((outcome unnamed answers (codes "h")).client.server_name ≡ codes "h")
    × (split_host_port (outcome unnamed answers (codes "h")).outbound.url.host
        ≡ ok (codes "h", decimal 443))
server_name_of_host_example =
    server_name_of_host decoder unnamed 0 (built_of unnamed) (client_of unnamed) unnamed-built
      answers [] (request_for (codes "h") (codes "/")) (client_of unnamed)
      (outcome unnamed answers (codes "h")) (run-outcome unnamed answers (codes "h")) refl refl refl
      (omega arith)

server_name_doubled_example :
    ((outcome unnamed answers (codes "h:80")).client.server_name ≡ [])
    × (split_host_port (outcome unnamed answers (codes "h:80")).outbound.url.host
        ≡ err too_many_colons)
server_name_doubled_example =
    server_name_doubled decoder unnamed 0 (built_of unnamed) (client_of unnamed) unnamed-built
      answers [] (request_for (codes "h:80") (codes "/")) (client_of unnamed)
      (outcome unnamed answers (codes "h:80")) (run-outcome unnamed answers (codes "h:80"))
      (codes "h") (codes "80") refl refl refl refl (omega arith) (omega arith)
