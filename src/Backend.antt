-- ===== src/Backend.antt =====
-- pkg/server/backends.go: a backend's construction and the forwarding of a request.
pub mod Headers
pub mod ServerName
pub mod Forwards
pub mod Concurrent
use proxyreverse.Prelude.{
  ℕ, ◌≡◌, Bool, true, false, ◌&&◌, Option, none, some, List, [], ◌∷◌, Text, codes, text_eq, Assoc,
  insert, delete, if◌then◌else◌, Result, ok, err, ◌>>=◌,
}
use proxyreverse.Go.Panic.{Panic}
use proxyreverse.Config.Models.{BackendConfig, Tls, CertificatePool}
use proxyreverse.Http.{Header, Url, Request, TargetSelector, HttpBackend}
use proxyreverse.Target.{get_target, new_target_selector, SelectorDecoder, split_or_empty}

-- The fields of `tls.Config` that the program sets, in the client that all requests of a backend
-- share.
pub record ClientTls : Type 0 where
  pub insecure_skip_verify : Bool
  pub server_name : Text
  pub root_cas : Option (List Text)

abbrev pub no_tls : ClientTls
no_tls = record { insecure_skip_verify = false; server_name = []; root_cas = none }

-- The error of a backend's construction: "invalid target_select specification".
pub data BackendError : Type 0 where
  invalid_target_select : BackendError

-- the server name of the client's first TLS configuration
sni_name : BackendConfig → Text
sni_name config = elim config.tls.server_name_indication [
  | none ↦ config.target.host
  | some name ↦ name
]

pub client_tls : BackendConfig → ClientTls
unfolding sni_name
client_tls config =
    if config.tls.enable
    then record {
      insecure_skip_verify = config.tls.no_verify;
      server_name = sni_name config;
      root_cas = config.tls.ca_certs.cert_pool;
    }
    else no_tls

module _ {D : Type 0} (decoder : SelectorDecoder) where
  -- `NewHTTPBackend`: the backend and its client's TLS configuration
  unfoldable pub new_http_backend :
      BackendConfig → D → Result BackendError (HttpBackend D × ClientTls)
  unfolding client_tls
  new_http_backend config proxychain =
      elim (new_target_selector decoder config.target_select config.target_select_params) [
        | none ↦ err invalid_target_select
        | some selector ↦ ok (
          record {
            dial = some proxychain;
            proxychain = proxychain;
            target = config.target.host;
            port = config.target.port;
            tls = config.tls;
            set_headers = config.http_headers.set_headers;
            del_headers = config.http_headers.del_headers;
            target_selector = selector;
          },
          client_tls config,
        )
      ]

-- The loops over the headers to set and to delete; also the copy of the response's headers.
unfoldable pub set_all : Header → Header → Header
set_all [] h = h
set_all ((k, v) ∷ more) h = set_all more (insert k v h)

unfoldable pub delete_all : List Text → Header → Header
delete_all [] h = h
delete_all (k ∷ more) h = delete_all more (delete k h)

-- The request that leaves. Its headers are the map of the incoming request, which the loops edit
-- in place.
pub record Outbound : Type 0 where
  pub method : Text
  pub headers : Header
  pub url : Url
  pub body : Text

pub record Response : Type 0 where
  pub status_code : ℕ
  pub header : Header
  pub body : Text

-- What a request leaves: the status and the body written, the writer's headers, the incoming
-- request as edited, what was sent, and the client's TLS configuration.
pub record Served : Type 0 where
  pub status : ℕ
  pub headers : Header
  pub body : Text
  pub request : Request
  pub outbound : Outbound
  pub client : ClientTls

-- What the client does with a request, by the dialer that it was given or else its own: no response,
-- or one. It is the package imroc/req with the network behind it.
abbrev pub Exchange : Type 0 → Type 0
Exchange D = Option D → ClientTls → Outbound → Option Response

-- the answer to the client, on the headers that the writer has
unfoldable pub answer : Option Response → Header → ℕ × Header × Text
answer none headers = (502, headers, [])
answer (some r) headers = (r.status_code, set_all r.header headers, r.body)

module _ {D : Type 0} (backend : HttpBackend D) where
  -- the incoming request after the two loops
  unfoldable pub edit_headers : Request → Request
  unfolding set_all delete_all
  edit_headers request = record request {
    header = delete_all backend.del_headers (set_all backend.set_headers request.header);
  }

  -- the server name set for the request, if no target is configured
  unfoldable pub retarget_tls : Text → ClientTls → ClientTls
  retarget_tls target client =
      if text_eq backend.target [] && backend.tls.enable
      then record client { server_name = (split_or_empty target).0 }
      else client

  abbrev outbound_url : Text → Request → Url
  outbound_url target request = record {
    scheme = if backend.tls.enable then codes "https" else codes "http";
    opaque = [];
    user = request.url.user;
    host = target;
    path = request.url.path;
    raw_path = [];
    force_query = false;
    raw_query = request.url.raw_query;
    fragment = [];
    raw_fragment = request.url.raw_fragment;
  }

  unfoldable pub outbound_of : Text → Request → Outbound
  outbound_of target request = record {
    method = request.method;
    headers = request.header;
    url = outbound_url target request;
    body = request.body;
  }

  unfoldable pub serve_at : Exchange D → Header → ClientTls → Text × Request → Served
  unfolding retarget_tls outbound_of answer
  serve_at exchange headers client (target, request) =
      let client' = retarget_tls target client in
      let outbound = outbound_of target request in
      let (status, headers', body) = answer (exchange backend.dial client' outbound) headers in
      record {
        status = status;
        headers = headers';
        body = body;
        request = request;
        outbound = outbound;
        client = client';
      }

  -- `ServeHTTP`
  unfoldable pub serve_http : Exchange D → Header → ClientTls → Request → Result Panic Served
  unfolding edit_headers retarget_tls outbound_of answer serve_at
  serve_http exchange headers client request =
      get_target backend (edit_headers request) backend.target_selector >>= λ t.
      ok (serve_at exchange headers client t)
