-- ===== src/Backend/Forwards.antt =====
-- What a backend of pkg/server/backends.go with a configured target and the default selector sends.
use proxyreverse.Prelude.{
  ◌≡◌, ◌≢◌, refl, false, [], Text, arith, lookup, contains, none, some, HasDistinctKeys, text_eq,
  text_eq_iff, if◌then◌else◌, ok, codes, sym, subst,
}
use proxyreverse.Go.HostPort.{split_host_port, IsPlain}
use proxyreverse.Go.Decimal.{decimal}
use proxyreverse.Config.Models.{BackendConfig, target_select_type_default}
use proxyreverse.Http.{Header, Request, HttpBackend, default_selector}
use proxyreverse.Target.{SelectorDecoder, get_target, default_target}
use proxyreverse.Target.Keeps.{new_target_selector-default}
use proxyreverse.Target.Hosts.{default_target-split}
use proxyreverse.Backend.{
  new_http_backend, client_tls, serve_http, serve_at, edit_headers, retarget_tls, outbound_of,
  Served, Exchange, answer, ClientTls,
}
use proxyreverse.Backend.Headers.{or_else, serve_http_headers}
use proxyreverse.Backend.ServerName.{new_http_backend-IsBuilt}

-- A backend's configuration with a target host and the default selector.
pub record IsFixed (config : BackendConfig) : Type 0 where
  pub plain : IsPlain config.target.host
  pub named : config.target.host ≢ []
  pub default : config.target_select ≡ target_select_type_default
  pub distinct : HasDistinctKeys config.http_headers.set_headers

-- A request was sent as its backend is configured: to the configured host and port, by the
-- configured scheme, with the client's TLS configuration of the start, as the request came but for
-- the headers, of which those to delete are gone and those to set are set, and without an encoding of
-- its path. The client that sent it was given the dialer of the proxychain, and what came back is the
-- answer.
pub record IsForwarded {D : Type 0} (config : BackendConfig) (proxychain : D)
    (exchange : Exchange D) (headers : Header) (request : Request) (s : Served) : Type 0 where
  pub target :
      split_host_port s.outbound.url.host ≡ ok (config.target.host, decimal config.target.port)
  pub scheme : s.outbound.url.scheme ≡ (if config.tls.enable then codes "https" else codes "http")
  pub client : s.client ≡ client_tls config
  pub method : s.outbound.method ≡ request.method
  pub path : s.outbound.url.path ≡ request.url.path
  pub raw_path : s.outbound.url.raw_path ≡ []
  pub query : s.outbound.url.raw_query ≡ request.url.raw_query
  pub body : s.outbound.body ≡ request.body
  pub answered :
      (s.status, s.headers, s.body)
      ≡ answer (exchange (some proxychain) s.client s.outbound) headers
  pub edited :
      (k : Text)
      → lookup k s.outbound.headers ≡ (
          if contains k config.http_headers.del_headers
          then none
          else or_else (lookup k config.http_headers.set_headers) (lookup k request.header))

module _ {D : Type 0} (decoder : SelectorDecoder) (config : BackendConfig) (proxychain : D)
    (backend : HttpBackend D) (client : ClientTls)
    (built : new_http_backend decoder config proxychain ≡ ok (backend, client))
    (fixed : IsFixed config) (exchange : Exchange D) (headers : Header) (request : Request) where
  new_http_backend-default : backend.target_selector ≡ default_selector
  new_http_backend-default =
      let b = new_http_backend-IsBuilt decoder config proxychain backend client built in
      new_target_selector-default decoder config.target_select config.target_select_params
        backend.target_selector fixed.default b.selector

  abbrev default_served : Served
  default_served =
      let edited = edit_headers backend request in
      serve_at backend exchange headers client (default_target backend edited, edited)

  serve_http-default : serve_http backend exchange headers client request ≡ ok default_served
  unfolding serve_http get_target
  serve_http-default = ground (arith, new_http_backend-default)

  -- Every request is sent, and as the backend is configured.
  pub serve_http-IsForwarded :
      (s : Served) × (serve_http backend exchange headers client request ≡ ok s)
      × IsForwarded config proxychain exchange headers request s
  unfolding serve_at edit_headers outbound_of retarget_tls
  serve_http-IsForwarded =
      let b = new_http_backend-IsBuilt decoder config proxychain backend client built in
      let edited = edit_headers backend request in
      let name : config.target.host
          ≡ (if text_eq backend.target [] then edited.host else backend.target) =
        ground (arith, b.target, fixed.named, text_eq_iff backend.target []) in
      let target = default_target-split backend edited config.target.host name fixed.plain in
      let named : text_eq backend.target [] ≡ false =
        ground (arith, b.target, fixed.named, text_eq_iff backend.target []) in
      (
        default_served,
        serve_http-default,
        record {
          target = ground (arith, target, b.port);
          scheme = ground (arith, b.tls);
          client = ground (arith, named, b.client_of);
          method = refl;
          path = refl;
          raw_path = refl;
          answered = ground (arith, b.dial);
          query = refl;
          body = refl;
          edited = λ k.
              let distinct : HasDistinctKeys backend.set_headers =
                subst HasDistinctKeys (sym b.set_headers) fixed.distinct in
              let h =
                serve_http_headers backend exchange headers client request default_served k distinct
                  serve_http-default in
              ground (arith, h, b.set_headers, b.del_headers);
        },
      )
