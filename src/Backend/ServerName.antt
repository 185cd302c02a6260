-- ===== src/Backend/ServerName.antt =====
-- The TLS server name with which a backend is contacted: pkg/server/backends.go.
use proxyreverse.Prelude.{
  err, ◌≡◌, ◌≢◌, ap, ◌∙◌, true, none, some, [], ◌∷◌, ◌++◌, Text, arith, text_eq, text_eq_iff,
  if◌then◌else◌, ok, Option-cases, inl, inr,
}
use proxyreverse.Go.HostPort.{too_many_colons, split_host_port, IsPlain}
use proxyreverse.Config.Models.{BackendConfig, target_select_type_default}
use proxyreverse.Http.{Header, Request, HttpBackend, default_selector}
use proxyreverse.Target.{
  SelectorDecoder, new_target_selector, split_or_empty, get_target, default_target,
}
use proxyreverse.Target.Keeps.{new_target_selector-default}
use proxyreverse.Go.Decimal.{decimal}
use proxyreverse.Target.Hosts.{default_target-split, default_target-doubled}
use proxyreverse.Backend.{
  new_http_backend, client_tls, serve_http, edit_headers, Served, Exchange, ClientTls,
}
use proxyreverse.Backend.Headers.{serve_http-inv}

-- What a backend takes from its configuration.
pub record IsBuilt {D : Type 0} (decoder : SelectorDecoder) (config : BackendConfig)
    (proxychain : D) (backend : HttpBackend D) (client : ClientTls) : Type 0 where
  pub dial : backend.dial ≡ some proxychain
  pub set_headers : backend.set_headers ≡ config.http_headers.set_headers
  pub del_headers : backend.del_headers ≡ config.http_headers.del_headers
  pub target : backend.target ≡ config.target.host
  pub port : backend.port ≡ config.target.port
  pub tls : backend.tls ≡ config.tls
  pub selector :
      new_target_selector decoder config.target_select config.target_select_params
      ≡ some backend.target_selector
  pub client_of : client ≡ client_tls config

module _ {D : Type 0} (decoder : SelectorDecoder) (config : BackendConfig) (proxychain : D)
    (backend : HttpBackend D) (client : ClientTls)
    (built : new_http_backend decoder config proxychain ≡ ok (backend, client)) where
  pub new_http_backend-IsBuilt : IsBuilt decoder config proxychain backend client
  unfolding new_http_backend
  new_http_backend-IsBuilt =
      elim (Option-cases
        (new_target_selector decoder config.target_select config.target_select_params)) [
          | inl missing ↦ absurd (ground (arith, missing))
          | inr (selector, found) ↦ record {
            dial = ground (arith, found);
            set_headers = ground (arith, found);
            del_headers = ground (arith, found);
            target = ground (arith, found);
            port = ground (arith, found);
            tls = ground (arith, found);
            selector = ground (arith, found);
            client_of = ground (arith, found);
          }
        ]

  module _ (exchange : Exchange D) (headers : Header) (request : Request) (now : ClientTls)
      (s : Served) (served : serve_http backend exchange headers now request ≡ ok s) where
    -- For a TLS backend with a configured target host, a request leaves the client as it is: the
    -- client of a new backend goes on to name the configured server name, or else the target host.
    pub server_name_configured :
        config.target.host ≢ []
        → config.tls.enable ≡ true
        → now ≡ client
        → (s.client ≡ client)
          × (s.client.server_name ≡ elim config.tls.server_name_indication [
            | none ↦ config.target.host
            | some name ↦ name
          ])
    unfolding serve_http client_tls
    server_name_configured named enabled same_client =
        let b = new_http_backend-IsBuilt in
        let (target, r, found, same) =
          serve_http-inv backend exchange headers now request s served in
        let kept : s.client ≡ client =
          ground (arith, same, same_client, b.target, text_eq_iff backend.target []) in
        (kept, ground (arith, kept, b.client_of))

    -- Without a configured target host, a request to a TLS backend leaves the client with the host
    -- of its target for server name, empty if the target is no address, whatever server name is
    -- configured.
    server_name_dynamic :
        config.target.host ≡ []
        → config.tls.enable ≡ true
        → s.client.server_name ≡ (split_or_empty s.outbound.url.host).0
    unfolding serve_http
    server_name_dynamic unnamed enabled =
        let b = new_http_backend-IsBuilt in
        let (target, r, found, same) =
          serve_http-inv backend exchange headers now request s served in
        let no_target : backend.target ≡ [] = b.target ∙ unnamed in
        let tls_on : backend.tls.enable ≡ true = ap (λ t. t.enable) b.tls ∙ enabled in
        ground (arith, same, no_target, tls_on, text_eq_iff backend.target [])

    outbound_default :
        config.target_select ≡ target_select_type_default
        → s.outbound.url.host ≡ default_target backend (edit_headers backend request)
    unfolding serve_http get_target
    outbound_default default =
        let b = new_http_backend-IsBuilt in
        let (target, r, found, same) =
          serve_http-inv backend exchange headers now request s served in
        let selected : backend.target_selector ≡ default_selector =
          new_target_selector-default decoder config.target_select config.target_select_params
            backend.target_selector default b.selector in
        ground (arith, same, selected, found)

    server_name_default :
        config.target.host ≡ []
        → config.tls.enable ≡ true
        → config.target_select ≡ target_select_type_default
        → s.client.server_name
          ≡ (split_or_empty (default_target backend (edit_headers backend request))).0
    server_name_default unnamed enabled default =
        server_name_dynamic unnamed enabled
        ∙ ap (λ t. (split_or_empty t).0) (outbound_default default)

    -- With TLS, the default selector and no configured target host, a request host without colons
    -- and brackets is the server name, and the target comes apart into it and the backend's port.
    pub server_name_of_host :
        config.target.host ≡ []
        → config.tls.enable ≡ true
        → config.target_select ≡ target_select_type_default
        → IsPlain request.host
        → (s.client.server_name ≡ request.host)
          × (split_host_port s.outbound.url.host ≡ ok (request.host, decimal config.target.port))
    unfolding edit_headers
    server_name_of_host unnamed enabled default h =
        let b = new_http_backend-IsBuilt in
        let name : request.host
            ≡ (if text_eq backend.target [] then request.host else backend.target) =
          ground (arith, b.target, text_eq_iff backend.target []) in
        let target =
          default_target-split backend (edit_headers backend request) request.host name h in
        (
          ground (arith, server_name_default unnamed enabled default, target),
          ground (arith, outbound_default default, target, b.port),
        )

    -- With TLS, the default selector and no configured target host, a request host that carries a
    -- port, both without further colons and brackets, leaves the server name empty and gives a
    -- target that is no address.
    pub server_name_doubled :
        (host port : Text)
        → config.target.host ≡ []
        → config.tls.enable ≡ true
        → config.target_select ≡ target_select_type_default
        → request.host ≡ host ++ (b':' ∷ port)
        → IsPlain host
        → IsPlain port
        → (s.client.server_name ≡ []) × (split_host_port s.outbound.url.host ≡ err too_many_colons)
    unfolding edit_headers
    server_name_doubled host port unnamed enabled default e h k =
        let b = new_http_backend-IsBuilt in
        let target =
          default_target-doubled backend (edit_headers backend request) host port
            (b.target ∙ unnamed) e h k in
        (
          ground (arith, server_name_default unnamed enabled default, target),
          ground (arith, outbound_default default, target),
        )
