-- ===== src/Backend/Concurrent/Races.antt =====
-- The server name with which a request is sent, in every order of the steps of the requests that
-- a backend of pkg/server/backends.go serves at once.
use proxyreverse.Prelude.{
  ◌≡◌, ◌≢◌, refl, ◌∙◌, sym, true, [], ◌∷◌, arith, text_eq, text_eq_iff, ok, All, All-imp, Among,
  inl, if◌then◌else◌,
}
use proxyreverse.Go.HostPort.{split_host_port, IsPlain}
use proxyreverse.Go.Decimal.{decimal}
use proxyreverse.Http.{Request, HttpBackend, default_selector}
use proxyreverse.Config.Models.{BackendConfig}
use proxyreverse.Target.{SelectorDecoder, get_target, default_target}
use proxyreverse.Target.Hosts.{default_target-split}
use proxyreverse.Backend.ServerName.{new_http_backend-IsBuilt}
use proxyreverse.Backend.{
  new_http_backend, client_tls, ClientTls, Outbound, edit_headers, retarget_tls, outbound_of,
}
use proxyreverse.Backend.Concurrent.{
  Job, Running, idle, Step, arrives, retargets, sends, Reaches, here, next,
}

module _ {D : Type 0} (backend : HttpBackend D) (client : ClientTls) where
  -- Nothing has changed the configuration, and everything was sent with it.
  abbrev IsUnchanged : Running → Type 0
  IsUnchanged s = (s.client ≡ client) × All (λ x. x.0 ≡ client) s.sent

  Step-IsUnchanged :
      {s t : Running} → backend.target ≢ [] → Step backend s t → IsUnchanged s → IsUnchanged t
  Step-IsUnchanged named (arrives s request job e) h = h
  Step-IsUnchanged named (retargets s pre post job e) (h, sent) =
      (unfold retarget_tls in ground (arith, text_eq_iff backend.target []), sent)
  Step-IsUnchanged named (sends s pre post job e) (h, sent) = (h, (h, sent))

  Reaches-IsUnchanged :
      {s : Running} → backend.target ≢ [] → Reaches backend (idle client) s → IsUnchanged s
  Reaches-IsUnchanged named here = (refl, tt)
  Reaches-IsUnchanged named (next r step) =
      Step-IsUnchanged named step (Reaches-IsUnchanged named r)

-- With a configured target host, whatever requests a new backend serves at once and in whatever
-- order their steps are taken, every request is sent with the TLS configuration that the client was
-- built with, which names the configured server name or else the target host.
pub sent_unchanged :
    {D : Type 0} (decoder : SelectorDecoder) (config : BackendConfig) (proxychain : D)
    (backend : HttpBackend D) (client : ClientTls) (s : Running)
    → new_http_backend decoder config proxychain ≡ ok (backend, client)
    → config.target.host ≢ []
    → Reaches backend (idle client) s
    → All (λ x. x.0 ≡ client_tls config) s.sent
sent_unchanged decoder config proxychain backend client s built named r =
    let b = new_http_backend-IsBuilt decoder config proxychain backend client built in
    let sent = (Reaches-IsUnchanged backend client (λ e. named (sym b.target ∙ e)) r).1 in
    All-imp (λ (x : ClientTls × Outbound). x.0 ≡ client) (λ x. x.0 ≡ client_tls config)
      (λ x e. e ∙ b.client_of) s.sent sent

module _ {D : Type 0} (backend : HttpBackend D) (client : ClientTls) where
  job_of : Request → Job
  job_of r = (default_target backend (edit_headers backend r), edit_headers backend r)

  -- The state after both requests have set the server name, and the first was sent.
  raced : Request → Request → Running
  unfolding job_of
  raced r1 r2 =
      let shared = retarget_tls backend (job_of r2).0 (retarget_tls backend (job_of r1).0 client) in
      record {
        client = shared;
        waiting = [];
        ready = job_of r2 ∷ [];
        sent = (shared, outbound_of backend (job_of r1).0 (job_of r1).1) ∷ [];
      }

  arrives_default :
      (r : Request)
      → backend.target_selector ≡ default_selector
      → get_target backend (edit_headers backend r) backend.target_selector ≡ ok (job_of r)
  unfolding get_target job_of
  arrives_default r e = rw e

  Reaches-raced :
      (r1 r2 : Request)
      → backend.target_selector ≡ default_selector
      → Reaches backend (idle client) (raced r1 r2)
  unfolding raced job_of
  Reaches-raced r1 r2 default =
      let one = job_of r1 in
      let two = job_of r2 in
      let s0 = idle client in
      let s1 : Running = record s0 { waiting = one ∷ [] } in
      let s2 : Running = record s1 { waiting = two ∷ one ∷ [] } in
      let s3 : Running = record s2 {
        client = retarget_tls backend one.0 client;
        waiting = two ∷ [];
        ready = one ∷ [];
      } in
      let s4 : Running = record s3 {
        client = retarget_tls backend two.0 s3.client;
        waiting = [];
        ready = two ∷ one ∷ [];
      } in
      next
        (next
          (next
            (next (next here (arrives s0 r1 one (arrives_default r1 default)))
              (arrives s1 r2 two (arrives_default r2 default)))
            (retargets s2 (two ∷ []) [] one refl))
          (retargets s3 [] [] two refl))
        (sends s4 (two ∷ []) [] one refl)

  target_of_host :
      (r : Request)
      → backend.target ≡ []
      → IsPlain r.host
      → split_host_port (job_of r).0 ≡ ok (r.host, decimal backend.port)
  unfolding job_of edit_headers
  target_of_host r unnamed h =
      let name : r.host ≡ (if text_eq backend.target [] then r.host else backend.target) =
        ground (arith, unnamed, text_eq_iff backend.target []) in
      default_target-split backend (edit_headers backend r) r.host name h

  -- With TLS, the default selector and no configured target host, of two requests that are served
  -- at once, with hosts without colons and brackets, the one can be sent to its own target with the
  -- host of the other for server name.
  pub sent_races :
      (r1 r2 : Request)
      → backend.target ≡ []
      → backend.tls.enable ≡ true
      → backend.target_selector ≡ default_selector
      → IsPlain r1.host
      → IsPlain r2.host
      → (s : Running) × (x : ClientTls × Outbound) × Reaches backend (idle client) s
        × Among x s.sent
        × (split_host_port x.1.url.host ≡ ok (r1.host, decimal backend.port))
        × (x.0.server_name ≡ r2.host)
  unfolding raced job_of edit_headers outbound_of retarget_tls
  sent_races r1 r2 unnamed enabled default h1 h2 =
      let one = target_of_host r1 unnamed h1 in
      let two = target_of_host r2 unnamed h2 in
      let shared = retarget_tls backend (job_of r2).0 (retarget_tls backend (job_of r1).0 client) in
      (
        raced r1 r2,
        (shared, outbound_of backend (job_of r1).0 (job_of r1).1),
        Reaches-raced r1 r2 default,
        inl refl,
        unfold job_of in one,
        ground (arith, unnamed, text_eq_iff backend.target [], two),
      )
