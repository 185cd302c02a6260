-- ===== src/Backend/Concurrent.antt =====
-- Requests that a backend of pkg/server/backends.go serves at once: `ServeHTTP` runs for each in a
-- goroutine of its own, and all share the client's TLS configuration.
pub mod Races
use proxyreverse.Prelude.{◌≡◌, ◌++◌, List, [], ◌∷◌, Text, ok}
use proxyreverse.Http.{Request, HttpBackend}
use proxyreverse.Target.{get_target}
use proxyreverse.Backend.{ClientTls, Outbound, edit_headers, retarget_tls, outbound_of}

-- A request that has its target, and is edited.
abbrev pub Job : Type 0
Job = Text × Request

-- The shared TLS configuration, the requests that have not set it yet, those that are to be sent,
-- and what was sent, each with the configuration of that moment, the latest first.
pub record Running : Type 0 where
  pub client : ClientTls
  pub waiting : List Job
  pub ready : List Job
  pub sent : List (ClientTls × Outbound)

abbrev pub idle : ClientTls → Running
idle client = record { client = client; waiting = []; ready = []; sent = [] }

-- One step of one of the goroutines: the edit of the request and the choice of its target, the
-- change of the shared configuration, and the sending of the request. A request whose selector
-- panics goes no further.
pub data Step {D : Type 0} (backend : HttpBackend D) : Running → Running → Type 0 where
  arrives :
      (s : Running) (request : Request) (job : Job)
      → get_target backend (edit_headers backend request) backend.target_selector ≡ ok job
      → Step backend s (record s { waiting = job ∷ s.waiting })
  retargets :
      (s : Running) (pre post : List Job) (job : Job)
      → s.waiting ≡ pre ++ (job ∷ post)
      → Step backend s (record s {
        client = retarget_tls backend job.0 s.client;
        waiting = pre ++ post;
        ready = job ∷ s.ready;
      })
  sends :
      (s : Running) (pre post : List Job) (job : Job)
      → s.ready ≡ pre ++ (job ∷ post)
      → Step backend s (record s {
        ready = pre ++ post;
        sent = (s.client, outbound_of backend job.0 job.1) ∷ s.sent;
      })

pub data Reaches {D : Type 0} (backend : HttpBackend D) (s : Running) : Running → Type 0 where
  here : Reaches backend s s
  next : {t u : Running} → Reaches backend s t → Step backend t u → Reaches backend s u
