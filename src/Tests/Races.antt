-- ===== src/Tests/Races.antt =====
-- Requests that a backend of pkg/server/backends.go serves at once.
use proxyreverse.Prelude.{◌≡◌, refl, [], ◌∷◌, codes, arith, ok, All, Among}
use proxyreverse.Go.HostPort.{split_host_port}
use proxyreverse.Go.Decimal.{decimal}
use proxyreverse.Target.{default_target, get_target}
use proxyreverse.Backend.{ClientTls, Outbound, client_tls, edit_headers, retarget_tls, outbound_of}
use proxyreverse.Backend.Concurrent.{
  Job, Running, idle, arrives, retargets, sends, Reaches, here, next,
}
use proxyreverse.Backend.Concurrent.Races.{sent_unchanged, sent_races}
use proxyreverse.Tests.Backends.{
  decoder, built_of, client_of, request_for, named, unnamed, named-built,
}

-- A request to the backend with a target host, served alone.
abbrev job : Job
job =
    let request = edit_headers (built_of named) (request_for (codes "h") (codes "/")) in
    (default_target (built_of named) request, request)

abbrev arrived : Running
arrived = record { client = client_of named; waiting = job ∷ []; ready = []; sent = [] }

abbrev retargeted : Running
retargeted = record {
  client = retarget_tls (built_of named) job.0 (client_of named);
  waiting = [];
  ready = job ∷ [];
  sent = [];
}

abbrev served : Running
served = record {
  client = retargeted.client;
  waiting = [];
  ready = [];
  sent = (retargeted.client, outbound_of (built_of named) job.0 job.1) ∷ [];
}

served-Reaches : Reaches (built_of named) (idle (client_of named)) served
served-Reaches =
    next
      (next
        (next here (
          arrives (idle (client_of named)) (request_for (codes "h") (codes "/")) job
            (unfold get_target in refl)))
        (retargets arrived [] [] job refl))
      (sends retargeted [] [] job refl)

sent_unchanged_example : All (λ (x : ClientTls × Outbound). x.0 ≡ client_tls named) served.sent
sent_unchanged_example =
    sent_unchanged decoder named 0 (built_of named) (client_of named) served named-built
      (ground arith) served-Reaches

sent_races_example :
    (s : Running) × (x : ClientTls × Outbound) × Reaches
      (built_of unnamed)
      (idle (client_of unnamed))
      s
    × Among x s.sent
    × (split_host_port x.1.url.host ≡ ok (codes "a", decimal 443))
    × (x.0.server_name ≡ codes "b")
sent_races_example =
    sent_races (built_of unnamed) (client_of unnamed) (request_for (codes "a") (codes "/"))
      (request_for (codes "b") (codes "/")) refl refl refl (omega arith) (omega arith)
