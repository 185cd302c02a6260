-- ===== src/Tests/Lifetimes.antt =====
-- The life of a process with one listener and one request, by an `http.Server` that counts its
-- requests.
use proxyreverse.Prelude.{
  ℕ, zero, suc, ◌≡◌, ◌≤◌, ◌<◌, ◌⊎◌, Bool, true, false, refl, [], ◌∷◌, inl, inr, some, arith,
  get_elem?,
}
use proxyreverse.Entrypoint.{finish}
use proxyreverse.Lifetime.{
  HttpServer, awaiting, shutting, through, waiting, exited, is_alive, Edge, Process, launched, Run,
  here, next, sigterm, catches, opens, completes, wakes, exits, moves, shuts, by_signal, by_main,
  by_edge,
}
use proxyreverse.Lifetime.Exits.{exit_codes, exits_in_flight}
use proxyreverse.Lifetime.Drains.{shutdown-Completes}

-- The requests served, and whether more are taken.
abbrev Server : Type 0
Server = ℕ × Bool

-- A request comes, or ends.
abbrev ServerMoves : Server → Server → Type 0
ServerMoves (n, taking) (m, taking') =
    (taking' ≡ taking) × (((taking ≡ true) × (m ≡ suc n)) ⊎ (n ≡ suc m))

server_ends_law : (s : Server) → 0 < s.0 → (t : Server) × ServerMoves s t × (t.0 < s.0)
server_ends_law (zero, taking) h = absurd (omega arith)
server_ends_law (suc n, taking) h = ((n, taking), (refl, inr refl), omega arith)

abbrev http : HttpServer
http = record {
  State = Server;
  fresh = (0, true);
  in_flight = λ s. s.0;
  Moves = ServerMoves;
  shut = λ s. (s.0, false);
  ends_law = server_ends_law;
}

abbrev edge : ℕ → Edge http
edge n = record { server = (n, true); closer = awaiting }

-- One listener, one request in flight, and a SIGTERM delivered.
abbrev busy : Process http
busy = record {
  phase = waiting;
  edges = edge 1 ∷ [];
  signalled = true;
  catching = true;
  cancelled = false;
  terms = 1;
}

busy-Run : Run http (launched http) 4 busy
busy-Run =
    let p0 = launched http in
    let p1 : Process http = record p0 { edges = edge 0 ∷ [] } in
    let p2 : Process http = record p1 { phase = waiting } in
    let p3 : Process http = record p2 { edges = edge 1 ∷ [] } in
    next
      (next (next (next here (by_main (opens p0 refl))) (by_main (completes p1 refl)))
        (by_edge (moves p2 0 (edge 0) (1, true) refl refl (refl, inl (refl, refl)))))
      (by_signal (sigterm p3 refl))

exits_in_flight_example :
    (k : ℕ) × (q : Process http) × Run http busy k q
    × (k ≤ 3)
    × (q.phase ≡ exited 0)
    × (q.edges ≡ edge 1 ∷ [])
exits_in_flight_example = exits_in_flight http 4 busy busy-Run refl (omega arith)

-- The signal is caught, and then `Shutdown` is called.
abbrev cancelled : Process http
cancelled = record busy { signalled = false; catching = false; cancelled = true }

cancelled-Run : Run http (launched http) 5 cancelled
cancelled-Run = next busy-Run (by_signal (catches busy refl refl refl))

shutdown-Completes_test :
    (m : ℕ) × (r : Process http) × (e : Edge http) × Run http cancelled m r
    × (get_elem? r.edges 0 ≡ some e)
    × (e.closer ≡ through)
    × (r.phase ≡ waiting)
shutdown-Completes_test = shutdown-Completes http cancelled 0 (edge 1) refl refl refl

-- A process without requests that was ended by a signal.
abbrev ended : Process http
ended = record cancelled { phase = exited 0 }

ended-Run : Run http (launched http) 7 ended
unfolding finish
ended-Run =
    next (next cancelled-Run (by_main (wakes cancelled refl refl)))
      (by_main (exits (record cancelled { phase = proxyreverse.Lifetime.returned 0 }) 0 refl))

exit_codes_example : (◌≡◌ {A = ℕ} 0 0 × (0 < 1) × (true ≡ true)) ⊎ ◌≡◌ {A = ℕ} 0 1 ⊎ ◌≡◌ {A = ℕ} 0 2
exit_codes_example = exit_codes http 7 0 ended ended-Run refl
