-- ===== src/Lifetime/Drains.antt =====
-- The call of `Shutdown` in pkg/server/listeners.go comes to its end, if the process lives on.
use proxyreverse.Prelude.{
  set, get_elem?-set, ℕ, zero, suc, ◌≡◌, ◌≤◌, refl, true, inl, inr, arith, get_elem?, some, List,
  ◌==◌, Bool-cases,
}
use proxyreverse.Lifetime.{
  HttpServer, Closer, awaiting, shutting, through, is_alive, Edge, Process, Run, here, next,
  by_edge, moves, shuts, closes,
}

module _ (http : HttpServer) where
  open http use {State, in_flight}

  -- From `p` a state is reached in which the listener is through, in the phase of `q`.
  abbrev Completes : Process http → Process http → ℕ → Type 0
  Completes p q i =
      (m : ℕ) × (r : Process http) × (e : Edge http) × Run http p m r
      × (get_elem? r.edges i ≡ some e)
      × (e.closer ≡ through)
      × (r.phase ≡ q.phase)

  set_self :
      (edges : List (Edge http)) (i : ℕ) (e e' : Edge http)
      → get_elem? edges i ≡ some e
      → get_elem? (set edges i e') i ≡ some e'
  set_self edges i e e' at = ground (arith, get_elem?-set edges i i e' e at)

  module _ (p : Process http) (i : ℕ) where
    closed_now :
        (m : ℕ) (q : Process http) (e : Edge http)
        → Run http p m q
        → is_alive q.phase ≡ true
        → get_elem? q.edges i ≡ some e
        → e.closer ≡ shutting
        → in_flight e.server ≡ 0
        → Completes p q i
    closed_now m q e run alive at c none_left = (
      suc m,
      record q { edges = set q.edges i (record e { closer = through }) },
      record e { closer = through },
      next run (by_edge (closes q i e alive at c none_left)),
      set_self q.edges i e _ at,
      refl,
      refl,
    )

    drain :
        (k m : ℕ) (q : Process http) (e : Edge http)
        → Run http p m q
        → is_alive q.phase ≡ true
        → get_elem? q.edges i ≡ some e
        → e.closer ≡ shutting
        → in_flight e.server ≤ k
        → Completes p q i
    drain zero m q e run alive at c le = closed_now m q e run alive at c (omega arith)
    drain (suc k) m q e run alive at c le = elim (Bool-cases (in_flight e.server == 0)) [
      | inl none_left ↦ closed_now m q e run alive at c (ground arith)
      | inr some_left ↦
          let (t, moved, fewer) = http.ends_law e.server (ground arith) in
          drain k (suc m) (record q { edges = set q.edges i (record e { server = t }) })
            (record e { server = t }) (next run (by_edge (moves q i e t alive at moved))) alive
            (set_self q.edges i e _ at) c (omega arith)
    ]

    -- As long as the process lives, every listener of a cancelled context can get through its
    -- `Shutdown` with all its requests served, and the main goroutine need not move for it.
    pub shutdown-Completes :
        (e : Edge http)
        → is_alive p.phase ≡ true
        → p.cancelled ≡ true
        → get_elem? p.edges i ≡ some e
        → Completes p p i
    shutdown-Completes e alive cancelled at = by_closer e e.closer refl at
      where
        by_closer :
            (e : Edge http) (c : Closer)
            → e.closer ≡ c
            → get_elem? p.edges i ≡ some e
            → Completes p p i
        by_closer e awaiting c at =
            let e' : Edge http = record { server = http.shut e.server; closer = shutting } in
            drain (in_flight (http.shut e.server)) 1 (record p { edges = set p.edges i e' }) e'
              (next here (by_edge (shuts p i e alive at cancelled c))) alive
              (set_self p.edges i e _ at) refl (omega arith)
        by_closer e shutting c at = drain (in_flight e.server) 0 p e here alive at c (omega arith)
        by_closer e through c at = (0, p, e, here, at, c, refl)
