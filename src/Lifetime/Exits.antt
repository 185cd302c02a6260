-- ===== src/Lifetime/Exits.antt =====
-- How the process of cmd/proxyreverse/main.go ends.
use proxyreverse.Prelude.{
  ℕ, zero, ◌≡◌, ◌≤◌, ◌<◌, ◌⊎◌, ◌||◌, refl, not, Bool, true, false, inl, inr, arith, Bool-cases,
}
use proxyreverse.Entrypoint.{finish}
use proxyreverse.Lifetime.{
  HttpServer, Phase, starting, waiting, returned, exited, is_alive, Process, launched, Step, Run,
  here, next, by_signal, by_main, by_edge, sigterm, catches, opens, completes, fails, panics, wakes,
  exits, moves, shuts, closes,
}

-- The process ends with code 0, or is about to.
abbrev succeeds : Phase → Bool
succeeds (returned zero) = true
succeeds (exited zero) = true
succeeds other = false

-- The codes with which the process can end.
abbrev HasCode : Phase → Type 0
HasCode starting = Unit
HasCode waiting = Unit
HasCode (returned n) = n ≤ 1
HasCode (exited n) = n ≤ 2

module _ (http : HttpServer) where
  record IsSound (p : Process http) : Type 0 where
    caught : p.catching ≡ not p.cancelled
    signalled : p.signalled ≡ true → 0 < p.terms
    counted : p.cancelled ≡ true → 0 < p.terms
    kept : 0 < p.terms → (p.signalled || p.cancelled) ≡ true
    ended : succeeds p.phase ≡ true → p.cancelled ≡ true
    coded : HasCode p.phase

  Step-IsSound : {p q : Process http} → Step http p q → IsSound p → IsSound q
  unfolding finish
  Step-IsSound (by_signal (sigterm p alive)) s = ground arith
  Step-IsSound (by_signal (catches p alive signal catching)) s = ground arith
  Step-IsSound (by_main (opens p e)) s = ground arith
  Step-IsSound (by_main (completes p e)) s = ground arith
  Step-IsSound (by_main (fails p x e)) s = ground arith
  Step-IsSound (by_main (panics p e)) s = ground arith
  Step-IsSound (by_main (wakes p e c)) s = ground arith
  Step-IsSound (by_main (exits p n e)) s = ground arith
  Step-IsSound (by_edge (moves p i e t alive at m)) s = ground arith
  Step-IsSound (by_edge (shuts p i e alive at c w)) s = ground arith
  Step-IsSound (by_edge (closes p i e alive at c w)) s = ground arith

  launched-IsSound : IsSound (launched http)
  launched-IsSound = ground arith

  Run-IsSound : {n : ℕ} {p : Process http} → Run http (launched http) n p → IsSound p
  Run-IsSound here = launched-IsSound
  Run-IsSound (next r s) = Step-IsSound s (Run-IsSound r)

  -- From the call of `Server` by the command "reverse-proxy" on, the process ends with code 0 only
  -- after a SIGTERM that was caught; any other code is 1 or 2.
  pub exit_codes :
      (n code : ℕ) (p : Process http)
      → Run http (launched http) n p
      → p.phase ≡ exited code
      → ((code ≡ 0) × (0 < p.terms) × (p.cancelled ≡ true)) ⊎ (code ≡ 1) ⊎ (code ≡ 2)
  exit_codes n code p r e = let s = Run-IsSound r in ground (arith, s.counted, s.ended, s.coded)

  -- Once a SIGTERM is delivered to a process that waits at the end of `Server`, three steps of its
  -- own at most lead to its exit with code 0, and no listener takes part in them: whatever requests
  -- are in flight at it are still in flight, and its `Shutdown` may not even have begun.
  pub exits_in_flight :
      (n : ℕ) (p : Process http)
      → Run http (launched http) n p
      → p.phase ≡ waiting
      → 0 < p.terms
      → (k : ℕ) × (q : Process http) × Run http p k q
        × (k ≤ 3)
        × (q.phase ≡ exited 0)
        × (q.edges ≡ p.edges)
  unfolding finish
  exits_in_flight n p r e t =
      let s = Run-IsSound r in
      let alive : is_alive p.phase ≡ true = ground arith in
      let c : Process http = record p { signalled = false; catching = false; cancelled = true } in
      let w : Process http → Process http = λ x. record x { phase = returned 0 } in
      let x : Process http → Process http = λ x. record x { phase = exited 0 } in
      elim (Bool-cases p.cancelled) [
        | inl cancelled ↦ (
          2,
          x p,
          next (next here (by_main (wakes p e cancelled))) (by_main (exits (w p) 0 refl)),
          omega arith,
          refl,
          refl,
        )
        | inr not_yet ↦ (
          3,
          x c,
          next
              (next
                (next here (
                  by_signal (
                    catches p alive (ground (arith, not_yet, s.kept t))
                      (ground (arith, not_yet, s.caught)))))
                (by_main (wakes c e refl)))
              (by_main (exits (w c) 0 refl)),
          omega arith,
          refl,
          refl,
        )
      ]
