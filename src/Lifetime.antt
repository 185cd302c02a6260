-- ===== src/Lifetime.antt =====
-- The life of a process that runs the command "reverse-proxy": the goroutine of
-- pkg/entrypoint/entrypoint.go that waits for SIGTERM, the wait at the end of `Server` in
-- pkg/server/server.go, the two goroutines of each listener in pkg/server/listeners.go, and the exit
-- of cmd/proxyreverse/main.go. It begins when the signal is handled by the program.
pub mod Exits
pub mod Drains
use proxyreverse.Prelude.{
  set, ℕ, zero, suc, ◌≡◌, ◌≤◌, ◌<◌, ◌++◌, Bool, true, false, none, some, List, [], ◌∷◌, get_elem?,
  Text,
}
use proxyreverse.Entrypoint.{finish}

-- `http.Server` of net/http, which is not part of the repository: a server that `Serve` runs, what
-- happens to it by itself (requests come, and end), and the call of `Shutdown`, which returns once
-- no request is served. The law is that a request that is served may end.
pub record HttpServer : Type 1 where
  pub State : Type 0
  pub fresh : State
  pub in_flight : State → ℕ
  pub Moves : State → State → Type 0
  pub shut : State → State
  pub ends_law :
      (s : State) → 0 < in_flight s → (t : State) × Moves s t × (in_flight t < in_flight s)

-- The second goroutine of a listener: it waits for the end, is in `Shutdown`, or is through.
pub data Closer : Type 0 where
  awaiting shutting through : Closer

-- The main goroutine: in the start of `Server`, at its wait for the end, back in the entry point
-- with a code, and the process gone with it.
pub data Phase : Type 0 where
  starting waiting : Phase
  returned exited : (code : ℕ) → Phase

abbrev pub is_alive : Phase → Bool
is_alive starting = true
is_alive waiting = true
is_alive (returned n) = true
is_alive (exited n) = false

module _ (http : HttpServer) where
  open http use {State, in_flight, Moves, fresh, shut}

  -- A listener: its server, and its second goroutine.
  pub record Edge : Type 0 where
    pub server : State
    pub closer : Closer

  -- `signalled` is the buffer of the channel, which has one place; `catching` says that the
  -- goroutine has still to read from it, and `cancelled` that the context is. `terms` counts the
  -- signals delivered.
  pub record Process : Type 0 where
    pub phase : Phase
    pub edges : List Edge
    pub signalled : Bool
    pub catching : Bool
    pub cancelled : Bool
    pub terms : ℕ

  abbrev pub launched : Process
  launched = record {
    phase = starting;
    edges = [];
    signalled = false;
    catching = true;
    cancelled = false;
    terms = 0;
  }

  -- A signal is put into the channel, or dropped if its place is taken. The goroutine reads one,
  -- cancels the context and ends.
  pub data SignalStep : Process → Process → Type 0 where
    sigterm :
        (p : Process)
        → is_alive p.phase ≡ true
        → SignalStep p (record p { signalled = true; terms = suc p.terms })
    catches :
        (p : Process)
        → is_alive p.phase ≡ true
        → p.signalled ≡ true
        → p.catching ≡ true
        → SignalStep p (record p { signalled = false; catching = false; cancelled = true })

  -- The main goroutine: `Server` opens its listeners and completes its start, or it fails; it waits
  -- for the context to be cancelled, and the process exits with the code of the entry point. Go ends
  -- a process that panics with the code 2.
  pub data MainStep : Process → Process → Type 0 where
    opens :
        (p : Process)
        → p.phase ≡ starting
        → MainStep p
            (record p { edges = p.edges ++ (record { server = fresh; closer = awaiting } ∷ []) })
    completes : (p : Process) → p.phase ≡ starting → MainStep p (record p { phase = waiting })
    fails :
        (p : Process) (e : Text)
        → p.phase ≡ starting
        → MainStep p (record p { phase = returned (finish (some e)).code })
    panics : (p : Process) → p.phase ≡ starting → MainStep p (record p { phase = exited 2 })
    wakes :
        (p : Process)
        → p.phase ≡ waiting
        → p.cancelled ≡ true
        → MainStep p (record p { phase = returned (finish {E = Text} none).code })
    exits :
        (p : Process) (n : ℕ) → p.phase ≡ returned n → MainStep p (record p { phase = exited n })

  -- A listener: its server moves, its second goroutine calls `Shutdown` once the context is
  -- cancelled, and the call returns.
  pub data EdgeStep : Process → Process → Type 0 where
    moves :
        (p : Process) (i : ℕ) (e : Edge) (t : State)
        → is_alive p.phase ≡ true
        → get_elem? p.edges i ≡ some e
        → Moves e.server t
        → EdgeStep p (record p { edges = set p.edges i (record e { server = t }) })
    shuts :
        (p : Process) (i : ℕ) (e : Edge)
        → is_alive p.phase ≡ true
        → get_elem? p.edges i ≡ some e
        → p.cancelled ≡ true
        → e.closer ≡ awaiting
        → EdgeStep p (record p {
          edges = set p.edges i (record { server = shut e.server; closer = shutting });
        })
    closes :
        (p : Process) (i : ℕ) (e : Edge)
        → is_alive p.phase ≡ true
        → get_elem? p.edges i ≡ some e
        → e.closer ≡ shutting
        → in_flight e.server ≡ 0
        → EdgeStep p (record p { edges = set p.edges i (record e { closer = through }) })

  pub data Step : Process → Process → Type 0 where
    by_signal : {p q : Process} → SignalStep p q → Step p q
    by_main : {p q : Process} → MainStep p q → Step p q
    by_edge : {p q : Process} → EdgeStep p q → Step p q

  -- A run of so many steps.
  pub data Run (p : Process) : ℕ → Process → Type 0 where
    here : Run p zero p
    next : {n : ℕ} {q r : Process} → Run p n q → Step q r → Run p (suc n) r
