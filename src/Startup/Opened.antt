-- ===== src/Startup/Opened.antt =====
-- Which listeners the start of pkg/server/server.go has after its loop over the addresses.
use proxyreverse.Prelude.{
  ◌≡◌, ◌↔◌, refl, ap, ◌∙◌, subst, All, none, some, [], ◌∷◌, Text, arith, text_eq, text_eq_iff, find,
  AreDistinct, visit-All, All_of_find, find-All, Option-cases, ok, Assoc, lookup, HasDistinctKeys,
  Bool-cases, inl, inr,
}
use proxyreverse.Config.Models.{ListenerConfig, site_config_type_http_edge}
use proxyreverse.Listener.{HttpEdgeListener, new_listener}
use proxyreverse.Startup.{
  ListenerKey, Listeners, ListenPorts, Surroundings, listener_key_eq, key_of,
  new_http_edge_listener, started, start_listeners,
}
use proxyreverse.Startup.Keys.{ports_of, names_of, AreKeyed, keyed-AreKeyed, keyed-AreDistinct}
use proxyreverse.Startup.Collect.{HasDistinctSockets, listener_key_eq_iff}
use proxyreverse.Startup.Ports.{
  names_of-lookup, names_of-HasUniqueNames, IsEdge, AreStarted, start_ports, start_listeners-edge,
}

-- What holds of all entries of a map holds of one that is found.
lookup-All :
    {V : Type 0} (P : Text × V → Type 0) (m : Assoc V) (k : Text) (v : V)
    → All P m
    → lookup k m ≡ some v
    → P (k, v)
unfolding lookup
lookup-All P [] k v h e = absurd (cc)
lookup-All P ((j, w) ∷ m) k v (p, h) e = elim (Bool-cases (text_eq j k)) [
  | inl same ↦ let one : (j, w) ≡ (k, v) = ground (arith, same, text_eq_iff j k) in subst P one p
  | inr other ↦ lookup-All P m k v h (ground (arith, other))
]

module _ (around : Surroundings) where
  -- The listeners of the configuration that are up: those whose sockets open.
  abbrev pub Opens : Assoc ListenerConfig → Text → Type 0
  Opens listeners name =
      (config : ListenerConfig) × (lookup name listeners ≡ some config)
      × (around.listen (key_of around config) ≡ none)

  abbrev pub AreEdge : Assoc ListenerConfig → Type 0
  AreEdge listeners = All (λ l. l.1.listener_type ≡ site_config_type_http_edge) listeners

  started_iff :
      {B : Type 0} (key : ListenerKey)
      → ((l : HttpEdgeListener B) × (started around key ≡ some l)) ↔ (around.listen key ≡ none)
  unfolding started new_http_edge_listener
  started_iff key = ((λ h. ground (arith, h.1)), λ h. (new_listener, ground (arith, h)))

  ports_of-IsEdge :
      (names : ListenPorts) (more : Assoc ListenerConfig)
      → AreEdge more
      → AreKeyed around (λ l. l.0) names more
      → All (IsEdge around names) (ports_of around more)
  ports_of-IsEdge names [] o k = tt
  ports_of-IsEdge names (l ∷ more) (edge, o) (named, k) =
      ((edge, (l.0, named)), ports_of-IsEdge names more o k)

  AreEdge-ports_of :
      (more : Assoc ListenerConfig)
      → All (λ port. port.1 ≡ site_config_type_http_edge) (ports_of around more)
      → AreEdge more
  AreEdge-ports_of [] h = tt
  AreEdge-ports_of (l ∷ more) (edge, h) = (edge, AreEdge-ports_of more h)

  module _ (listeners : Assoc ListenerConfig) (d : HasDistinctKeys listeners)
      (sockets : HasDistinctSockets around listeners) where
    abbrev ports : ListenPorts
    ports = ports_of around listeners

    abbrev names : ListenPorts
    names = names_of around listeners

    distinct : AreDistinct listener_key_eq ports
    distinct = keyed-AreDistinct around (λ l. l.1.listener_type) listeners sockets

    module _ {B : Type 0} (up : Listeners B)
        (run : AreStarted around names
          (names_of-HasUniqueNames around listeners d)
          (around.visit_ports ports)
          []
          up) where
      up_at :
          (name : Text) (config : ListenerConfig)
          → lookup name listeners ≡ some config
          → lookup name up ≡ some (started around (key_of around config))
      up_at name config found =
          let typed =
            lookup-All
              (λ l. find listener_key_eq (key_of around l.1) ports ≡ some l.1.listener_type)
              listeners name config
              (keyed-AreKeyed around (λ l. l.1.listener_type) listeners sockets) found in
          let named =
            lookup-All (λ l. find listener_key_eq (key_of around l.1) names ≡ some l.0) listeners
              name config (keyed-AreKeyed around (λ l. l.0) listeners sockets) found in
          run.at_port (key_of around config) config.listener_type name
            ((around.visit_ports_law ports distinct).1 (key_of around config) ∙ typed) named

      up_missing : (name : Text) → lookup name listeners ≡ none → lookup name up ≡ none
      up_missing name missing =
          run.elsewhere name (λ k t found called.
            let (config, there, at) = names_of-lookup around listeners k name d called in
            ground (arith, there, missing))
          ∙ unfold lookup in refl

      up_iff :
          (name : Text)
          → ((l : HttpEdgeListener B) × (lookup name up ≡ some (some l))) ↔ Opens listeners name
      up_iff name = (
        (λ h. elim (Option-cases (lookup name listeners)) [
          | inl missing ↦ absurd (ground (arith, h.1, up_missing name missing))
          | inr (config, found) ↦ (
            config,
            found,
            (started_iff (key_of around config)).0
                (h.0, ground (arith, h.1, up_at name config found)),
          )
        ]),
        λ h.
            let (config, found, socket) = h in
            let (l, there) = (started_iff {B = B} (key_of around config)).1 socket in
            (l, up_at name config found ∙ ap (λ o. some o) there),
      )

    -- The loop goes through exactly if all listeners are of the known type, and then those are up
    -- whose sockets open.
    pub start_listeners-Opens :
        {B : Type 0}
        → AreEdge listeners
        → (up : Listeners B) × (start_listeners around (around.visit_ports ports) names [] ≡ ok up)
          × ((name : Text)
              → ((l : HttpEdgeListener B) × (lookup name up ≡ some (some l)))
                ↔ Opens listeners name)
    start_listeners-Opens edge =
        let unique = names_of-HasUniqueNames around listeners d in
        let named = keyed-AreKeyed around (λ l. l.0) listeners sockets in
        let (apart, as_before) = around.visit_ports_law ports distinct in
        let edges =
          visit-All listener_key_eq listener_key_eq_iff (IsEdge around names) around.visit_ports
            ports around.visit_ports_law distinct (ports_of-IsEdge names listeners edge named) in
        let (up, e, run) =
          start_ports around names unique (around.visit_ports ports) [] apart edges in
        (up, e, up_iff up run)

    pub start_listeners-AreEdge :
        {B : Type 0} (up : Listeners B)
        → start_listeners around (around.visit_ports ports) names [] ≡ ok up
        → AreEdge listeners
    start_listeners-AreEdge up e =
        let P : ListenerKey × Text → Type 0 = λ port. port.1 ≡ site_config_type_http_edge in
        let visited = around.visit_ports ports in
        let edges : All P visited = start_listeners-edge around visited names [] up e in
        let found = (around.visit_ports_law ports distinct).1 in
        AreEdge-ports_of listeners (
          All_of_find listener_key_eq listener_key_eq_iff P ports distinct (λ k v h.
            find-All listener_key_eq listener_key_eq_iff P visited k v edges (found k ∙ h)))
