-- ===== src/Startup/Ready.antt =====
-- The listeners of a start that goes through: pkg/server/server.go.
use proxyreverse.Prelude.{
  ◌≡◌, ◌≢◌, ◌∙◌, subst, refl, All, none, some, [], ◌∷◌, ◌++◌, Text, arith, text_eq, text_eq_iff,
  find, put-new, visit-All, ok, Assoc, lookup, insert, lookup-insert, Bool-cases, inl, inr,
}
use mathlib.Core.List.{append_assoc, append-nil}
use proxyreverse.Config.Models.{ListenerConfig, site_config_type_http_edge}
use proxyreverse.Listener.{HttpEdgeListener, new_listener}
use proxyreverse.Startup.{
  ListenerKey, Listeners, ListenPorts, Surroundings, listener_key_eq, key_of, collect_listeners,
  new_http_edge_listener, started, start_listeners,
}
use proxyreverse.Startup.Keys.{
  ports_of, names_of, AreKeyed, keyed-AreKeyed, keyed-AreDistinct, of_name,
}
use proxyreverse.Startup.Collect.{HasDistinctSockets, listener_key_eq_iff}

-- A listener of this name is there and is not nil.
abbrev pub IsUp : {B : Type 0} → Text → Listeners B → Type 0
IsUp {B} name listeners = (l : HttpEdgeListener B) × (lookup name listeners ≡ some (some l))

pub insert-IsUp :
    {B : Type 0} (name n : Text) (l : HttpEdgeListener B) (listeners : Listeners B)
    → IsUp n listeners
    → IsUp n (insert name (some l) listeners)
insert-IsUp name n l listeners (m, h) = elim (Bool-cases (text_eq name n)) [
  | inl same ↦ (l, ground (arith, same, lookup-insert name n (some l) listeners))
  | inr other ↦ (m, ground (arith, other, h, lookup-insert name n (some l) listeners))
]

module _ (around : Surroundings) where
  -- None of the listeners has a key that was seen.
  abbrev pub AreFresh : ListenPorts → Assoc ListenerConfig → Type 0
  AreFresh seen listeners =
      All (λ l. find listener_key_eq (key_of around l.1) seen ≡ none) listeners

  find-append :
      (k j : ListenerKey) (v : Text) (seen : ListenPorts)
      → find listener_key_eq k seen ≡ none
      → j ≢ k
      → find listener_key_eq k (seen ++ ((j, v) ∷ [])) ≡ none
  unfolding find
  find-append k j v [] h d = ground (arith, listener_key_eq_iff j k)
  find-append k j v ((i, w) ∷ seen) h d = ground (arith, find-append k j v seen)

  AreFresh-append :
      (config : ListenerConfig) (v : Text) (seen : ListenPorts) (more : Assoc ListenerConfig)
      → All (λ l. key_of around config ≢ key_of around l.1) more
      → AreFresh seen more
      → AreFresh (seen ++ ((key_of around config, v) ∷ [])) more
  AreFresh-append config v seen [] d h = tt
  AreFresh-append config v seen ((n, c) ∷ more) (d, ds) (h, hs) = (
    find-append (key_of around c) (key_of around config) v seen h d,
    AreFresh-append config v seen more ds hs,
  )

  pub collect_listeners-append :
      (listeners : Assoc ListenerConfig) (ports names : ListenPorts)
      → HasDistinctSockets around listeners
      → AreFresh ports listeners
      → AreFresh names listeners
      → collect_listeners around listeners ports names
        ≡ ok (ports ++ ports_of around listeners, names ++ names_of around listeners)
  unfolding collect_listeners
  collect_listeners-append [] ports names d p n = rw (append-nil ports, append-nil names)
  collect_listeners-append ((name, config) ∷ more) ports names (differ, d) (p, ps) (n, ns) =
      let k = key_of around config in
      let ih =
        collect_listeners-append more (ports ++ ((k, config.listener_type) ∷ []))
          (names ++ ((k, name) ∷ [])) d
          (AreFresh-append config config.listener_type ports more differ ps)
          (AreFresh-append config name names more differ ns) in
      ground (
        arith,
        p,
        put-new listener_key_eq k config.listener_type ports p,
        put-new listener_key_eq k name names n,
        append_assoc ports ((k, config.listener_type) ∷ []) (ports_of around more),
        append_assoc names ((k, name) ∷ []) (names_of around more),
        ih,
      )

  -- The listeners are of the one known type, and their sockets open.
  abbrev pub AreOpening : Assoc ListenerConfig → Type 0
  AreOpening listeners =
      All
        (λ l.
          (l.1.listener_type ≡ site_config_type_http_edge)
          × (around.listen (key_of around l.1) ≡ none))
        listeners

  -- A key with a type, of which a listener starts.
  abbrev IsOpening : ListenPorts → ListenerKey × Text → Type 0
  IsOpening names port =
      (port.1 ≡ site_config_type_http_edge)
      × (around.listen port.0 ≡ none)
      × ((name : Text) × (find listener_key_eq port.0 names ≡ some name))

  ports_of-IsOpening :
      (names : ListenPorts) (more : Assoc ListenerConfig)
      → AreOpening more
      → AreKeyed around (λ l. l.0) names more
      → All (IsOpening names) (ports_of around more)
  ports_of-IsOpening names [] o k = tt
  ports_of-IsOpening names (l ∷ more) ((edge, socket), o) (named, k) =
      ((edge, socket, (l.0, named)), ports_of-IsOpening names more o k)

  module _ {B : Type 0} where
    started-opening :
        (key : ListenerKey)
        → around.listen key ≡ none
        → started around {B = B} key ≡ some new_listener
    unfolding started new_http_edge_listener
    started-opening key h = ground (arith, h)

    -- The listeners start, those that were up stay up, and the names of all keys come up.
    start_ports-IsUp :
        (ports names : ListenPorts) (listeners : Listeners B)
        → All (IsOpening names) ports
        → (listeners' : Listeners B) × (start_listeners around ports names listeners
            ≡ ok listeners')
          × ((name : Text) → IsUp name listeners → IsUp name listeners')
          × ((key : ListenerKey) (t name : Text)
              → find listener_key_eq key ports ≡ some t
              → find listener_key_eq key names ≡ some name
              → IsUp name listeners')
    unfolding start_listeners find
    start_ports-IsUp [] names listeners o = (listeners, refl, (λ n u. u), λ k t n e. absurd (cc))
    start_ports-IsUp ((key, t) ∷ ports) names listeners ((edge, socket, (name, named)), o) =
        let up = started around {B = B} key in
        let opened = started-opening key socket in
        let added = insert name up listeners in
        let (listeners', e, kept, rest) = start_ports-IsUp ports names added o in
        let here : IsUp name added = (
          new_listener,
          ground (arith, opened, lookup-insert name name up listeners, text_eq_iff name name),
        ) in
        (
          listeners',
          ground (arith, edge, named, e, text_eq_iff t site_config_type_http_edge),
          (λ n u. kept n (rw opened (insert-IsUp name n new_listener listeners u))),
          λ k u n found called. elim (Bool-cases (listener_key_eq key k)) [
            | inl same ↦
                let one : name ≡ n =
                  ground (arith, named, called, same, listener_key_eq_iff key k) in
                subst (λ m. IsUp m listeners') one (kept name here)
            | inr other ↦ rest k u n (ground (arith, other)) called
          ],
        )

    -- The listeners of a configuration start, in whatever order, and all of its names come up.
    pub start_listeners-IsUp :
        (listeners : Assoc ListenerConfig)
        → HasDistinctSockets around listeners
        → AreOpening listeners
        → (started : Listeners B) × (start_listeners around
              (around.visit_ports (ports_of around listeners))
              (names_of around listeners)
              []
            ≡ ok started)
          × ((name : Text) → lookup name listeners ≢ none → IsUp name started)
    start_listeners-IsUp listeners d o =
        let ports = ports_of around listeners in
        let names = names_of around listeners in
        let distinct = keyed-AreDistinct around (λ l. l.1.listener_type) listeners d in
        let named = keyed-AreKeyed around (λ l. l.0) listeners d in
        let (apart, as_before) = around.visit_ports_law ports distinct in
        let opening =
          visit-All listener_key_eq listener_key_eq_iff (IsOpening names) around.visit_ports ports
            around.visit_ports_law distinct (ports_of-IsOpening names listeners o named) in
        let (up, e, kept, all) = start_ports-IsUp (around.visit_ports ports) names [] opening in
        (
          up,
          e,
          λ name c.
              let (key, t, typed, called) =
                of_name around ports names listeners name
                  (keyed-AreKeyed around (λ l. l.1.listener_type) listeners d) named c in
              all key t name (as_before key ∙ typed) called,
        )
