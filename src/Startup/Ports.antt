-- ===== src/Startup/Ports.antt =====
-- What the loop over the addresses of pkg/server/server.go starts.
use proxyreverse.Prelude.{
  ◌≡◌, ◌≢◌, refl, ◌∙◌, All, none, some, [], ◌∷◌, Text, arith, text_eq, text_eq_iff, find,
  AreDistinct, ok, Assoc, lookup, insert, lookup-insert, HasDistinctKeys, Bool-cases, inl, inr,
}
use proxyreverse.Config.Models.{ListenerConfig, site_config_type_http_edge}
use proxyreverse.Startup.{
  ListenerKey, Listeners, ListenPorts, Surroundings, listener_key_eq, key_of, started,
  start_listeners,
}
use proxyreverse.Startup.Keys.{names_of}
use proxyreverse.Startup.Collect.{listener_key_eq_iff}

module _ (around : Surroundings) where
  -- A key that has a name is that of the listener of this name.
  pub names_of-lookup :
      (listeners : Assoc ListenerConfig) (k : ListenerKey) (name : Text)
      → HasDistinctKeys listeners
      → find listener_key_eq k (names_of around listeners) ≡ some name
      → (config : ListenerConfig) × (lookup name listeners ≡ some config)
        × (key_of around config ≡ k)
  unfolding find lookup
  names_of-lookup [] k name d e = absurd (cc)
  names_of-lookup ((m, config) ∷ more) k name (fresh, d) e =
      elim (Bool-cases (listener_key_eq (key_of around config) k)) [
        | inl same ↦ (
          config,
          ground (arith, same, text_eq_iff m name),
          (listener_key_eq_iff (key_of around config) k).0 same,
        )
        | inr other ↦
            let (c, found, at) = names_of-lookup more k name d (ground (arith, other)) in
            (c, ground (arith, found, fresh, text_eq_iff m name), at)
      ]

  -- A name belongs to one key at most.
  abbrev pub HasUniqueNames : ListenPorts → Type 0
  HasUniqueNames names =
      (j k : ListenerKey) (name : Text)
      → find listener_key_eq j names ≡ some name
      → find listener_key_eq k names ≡ some name
      → j ≡ k

  pub names_of-HasUniqueNames :
      (listeners : Assoc ListenerConfig)
      → HasDistinctKeys listeners
      → HasUniqueNames (names_of around listeners)
  names_of-HasUniqueNames listeners d j k name e f =
      let (c, found, at) = names_of-lookup listeners j name d e in
      let (c', found', at') = names_of-lookup listeners k name d f in
      ground (arith, found, found', at, at')

  -- A port of the known type, with a name.
  abbrev pub IsEdge : ListenPorts → ListenerKey × Text → Type 0
  IsEdge names port =
      (port.1 ≡ site_config_type_http_edge)
      × ((name : Text) × (find listener_key_eq port.0 names ≡ some name))

  module _ {B : Type 0} (names : ListenPorts) (unique : HasUniqueNames names) where
    -- The loop gives every name of a port its listener, or nil, and changes no other name.
    pub record AreStarted (ports : ListenPorts) (before after : Listeners B) : Type 0 where
      pub at_port :
          (k : ListenerKey) (t name : Text)
          → find listener_key_eq k ports ≡ some t
          → find listener_key_eq k names ≡ some name
          → lookup name after ≡ some (started around k)
      pub elsewhere :
          (name : Text)
          → ((k : ListenerKey) (t : Text)
              → find listener_key_eq k ports ≡ some t
              → find listener_key_eq k names ≢ some name)
          → lookup name after ≡ lookup name before

    cons-AreStarted :
        (key : ListenerKey) (t name : Text) (ports : ListenPorts) (before after : Listeners B)
        → find listener_key_eq key names ≡ some name
        → find listener_key_eq key ports ≡ none
        → AreStarted ports (insert name (started around key) before) after
        → AreStarted ((key, t) ∷ ports) before after
    unfolding find
    cons-AreStarted key t name ports before after named fresh rest =
        let added = λ (n : Text). lookup-insert name n (started around key) before in
        record {
          at_port = λ k u n found called. elim (Bool-cases (listener_key_eq key k)) [
            | inr other ↦ rest.at_port k u n (ground (arith, other)) called
            | inl same ↦
                let one : key ≡ k = (listener_key_eq_iff key k).0 same in
                let here : name ≡ n = ground (arith, named, called, one) in
                let kept : lookup name after
                    ≡ lookup name (insert name (started around key) before) =
                  rest.elsewhere name (λ j v there called'.
                    let again : key ≡ j = unique key j name named called' in
                    ground (arith, there, fresh, again)) in
                ground (arith, kept, added name, here, one, text_eq_iff name name)
          ];
          elsewhere = λ n nowhere.
              let other : name ≢ n = λ same.
                nowhere key t (ground (arith, listener_key_eq_iff key key))
                  (ground (arith, named, same)) in
              rest.elsewhere n
                (λ j v there. nowhere j v (ground (arith, there, fresh, listener_key_eq_iff key j)))
              ∙ ground (arith, added n, other, text_eq_iff name n);
        }

    pub start_ports :
        (ports : ListenPorts) (before : Listeners B)
        → AreDistinct listener_key_eq ports
        → All (IsEdge names) ports
        → (after : Listeners B) × (start_listeners around ports names before ≡ ok after)
          × AreStarted ports before after
    unfolding start_listeners find
    start_ports [] before d o = (
      before,
      refl,
      record { at_port = λ k t name e. absurd (cc); elsewhere = λ name nowhere. refl },
    )
    start_ports ((key, t) ∷ ports) before (fresh, d) ((edge, (name, named)), o) =
        let (after, e, rest) = start_ports ports (insert name (started around key) before) d o in
        (
          after,
          ground (arith, edge, named, e, text_eq_iff t site_config_type_http_edge),
          cons-AreStarted key t name ports before after named fresh rest,
        )

  -- A loop that goes through has seen the known type alone.
  pub start_listeners-edge :
      {B : Type 0} (ports names : ListenPorts) (before after : Listeners B)
      → start_listeners around ports names before ≡ ok after
      → All (λ port. port.1 ≡ site_config_type_http_edge) ports
  unfolding start_listeners
  start_listeners-edge [] names before after e = tt
  start_listeners-edge ((key, t) ∷ ports) names before after e =
      let name : Text = elim (find listener_key_eq key names) [ none ↦ [] | some n ↦ n ] in
      elim (Bool-cases (text_eq t site_config_type_http_edge)) [
        | inr other ↦ absurd (ground (arith, other))
        | inl edge ↦ (
          (text_eq_iff t site_config_type_http_edge).0 edge,
          start_listeners-edge ports names (insert name (started around key) before) after
              (ground (arith, edge)),
        )
      ]
