-- ===== src/Startup/Collect.antt =====
-- Collecting the listeners of a configuration: pkg/server/server.go.
use proxyreverse.Prelude.{
  ◌≡◌, ◌≢◌, ◌↔◌, refl, All, true, none, [], ◌∷◌, Text, arith, text_eq_iff, find, put, find-put, ok,
  Assoc, Option-cases, inl, inr,
}
use proxyreverse.Startup.{
  ListenerKey, listener_key_eq, ListenPorts, collect_listeners, Surroundings, key_of,
}
use proxyreverse.Config.Models.{ListenerConfig}

pub listener_key_eq_iff : (a b : ListenerKey) → (listener_key_eq a b ≡ true) ↔ (a ≡ b)
unfolding listener_key_eq
listener_key_eq_iff a b = ground (arith, text_eq_iff a.addr b.addr, text_eq_iff a.network b.network)

-- No two listeners of a configuration have the same address, port and network.
abbrev pub HasDistinctSockets : Surroundings → Assoc ListenerConfig → Type 0
HasDistinctSockets around [] = Unit
HasDistinctSockets around ((name, config) ∷ more) =
    All (λ l. key_of around config ≢ key_of around l.1) more × HasDistinctSockets around more

module _ (around : Surroundings) where
  -- Listeners whose keys were not seen.
  abbrev pub AreUnseen : ListenPorts → Assoc ListenerConfig → Type 0
  AreUnseen ports listeners =
      All (λ l. find listener_key_eq (key_of around l.1) ports ≡ none) listeners

  AreUnseen-put :
      (config : ListenerConfig) (v : Text) (ports : ListenPorts) (more : Assoc ListenerConfig)
      → All (λ l. key_of around config ≢ key_of around l.1) more
      → AreUnseen ports more
      → AreUnseen (put listener_key_eq (key_of around config) v ports) more
  AreUnseen-put config v ports [] d u = tt
  AreUnseen-put config v ports ((name, c) ∷ more) (d, ds) (u, us) = (
    ground (
      arith,
      find-put listener_key_eq listener_key_eq_iff (key_of around config) (key_of around c) v ports,
      listener_key_eq_iff (key_of around config) (key_of around c),
    ),
    AreUnseen-put config v ports more ds us,
  )

  AreUnseen-of_put :
      (config : ListenerConfig) (v : Text) (ports : ListenPorts) (more : Assoc ListenerConfig)
      → AreUnseen (put listener_key_eq (key_of around config) v ports) more
      → All (λ l. key_of around config ≢ key_of around l.1) more × AreUnseen ports more
  AreUnseen-of_put config v ports [] u = (tt, tt)
  AreUnseen-of_put config v ports ((name, c) ∷ more) (u, us) =
      let (ds, us') = AreUnseen-of_put config v ports more us in
      let put_law =
        find-put listener_key_eq listener_key_eq_iff (key_of around config) (key_of around c) v
          ports in
      let same = listener_key_eq_iff (key_of around config) (key_of around c) in
      ((λ e. ground (arith, put_law, same), ds), (ground (arith, put_law, same), us'))

  collect_listeners_sound :
      (listeners : Assoc ListenerConfig) (ports names : ListenPorts) (r : ListenPorts × ListenPorts)
      → collect_listeners around listeners ports names ≡ ok r
      → HasDistinctSockets around listeners × AreUnseen ports listeners
  unfolding collect_listeners
  collect_listeners_sound [] ports names r e = (tt, tt)
  collect_listeners_sound ((name, config) ∷ more) ports names r e =
      elim (Option-cases (find listener_key_eq (key_of around config) ports)) [
        | inr (t, seen) ↦ absurd (ground (arith, seen))
        | inl unseen ↦
            let (distinct, rest) =
              collect_listeners_sound more
                (put listener_key_eq (key_of around config) config.listener_type ports)
                (put listener_key_eq (key_of around config) name names) r
                (ground (arith, unseen)) in
            let (differ, rest') = AreUnseen-of_put config config.listener_type ports more rest in
            ((differ, distinct), (unseen, rest'))
      ]

  collect_listeners_complete :
      (listeners : Assoc ListenerConfig) (ports names : ListenPorts)
      → HasDistinctSockets around listeners
      → AreUnseen ports listeners
      → (r : ListenPorts × ListenPorts) × (collect_listeners around listeners ports names ≡ ok r)
  unfolding collect_listeners
  collect_listeners_complete [] ports names d u = ((ports, names), refl)
  collect_listeners_complete ((name, config) ∷ more) ports names (differ, d) (unseen, u) =
      let (r, e) =
        collect_listeners_complete more
          (put listener_key_eq (key_of around config) config.listener_type ports)
          (put listener_key_eq (key_of around config) name names) d
          (AreUnseen-put config config.listener_type ports more differ u) in
      (r, ground (arith, unseen, e))

  pub AreUnseen-nil : (listeners : Assoc ListenerConfig) → AreUnseen [] listeners
  unfolding find
  AreUnseen-nil [] = tt
  AreUnseen-nil (l ∷ more) = (refl, AreUnseen-nil more)

  -- The listeners of a configuration are accepted exactly when no two of them have the same
  -- address, port and network, whatever their types. An address that cannot be read counts as the
  -- zero address.
  pub collect_listeners_iff :
      (listeners : Assoc ListenerConfig)
      → ((r : ListenPorts × ListenPorts) × (collect_listeners around listeners [] [] ≡ ok r))
        ↔ HasDistinctSockets around listeners
  collect_listeners_iff listeners = (
    (λ h. (collect_listeners_sound listeners [] [] h.0 h.1).0),
    (λ d. collect_listeners_complete listeners [] [] d (AreUnseen-nil listeners)),
  )
