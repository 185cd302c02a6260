-- ===== src/Startup/Keys.antt =====
-- The keys of a configuration's listeners: pkg/server/server.go.
use proxyreverse.Prelude.{
  ◌≡◌, ◌≢◌, refl, All, none, some, [], ◌∷◌, Text, arith, text_eq, text_eq_iff, find, AreDistinct,
  Assoc, lookup, Bool-cases, inl, inr,
}
use proxyreverse.Config.Models.{ListenerConfig}
use proxyreverse.Startup.{ListenerKey, ListenPorts, Surroundings, listener_key_eq, key_of}
use proxyreverse.Startup.Collect.{HasDistinctSockets, listener_key_eq_iff}

module _ (around : Surroundings) where
  -- The keys of the listeners, each with a text of the listener: its type, or its name.
  abbrev pub keyed : (Text × ListenerConfig → Text) → Assoc ListenerConfig → ListenPorts
  keyed f [] = []
  keyed f (l ∷ more) = (key_of around l.1, f l) ∷ keyed f more

  abbrev pub ports_of : Assoc ListenerConfig → ListenPorts
  ports_of = keyed (λ l. l.1.listener_type)

  abbrev pub names_of : Assoc ListenerConfig → ListenPorts
  names_of = keyed (λ l. l.0)

  -- The key of each listener has its text.
  abbrev pub AreKeyed : (Text × ListenerConfig → Text) → ListenPorts → Assoc ListenerConfig → Type 0
  AreKeyed f ports listeners =
      All (λ l. find listener_key_eq (key_of around l.1) ports ≡ some (f l)) listeners

  AreKeyed-cons :
      (f : Text × ListenerConfig → Text) (k : ListenerKey) (v : Text) (ports : ListenPorts)
      (more : Assoc ListenerConfig)
      → All (λ l. k ≢ key_of around l.1) more
      → AreKeyed f ports more
      → AreKeyed f ((k, v) ∷ ports) more
  unfolding find
  AreKeyed-cons f k v ports [] d h = tt
  AreKeyed-cons f k v ports (l ∷ more) (d, ds) (h, hs) = (
    ground (arith, listener_key_eq_iff k (key_of around l.1)),
    AreKeyed-cons f k v ports more ds hs,
  )

  pub keyed-AreKeyed :
      (f : Text × ListenerConfig → Text) (listeners : Assoc ListenerConfig)
      → HasDistinctSockets around listeners
      → AreKeyed f (keyed f listeners) listeners
  unfolding find
  keyed-AreKeyed f [] d = tt
  keyed-AreKeyed f (l ∷ more) (differ, d) =
      let k = key_of around l.1 in
      (
        ground (arith, listener_key_eq_iff k k),
        AreKeyed-cons f k (f l) (keyed f more) more differ (keyed-AreKeyed f more d),
      )

  keyed-free :
      (f : Text × ListenerConfig → Text) (k : ListenerKey) (more : Assoc ListenerConfig)
      → All (λ l. k ≢ key_of around l.1) more
      → find listener_key_eq k (keyed f more) ≡ none
  unfolding find
  keyed-free f k [] d = refl
  keyed-free f k (l ∷ more) (d, ds) =
      ground (arith, listener_key_eq_iff (key_of around l.1) k, keyed-free f k more ds)

  pub keyed-AreDistinct :
      (f : Text × ListenerConfig → Text) (listeners : Assoc ListenerConfig)
      → HasDistinctSockets around listeners
      → AreDistinct listener_key_eq (keyed f listeners)
  keyed-AreDistinct f [] d = tt
  keyed-AreDistinct f (l ∷ more) (differ, d) =
      (keyed-free f (key_of around l.1) more differ, keyed-AreDistinct f more d)

  pub of_name :
      (ports names : ListenPorts) (more : Assoc ListenerConfig) (name : Text)
      → AreKeyed (λ l. l.1.listener_type) ports more
      → AreKeyed (λ l. l.0) names more
      → lookup name more ≢ none
      → (key : ListenerKey) × (t : Text) × (find listener_key_eq key ports ≡ some t)
        × (find listener_key_eq key names ≡ some name)
  unfolding lookup
  of_name ports names [] name p n d = absurd (d refl)
  of_name ports names ((m, config) ∷ more) name (p, ps) (n, ns) d =
      elim (Bool-cases (text_eq m name)) [
        | inl same ↦ (
          key_of around config,
          config.listener_type,
          p,
          ground (arith, n, same, text_eq_iff m name),
        )
        | inr other ↦ of_name ports names more name ps ns (λ e. d (ground (arith, other, e)))
      ]
