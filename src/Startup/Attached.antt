-- ===== src/Startup/Attached.antt =====
-- The listeners that the start of pkg/server/server.go makes, and the sites that it attaches.
use proxyreverse.Prelude.{
  ◌≡◌, ◌≢◌, refl, sym, ap, ◌∙◌, subst, false, Option, none, some, [], ◌∷◌, Text, arith, text_eq,
  text_eq_iff, Assoc, lookup, insert, lookup-insert, HasDistinctKeys, find, AreDistinct,
  Option-cases, Bool-cases, inl, inr, All, ok, err, if◌then◌else◌,
}
use proxyreverse.Go.Lo.{Lo}
use proxyreverse.Listener.{HttpEdgeListener, new_listener, add_site}
use proxyreverse.Listener.Attach.{attach}
use proxyreverse.Go.Panic.{nil_dereference}
use proxyreverse.Startup.{
  panics, ListenerKey, SiteKey, SiteMapping, Listeners, ListenPorts, Surroundings, listener_key_eq,
  site_key_eq, started, start_listeners, attach_sites,
}

-- A listener that the start has made is new.
abbrev pub AreNew : {B : Type 0} → Listeners B → Type 0
AreNew {B} listeners =
    (name : Text) (l : HttpEdgeListener B)
    → lookup name listeners ≡ some (some l)
    → l ≡ new_listener

module _ (around : Surroundings) {B : Type 0} where
  started-new :
      (key : ListenerKey) (l : HttpEdgeListener B) → started around key ≡ some l → l ≡ new_listener
  unfolding started
  started-new key l e = ground arith

  insert-AreNew :
      (name : Text) (key : ListenerKey) (listeners : Listeners B)
      → AreNew listeners
      → AreNew (insert name (started around key) listeners)
  insert-AreNew name key listeners h n l e = elim (Bool-cases (text_eq name n)) [
    | inl same ↦
        let e' : started around key ≡ some l =
          ground (arith, same, lookup-insert name n (started around key) listeners) in
        started-new key l e'
    | inr other ↦ h n l (ground (arith, other, lookup-insert name n (started around key) listeners))
  ]

  pub start_listeners-AreNew :
      (ports names : ListenPorts) (listeners listeners' : Listeners B)
      → start_listeners around ports names listeners ≡ ok listeners'
      → AreNew listeners
      → AreNew listeners'
  unfolding start_listeners
  start_listeners-AreNew [] names listeners listeners' e h =
      let same : listeners ≡ listeners' = ground arith in subst AreNew same h
  start_listeners-AreNew ((key, listen_type) ∷ ports) names listeners listeners' e h =
      let name : Text = elim (find listener_key_eq key names) [ none ↦ [] | some n ↦ n ] in
      start_listeners-AreNew ports names (insert name (started around key) listeners) listeners'
        (ground arith) (insert-AreNew name key listeners h)

module _ {B : Type 0} where
  -- The sites of one listener, in the order in which they are attached.
  unfoldable pub sites_of : Text → SiteMapping B → Assoc B
  sites_of name [] = []
  sites_of name ((k, b) ∷ mapping) =
      let rest = sites_of name mapping in
      if text_eq k.listener name then (k.host, b) ∷ rest else rest

  pub lookup-sites_of :
      (host name : Text) (mapping : SiteMapping B)
      → lookup host (sites_of name mapping)
        ≡ find site_key_eq (record { host = host; listener = name }) mapping
  unfolding sites_of lookup find site_key_eq
  lookup-sites_of host name [] = refl
  lookup-sites_of host name ((k, b) ∷ mapping) = ground (
    arith,
    lookup-sites_of host name mapping,
    text_eq_iff k.listener name,
    text_eq_iff k.host host,
  )

  pub sites_of-HasDistinctKeys :
      (name : Text) (mapping : SiteMapping B)
      → AreDistinct site_key_eq mapping
      → HasDistinctKeys (sites_of name mapping)
  unfolding sites_of
  sites_of-HasDistinctKeys name [] d = tt
  sites_of-HasDistinctKeys name ((k, b) ∷ mapping) (free, d) =
      let rest = sites_of-HasDistinctKeys name mapping d in
      elim (Bool-cases (text_eq k.listener name)) [
        | inr other ↦ rw (other) rest
        | inl same ↦
            let at : Text → SiteKey = λ n. record { host = k.host; listener = n } in
            let moved : at name ≡ k = ap at (sym ((text_eq_iff k.listener name).0 same)) in
            rw same (
              lookup-sites_of k.host name mapping
                  ∙ ap (λ q. find site_key_eq q mapping) moved
                  ∙ free,
              rest,
            )
      ]

module _ (lo : Lo) {B : Type 0} where
  pub attach_sites-inv :
      (k : SiteKey) (b : B) (mapping : SiteMapping B) (listeners listeners' : Listeners B)
      → attach_sites lo ((k, b) ∷ mapping) listeners ≡ ok listeners'
      → (l : HttpEdgeListener B) × (lookup k.listener listeners ≡ some (some l))
        × (attach_sites lo mapping (insert k.listener (some (add_site lo k.host b l).0) listeners)
            ≡ ok listeners')
  unfolding attach_sites add_site
  attach_sites-inv k b mapping listeners listeners' e =
      elim (Option-cases (lookup k.listener listeners)) [
        | inl missing ↦ absurd (ground (arith, missing))
        | inr (none, found) ↦ absurd (ground (arith, found))
        | inr (some l, found) ↦ (l, found, ground (arith, found))
      ]

  -- A site that was attached has a listener.
  pub attached_listener :
      (k : SiteKey) (b : B) (mapping : SiteMapping B) (listeners listeners' : Listeners B)
      → attach_sites lo mapping listeners ≡ ok listeners'
      → find site_key_eq k mapping ≡ some b
      → (l : HttpEdgeListener B) × (lookup k.listener listeners ≡ some (some l))
  attached_listener k b [] listeners listeners' e f = absurd (unfold find in cc)
  attached_listener k b ((j, c) ∷ mapping) listeners listeners' e f =
      let (l, found, rest) = attach_sites-inv j c mapping listeners listeners' e in
      let added = insert j.listener (some (add_site lo j.host c l).0) listeners in
      elim (Bool-cases (text_eq j.listener k.listener)) [
        | inl same ↦ (l, rw (← (text_eq_iff j.listener k.listener).0 same) found)
        | inr other ↦
            let later : find site_key_eq k mapping ≡ some b =
              unfold find site_key_eq in ground (arith, other) in
            let (l', found') = attached_listener k b mapping added listeners' rest later in
            (
              l',
              ground (
                arith,
                other,
                lookup-insert j.listener k.listener (some (add_site lo j.host c l).0) listeners,
              ),
            )
      ]

  -- A listener ends up with its sites attached, in their order.
  pub attach_sites-attach :
      (mapping : SiteMapping B) (listeners listeners' : Listeners B) (name : Text)
      (l : HttpEdgeListener B)
      → attach_sites lo mapping listeners ≡ ok listeners'
      → lookup name listeners ≡ some (some l)
      → lookup name listeners' ≡ some (some (attach lo (sites_of name mapping) l))
  unfolding attach_sites attach sites_of
  attach_sites-attach [] listeners listeners' name l e f = ground arith
  attach_sites-attach ((k, b) ∷ mapping) listeners listeners' name l e f =
      let (l0, found, rest) = attach_sites-inv k b mapping listeners listeners' e in
      let l1 = (add_site lo k.host b l0).0 in
      let added = insert k.listener (some l1) listeners in
      let inserted = lookup-insert k.listener name (some l1) listeners in
      elim (Bool-cases (text_eq k.listener name)) [
        | inl same ↦
            let one : l0 ≡ l = ground (arith, text_eq_iff k.listener name) in
            let ih =
              attach_sites-attach mapping added listeners' name l1 rest
                (ground (arith, inserted)) in
            ground (arith, same, one, ih)
        | inr other ↦
            let ih =
              attach_sites-attach mapping added listeners' name l rest (ground (arith, inserted)) in
            ground (arith, other, ih)
      ]

  -- Sites whose listeners are known by name, be they nil.
  abbrev HaveListeners : SiteMapping B → Listeners B → Type 0
  HaveListeners mapping listeners = All (λ s. lookup s.0.listener listeners ≢ none) mapping

  HaveListeners-insert :
      (mapping : SiteMapping B) (listeners : Listeners B) (name : Text)
      (o : Option (HttpEdgeListener B))
      → HaveListeners mapping listeners
      → HaveListeners mapping (insert name o listeners)
  HaveListeners-insert [] listeners name o h = tt
  HaveListeners-insert ((k, b) ∷ mapping) listeners name o (here, h) = (
    (λ e. ground (arith, here, lookup-insert name k.listener o listeners)),
    HaveListeners-insert mapping listeners name o h,
  )

  -- A site at a listener that is nil, because its socket could not be opened, makes the start
  -- panic, if every site's listener is configured.
  pub attach_sites_nil :
      (mapping : SiteMapping B) (listeners : Listeners B) (k : SiteKey) (b : B)
      → HaveListeners mapping listeners
      → find site_key_eq k mapping ≡ some b
      → lookup k.listener listeners ≡ some none
      → attach_sites lo mapping listeners ≡ err (panics nil_dereference)
  unfolding attach_sites add_site
  attach_sites_nil [] listeners k b h f n = absurd (unfold find in cc)
  attach_sites_nil ((j, c) ∷ mapping) listeners k b (here, h) f n =
      elim (Option-cases (lookup j.listener listeners)) [
        | inl missing ↦ absurd (here missing)
        | inr (none, found) ↦ ground (arith, found)
        | inr (some l, found) ↦
            let l1 = (add_site lo j.host c l).0 in
            let differ : text_eq j.listener k.listener ≡ false =
              ground (arith, found, n, text_eq_iff j.listener k.listener) in
            let later : find site_key_eq k mapping ≡ some b =
              unfold find site_key_eq in ground (arith, differ) in
            let still : lookup k.listener (insert j.listener (some l1) listeners) ≡ some none =
              ground (arith, differ, lookup-insert j.listener k.listener (some l1) listeners) in
            let ih =
              attach_sites_nil mapping (insert j.listener (some l1) listeners) k b
                (HaveListeners-insert mapping listeners j.listener (some l1) h) later still in
            ground (arith, found, ih)
      ]
