-- ===== src/Listener/Order.antt =====
-- The order in which the sites are attached: Go visits a map in an order of its own choosing.
use proxyreverse.Prelude.{
  ◌≡◌, refl, sym, ap, ◌∙◌, ◌≢◌, Bool, true, false, none, List, [], ◌∷◌, Text, arith, Assoc, lookup,
  HasDistinctKeys, All, Option-cases, inl, inr, text_eq_iff, fun_ext,
}
use proxyreverse.Go.Lo.{Lo}
use proxyreverse.Listener.{
  HttpEdgeListener, new_listener, components, match_site, add_site, backend_at,
}
use proxyreverse.Listener.Nodes.{backend_at-add_at, backend_at-new}
use proxyreverse.Listener.Walk.{resolve}
use proxyreverse.Listener.Attach.{
  attach, knows, site_at, site_at-components, match_site-attach, components-ne,
}
use proxyreverse.Listener.Known.{knows_of_lookup, lookup_of_knows, components_of_site_at}

-- Two visits of one map.
abbrev pub SameMap {ℓ} : {V : Type ℓ} → Assoc V → Assoc V → Type ℓ
SameMap m m' = (k : Text) → lookup k m ≡ lookup k m'

module _ (lo : Lo) {B : Type 0} where
  knows-imp :
      (sites sites' : Assoc B) (q : List Text)
      → SameMap sites sites'
      → knows lo sites q ≡ true
      → knows lo sites' q ≡ true
  knows-imp sites sites' q same k =
      let (host, b, found, leads) = lookup_of_knows lo sites q k in
      knows_of_lookup lo sites' host b q (sym (same host) ∙ found) leads

  knows_same :
      (sites sites' : Assoc B) (q : List Text)
      → SameMap sites sites'
      → knows lo sites q ≡ knows lo sites' q
  knows_same sites sites' q same =
      ground (arith, knows-imp sites sites' q same, knows-imp sites' sites q (λ k. sym (same k)))

  site_at_host :
      (sites sites' : Assoc B) (host : Text)
      → SameMap sites sites'
      → site_at lo sites (components lo host) ≡ site_at lo sites' (components lo host)
  site_at_host sites sites' host same =
      site_at-components lo sites host ∙ same host ∙ sym (site_at-components lo sites' host)

  site_at_same :
      (sites sites' : Assoc B) (q : List Text)
      → SameMap sites sites'
      → site_at lo sites q ≡ site_at lo sites' q
  site_at_same sites sites' q same = elim (Option-cases (site_at lo sites q)) [
    | inr (b, found) ↦
        let (host, e) = components_of_site_at lo sites q b found in
        rw (← e) (site_at_host sites sites' host same)
    | inl missing ↦ elim (Option-cases (site_at lo sites' q)) [
      | inl missing' ↦ missing ∙ sym missing'
      | inr (b, found) ↦
          let (host, e) = components_of_site_at lo sites' q b found in
          rw (← e) (site_at_host sites sites' host same)
    ]
  ]

  -- Whatever the order in which the sites of a listener are visited, each once, every host
  -- reaches the same backend.
  pub match_site_order :
      (sites sites' : Assoc B) (host : Text)
      → HasDistinctKeys sites
      → HasDistinctKeys sites'
      → SameMap sites sites'
      → match_site lo host (attach lo sites new_listener)
        ≡ match_site lo host (attach lo sites' new_listener)
  match_site_order sites sites' host h h' same =
      let path = λ (k : List Text → Bool). resolve k false [] (components lo host) in
      match_site-attach lo sites host h
      ∙ site_at_same sites sites' (path (knows lo sites)) same
      ∙ ap (λ k. site_at lo sites' (path k)) (fun_ext (λ q. knows_same sites sites' q same))
      ∙ sym (match_site-attach lo sites' host h')

  -- Sites that a listener has no backend for.
  abbrev IsFresh : Assoc B → HttpEdgeListener B → Type 0
  IsFresh sites l = All (λ s. backend_at (components lo s.0) l.backends ≡ none) sites

  abbrev Differ : Text → Assoc B → Type 0
  Differ host sites = All (λ s. host ≢ s.0) sites

  Differ-of_lookup : (host : Text) (sites : Assoc B) → lookup host sites ≡ none → Differ host sites
  unfolding lookup
  Differ-of_lookup host [] h = tt
  Differ-of_lookup host ((k, b) ∷ sites) h =
      ((λ e. ground (arith, text_eq_iff k host)), Differ-of_lookup host sites (ground arith))

  IsFresh-add_site :
      (sites : Assoc B) (host : Text) (b : B) (l : HttpEdgeListener B)
      → Differ host sites
      → IsFresh sites l
      → IsFresh sites (add_site lo host b l).0
  unfolding add_site
  IsFresh-add_site [] host b l d f = tt
  IsFresh-add_site ((k, c) ∷ sites) host b l (d, ds) (f, fs) = (
    ground (
      arith,
      backend_at-add_at (components lo host) (components lo k) b l.backends,
      components-ne lo host k d,
    ),
    IsFresh-add_site sites host b l ds fs,
  )

  warnings-attach :
      (sites : Assoc B) (l : HttpEdgeListener B)
      → HasDistinctKeys sites
      → IsFresh sites l
      → (attach lo sites l).warnings ≡ l.warnings
  unfolding attach add_site
  warnings-attach [] l h f = refl
  warnings-attach ((host, b) ∷ sites) l (d, h) (f, fs) =
      warnings-attach sites (add_site lo host b l).0 h
        (IsFresh-add_site sites host b l (Differ-of_lookup host sites d) fs)
      ∙ (ground (arith, f))

  IsFresh-new_listener : (sites : Assoc B) → IsFresh sites new_listener
  IsFresh-new_listener [] = tt
  IsFresh-new_listener ((host, b) ∷ sites) =
      (backend_at-new (components lo host), IsFresh-new_listener sites)

  -- Attaching sites with distinct hosts to a new listener overrides no backend: `AddSite` warns of
  -- nothing.
  attach_no_warnings :
      (sites : Assoc B)
      → HasDistinctKeys sites
      → (attach lo sites (new_listener {B = B})).warnings ≡ []
  attach_no_warnings sites h = warnings-attach sites new_listener h (IsFresh-new_listener sites)
