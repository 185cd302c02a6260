-- ===== src/Listener/Known.antt =====
-- Known paths: every configured path and every prefix of one, and how a search follows them.
use proxyreverse.Prelude.{
  ◌≡◌, refl, Bool-cases, inl, inr, sym, ap, ◌∙◌, ◌≢◌, Bool, true, false, none, some, List, [], ◌∷◌,
  ◌++◌, Text, arith, Assoc, lookup, text_eq_iff, text_eq_refl, text_eq,
}
use mathlib.Core.List.{append-nil, append_assoc, reverse-append, reverse, reverse-reverse}
use proxyreverse.Go.Split.{split, split-append, split-ne-nil}
use proxyreverse.Go.Lo.{Lo}
use proxyreverse.Listener.{components, wildcard_match}
use proxyreverse.Listener.Nodes.{path_eq, is_prefix, path_eq_iff}
use proxyreverse.Listener.Walk.{resolve}
use proxyreverse.Listener.Attach.{knows, site_at}

pub is_prefix_refl : (p : List Text) → is_prefix p p ≡ true
unfolding is_prefix
is_prefix_refl [] = refl
is_prefix_refl (d ∷ p) = ground (arith, text_eq_refl d, is_prefix_refl p)

is_prefix-append : (p q r : List Text) → is_prefix (p ++ q) r ≡ true → is_prefix p r ≡ true
unfolding is_prefix
is_prefix-append [] q r h = refl
is_prefix-append (d ∷ p) q [] h = h
is_prefix-append (d ∷ p) q (e ∷ r) h = ground (arith, is_prefix-append p q r)

module _ (k : List Text → Bool) where
  -- A search along a path whose prefixes are all known follows it to its end.
  pub resolve_known :
      ((p q : List Text) → k (p ++ q) ≡ true → k p ≡ true)
      → (here ds rest : List Text) → k (here ++ ds) ≡ true
      → resolve k false here (ds ++ rest) ≡ resolve k false (here ++ ds) rest
  unfolding resolve
  resolve_known closed here [] rest h = rw append-nil
  resolve_known closed here (d ∷ ds) rest h =
      let longer : k ((here ++ (d ∷ [])) ++ ds) ≡ true = rw append_assoc h in
      let first : k (here ++ (d ∷ [])) ≡ true = closed (here ++ (d ∷ [])) ds longer in
      let ih : resolve k false (here ++ (d ∷ [])) (ds ++ rest)
          ≡ resolve k false (here ++ (d ∷ ds)) rest =
        resolve_known closed (here ++ (d ∷ [])) ds rest longer ∙ rw append_assoc in
      ground (arith, first, ih)

  pub resolve_end : (was : Bool) (here : List Text) → resolve k was here [] ≡ here
  unfolding resolve
  resolve_end was here = refl

  -- At the root, with neither the label nor the wildcard known, a search stops.
  pub resolve_unknown :
      (here ds : List Text) (d : Text)
      → k (here ++ (d ∷ [])) ≡ false
      → k (here ++ (wildcard_match ∷ [])) ≡ false
      → resolve k false here (d ∷ ds) ≡ here
  unfolding resolve
  resolve_unknown here ds d h star = ground (arith, h, star)

  -- Below a path with nothing known under it, a search that came by a wildcard skips the labels,
  -- and one that did not stops.
  pub resolve_leaf :
      (was : Bool) (here ds : List Text)
      → ((d : Text) → k (here ++ (d ∷ [])) ≡ false)
      → resolve k was here ds ≡ here
  unfolding resolve
  resolve_leaf was here [] h = refl
  resolve_leaf was here (d ∷ ds) h =
      ground (arith, h d, h wildcard_match, resolve_leaf true here ds h)

  -- A label that is not known is taken by the wildcard.
  pub resolve_wildcard :
      (was : Bool) (here ds : List Text) (d : Text)
      → k (here ++ (d ∷ [])) ≡ false
      → k (here ++ (wildcard_match ∷ [])) ≡ true
      → resolve k was here (d ∷ ds) ≡ resolve k true (here ++ (wildcard_match ∷ [])) ds
  unfolding resolve
  resolve_wildcard was here ds d h star = ground (arith, h, star)

module _ (lo : Lo) {B : Type 0} where
  pub knows_prefix :
      (sites : Assoc B) (p q : List Text) → knows lo sites (p ++ q) ≡ true → knows lo sites p ≡ true
  unfolding knows
  knows_prefix [] p q h = h
  knows_prefix ((host, b) ∷ sites) p q h =
      ground (arith, knows_prefix sites p q, is_prefix-append p q (components lo host))

  -- A configured host's path is known.
  pub knows_of_lookup :
      (sites : Assoc B) (host : Text) (b : B) (q : List Text)
      → lookup host sites ≡ some b
      → is_prefix q (components lo host) ≡ true
      → knows lo sites q ≡ true
  unfolding knows lookup
  knows_of_lookup [] host b q e h = cc
  knows_of_lookup ((host', b') ∷ sites) host b q e h =
      ground (arith, knows_of_lookup sites host b q, text_eq_iff host' host)

  -- A known path leads to a configured host.
  pub lookup_of_knows :
      (sites : Assoc B) (q : List Text)
      → knows lo sites q ≡ true
      → (host : Text) × (b : B) × (lookup host sites ≡ some b)
        × (is_prefix q (components lo host) ≡ true)
  unfolding knows lookup
  lookup_of_knows [] q h = cc
  lookup_of_knows ((host, b) ∷ sites) q h = elim (Bool-cases (is_prefix q (components lo host))) [
    | inl here ↦ (host, b, ground (arith, text_eq_refl host), here)
    | inr away ↦
        let (host', b', found, leads) = lookup_of_knows sites q (ground arith) in
        elim (Bool-cases (text_eq host host')) [
          | inl same ↦ (host', b, ground arith, leads)
          | inr other ↦ (host', b', ground arith, leads)
        ]
  ]

  -- A path with a backend is the path of a host.
  pub components_of_site_at :
      (sites : Assoc B) (q : List Text) (b : B)
      → site_at lo sites q ≡ some b
      → (host : Text) × (components lo host ≡ q)
  unfolding site_at
  components_of_site_at [] q c e = cc
  components_of_site_at ((host, b) ∷ sites) q c e =
      elim (Bool-cases (path_eq (components lo host) q)) [
        | inl same ↦ (host, (path_eq_iff _ _).0 same)
        | inr other ↦ components_of_site_at sites q c (ground arith)
      ]

-- The path of a host under another one is longer by the labels in front.
pub components-append :
    (lo : Lo) (s host : Text)
    → components lo (s ++ (b'.' ∷ host)) ≡ components lo host ++ components lo s
unfolding components
components-append lo s host = simp (lo.reverse_law, split-append, reverse-append)

components-ne-nil : (lo : Lo) (host : Text) → components lo host ≢ []
unfolding components
components-ne-nil lo host e =
    let r : reverse (split b'.' host) ≡ [] = sym (lo.reverse_law Text (split b'.' host)) ∙ e in
    split-ne-nil b'.' host (sym (reverse-reverse _) ∙ ap reverse r)

-- No site stands at the root: a host has at least one label.
pub site_at-root : (lo : Lo) {B : Type 0} (sites : Assoc B) → site_at lo sites [] ≡ none
unfolding site_at
site_at-root lo [] = refl
site_at-root lo ((host, b) ∷ sites) =
    ground
      (arith, site_at-root lo sites, path_eq_iff (components lo host) [], components-ne-nil lo host)

-- `*.` before a host.
pub components-wildcard :
    (lo : Lo) (host : Text)
    → components lo (wildcard_match ++ (b'.' ∷ host)) ≡ components lo host ++ (wildcard_match ∷ [])
components-wildcard lo host =
    components-append lo wildcard_match host
    ∙ ap (λ (p : List Text). components lo host ++ p) (star lo)
  where
    star : (lo : Lo) → components lo wildcard_match ≡ wildcard_match ∷ []
    star lo = unfold components split in (lo.reverse_law Text (wildcard_match ∷ []) ∙ refl)
