-- ===== src/Listener/Attach.antt =====
-- Attaching sites to a listener of pkg/server/listeners.go, and the table of sites that its trie
-- stands for.
use proxyreverse.Prelude.{
  ◌≡◌, refl, sym, ap, ◌∙◌, ◌≢◌, Bool, false, ◌||◌, Option, none, some, List, [], ◌∷◌, ◌++◌, Text,
  arith, Assoc, lookup, HasDistinctKeys, text_eq_iff, if◌then◌else◌,
}
use mathlib.Core.List.{reverse, reverse-reverse}
use proxyreverse.Go.Split.{split, split_injective}
use proxyreverse.Go.Lo.{Lo}
use proxyreverse.Listener.{
  HttpEdgeListener, new_matcher, new_listener, add_site, components, match_site, backend_at,
}
use proxyreverse.Listener.Nodes.{
  path_eq, path_eq_iff, is_prefix, has_node, backend_at-add_at, has_node-add_at, backend_at-new,
  node_at-new,
}
use proxyreverse.Listener.Walk.{resolve, resolve-congr, backend_of-walk}

module _ (lo : Lo) where
  pub components_injective : (s t : Text) → components lo s ≡ components lo t → s ≡ t
  unfolding components
  components_injective s t h =
      let e : reverse (split b'.' s) ≡ reverse (split b'.' t) =
        sym (lo.reverse_law Text (split b'.' s)) ∙ h ∙ lo.reverse_law Text (split b'.' t) in
      split_injective b'.' s t (sym (reverse-reverse _) ∙ ap reverse e ∙ reverse-reverse _)

  pub components-ne : (s t : Text) → s ≢ t → path_eq (components lo s) (components lo t) ≡ false
  components-ne s t h =
      grind (arith, path_eq_iff (components lo s) (components lo t), components_injective s t)

abbrev or_else : {B : Type 0} → Option B → Option B → Option B
or_else none p = p
or_else (some b) p = some b

or_else-none : {B : Type 0} (o : Option B) → or_else o none ≡ o
or_else-none none = refl
or_else-none (some b) = refl

module _ (lo : Lo) {B : Type 0} where
  -- The loop of `Server` that attaches the backends, for the sites of one listener.
  unfoldable pub attach : Assoc B → HttpEdgeListener B → HttpEdgeListener B
  attach [] l = l
  attach ((host, b) ∷ sites) l = attach sites (add_site lo host b l).0

  -- A path leads to a configured site, or towards one.
  unfoldable pub knows : Assoc B → List Text → Bool
  knows [] q = false
  knows ((host, b) ∷ sites) q = is_prefix q (components lo host) || knows sites q

  -- The backend configured for a path.
  unfoldable pub site_at : Assoc B → List Text → Option B
  site_at [] q = none
  site_at ((host, b) ∷ sites) q = if path_eq (components lo host) q then some b else site_at sites q

  pub site_at-components :
      (sites : Assoc B) (host : Text) → site_at sites (components lo host) ≡ lookup host sites
  unfolding site_at lookup
  site_at-components [] host = refl
  site_at-components ((h, b) ∷ sites) host = ground (
    arith,
    site_at-components sites host,
    text_eq_iff h host,
    path_eq_iff (components lo h) (components lo host),
    components_injective lo h host,
  )

  backend_at-attach :
      (sites : Assoc B) (l : HttpEdgeListener B) (q : List Text)
      → HasDistinctKeys sites
      → backend_at q (attach sites l).backends ≡ or_else (site_at sites q) (backend_at q l.backends)
  unfolding attach site_at add_site
  backend_at-attach [] l q h = refl
  backend_at-attach ((host, b) ∷ sites) l q (fresh, h) = ground (
    arith,
    backend_at-attach sites (add_site lo host b l).0 q h,
    backend_at-add_at (components lo host) q b l.backends,
    path_eq_iff (components lo host) q,
    site_at-components sites host,
  )

  has_node-attach :
      (sites : Assoc B) (l : HttpEdgeListener B) (q : List Text)
      → has_node q (attach sites l).backends ≡ (knows sites q || has_node q l.backends)
  unfolding attach knows add_site
  has_node-attach [] l q = ground arith
  has_node-attach ((host, b) ∷ sites) l q = ground (
    arith,
    has_node-attach sites (add_site lo host b l).0 q,
    has_node-add_at (components lo host) q b l.backends,
  )

has_node-new_listener :
    (B : Type 0) (q : List Text) (d : Text) → has_node (q ++ (d ∷ [])) (new_matcher {B = B}) ≡ false
unfolding has_node
has_node-new_listener B [] d = ground (arith, node_at-new {B = B} d [])
has_node-new_listener B (e ∷ q) d = ground (arith, node_at-new {B = B} e (q ++ (d ∷ [])))

module _ (lo : Lo) {B : Type 0} where
  -- A listener with distinct sites answers a host by the backend of the path that the search over
  -- the configured names resolves to.
  pub match_site-attach :
      (sites : Assoc B) (host : Text)
      → HasDistinctKeys sites
      → match_site lo host (attach lo sites new_listener)
        ≡ site_at lo sites (resolve (knows lo sites) false [] (components lo host))
  unfolding match_site
  match_site-attach sites host h =
      let root = (attach lo sites new_listener).backends in
      let same : (q : List Text) (d : Text)
          → has_node (q ++ (d ∷ [])) root ≡ knows lo sites (q ++ (d ∷ [])) =
        λ q d. ground (
          arith,
          has_node-attach lo sites new_listener (q ++ (d ∷ [])),
          has_node-new_listener B q d,
        ) in
      let path = resolve (λ q. has_node q root) false [] (components lo host) in
      backend_of-walk root (components lo host)
      ∙ backend_at-attach lo sites new_listener path h
      ∙ ap (λ (o : Option B). or_else (site_at lo sites path) o) (backend_at-new path)
      ∙ or_else-none (site_at lo sites path)
      ∙ ap (site_at lo sites)
          (resolve-congr (λ q. has_node q root) (knows lo sites) same false [] (components lo host))
