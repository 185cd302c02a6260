-- ===== src/Listener/Nodes.antt =====
-- The nodes of the trie of pkg/server/listeners.go, and what `AddSite` does to each of them.
use proxyreverse.Prelude.{
  ◌≡◌, refl, Bool, true, false, ◌&&◌, ◌||◌, Option, none, some, List, [], ◌∷◌, Text, text_eq,
  text_eq_iff, if◌then◌else◌, arith, ◌↔◌,
}
use proxyreverse.Listener.{
  Matcher, Subtrees, node, empty, entry, new_matcher, find_subtree, put_subtree, subtree_or_new,
  add_at, backend_at,
}

-- Equality of paths of labels.
unfoldable pub path_eq : List Text → List Text → Bool
path_eq [] [] = true
path_eq [] (e ∷ es) = false
path_eq (d ∷ ds) [] = false
path_eq (d ∷ ds) (e ∷ es) = text_eq d e && path_eq ds es

-- The first path is a prefix of the second.
unfoldable pub is_prefix : List Text → List Text → Bool
is_prefix [] es = true
is_prefix (d ∷ ds) [] = false
is_prefix (d ∷ ds) (e ∷ es) = text_eq d e && is_prefix ds es

pub path_eq_iff : (p q : List Text) → (path_eq p q ≡ true) ↔ (p ≡ q)
unfolding path_eq
path_eq_iff [] [] = ground arith
path_eq_iff [] (e ∷ q) = ground arith
path_eq_iff (d ∷ p) [] = ground arith
path_eq_iff (d ∷ p) (e ∷ q) = ground (arith, path_eq_iff p q, text_eq_iff d e)

module _ {B : Type 0} where
  -- The node that a path leads to.
  unfoldable pub node_at : List Text → Matcher B → Option (Matcher B)
  node_at [] m = some m
  node_at (d ∷ ds) (node o subs) = elim (find_subtree d subs) [
    | none ↦ none
    | some m ↦ node_at ds m
  ]

  unfoldable pub has_node : List Text → Matcher B → Bool
  unfolding node_at
  has_node q m = elim (node_at q m) [ none ↦ false | some n ↦ true ]

has_node-new :
    (B : Type 0) (p q : List Text)
    → (is_prefix q p || has_node q (new_matcher {B = B})) ≡ is_prefix q p
unfolding has_node node_at is_prefix find_subtree
has_node-new B p [] = refl
has_node-new B [] (e ∷ q) = refl
has_node-new B (d ∷ p) (e ∷ q) = ground arith

module _ {B : Type 0} where
  pub find_subtree-put_subtree :
      (d e : Text) (m : Matcher B) (subs : Subtrees B)
      → find_subtree e (put_subtree d m subs)
        ≡ (if text_eq d e then some m else find_subtree e subs)
  unfolding find_subtree put_subtree
  find_subtree-put_subtree d e m empty = refl
  find_subtree-put_subtree d e m (entry k n rest) = ground (
    arith,
    text_eq_iff d e,
    text_eq_iff k d,
    text_eq_iff k e,
    find_subtree-put_subtree d e m rest,
  )

  pub backend_at-new : (q : List Text) → backend_at q (new_matcher {B = B}) ≡ none
  unfolding backend_at find_subtree
  backend_at-new [] = refl
  backend_at-new (e ∷ q) = refl

  pub node_at-new : (d : Text) (q : List Text) → node_at (d ∷ q) (new_matcher {B = B}) ≡ none
  unfolding node_at find_subtree
  node_at-new d q = refl

  -- An assignment to a path changes the backend of that path alone.
  pub backend_at-add_at :
      (p q : List Text) (b : B) (m : Matcher B)
      → backend_at q (add_at p b m) ≡ (if path_eq p q then some b else backend_at q m)
  unfolding backend_at add_at path_eq
  backend_at-add_at [] [] b (node o subs) = refl
  backend_at-add_at [] (e ∷ q) b (node o subs) = refl
  backend_at-add_at (d ∷ p) [] b (node o subs) = refl
  backend_at-add_at (d ∷ p) (e ∷ q) b (node o subs) =
      let m = subtree_or_new (find_subtree d subs) in
      ground (
        arith,
        find_subtree-put_subtree d e (add_at p b m) subs,
        text_eq_iff d e,
        backend_at-add_at p q b m,
        backend_at-new q,
      )

  -- It creates the nodes on the way, and no other.
  pub has_node-add_at :
      (p q : List Text) (b : B) (m : Matcher B)
      → has_node q (add_at p b m) ≡ (is_prefix q p || has_node q m)
  unfolding has_node node_at add_at is_prefix
  has_node-add_at [] [] b (node o subs) = refl
  has_node-add_at [] (e ∷ q) b (node o subs) = refl
  has_node-add_at (d ∷ p) [] b (node o subs) = refl
  has_node-add_at (d ∷ p) (e ∷ q) b (node o subs) =
      let m = subtree_or_new (find_subtree d subs) in
      ground (
        arith,
        find_subtree-put_subtree d e (add_at p b m) subs,
        text_eq_iff d e,
        text_eq_iff e d,
        has_node-add_at p q b m,
        has_node-new B p q,
      )
