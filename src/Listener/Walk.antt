-- ===== src/Listener/Walk.antt =====
-- The lookup of pkg/server/listeners.go against a search over paths of labels, with no trie.
use proxyreverse.Prelude.{
  ◌≡◌, refl, ap, ◌∙◌, Bool, true, false, Option, none, some, List, [], ◌∷◌, ◌++◌, Text, arith,
  Option-cases, inl, inr,
}
use proxyreverse.Listener.{
  Matcher, node, find_subtree, wildcard_match, backend_at, backend_of, subtrees_of, walk,
}
use proxyreverse.Listener.Nodes.{node_at, has_node}

-- From the path `here`, go to the next label if that path is known, else to the wildcard if that
-- is known, else skip the label if the last step was a wildcard, else stop.
unfoldable pub resolve : (List Text → Bool) → Bool → List Text → List Text → List Text
resolve knows was here [] = here
resolve knows was here (d ∷ ds) = elim (knows (here ++ (d ∷ []))) [
  | true ↦ resolve knows false (here ++ (d ∷ [])) ds
  | false ↦ elim (knows (here ++ (wildcard_match ∷ []))) [
    | true ↦ resolve knows true (here ++ (wildcard_match ∷ [])) ds
    | false ↦ elim was [ true ↦ resolve knows true here ds | false ↦ here ]
  ]
]

-- Only paths with a last label are asked for.
pub resolve-congr :
    (k k' : List Text → Bool)
    → ((q : List Text) (d : Text) → k (q ++ (d ∷ [])) ≡ k' (q ++ (d ∷ [])))
    → (was : Bool) (here ds : List Text) → resolve k was here ds ≡ resolve k' was here ds
unfolding resolve
resolve-congr k k' h was here [] = refl
resolve-congr k k' h was here (d ∷ ds) = ground (
  arith,
  h here d,
  h here wildcard_match,
  resolve-congr k k' h false (here ++ (d ∷ [])) ds,
  resolve-congr k k' h true (here ++ (wildcard_match ∷ [])) ds,
  resolve-congr k k' h true here ds,
)

module _ {B : Type 0} where
  abbrev next_node : Text → Option (Matcher B) → Option (Matcher B)
  next_node d none = none
  next_node d (some m) = find_subtree d (subtrees_of m)

  node_at-snoc :
      (p : List Text) (d : Text) (m : Matcher B)
      → node_at (p ++ (d ∷ [])) m ≡ next_node d (node_at p m)
  unfolding node_at
  node_at-snoc [] d (node o subs) = ground arith
  node_at-snoc (e ∷ p) d (node o subs) = elim (Option-cases (find_subtree e subs)) [
    | inl missing ↦ ground (arith, missing)
    | inr (m, found) ↦ ground (arith, found, node_at-snoc p d m)
  ]

  backend_at-eq :
      (p : List Text) (m : Matcher B)
      → backend_at p m ≡ elim (node_at p m) [ none ↦ none | some n ↦ backend_of n ]
  unfolding node_at backend_at
  backend_at-eq [] (node o subs) = refl
  backend_at-eq (e ∷ p) (node o subs) = elim (Option-cases (find_subtree e subs)) [
    | inl missing ↦ ground (arith, missing)
    | inr (m, found) ↦ ground (arith, found, backend_at-eq p m)
  ]

  module _ (root : Matcher B) where
    abbrev is_node : List Text → Bool
    is_node q = has_node q root

    -- The walk ends at the node of the resolved path.
    node_at-resolve :
        (was : Bool) (here ds : List Text) (m : Matcher B)
        → node_at here root ≡ some m
        → node_at (resolve is_node was here ds) root ≡ some (walk was m ds)
    unfolding resolve walk has_node
    node_at-resolve was here [] m at = at
    node_at-resolve was here (d ∷ ds) m at =
        let to : node_at (here ++ (d ∷ [])) root ≡ find_subtree d (subtrees_of m) =
          node_at-snoc here d root ∙ ap (next_node d) at in
        let star : node_at (here ++ (wildcard_match ∷ [])) root
            ≡ find_subtree wildcard_match (subtrees_of m) =
          node_at-snoc here wildcard_match root ∙ ap (next_node wildcard_match) at in
        elim (Option-cases (find_subtree d (subtrees_of m))) [
          | inr (n, found) ↦
              ground (arith, to, found, node_at-resolve false (here ++ (d ∷ [])) ds n (to ∙ found))
          | inl missing ↦ elim (Option-cases (find_subtree wildcard_match (subtrees_of m))) [
            | inr (n, found) ↦
                let rest =
                  node_at-resolve true (here ++ (wildcard_match ∷ [])) ds n (star ∙ found) in
                ground (arith, to, missing, star, found, rest)
            | inl no_star ↦
                let rest = node_at-resolve true here ds m at in
                elim was
                  as (λ (w : Bool).
                    node_at (resolve is_node w here (d ∷ ds)) root ≡ some (walk w m (d ∷ ds))) [
                      | true ↦ ground (arith, to, missing, star, no_star, rest)
                      | false ↦ ground (arith, to, missing, star, no_star, at)
                    ]
          ]
        ]

    -- The backend that the walk finds is that of the resolved path.
    pub backend_of-walk :
        (ds : List Text)
        → backend_of (walk false root ds)
          ≡ backend_at (resolve (λ q. has_node q root) false [] ds) root
    backend_of-walk ds =
        rw (backend_at-eq _ root, node_at-resolve false [] ds root (unfold node_at in refl))
