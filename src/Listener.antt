-- ===== src/Listener.antt =====
-- pkg/server/listeners.go: the trie of site names, its lookup, and the request handler.
pub mod Nodes
pub mod Walk
pub mod Attach
pub mod Known
pub mod Order
pub mod Routing
use proxyreverse.Prelude.{
  ℕ, ◌≡◌, Bool, true, false, Option, none, some, List, [], ◌∷◌, ◌++◌, Text, codes, text_eq,
  if◌then◌else◌, value_or, Result, ok, err,
}
use proxyreverse.Go.Split.{split}
use proxyreverse.Go.HostPort.{split_host_port}
use proxyreverse.Go.Lo.{Lo}

-- `wildcardMatch`
abbrev pub wildcard_match : Text
wildcard_match = codes "*"

-- `matcher`. A node is reached from its parent alone, so the pointers are a tree; no `backend` is
-- Go's nil.
mutual
  pub data Matcher (B : Type 0) : Type 0 where
    node : Option B → Subtrees B → Matcher B

  pub data Subtrees (B : Type 0) : Type 0 where
    empty : Subtrees B
    entry : Text → Matcher B → Subtrees B → Subtrees B

-- `HTTPEdgeListener` without its logger and server; `warnings` are the hosts of its warnings.
pub record HttpEdgeListener (B : Type 0) : Type 0 where
  pub backends : Matcher B
  pub warnings : List Text

-- What the handler does: answer by itself, the request's body closed or not, or pass the request
-- on to a backend.
pub data Answer (B : Type 0) : Type 0 where
  status : ℕ → (closes_body : Bool) → Answer B
  serve : B → Answer B

module _ {B : Type 0} where
  abbrev pub new_matcher : Matcher B
  new_matcher = node none empty

  abbrev pub new_listener : HttpEdgeListener B
  new_listener = record { backends = new_matcher; warnings = [] }

  -- `subtrees[domain]`
  pub find_subtree : Text → Subtrees B → Option (Matcher B)
  find_subtree d empty = none
  find_subtree d (entry k m rest) = if text_eq k d then some m else find_subtree d rest

  -- `subtrees[domain] = m`
  pub put_subtree : Text → Matcher B → Subtrees B → Subtrees B
  put_subtree d m empty = entry d m empty
  put_subtree d m (entry k n rest) =
      if text_eq k d then entry k m rest else entry k n (put_subtree d m rest)

  -- the node of a domain, created if it is missing
  abbrev pub subtree_or_new : Option (Matcher B) → Matcher B
  subtree_or_new none = new_matcher
  subtree_or_new (some m) = m

  -- the loop of `AddSite` and the assignment after it
  pub add_at : List Text → B → Matcher B → Matcher B
  unfolding put_subtree find_subtree
  add_at [] b (node o subs) = node (some b) subs
  add_at (d ∷ ds) b (node o subs) =
      node o (put_subtree d (add_at ds b (subtree_or_new (find_subtree d subs))) subs)

  -- the backend of the node that the loop of `AddSite` ends at, before the assignment
  pub backend_at : List Text → Matcher B → Option B
  unfolding find_subtree
  backend_at [] (node o subs) = o
  backend_at (d ∷ ds) (node o subs) = elim (find_subtree d subs) [
    | none ↦ none
    | some m ↦ backend_at ds m
  ]

  abbrev pub warn_if_set : Option B → Text → List Text → List Text
  warn_if_set none host warnings = warnings
  warn_if_set (some b) host warnings = warnings ++ (host ∷ [])

  abbrev pub backend_of : Matcher B → Option B
  backend_of (node o subs) = o

  abbrev pub subtrees_of : Matcher B → Subtrees B
  subtrees_of (node o subs) = subs

  -- the loop of `matchSite`; the flag is `wasWildCard`
  pub walk : Bool → Matcher B → List Text → Matcher B
  unfolding find_subtree
  walk was m [] = m
  walk was m (d ∷ ds) = elim (find_subtree d (subtrees_of m)) [
    | some next ↦ walk false next ds
    | none ↦ elim (find_subtree wildcard_match (subtrees_of m)) [
      | some next ↦ walk true next ds
      | none ↦ elim was [ true ↦ walk true m ds | false ↦ m ]
    ]
  ]

-- the labels of a host, the last one first
unfoldable pub components : Lo → Text → List Text
components lo host = lo.reverse_of Text (split b'.' host)

module _ (lo : Lo) {B : Type 0} where
  -- `AddSite`; the error is always nil
  unfoldable pub add_site : Text → B → HttpEdgeListener B → HttpEdgeListener B × Option Text
  unfolding add_at backend_at
  add_site host b l = (
    record {
      backends = add_at (components lo host) b l.backends;
      warnings = warn_if_set (backend_at (components lo host) l.backends) host l.warnings;
    },
    none,
  )

  unfoldable pub match_site : Text → HttpEdgeListener B → Option B
  unfolding walk
  match_site host l = backend_of (walk false l.backends (components lo host))

  -- `handler`, on the `Host` of the request
  unfoldable pub handler : Text → HttpEdgeListener B → Answer B
  handler request_host l =
      let hostname : Text = elim (split_host_port request_host) [
        | ok (h, p) ↦ h
        | err e ↦ request_host
      ] in
      elim (match_site hostname l) [ none ↦ status 502 true | some b ↦ serve b ]
