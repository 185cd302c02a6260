-- ===== src/Target/PathIndex.antt =====
-- `PathIndexSelector` of pkg/server/target_selectors.go: the target from an element of the path.
use proxyreverse.Prelude.{
  ℕ, zero, suc, ◌+◌, ◌<◌, ◌≡◌, refl, ap, ◌∙◌, ◌≢◌, ◌↔◌, [], ◌∷◌, ◌++◌, List, Text, arith, ok, err,
  All, All-imp, some, length, length-append, get_elem?, ℤ, pos, negsuc, ltb, ◌==◌, if◌then◌else◌,
  Bool-cases, inl, inr,
}
use proxyreverse.Go.Split.{split, join, split-join, Lacks}
use proxyreverse.Go.HostPort.{split_host_port, IsPlain, too_many_colons}
use proxyreverse.Go.Decimal.{parse_uint16}
use proxyreverse.Go.Panic.{index_out_of_range}
use proxyreverse.Go.Paths.{path_join, path_join-IsPart, IsPart}
use proxyreverse.Http.{Request, HttpBackend}
use proxyreverse.Target.{path_index_target, delete_at, with_port, split_or_empty, max_int}
use proxyreverse.Target.Hosts.{with_port-doubled}

get_elem?-middle :
    (pre post : List Text) (w : Text) → get_elem? (pre ++ (w ∷ post)) (length pre) ≡ some w
get_elem?-middle [] post w = refl
get_elem?-middle (v ∷ pre) post w = get_elem?-middle pre post w

delete_at-middle :
    (pre post : List Text) (w : Text) → delete_at (length pre) (pre ++ (w ∷ post)) ≡ pre ++ post
unfolding delete_at
delete_at-middle [] post w = refl
delete_at-middle (v ∷ pre) post w = rw (delete_at-middle pre post w)

split-middle :
    (pre post : List Text) (w : Text)
    → All (Lacks b'/') (pre ++ (w ∷ post))
    → split b'/' (join b'/' (pre ++ (w ∷ post))) ≡ pre ++ (w ∷ post)
split-middle [] post w h = split-join b'/' w post h
split-middle (v ∷ pre) post w h = split-join b'/' v (pre ++ (w ∷ post)) h

get_elem?-lt :
    (parts : List Text) (n : ℕ) → n < length parts → (w : Text) × (get_elem? parts n ≡ some w)
get_elem?-lt [] n h = elim h [ ]
get_elem?-lt (v ∷ parts) zero h = (v, refl)
get_elem?-lt (v ∷ parts) (suc n) h = get_elem?-lt parts n (omega arith)

abbrev pub IsNegative : ℤ → Type 0
IsNegative (pos n) = ⊥
IsNegative (negsuc n) = Unit

module _ {D : Type 0} (backend : HttpBackend D) (request : Request) where
  -- With the element `part` of the path at the index, the target is `part` and a port: the
  -- backend's, or for a backend without one that of `part`, 0 if it has none. The path loses the
  -- element.
  pub path_index_target-middle :
      (pre post : List Text) (part : Text)
      → All (Lacks b'/') (pre ++ (part ∷ post))
      → request.url.path ≡ join b'/' (pre ++ (part ∷ post))
      → length pre < max_int
      → path_index_target backend request (pos (length pre))
        ≡ ok (
          with_port part (
              if backend.port == 0 then (parse_uint16 (split_or_empty part).1).0 else backend.port),
          record request { url = record request.url { path = path_join (pre ++ post) } },
        )
  unfolding path_index_target
  path_index_target-middle pre post part h e small =
      let parts : split b'/' request.url.path ≡ pre ++ (part ∷ post) =
        ap (split b'/') e ∙ split-middle pre post part h in
      ground (
        arith,
        parts,
        get_elem?-middle pre post part,
        delete_at-middle pre post part,
        length-append pre (part ∷ post),
      )

  -- The first element under the root, as the selector with index 1 takes it, if there are elements
  -- after it and none of these is empty, `.` or `..`: the target is the element and a port, the
  -- backend's or else its own, and what is left of the path is the elements after it, with no `/`
  -- in front.
  path_index_target-first :
      (part w : Text) (ws : List Text)
      → Lacks b'/' part
      → All IsPart (w ∷ ws)
      → request.url.path ≡ b'/' ∷ join b'/' (part ∷ w ∷ ws)
      → path_index_target backend request (pos 1)
        ≡ ok (
          with_port part (
              if backend.port == 0 then (parse_uint16 (split_or_empty part).1).0 else backend.port),
          record request { url = record request.url { path = join b'/' (w ∷ ws) } },
        )
  path_index_target-first part w ws h safe e =
      path_index_target-middle ([] ∷ []) (w ∷ ws) part
        (tt, (h, All-imp IsPart (Lacks b'/') (λ v k. k.3) (w ∷ ws) safe))
        (e ∙ (unfold join in refl)) (omega arith)
      ∙ rw ((path_join-IsPart w ws safe).1)

  -- With an element `host:port` of the path at the index, both without further colons and brackets,
  -- the target has two ports and is no address.
  path_index_target-doubled :
      (pre post : List Text) (host port target : Text) (r : Request)
      → All (Lacks b'/') (pre ++ ((host ++ (b':' ∷ port)) ∷ post))
      → request.url.path ≡ join b'/' (pre ++ ((host ++ (b':' ∷ port)) ∷ post))
      → length pre < max_int
      → IsPlain host
      → IsPlain port
      → path_index_target backend request (pos (length pre)) ≡ ok (target, r)
      → split_host_port target ≡ err too_many_colons
  path_index_target-doubled pre post host port target r h e small ih ip done =
      let part = host ++ (b':' ∷ port) in
      let n =
        (if backend.port == 0 then (parse_uint16 (split_or_empty part).1).0 else backend.port) in
      let same : target ≡ with_port part n =
        cc (path_index_target-middle pre post part h e small) in
      ap split_host_port same ∙ with_port-doubled host port n ih ip

  path_index_target_pos :
      (n : ℕ) → n ≢ max_int → path_index_target backend request (pos n) ≢ err index_out_of_range
  unfolding path_index_target
  path_index_target_pos n h =
      elim (Bool-cases (ltb (length (split b'/' request.url.path)) (n + 1))) [
        | inl short ↦ ground (arith, short)
        | inr long ↦
            let (w, found) = get_elem?-lt (split b'/' request.url.path) n (ground arith) in
            ground (arith, long, found)
      ]

  -- A selector with an index below the largest integer panics exactly when the index is negative,
  -- on every request.
  pub path_index_target-panics :
      (index : ℤ)
      → index ≢ pos max_int
      → (path_index_target backend request index ≡ err index_out_of_range) ↔ IsNegative index
  path_index_target-panics (negsuc n) h = (λ e. tt, λ k. unfold path_index_target in refl)
  path_index_target-panics (pos n) h =
      (λ e. path_index_target_pos n (λ m. h (ap pos m)) e, λ k. elim k [ ])
