-- ===== src/Go/HostPort.antt =====
-- `net.SplitHostPort`.
use proxyreverse.Prelude.{
  ℕ, ◌≡◌, sym, true, refl, Bool, false, ◌||◌, Option, none, some, [], ◌∷◌, ◌++◌, arith, Text, ◌==◌,
  if◌then◌else◌, Result, ok, err,
}
use mathlib.Core.List.{append_assoc}
use proxyreverse.Go.Split.{cut-append, cut, Lacks}

-- The reasons of `net.AddrError`.
pub data AddrError : Type 0 where
  missing_port too_many_colons missing_bracket unexpected_open unexpected_close : AddrError

unfoldable pub has : ℕ → Text → Bool
has b [] = false
has b (c ∷ s) = c == b || has b s

-- The text before the last separator and the text after it.
cut_last : ℕ → Text → Option (Text × Text)
cut_last sep [] = none
cut_last sep (c ∷ s) =
    let rest = cut_last sep s in
    elim rest [ some (u, v) ↦ some (c ∷ u, v) | none ↦ if c == sep then some ([], s) else none ]

-- The host and the port, once no other error is left: no stray bracket in either.
brackets : Text → Text → Result AddrError (Text × Text)
brackets host port =
    if has b'[' host || has b'[' port
    then err unexpected_open
    else if (has b']' host || has b']' port)
    then err unexpected_close
    else ok (host, port)

-- After `[`: the host up to the first `]`, then a colon and no other colon.
after_bracket : Text → Text → Result AddrError (Text × Text)
after_bracket host [] = err missing_port
after_bracket host (c ∷ port) =
    if c == b':'
    then (if has b':' port then err too_many_colons else brackets host port)
    else err missing_port

from_last_colon : Text → Text → Text → Result AddrError (Text × Text)
from_last_colon s host port = if has b':' host then err too_many_colons else brackets host port

dispatch : Text → Text → Text → Result AddrError (Text × Text)
dispatch [] host port = err missing_port
dispatch (c ∷ s) host port =
    if c == b'['
    then elim (cut b']' s) [ none ↦ err missing_bracket | some (h, rest) ↦ after_bracket h rest ]
    else from_last_colon (c ∷ s) host port

unfoldable pub split_host_port : Text → Result AddrError (Text × Text)
unfolding has cut_last brackets after_bracket from_last_colon dispatch cut
split_host_port s = elim (cut_last b':' s) [
  | none ↦ err missing_port
  | some (host, port) ↦ dispatch s host port
]

pub has_of_Lacks : (b : ℕ) (s : Text) → Lacks b s → has b s ≡ false
unfolding has
has_of_Lacks b [] h = refl
has_of_Lacks b (c ∷ s) h = ground (arith, has_of_Lacks b s h.1)

cut_last_of_Lacks : (b : ℕ) (s : Text) → Lacks b s → cut_last b s ≡ none
unfolding cut_last
cut_last_of_Lacks b [] h = refl
cut_last_of_Lacks b (c ∷ s) h = ground (arith, cut_last_of_Lacks b s h.1)

cut_last-append : (b : ℕ) (u v : Text) → Lacks b v → cut_last b (u ++ (b ∷ v)) ≡ some (u, v)
unfolding cut_last
cut_last-append b [] v h = ground (arith, cut_last_of_Lacks b v h)
cut_last-append b (c ∷ u) v h = ground (arith, cut_last-append b u v h)

-- A host without a colon or a bracket, a colon, and a port without those, come apart again.
abbrev pub IsPlain : Text → Type 0
IsPlain s = Lacks b':' s × Lacks b'[' s × Lacks b']' s

brackets_of_IsPlain :
    (host port : Text) → IsPlain host → IsPlain port → brackets host port ≡ ok (host, port)
unfolding brackets
brackets_of_IsPlain host port (hc, ho, hs) (pc, po, ps) = ground (
  arith,
  has_of_Lacks b'[' host ho,
  has_of_Lacks b'[' port po,
  has_of_Lacks b']' host hs,
  has_of_Lacks b']' port ps,
)

dispatch_of_IsPlain :
    (host port : Text)
    → IsPlain host
    → IsPlain port
    → dispatch (host ++ (b':' ∷ port)) host port ≡ ok (host, port)
unfolding dispatch from_last_colon
dispatch_of_IsPlain [] port h k =
    ground (arith, brackets_of_IsPlain [] port h k, has_of_Lacks b':' [])
dispatch_of_IsPlain (c ∷ s) port h k =
    ground (arith, brackets_of_IsPlain (c ∷ s) port h k, has_of_Lacks b':' (c ∷ s) h.0)

pub split_host_port_of_IsPlain :
    (host port : Text)
    → IsPlain host
    → IsPlain port
    → split_host_port (host ++ (b':' ∷ port)) ≡ ok (host, port)
unfolding split_host_port
split_host_port_of_IsPlain host port h k =
    rw (cut_last-append b':' host port k.0, split_host_port) (dispatch_of_IsPlain host port h k)

pub split_host_port_no_colon : (s : Text) → Lacks b':' s → split_host_port s ≡ err missing_port
unfolding split_host_port
split_host_port_no_colon s h = rw (cut_last_of_Lacks b':' s h, split_host_port)

-- The last colon of a text that ends in a plain one.
cut_last-bracket :
    (h port : Text)
    → Lacks b':' port
    → cut_last b':' (b'[' ∷ (h ++ (b']' ∷ (b':' ∷ port)))) ≡ some (b'[' ∷ (h ++ (b']' ∷ [])), port)
unfolding cut_last
cut_last-bracket h port k =
    let e : h ++ (b']' ∷ (b':' ∷ port)) ≡ (h ++ (b']' ∷ [])) ++ (b':' ∷ port) =
      sym (append_assoc h (b']' ∷ []) (b':' ∷ port)) in
    ground (arith, e, cut_last-append b':' (h ++ (b']' ∷ [])) port k)

-- In brackets a host may hold colons.
pub split_host_port_bracketed :
    (host port : Text)
    → Lacks b'[' host
    → Lacks b']' host
    → IsPlain port
    → split_host_port (b'[' ∷ (host ++ (b']' ∷ (b':' ∷ port)))) ≡ ok (host, port)
unfolding split_host_port
split_host_port_bracketed host port ho hs (pc, po, ps) = ground (
  arith,
  cut_last-bracket host port pc,
  cut-append b']' host (b':' ∷ port) hs,
  has_of_Lacks b':' port pc,
  has_of_Lacks b'[' host ho,
  has_of_Lacks b'[' port po,
  has_of_Lacks b']' host hs,
  has_of_Lacks b']' port ps,
)

-- Without brackets it may not.
pub split_host_port_colons :
    (host port : Text)
    → has b':' host ≡ true
    → Lacks b'[' host
    → Lacks b':' port
    → split_host_port (host ++ (b':' ∷ port)) ≡ err too_many_colons
unfolding split_host_port
split_host_port_colons [] port h ho pc = unfold has in cc
split_host_port_colons (c ∷ s) port h ho pc =
    rw (cut_last-append b':' (c ∷ s) port pc, split_host_port) (ground (arith, h, ho.0))

pub has-append : (b : ℕ) (u v : Text) → has b (u ++ (b ∷ v)) ≡ true
unfolding has
has-append b [] v = ground arith
has-append b (c ∷ u) v = ground (arith, has-append b u v)
