-- ===== src/Go/Split.antt =====
-- `strings.Split` and `strings.SplitN(_, _, 2)` at a separator of one byte.
use mathlib.Core.List.{append_assoc}
use proxyreverse.Prelude.{
  ℕ, ◌≡◌, refl, sym, ap, ◌∙◌, ◌≢◌, Option, none, some, List, [], ◌∷◌, ◌++◌, arith, Text, All, ◌==◌,
  ==_iff, if◌then◌else◌,
}

-- One more byte before the first of the parts.
abbrev pub push_head : ℕ → List Text → List Text
push_head c [] = (c ∷ []) ∷ []
push_head c (w ∷ ws) = (c ∷ w) ∷ ws

unfoldable pub split : ℕ → Text → List Text
split sep [] = [] ∷ []
split sep (c ∷ s) = let parts = split sep s in if c == sep then [] ∷ parts else push_head c parts

unfoldable pub join : ℕ → List Text → Text
join sep [] = []
join sep (w ∷ []) = w
join sep (w ∷ (v ∷ vs)) = w ++ (sep ∷ join sep (v ∷ vs))

-- The text before the first separator and the text after it.
unfoldable pub cut : ℕ → Text → Option (Text × Text)
cut sep [] = none
cut sep (c ∷ s) =
    let rest = cut sep s in
    if c == sep then some ([], s) else elim rest [ none ↦ none | some (u, v) ↦ some (c ∷ u, v) ]

-- `strings.SplitN(s, sep, 2)`
unfoldable pub split_two : ℕ → Text → List Text
split_two sep s = elim (cut sep s) [ none ↦ s ∷ [] | some (u, v) ↦ u ∷ v ∷ [] ]

-- A text without the separator.
abbrev pub Lacks : ℕ → Text → Type 0
Lacks sep s = All (λ c. c ≢ sep) s

pub split-ne-nil : (sep : ℕ) (s : Text) → split sep s ≢ []
unfolding split
split-ne-nil sep [] = ground arith
split-ne-nil sep (c ∷ s) = ground (arith, split-ne-nil sep s)

join-cons :
    (sep : ℕ) (w : Text) (ws : List Text) → ws ≢ [] → join sep (w ∷ ws) ≡ w ++ (sep ∷ join sep ws)
unfolding join
join-cons sep w [] h = absurd (h refl)
join-cons sep w (v ∷ vs) h = refl

join-push_head :
    (sep c : ℕ) (ws : List Text) → ws ≢ [] → join sep (push_head c ws) ≡ c ∷ join sep ws
unfolding join
join-push_head sep c [] h = absurd (h refl)
join-push_head sep c (w ∷ []) h = refl
join-push_head sep c (w ∷ (v ∷ vs)) h = refl

-- Joining the parts gives back the text.
pub join-split : (sep : ℕ) (s : Text) → join sep (split sep s) ≡ s
unfolding split
join-split sep [] = unfold join in refl
join-split sep (c ∷ s) = ground (
  arith,
  join-split sep s,
  split-ne-nil sep s,
  join-cons sep [] (split sep s) (split-ne-nil sep s),
  join-push_head sep c (split sep s) (split-ne-nil sep s),
)

-- Different texts have different parts.
pub split_injective : (sep : ℕ) (s t : Text) → split sep s ≡ split sep t → s ≡ t
split_injective sep s t h = sym (join-split sep s) ∙ ap (join sep) h ∙ join-split sep t

-- A separator splits off the text before it, which holds none.
pub cut-append : (sep : ℕ) (u v : Text) → Lacks sep u → cut sep (u ++ (sep ∷ v)) ≡ some (u, v)
unfolding cut
cut-append sep [] v h = ground arith
cut-append sep (c ∷ u) v h = ground (arith, cut-append sep u v h.1)

pub cut-eq-none_of_Lacks : (sep : ℕ) (s : Text) → Lacks sep s → cut sep s ≡ none
unfolding cut
cut-eq-none_of_Lacks sep [] h = refl
cut-eq-none_of_Lacks sep (c ∷ s) h = ground (arith, cut-eq-none_of_Lacks sep s h.1)

push_head-append :
    (c : ℕ) (ws vs : List Text) → ws ≢ [] → push_head c (ws ++ vs) ≡ push_head c ws ++ vs
push_head-append c [] vs h = absurd (h refl)
push_head-append c (w ∷ ws) vs h = refl

-- A separator between two texts separates their parts.
pub split-append : (sep : ℕ) (u v : Text) → split sep (u ++ (sep ∷ v)) ≡ split sep u ++ split sep v
unfolding split
split-append sep [] v = ground (arith, ==_iff sep sep)
split-append sep (c ∷ u) v = ground (
  arith,
  split-append sep u v,
  push_head-append c (split sep u) (split sep v) (split-ne-nil sep u),
)

pub split_of_Lacks : (sep : ℕ) (w : Text) → Lacks sep w → split sep w ≡ w ∷ []
unfolding split
split_of_Lacks sep [] h = refl
split_of_Lacks sep (c ∷ w) h = ground (arith, split_of_Lacks sep w h.1)

-- Parts without the separator come apart again.
pub split-join :
    (sep : ℕ) (w : Text) (ws : List Text)
    → All (Lacks sep) (w ∷ ws)
    → split sep (join sep (w ∷ ws)) ≡ w ∷ ws
unfolding join
split-join sep w [] h = split_of_Lacks sep w h.0
split-join sep w (v ∷ vs) (h, k) =
    split-append sep w (join sep (v ∷ vs)) ∙ cc (split_of_Lacks sep w h, split-join sep v vs k)

pub join-merge :
    (sep : ℕ) (w e : Text) (es : List Text)
    → join sep ((w ++ (sep ∷ e)) ∷ es) ≡ w ++ (sep ∷ join sep (e ∷ es))
unfolding join
join-merge sep w e [] = refl
join-merge sep w e (v ∷ vs) = append_assoc w (sep ∷ e) (sep ∷ join sep (v ∷ vs))
