-- ===== src/Go/Paths.antt =====
-- `path.Join` and `path.Clean`.
use proxyreverse.Prelude.{
  ◌≡◌, refl, Bool, true, false, ◌||◌, List, [], ◌∷◌, ◌++◌, Text, text_eq, text_eq_iff, arith, ℕ, ap,
  ◌∙◌, ◌≢◌, All, All-imp, codes, ◌==◌, if◌then◌else◌,
}
use mathlib.Core.List.{reverse, reverse-cons, append_assoc, append-nil, reverse-reverse}
use proxyreverse.Go.Split.{split, join, split-join, join-merge, Lacks}

-- `..`: drop the last component, unless there is none or it is `..` too.
up : Bool → List Text → List Text
up true [] = []
up false [] = codes ".." ∷ []
up rooted (top ∷ stack) = if text_eq top (codes "..") then codes ".." ∷ top ∷ stack else stack

-- One component of `path.Clean`; the stack has the last component of the result at its head.
clean_step : Bool → List Text → Text → List Text
clean_step rooted stack part =
    if text_eq part [] || text_eq part (codes ".")
    then stack
    else if text_eq part (codes "..")
    then up rooted stack
    else part ∷ stack

clean_loop : Bool → List Text → List Text → List Text
clean_loop rooted stack [] = stack
clean_loop rooted stack (part ∷ parts) = clean_loop rooted (clean_step rooted stack part) parts

-- The first byte is `/`.
is_rooted : Text → Bool
is_rooted [] = false
is_rooted (c ∷ s) = c == b'/'

clean_text : Bool → Text → Text
clean_text true s = b'/' ∷ s
clean_text false [] = codes "."
clean_text false (c ∷ s) = c ∷ s

unfoldable pub clean : Text → Text
unfolding up clean_step clean_loop is_rooted clean_text
clean s =
    clean_text (is_rooted s) (join b'/' (reverse (clean_loop (is_rooted s) [] (split b'/' s))))

-- The elements with `/` between them, the leading empty ones dropped.
concat : Text → List Text → Text
concat buf [] = buf
concat [] (e ∷ es) = concat e es
concat (c ∷ buf) (e ∷ es) = concat ((c ∷ buf) ++ (b'/' ∷ e)) es

clean_if_set : Text → Text
clean_if_set [] = []
clean_if_set (c ∷ s) = clean (c ∷ s)

unfoldable pub path_join : List Text → Text
unfolding concat clean_if_set
path_join elems = clean_if_set (concat [] elems)

test_join :
    path_join
      (codes "" ∷ codes "a" ∷ codes "." ∷ codes "" ∷ codes "b" ∷ codes ".." ∷ codes "c" ∷ [])
    ≡ codes "a/c"
unfolding path_join clean split join text_eq
test_join = refl

test_clean : clean (codes "/../a//b/") ≡ codes "/a/b"
unfolding clean split join text_eq
test_clean = refl

-- A component that `path.Clean` leaves alone: not empty, not `.` and not `..`, and without `/`.
abbrev pub IsPart : Text → Type 0
IsPart w = (w ≢ []) × (w ≢ codes ".") × (w ≢ codes "..") × Lacks b'/' w

clean_loop-IsPart :
    (rooted : Bool) (stack parts : List Text)
    → All IsPart parts
    → clean_loop rooted stack parts ≡ reverse parts ++ stack
unfolding clean_loop clean_step
clean_loop-IsPart rooted stack [] h = refl
clean_loop-IsPart rooted stack (w ∷ ws) ((ne, dot, dots, k), h) =
    let first : clean_step rooted stack w ≡ w ∷ stack =
      ground (arith, text_eq_iff w [], text_eq_iff w (codes "."), text_eq_iff w (codes "..")) in
    ap (λ s. clean_loop rooted s ws) first
    ∙ clean_loop-IsPart rooted (w ∷ stack) ws h
    ∙ simp (reverse-cons, append_assoc)

concat-join :
    (c : ℕ) (buf : Text) (es : List Text) → concat (c ∷ buf) es ≡ join b'/' ((c ∷ buf) ∷ es)
unfolding concat
concat-join c buf [] = unfold join in refl
concat-join c buf (e ∷ es) =
    concat-join c (buf ++ (b'/' ∷ e)) es ∙ join-merge b'/' (c ∷ buf) e es ∙ unfold join in refl

join_head : (c : ℕ) (w : Text) (ws : List Text) → (s : Text) × (join b'/' ((c ∷ w) ∷ ws) ≡ c ∷ s)
unfolding join
join_head c w [] = (w, refl)
join_head c w (v ∷ vs) = (w ++ (b'/' ∷ join b'/' (v ∷ vs)), refl)

clean_relative : (text : Text) (c : ℕ) (s : Text) → text ≡ c ∷ s → clean_text false text ≡ text
clean_relative text c s e = rw e (unfold clean_text in refl)

is_rooted_of : (text : Text) (c : ℕ) (s : Text) → text ≡ c ∷ s → c ≢ b'/' → is_rooted text ≡ false
unfolding is_rooted
is_rooted_of text c s e h = ground arith

clean_if_set_of : (text : Text) (c : ℕ) (s : Text) → text ≡ c ∷ s → clean_if_set text ≡ clean text
unfolding clean_if_set
clean_if_set_of text c s e = rw e

clean-join :
    (w : Text) (ws : List Text)
    → All IsPart (w ∷ ws)
    → clean (join b'/' (w ∷ ws)) ≡ join b'/' (w ∷ ws)
unfolding clean
clean-join [] ws h = absurd (h.0.0 refl)
clean-join (c ∷ w) ws h =
    let parts = (c ∷ w) ∷ ws in
    let text = join b'/' parts in
    let (s, head) = join_head c w ws in
    let same : split b'/' text ≡ parts =
      split-join b'/' (c ∷ w) ws (All-imp IsPart (Lacks b'/') (λ v k. k.3) parts h) in
    let rooted : is_rooted text ≡ false = is_rooted_of text c s head h.0.3.0 in
    let loop : reverse (clean_loop false [] parts) ≡ parts =
      ap reverse (clean_loop-IsPart false [] parts h ∙ append-nil _) ∙ reverse-reverse parts in
    ap (λ r. clean_text r (join b'/' (reverse (clean_loop r [] (split b'/' text))))) rooted
    ∙ ap (λ p. clean_text false (join b'/' (reverse (clean_loop false [] p)))) same
    ∙ ap (λ p. clean_text false (join b'/' p)) loop
    ∙ clean_relative text c s head

-- `path.Join` of components that it leaves alone, after an empty one or not, puts `/` between
-- them: the result is relative.
pub path_join-IsPart :
    (w : Text) (ws : List Text)
    → All IsPart (w ∷ ws)
    → (path_join (w ∷ ws) ≡ join b'/' (w ∷ ws)) × (path_join ([] ∷ w ∷ ws) ≡ join b'/' (w ∷ ws))
unfolding path_join
path_join-IsPart [] ws h = absurd (h.0.0 refl)
path_join-IsPart (c ∷ w) ws h =
    let e : path_join ((c ∷ w) ∷ ws) ≡ join b'/' ((c ∷ w) ∷ ws) =
      ap clean_if_set (concat-join c w ws)
      ∙ clean_if_set_of (join b'/' ((c ∷ w) ∷ ws)) c (join_head c w ws).0 (join_head c w ws).1
      ∙ clean-join (c ∷ w) ws h in
    (e, e)
