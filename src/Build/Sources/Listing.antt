-- ===== src/Build/Sources/Listing.antt =====
-- What the walk of magefile.go lists.
use proxyreverse.Prelude.{
  ◌≡◌, ap, sym, refl, Bool, true, false, Option, List, [], ◌∷◌, ◌++◌, Text, codes, ==_iff, Result,
  ok, err, ◌>>=◌, arith, Among, All, inl, inr, Option-cases, Bool-cases, subst,
}
use proxyreverse.Go.Panic.{Panic}
use proxyreverse.Build.Sources.{has_prefix, contains_text, any_prefix, is_source, go_src}

has_prefix-append : (p s : Text) → has_prefix (p ++ s) p ≡ true
unfolding has_prefix
has_prefix-append [] s = refl
has_prefix-append (c ∷ p) s = ground (arith, ==_iff c c, has_prefix-append p s)

contains_text-prefix : (s p : Text) → has_prefix s p ≡ true → contains_text s p ≡ true
unfolding contains_text
contains_text-prefix [] p h = h
contains_text-prefix (b ∷ s) p h = rw h refl

contains_text-append : (a p s : Text) → contains_text (a ++ (p ++ s)) p ≡ true
unfolding contains_text
contains_text-append [] p s = contains_text-prefix (p ++ s) p (has_prefix-append p s)
contains_text-append (c ∷ a) p s = ground (arith, contains_text-append a p s)

any_prefix-append :
    (exclusions : List Text) (p s : Text)
    → Among p exclusions
    → any_prefix (p ++ s) exclusions ≡ true
unfolding any_prefix
any_prefix-append [] p s h = absurd h
any_prefix-append (x ∷ exclusions) p s (inl e) =
    ground (arith, e, ap (λ q. has_prefix (p ++ s) q) e, has_prefix-append p s)
any_prefix-append (x ∷ exclusions) p s (inr h) = ground (arith, any_prefix-append exclusions p s h)

is_source-excluded :
    (exclusions : List Text) (p s : Text)
    → Among p exclusions
    → is_source exclusions (p ++ s) ≡ false
unfolding is_source
is_source-excluded exclusions p s h = rw (any_prefix-append exclusions p s h) refl

is_source-git :
    (exclusions : List Text) (a s : Text) → is_source exclusions (a ++ (codes ".git" ++ s)) ≡ false
unfolding is_source
is_source-git exclusions a s = ground (arith, contains_text-append a (codes ".git") s)

-- Every path of a listing passes the tests.
unfoldable AreSources : List Text → Result Panic (List Text) → Type 0
AreSources exclusions (ok paths) = All (λ path. is_source exclusions path ≡ true) paths
AreSources exclusions (err e) = Unit

AreSources-cons :
    (exclusions : List Text) (path : Text) (r : Result Panic (List Text))
    → is_source exclusions path ≡ true
    → AreSources exclusions r
    → AreSources exclusions (r >>= λ paths. ok (path ∷ paths))
unfolding AreSources
AreSources-cons exclusions path (ok paths) h k = (h, k)
AreSources-cons exclusions path (err e) h k = tt

go_src-AreSources :
    (abs : Text → Option Text) (exclusions : List Text) (entries : List (Text × Bool))
    → AreSources exclusions (go_src abs exclusions entries)
unfolding go_src AreSources
go_src-AreSources abs exclusions [] = tt
go_src-AreSources abs exclusions ((rel_path, is_dir) ∷ entries) =
    let rest = go_src-AreSources abs exclusions entries in
    elim (Option-cases (abs rel_path)) [
      | inl e ↦ rw (go_src, e) tt
      | inr (path, e) ↦ elim (Bool-cases is_dir) [
        | inl dir ↦ rw (go_src, e, dir) rest
        | inr file ↦ elim (Bool-cases (is_source exclusions path)) [
          | inl k ↦ rw (go_src, e, file, k) (AreSources-cons exclusions path _ k rest)
          | inr k ↦ rw (go_src, e, file, k) rest
        ]
      ]
    ]

Among-All :
    (P : Text → Type 0) (path : Text) (paths : List Text) → Among path paths → All P paths → P path
Among-All P path [] h k = absurd h
Among-All P path (q ∷ paths) (inl e) (k, rest) = subst P (sym e) k
Among-All P path (q ∷ paths) (inr h) (k, rest) = Among-All P path paths h rest

-- Nothing that begins with the path of an excluded directory is listed, whatever follows there, and
-- nothing with `.git` in its absolute path: no file of a tree whose own path has it, and no file
-- beside an excluded directory whose name begins with the directory's.
pub go_src-excluded :
    (abs : Text → Option Text) (exclusions : List Text) (entries : List (Text × Bool))
    (paths : List Text) (p s a t : Text)
    → go_src abs exclusions entries ≡ ok paths
    → Among p exclusions
    → (¬ Among (p ++ s) paths) × (¬ Among (a ++ (codes ".git" ++ t)) paths)
go_src-excluded abs exclusions entries paths p s a t h excluded =
    let sources : All (λ q. is_source exclusions q ≡ true) paths =
      unfold AreSources in
      subst (AreSources exclusions) h (go_src-AreSources abs exclusions entries) in
    let source = Among-All (λ q. is_source exclusions q ≡ true) in
    (
      λ among. absurd (
          ground (arith, source _ paths among sources, is_source-excluded exclusions p s excluded)),
      λ among. absurd (ground (arith, source _ paths among sources, is_source-git exclusions a t)),
    )
