-- ===== src/Build/Sorted/Listing.antt =====
-- What `PlatformTargets` of magefile.go prints, whatever order its map is visited in.
use proxyreverse.Prelude.{
  ℕ, ◌≡◌, refl, sym, ap, ◌∙◌, Option, none, some, List, [], ◌∷◌, Text, codes, text_eq, text_eq_iff,
  Assoc, lookup, HasDistinctKeys, arith, insert,
}
use proxyreverse.Build.Platforms.{Platform, platforms_lookup, lookup_from, string_of}
use proxyreverse.Build.Sorted.{StringSort, IsSorted, count, keys, print_lines, platform_targets}
use proxyreverse.Build.Sorted.Order.{insertion_sort, insertion_sort-IsSorted, count-insertion_sort}
use proxyreverse.Build.Sorted.Agreement.{IsSorted-agree}

abbrev one_if : {V : Type 0} → Option V → ℕ
one_if none = 0
one_if (some v) = 1

-- A map has each of its keys once.
count-keys :
    {V : Type 0} (k : Text) (m : Assoc V)
    → HasDistinctKeys m
    → count k (keys m) ≡ one_if (lookup k m)
unfolding count keys lookup
count-keys k [] d = refl
count-keys k ((j, v) ∷ m) (free, d) = ground (arith, count-keys k m d, text_eq_iff j k)

pub platforms_lookup-HasDistinctKeys : HasDistinctKeys platforms_lookup
unfolding lookup platforms_lookup lookup_from insert string_of text_eq
platforms_lookup-HasDistinctKeys =
    (refl, (refl, (refl, (refl, (refl, (refl, (refl, (refl, (refl, tt)))))))))

abbrev pub platform_lines : List Text
platform_lines =
    codes "darwin-amd64"
    ∷ codes "darwin-arm64"
    ∷ codes "freebsd-amd64"
    ∷ codes "linux-386"
    ∷ codes "linux-amd64"
    ∷ codes "linux-arm"
    ∷ codes "linux-arm64"
    ∷ codes "windows-386"
    ∷ codes "windows-amd64"
    ∷ []

sorted_keys : insertion_sort (keys platforms_lookup) ≡ platform_lines
unfolding insertion_sort proxyreverse.Build.Sorted.text_le keys platforms_lookup lookup_from insert
    string_of text_eq
sorted_keys = refl

-- Whatever order the runtime visits the map of platforms in, the nine platforms are printed, one to
-- a line, from darwin-amd64 to windows-amd64 in the order of their bytes.
pub platform_targets-sorted :
    (strings : StringSort) (m : Assoc Platform)
    → HasDistinctKeys m
    → ((k : Text) → lookup k m ≡ lookup k platforms_lookup)
    → platform_targets strings m ≡ print_lines platform_lines
unfolding platform_targets
platform_targets-sorted strings m d same =
    let counts : (k : Text)
        → count k (strings.sort (keys m)) ≡ count k (insertion_sort (keys platforms_lookup)) =
      λ k.
        strings.count_law k (keys m)
        ∙ count-keys k m d
        ∙ ap (λ o. one_if o) (same k)
        ∙ sym (count-keys k platforms_lookup platforms_lookup-HasDistinctKeys)
        ∙ sym (count-insertion_sort k (keys platforms_lookup)) in
    ap print_lines (
      IsSorted-agree (strings.sort (keys m)) (insertion_sort (keys platforms_lookup))
        (strings.sorted_law (keys m)) (insertion_sort-IsSorted (keys platforms_lookup)) counts
      ∙ sorted_keys)
