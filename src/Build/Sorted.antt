-- ===== src/Build/Sorted.antt =====
-- The list of platforms that magefile.go prints sorted, and the other prints of its platforms.
pub mod Order
pub mod Agreement
pub mod Listing
use proxyreverse.Prelude.{
  ℕ, zero, suc, ◌≡◌, Bool, true, false, List, [], ◌∷◌, ◌++◌, Text, codes, text_eq, ltb, ◌==◌,
  if◌then◌else◌, All, Assoc,
}
use proxyreverse.Build.Hooks.{newline}
use proxyreverse.Build.Platforms.{Platform, release_matrix}

-- Go's order of strings, byte by byte.
unfoldable pub text_le : Text → Text → Bool
text_le [] t = true
text_le (a ∷ s) [] = false
text_le (a ∷ s) (b ∷ t) = if a == b then text_le s t else ltb a b

abbrev pub IsSorted : List Text → Type 0
IsSorted [] = Unit
IsSorted (s ∷ ss) = All (λ t. text_le s t ≡ true) ss × IsSorted ss

unfoldable pub count : Text → List Text → ℕ
count s [] = 0
count s (t ∷ ts) = let rest = count s ts in if text_eq t s then suc rest else rest

-- `sort.Strings` of Go's library, with its documented behaviour.
pub record StringSort : Type 0 where
  pub sort : List Text → List Text
  pub sorted_law : (ss : List Text) → IsSorted (sort ss)
  pub count_law : (s : Text) (ss : List Text) → count s (sort ss) ≡ count s ss

-- The keys of a map, in the order of its visit.
unfoldable pub keys : {V : Type 0} → Assoc V → List Text
keys [] = []
keys ((k, v) ∷ m) = k ∷ keys m

-- `fmt.Println` of each.
unfoldable pub print_lines : List Text → Text
print_lines [] = []
print_lines (line ∷ lines) = line ++ (newline ∷ print_lines lines)

-- What `PlatformTargets` prints, with `platformsLookup` in the order of the visit.
unfoldable pub platform_targets : StringSort → Assoc Platform → Text
unfolding keys print_lines
platform_targets strings lookup = print_lines (strings.sort (keys lookup))

-- What `GithubReleaseMatrix` prints; `json.Marshal` of texts has no error.
unfoldable pub github_release_matrix : (List Text → Text) → Text
github_release_matrix marshal =
    codes "::set-output name=release-matrix::" ++ (marshal release_matrix ++ (newline ∷ []))
