-- ===== src/Build/Sorted/Order.antt =====
-- Go's order of strings is total, and an insertion sort by it.
use proxyreverse.Prelude.{
  suc, ◌≡◌, refl, true, false, List, [], ◌∷◌, Text, text_eq, if◌then◌else◌, All, All-imp,
  Bool-cases, inl, inr, arith,
}
use proxyreverse.Build.Sorted.{text_le, IsSorted, count, StringSort}

pub text_le_antisym : (s t : Text) → text_le s t ≡ true → text_le t s ≡ true → s ≡ t
unfolding text_le
text_le_antisym [] [] h k = refl
text_le_antisym [] (b ∷ t) h k = absurd (cc)
text_le_antisym (a ∷ s) [] h k = absurd (cc)
text_le_antisym (a ∷ s) (b ∷ t) h k = ground (arith, text_le_antisym s t)

text_le_trans : (s t u : Text) → text_le s t ≡ true → text_le t u ≡ true → text_le s u ≡ true
unfolding text_le
text_le_trans [] t u h k = refl
text_le_trans (a ∷ s) [] u h k = absurd (cc)
text_le_trans (a ∷ s) (b ∷ t) [] h k = absurd (cc)
text_le_trans (a ∷ s) (b ∷ t) (c ∷ u) h k = ground (arith, text_le_trans s t u)

text_le_total : (s t : Text) → text_le s t ≡ false → text_le t s ≡ true
unfolding text_le
text_le_total [] t h = absurd (cc)
text_le_total (a ∷ s) [] h = refl
text_le_total (a ∷ s) (b ∷ t) h = ground (arith, text_le_total s t)

-- A text put into its place.
unfoldable pub place : Text → List Text → List Text
place s [] = s ∷ []
place s (t ∷ ts) = if text_le s t then s ∷ t ∷ ts else t ∷ place s ts

unfoldable pub insertion_sort : List Text → List Text
unfolding place
insertion_sort [] = []
insertion_sort (s ∷ ss) = place s (insertion_sort ss)

count-place :
    (s t : Text) (ts : List Text)
    → count s (place t ts) ≡ (if text_eq t s then suc (count s ts) else count s ts)
unfolding place count
count-place s t [] = refl
count-place s t (u ∷ us) = ground (arith, count-place s t us)

pub count-insertion_sort : (s : Text) (ss : List Text) → count s (insertion_sort ss) ≡ count s ss
unfolding insertion_sort count
count-insertion_sort s [] = refl
count-insertion_sort s (t ∷ ts) =
    ground (arith, count-insertion_sort s ts, count-place s t (insertion_sort ts))

place-All : (P : Text → Type 0) (s : Text) (ts : List Text) → P s → All P ts → All P (place s ts)
unfolding place
place-All P s [] p h = (p, tt)
place-All P s (t ∷ ts) p (q, h) = elim (Bool-cases (text_le s t)) [
  | inl e ↦ rw e (p, (q, h))
  | inr e ↦ rw e (q, place-All P s ts p h)
]

place-IsSorted : (s : Text) (ts : List Text) → IsSorted ts → IsSorted (place s ts)
unfolding place
place-IsSorted s [] h = (tt, tt)
place-IsSorted s (t ∷ ts) (le, h) = elim (Bool-cases (text_le s t)) [
  | inl e ↦ rw e (
    (
      e,
      All-imp (λ u. text_le t u ≡ true) (λ u. text_le s u ≡ true) (λ u k. text_le_trans s t u e k)
          ts le,
    ),
    (le, h),
  )
  | inr e ↦
      rw e
        (place-All (λ u. text_le t u ≡ true) s ts (text_le_total s t e) le, place-IsSorted s ts h)
]

pub insertion_sort-IsSorted : (ss : List Text) → IsSorted (insertion_sort ss)
unfolding insertion_sort
insertion_sort-IsSorted [] = tt
insertion_sort-IsSorted (s ∷ ss) = place-IsSorted s (insertion_sort ss) (insertion_sort-IsSorted ss)

-- The laws of `sort.Strings` can be met.
abbrev pub by_insertion : StringSort
by_insertion = record {
  sort = insertion_sort;
  sorted_law = insertion_sort-IsSorted;
  count_law = count-insertion_sort;
}
