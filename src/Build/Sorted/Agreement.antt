-- ===== src/Build/Sorted/Agreement.antt =====
-- Two sorted lists with the same elements are one list.
use proxyreverse.Prelude.{
  ◌<◌, ◌≡◌, refl, sym, subst, true, List, [], ◌∷◌, Text, text_eq, text_eq_iff, All, Bool-cases, inl,
  inr, arith,
}
use proxyreverse.Build.Sorted.{text_le, IsSorted, count}
use proxyreverse.Build.Sorted.Order.{text_le_antisym}

count-All : (P : Text → Type 0) (s : Text) (ts : List Text) → All P ts → 0 < count s ts → P s
unfolding count
count-All P s [] h c = absurd (omega arith)
count-All P s (t ∷ ts) (p, h) c = elim (Bool-cases (text_eq t s)) [
  | inl same ↦ subst P ((text_eq_iff t s).0 same) p
  | inr other ↦ count-All P s ts h (ground (arith, other))
]

SameCounts-nil : (s : Text) (ts : List Text) → ((r : Text) → count r [] ≡ count r (s ∷ ts)) → ⊥
unfolding count
SameCounts-nil s ts h = ground (arith, h s, text_eq_iff s s)

-- The first elements agree.
head_agree :
    (s t : Text) (ss ts : List Text)
    → IsSorted (s ∷ ss)
    → IsSorted (t ∷ ts)
    → ((r : Text) → count r (s ∷ ss) ≡ count r (t ∷ ts))
    → s ≡ t
unfolding count
head_agree s t ss ts (ss_le, hs) (ts_le, ht) h = elim (Bool-cases (text_eq s t)) [
  | inl same ↦ (text_eq_iff s t).0 same
  | inr other ↦
      let s_there : 0 < count s ts =
        ground (arith, h s, other, text_eq_iff s s, text_eq_iff t s, text_eq_iff s t) in
      let t_there : 0 < count t ss = ground (arith, h t, other, text_eq_iff t t, text_eq_iff s t) in
      text_le_antisym s t (count-All (λ r. text_le s r ≡ true) t ss ss_le t_there)
        (count-All (λ r. text_le t r ≡ true) s ts ts_le s_there)
]

pub IsSorted-agree :
    (ss ts : List Text)
    → IsSorted ss
    → IsSorted ts
    → ((r : Text) → count r ss ≡ count r ts)
    → ss ≡ ts
unfolding count
IsSorted-agree [] [] hs ht h = refl
IsSorted-agree [] (t ∷ ts) hs ht h = absurd (SameCounts-nil t ts h)
IsSorted-agree (s ∷ ss) [] hs ht h = absurd (SameCounts-nil s ss (λ r. sym (h r)))
IsSorted-agree (s ∷ ss) (t ∷ ts) hs ht h =
    let one : s ≡ t = head_agree s t ss ts hs ht h in
    let rest : (r : Text) → count r ss ≡ count r ts = λ r. ground (arith, h r, one) in
    ground (arith, one, IsSorted-agree ss ts hs.1 ht.1 rest)
