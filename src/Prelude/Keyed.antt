-- ===== src/Prelude/Keyed.antt =====
-- Go maps whose keys are structs: association lists under a Boolean equality of the keys.
use mathlib.Core.Path.{◌≡◌, refl, sym, ◌∙◌, subst}
use mathlib.Core.Logic.{◌↔◌, inl, inr}
use mathlib.Core.Bool.{Bool, true}
use mathlib.Core.List.{List, [], ◌∷◌, ◌++◌}
use mathlib.Core.Option.{Option, none, some}
use native.Mathlib.Omega.{arith}
use proxyreverse.Prelude.Tests.{if◌then◌else◌, Bool-cases}
use proxyreverse.Prelude.Lists.{All}

module _ {K : Type 0} (same : K → K → Bool) {V : Type 0} where
  unfoldable pub find : K → List (K × V) → Option V
  find k [] = none
  find k ((j, v) ∷ m) = if same j k then some v else find k m

  unfoldable pub put : K → V → List (K × V) → List (K × V)
  put k v [] = (k, v) ∷ []
  put k v ((j, w) ∷ m) = if same j k then (k, v) ∷ m else (j, w) ∷ put k v m

  abbrev pub AreDistinct : List (K × V) → Type 0
  AreDistinct [] = Unit
  AreDistinct ((k, v) ∷ m) = (find k m ≡ none) × AreDistinct m

  module _ (same_iff : (j k : K) → (same j k ≡ true) ↔ (j ≡ k)) where
    pub find-put :
        (k j : K) (v : V) (m : List (K × V))
        → find j (put k v m) ≡ (if same k j then some v else find j m)
    unfolding find put
    find-put k j v [] = refl
    find-put k j v ((i, w) ∷ m) =
        ground (arith, same_iff k j, same_iff i k, same_iff i j, find-put k j v m)

    pub put-AreDistinct :
        (k : K) (v : V) (m : List (K × V)) → AreDistinct m → AreDistinct (put k v m)
    unfolding put find
    put-AreDistinct k v [] h = (refl, tt)
    put-AreDistinct k v ((i, w) ∷ m) (fresh, h) =
        ground (arith, same_iff i k, same_iff k i, find-put k i v m, put-AreDistinct k v m h)

  -- A new key goes to the end.
  pub put-new :
      (k : K) (v : V) (m : List (K × V)) → find k m ≡ none → put k v m ≡ m ++ ((k, v) ∷ [])
  unfolding put find
  put-new k v [] h = refl
  put-new k v ((i, w) ∷ m) h = ground (arith, put-new k v m)

  pub put-All :
      (P : K × V → Type 0) (k : K) (v : V) (m : List (K × V))
      → P (k, v)
      → All P m
      → All P (put k v m)
  unfolding put
  put-All P k v [] p h = (p, tt)
  put-All P k v ((i, w) ∷ m) p (q, h) = elim (Bool-cases (same i k)) [
    | inl e ↦ rw e (p, h)
    | inr e ↦ rw e (q, put-All P k v m p h)
  ]

  -- A visit of a map, by its key: the runtime goes through it in some order.
  abbrev pub IsVisit : (List (K × V) → List (K × V)) → Type 0
  IsVisit visit =
      (m : List (K × V))
      → AreDistinct m
      → AreDistinct (visit m) × ((k : K) → find k (visit m) ≡ find k m)

  module _ (same_iff : (j k : K) → (same j k ≡ true) ↔ (j ≡ k)) (P : K × V → Type 0) where
    pub All_of_find :
        (m : List (K × V))
        → AreDistinct m
        → ((k : K) (v : V) → find k m ≡ some v → P (k, v))
        → All P m
    unfolding find
    All_of_find [] d h = tt
    All_of_find ((i, w) ∷ m) (free, d) h = (
      h i w (ground (arith, same_iff i i)),
      All_of_find m d (λ k v e. h k v (ground (arith, same_iff i k))),
    )

    pub find-All : (m : List (K × V)) (k : K) (v : V) → All P m → find k m ≡ some v → P (k, v)
    unfolding find
    find-All [] k v h e = absurd (cc)
    find-All ((i, w) ∷ m) k v (p, h) e = elim (Bool-cases (same i k)) [
      | inl here ↦ let one : (i, w) ≡ (k, v) = ground (arith, here, same_iff i k) in subst P one p
      | inr away ↦ find-All m k v h (ground (arith, away))
    ]

    -- What holds of every entry holds in every order.
    pub visit-All :
        (visit : List (K × V) → List (K × V)) (m : List (K × V))
        → IsVisit visit
        → AreDistinct m
        → All P m
        → All P (visit m)
    visit-All visit m law d h =
        let (d', found) = law m d in
        All_of_find (visit m) d' (λ k v e. find-All m k v h (sym (found k) ∙ e))
