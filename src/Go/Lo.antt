-- ===== src/Go/Lo.antt =====
-- The functions of github.com/samber/lo that the program calls, as an interface: the package is
-- not part of the repository. The laws are its documented behaviour.
use mathlib.Core.List.{reverse}
use proxyreverse.Prelude.{ℕ, suc, ◌≡◌, refl, List, [], ◌∷◌}

-- A map and a left fold whose function is given the index too.
module _ {A B : Type 0} where
  unfoldable pub map_index : ℕ → (A → ℕ → B) → List A → List B
  map_index i f [] = []
  map_index i f (x ∷ xs) = f x i ∷ map_index (suc i) f xs

  unfoldable pub fold_index : ℕ → (B → A → ℕ → B) → B → List A → B
  fold_index i f r [] = r
  fold_index i f r (x ∷ xs) = fold_index (suc i) f (f r x i) xs

pub record Lo : Type 1 where
  pub reverse_of : (A : Type 0) → List A → List A
  pub reverse_law : (A : Type 0) (xs : List A) → reverse_of A xs ≡ reverse xs
  pub map_of : (A B : Type 0) → (A → ℕ → B) → List A → List B
  pub map_law : (A B : Type 0) (f : A → ℕ → B) (xs : List A) → map_of A B f xs ≡ map_index 0 f xs
  pub reduce_of : (A B : Type 0) → (B → A → ℕ → B) → B → List A → B
  pub reduce_law :
      (A B : Type 0) (f : B → A → ℕ → B) (r : B) (xs : List A)
      → reduce_of A B f r xs ≡ fold_index 0 f r xs

-- The laws can be met.
abbrev pub plain_lo : Lo
plain_lo = record {
  reverse_of = λ A xs. reverse xs;
  reverse_law = λ A xs. refl;
  map_of = λ A B f xs. map_index 0 f xs;
  map_law = λ A B f xs. refl;
  reduce_of = λ A B f r xs. fold_index 0 f r xs;
  reduce_law = λ A B f r xs. refl;
}
