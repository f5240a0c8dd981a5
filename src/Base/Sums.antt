-- ===== src/Base/Sums.antt =====
-- Sums over a list, and what an order by insertion keeps: sums, lengths and counts.
use Prim.Native.Nat.{ℕ, suc, ◌+◌}
use mathlib.Core.Path.{◌≡◌, refl}
use mathlib.Core.Bool.{Bool}
use mathlib.Core.List.{List, [], ◌∷◌}
use native.Mathlib.Omega.{arith}
use tachigo.Base.Lists.{insert_by, sort_by, count_where, length}

module _ {ℓ} {A : Type ℓ} where
  abbrev pub sum_by : (A → ℕ) → List A → ℕ
  sum_by f [] = 0
  sum_by f (x ∷ xs) = f x + sum_by f xs

  module _ (f : A → ℕ) (le : A → A → Bool) where
    insert-sum : (x : A) (xs : List A) → sum_by f (insert_by le x xs) ≡ f x + sum_by f xs
    insert-sum x [] = refl
    insert-sum x (y ∷ xs) = ground (arith, insert-sum x xs)

    pub sort-sum : (xs : List A) → sum_by f (sort_by le xs) ≡ sum_by f xs
    sort-sum [] = refl
    sort-sum (x ∷ xs) = grind (arith, insert-sum x (sort_by le xs), sort-sum xs)

  module _ (p : A → Bool) (le : A → A → Bool) where
    insert-count :
        (x : A) (xs : List A) → count_where p (insert_by le x xs) ≡ count_where p (x ∷ xs)
    insert-count x [] = refl
    insert-count x (y ∷ xs) = ground (arith, insert-count x xs)

    pub sort-count : (xs : List A) → count_where p (sort_by le xs) ≡ count_where p xs
    sort-count [] = refl
    sort-count (x ∷ xs) = grind (arith, insert-count x (sort_by le xs), sort-count xs)

  module _ (le : A → A → Bool) where
    insert-length : (x : A) (xs : List A) → length (insert_by le x xs) ≡ suc (length xs)
    insert-length x [] = refl
    insert-length x (y ∷ xs) = ground (arith, insert-length x xs)

    pub sort-length : (xs : List A) → length (sort_by le xs) ≡ length xs
    sort-length [] = refl
    sort-length (x ∷ xs) = grind (arith, insert-length x (sort_by le xs), sort-length xs)
