-- ===== src/Base/Lists.antt =====
-- Lists measured by native numbers, searches and updates of a table, and an insertion sort.
use Prim.Native.Nat.{ℕ, zero, suc, ◌+◌}
use mathlib.Core.Path.{◌≡◌, refl}
use mathlib.Core.Bool.{Bool, true, false}
use mathlib.Core.List.{List, [], ◌∷◌}
use mathlib.Core.Option.{Option, none, some}
use native.Mathlib.Omega.{arith}
use mathlib.Core.Logic.{inl, inr}
use tachigo.Base.Tests.{if◌then◌else◌, ◌==◌, Bool-cases}

module _ {ℓ} {A : Type ℓ} where
  abbrev pub length : List A → ℕ
  length [] = 0
  length (x ∷ xs) = suc (length xs)

  abbrev pub take : ℕ → List A → List A
  take zero xs = []
  take (suc n) [] = []
  take (suc n) (x ∷ xs) = x ∷ take n xs

  -- The first row that passes a test, as `First` after a `Where`.
  abbrev pub find_first : (A → Bool) → List A → Option A
  find_first p [] = none
  find_first p (x ∷ xs) = if p x then some x else find_first p xs

  -- The rows that pass a test, as `Find` after a `Where`.
  abbrev pub select : (A → Bool) → List A → List A
  select p [] = []
  select p (x ∷ xs) = let rest = select p xs in if p x then x ∷ rest else rest

  -- `UPDATE … SET … WHERE …`.
  abbrev pub update_where : (A → Bool) → (A → A) → List A → List A
  update_where p f [] = []
  update_where p f (x ∷ xs) = (if p x then f x else x) ∷ update_where p f xs

  -- `DELETE … WHERE …`.
  abbrev pub delete_where : (A → Bool) → List A → List A
  delete_where p [] = []
  delete_where p (x ∷ xs) = let rest = delete_where p xs in if p x then rest else x ∷ rest

  -- Rows affected by an update.
  abbrev pub count_where : (A → Bool) → List A → ℕ
  count_where p [] = 0
  count_where p (x ∷ xs) = (if p x then 1 else 0) + count_where p xs

  -- `ORDER BY` with the test "comes before or ties".
  abbrev pub insert_by : (A → A → Bool) → A → List A → List A
  insert_by le x [] = x ∷ []
  insert_by le x (y ∷ ys) = if le x y then x ∷ y ∷ ys else y ∷ insert_by le x ys

  abbrev pub sort_by : (A → A → Bool) → List A → List A
  sort_by le [] = []
  sort_by le (x ∷ xs) = insert_by le x (sort_by le xs)

  -- A predicate on every row.
  abbrev pub All {κ} : (A → Type κ) → List A → Type κ
  All P [] = Unit
  All P (x ∷ xs) = P x × All P xs

module _ {ℓ κ} {A : Type ℓ} (P : A → Type κ) where
  pub All-find_first :
      (p : A → Bool) (xs : List A) {x : A} → All P xs → find_first p xs ≡ some x → P x
  All-find_first p [] h e = cc
  All-find_first p (y ∷ xs) {x} h e = ground (arith, All-find_first p xs {x = x} h.1)

module _ {ℓ} {A : Type ℓ} (p : A → Bool) where
  -- A search that finds nothing says so of every row.
  pub find_first-none : (xs : List A) → find_first p xs ≡ none → All (λ x. p x ≡ false) xs
  find_first-none [] e = tt
  find_first-none (x ∷ xs) e = ground (arith, find_first-none xs)

  pub find_first-passes : (xs : List A) {x : A} → find_first p xs ≡ some x → p x ≡ true
  find_first-passes [] e = cc
  find_first-passes (y ∷ xs) {x} e = ground (arith, find_first-passes xs {x = x})

-- A predicate on every row, carried over by a function on rows.
pub All-map {ℓ κ} :
    {A : Type ℓ} {P Q : A → Type κ} (xs : List A) → ((x : A) → P x → Q x) → All P xs → All Q xs
All-map [] f h = tt
All-map (x ∷ xs) f h = (f x h.0, All-map xs f h.1)

-- The row that a search finds after an update of the rows that it looks for.
pub find_first-update {ℓ} :
    {A : Type ℓ} (p : A → Bool) (f : A → A) (xs : List A) {x : A}
    → ((a : A) → p (f a) ≡ p a)
    → find_first p xs ≡ some x
    → find_first p (update_where p f xs) ≡ some (f x)
find_first-update p f [] k e = cc
find_first-update p f (y ∷ xs) {x} k e = ground (arith, k y, find_first-update p f xs {x = x} k)

-- The same when the update picks its rows by another test, which the row found passes.
pub find_first-update_other {ℓ} :
    {A : Type ℓ} (p q : A → Bool) (f : A → A) (xs : List A) {x : A}
    → ((a : A) → p (f a) ≡ p a)
    → find_first p xs ≡ some x
    → q x ≡ true
    → find_first p (update_where q f xs) ≡ some (f x)
find_first-update_other p q f [] k e h = cc
find_first-update_other p q f (y ∷ xs) {x} k e h =
    ground (arith, k y, find_first-update_other p q f xs {x = x} k)

module _ {ℓ} {A : Type ℓ} where
  -- An update that affects no row changes none.
  pub update_where-none :
      (p : A → Bool) (f : A → A) (xs : List A) → count_where p xs ≡ 0 → update_where p f xs ≡ xs
  update_where-none p f [] e = refl
  update_where-none p f (x ∷ xs) e = ground (arith, update_where-none p f xs)

  -- A deletion that affects no row deletes none.
  pub delete_where-none :
      (p : A → Bool) (xs : List A) → count_where p xs ≡ 0 → delete_where p xs ≡ xs
  delete_where-none p [] e = refl
  delete_where-none p (x ∷ xs) e = ground (arith, delete_where-none p xs)

  -- A row that is found is counted.
  pub count_where-found :
      (p q : A → Bool) (xs : List A) {x : A}
      → find_first p xs ≡ some x
      → q x ≡ true
      → (count_where q xs == 0) ≡ false
  count_where-found p q [] e h = cc
  count_where-found p q (y ∷ xs) {x} e h = ground (arith, count_where-found p q xs {x = x})

module _ {ℓ κ} {A : Type ℓ} (P : A → Type κ) where
  -- What holds of every row holds of those selected, and in any order.
  pub select-All : (p : A → Bool) (xs : List A) → All P xs → All P (select p xs)
  select-All p [] h = tt
  select-All p (x ∷ xs) h = elim (Bool-cases (p x)) [
    | inl hit ↦ rw hit (h.0, select-All p xs h.1)
    | inr miss ↦ rw miss (select-All p xs h.1)
  ]

  module _ (le : A → A → Bool) where
    pub insert-All : (x : A) (xs : List A) → P x → All P xs → All P (insert_by le x xs)
    insert-All x [] px h = (px, tt)
    insert-All x (y ∷ xs) px h = elim (Bool-cases (le x y)) [
      | inl before ↦ rw before (px, h)
      | inr after ↦ rw after (h.0, insert-All x xs px h.1)
    ]

    pub sort-All : (xs : List A) → All P xs → All P (sort_by le xs)
    sort-All [] h = tt
    sort-All (x ∷ xs) h = insert-All x (sort_by le xs) h.0 (sort-All xs h.1)
