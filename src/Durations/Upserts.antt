-- ===== src/Durations/Upserts.antt =====
-- What an upsert of a counter adds to the totals that lookups of the table give.
use mathlib.Core.Path.{fun_ext}
use tachigo.Base.{
  ◌≡◌, refl, sym, ap, ◌∙◌, inl, inr, Bool, true, false, Option, none, some, List, [], ◌∷◌,
  if◌then◌else◌, find_first, update_where, find_first-update, Bool-cases,
}
use tachigo.Int.{ℤ, pos, ◌+ℤ◌, +ℤ_zero_left, +ℤ_zero_right}

-- `n` where a test holds.
abbrev pub added : Bool → ℤ → ℤ
added b n = if b then n else pos 0

-- The rows of one key, looked for by `q`, while those of another, or the same, change.
pub record Keys {A : Type 0} (p q : A → Bool) (same : Bool) : Type 0 where
  pub agree : same ≡ true → (a : A) → q a ≡ p a
  pub apart : same ≡ false → (a : A) → p a ≡ true → q a ≡ false

module _ {A : Type 0} (total : A → ℤ) where
  abbrev pub total_of : Option A → ℤ
  total_of none = pos 0
  total_of (some x) = total x

  module _ (p q : A → Bool) {same : Bool} (keys : Keys p q same) (n : ℤ) where
    -- A new row of the key.
    pub total-insert :
        (x : A) (xs : List A)
        → p x ≡ true
        → total x ≡ n
        → find_first p xs ≡ none
        → total_of (find_first q (x ∷ xs)) ≡ total_of (find_first q xs) +ℤ added same n
    total-insert x xs own amount missing = elim (Bool-cases same) [
      | inl yes_same ↦
          rw (fun_ext (keys.agree yes_same), own, missing, yes_same, +ℤ_zero_left n) amount
      | inr other ↦ rw (keys.apart other x own, other, +ℤ_zero_right)
    ]

    module _ (f : A → A) (keeps : (a : A) → q (f a) ≡ q a) where
      skips : (xs : List A) → same ≡ false → find_first q (update_where p f xs) ≡ find_first q xs
      skips [] other = refl
      skips (x ∷ xs) other = elim (Bool-cases (p x)) [
        | inl own ↦ rw (own, keeps x, keys.apart other x own) (skips xs other)
        | inr foreign ↦ rw foreign (ap (λ o. if q x then some x else o) (skips xs other))
      ]

      -- The rows of the key are raised.
      pub total-update :
          (xs : List A) {x : A}
          → ((a : A) → total (f a) ≡ total a +ℤ n)
          → find_first p xs ≡ some x
          → total_of (find_first q (update_where p f xs))
            ≡ total_of (find_first q xs) +ℤ added same n
      total-update xs {x} raises found = elim (Bool-cases same) [
        | inl yes_same ↦
            let agree = keys.agree yes_same in
            let kept = λ (a : A). sym (agree (f a)) ∙ keeps a ∙ agree a in
            rw (fun_ext agree, find_first-update p f xs kept found, found, yes_same) (raises x)
        | inr other ↦ rw (skips xs other, other, +ℤ_zero_right)
      ]
