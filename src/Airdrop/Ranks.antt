-- ===== src/Airdrop/Ranks.antt =====
-- The order in which `distribute_airdrop` gives the remaining points: by the remainder.
use tachigo.Base.{
  ℕ, suc, ◌≡◌, ◌≤◌, Bool, true, false, List, [], ◌∷◌, arith, All, All-map, sort_by, insert_by,
  insert-All, count_where, Bool-cases, inl, inr,
}
use tachigo.Int.{pos, ltb_ℤ, ◌≤ℤ◌}
use tachigo.Airdrop.Reading.{AirdropViewer}
use tachigo.Airdrop.{stays_before}

-- The exact share is not whole.
abbrev pub has_rest : AirdropViewer → Bool
has_rest v = ltb_ℤ (pos 0) v.remainder

-- No remainder is above one before it.
abbrev pub IsRanked : List AirdropViewer → Type 0
IsRanked [] = Unit
IsRanked (v ∷ vs) = All (λ u. u.remainder ≤ℤ v.remainder) vs × IsRanked vs

first_ranks : (v u : AirdropViewer) → stays_before v u ≡ true → u.remainder ≤ℤ v.remainder
first_ranks v u e = ground (arith, e)

second_ranks : (v u : AirdropViewer) → stays_before v u ≡ false → v.remainder ≤ℤ u.remainder
second_ranks v u e = ground (arith, e)

insert-IsRanked :
    (v : AirdropViewer) (vs : List AirdropViewer)
    → IsRanked vs
    → IsRanked (insert_by stays_before v vs)
insert-IsRanked v [] h = (tt, tt)
insert-IsRanked v (u ∷ vs) h = elim (Bool-cases (stays_before v u)) [
  | inl before ↦
      let le = first_ranks v u before in
      rw before ((le, All-map vs (λ x below. omega (arith, below, le)) h.0), h)
  | inr after ↦
      rw after
        (insert-All _ stays_before v vs (second_ranks v u after) h.0, insert-IsRanked v vs h.1)
]

pub sort-IsRanked : (vs : List AirdropViewer) → IsRanked (sort_by stays_before vs)
sort-IsRanked [] = tt
sort-IsRanked (v ∷ vs) = insert-IsRanked v (sort_by stays_before vs) (sort-IsRanked vs)

-- Behind a viewer without a rest, there is none.
no_rest :
    (v : AirdropViewer) (vs : List AirdropViewer)
    → has_rest v ≡ false
    → All (λ u. u.remainder ≤ℤ v.remainder) vs
    → count_where has_rest vs ≡ 0
no_rest v [] e h = omega arith
no_rest v (u ∷ vs) e h =
    let none_left : has_rest u ≡ false = below e h.0 in
    rw none_left (omega (arith, no_rest v vs e h.1))
  where
    below : has_rest v ≡ false → u.remainder ≤ℤ v.remainder → has_rest u ≡ false
    below e le = ground (arith, e, le)

-- If there are rests, the first viewer has one.
pub rest_first :
    (n : ℕ) (v : AirdropViewer) (vs : List AirdropViewer)
    → All (λ u. u.remainder ≤ℤ v.remainder) vs
    → suc n ≤ count_where has_rest (v ∷ vs)
    → has_rest v ≡ true
rest_first n v vs h le = elim (Bool-cases (has_rest v)) [
  | inl rest ↦ rest
  | inr whole ↦ absurd (omega (arith, no_rest v vs whole h, rw whole at le))
]
