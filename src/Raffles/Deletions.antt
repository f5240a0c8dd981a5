-- ===== src/Raffles/Deletions.antt =====
-- The end of a prize tier: DeletePrizeTier of services/raffle_service.go.
use tachigo.Base.{
  ◌≡◌, refl, sym, ◌∙◌, ap, Bool, true, false, Option, none, some, List, [], ◌∷◌, ◌==◌, not, arith,
  All, find_first, count_where, delete_where, map, is_some_of, Bool-cases, inl, inr, ==_iff,
}
use tachigo.Int.{pos, pos_part, eq_of_parts}
use tachigo.Models.{Uuid, RaffleDraw, RafflePrizeTier}
use tachigo.Raffles.Tiers.{has_tier_id, forget_tier, is_undrawn}
use tachigo.Raffles.Draws.{is_none, has_tier}
use tachigo.Raffles.Fairness.{IsTiered, HasTierKeys, drawn_in, IsCounted}

-- Rows that are deleted take nothing from the others.
pub delete-All :
    (P : RafflePrizeTier → Type 0) (p : RafflePrizeTier → Bool) (ts : List RafflePrizeTier)
    → All P ts
    → All P (delete_where p ts)
delete-All P p [] h = tt
delete-All P p (t ∷ ts) h = elim (Bool-cases (p t)) [
  | inl hit ↦ rw hit (delete-All P p ts h.1)
  | inr miss ↦ rw miss (h.0, delete-All P p ts h.1)
]

module _ (p : RafflePrizeTier → Bool) where
  absent :
      (id : Uuid) (ts : List RafflePrizeTier)
      → find_first (has_tier_id id) ts ≡ none
      → find_first (has_tier_id id) (delete_where p ts) ≡ none
  absent id [] e = refl
  absent id (t ∷ ts) e = ground (arith, absent id ts)

  pub delete-HasTierKeys :
      (ts : List RafflePrizeTier) → HasTierKeys ts → HasTierKeys (delete_where p ts)
  delete-HasTierKeys [] k = tt
  delete-HasTierKeys (t ∷ ts) k = elim (Bool-cases (p t)) [
    | inl hit ↦ rw hit (delete-HasTierKeys ts k.1)
    | inr miss ↦ rw miss (absent t.id ts k.0, delete-HasTierKeys ts k.1)
  ]

-- A tier without draws is named by none.
module _ (id raffle : Uuid) where
  pub counts_none :
      (ds : List RaffleDraw) (ts : List RafflePrizeTier)
      → All (IsCounted ds) ts
      → (count_where (is_undrawn id raffle) ts == 0) ≡ false
      → drawn_in id ds ≡ 0
  counts_none ds [] h e = cc
  counts_none ds (t ∷ ts) h e = elim (Bool-cases (is_undrawn id raffle t)) [
    | inl hit ↦
        let zero : t.drawn_count ≡ pos 0 =
          eq_of_parts t.drawn_count (pos 0) (ground (arith, hit)) in
        let own : t.id ≡ id = (==_iff t.id id).0 (ground (arith, hit)) in
        rw (← own) (ap pos_part (sym h.0.counted ∙ zero))
    | inr miss ↦ counts_none ds ts h.1 (ground (arith, e, miss))
  ]

  pub forget-same : (ds : List RaffleDraw) → drawn_in id ds ≡ 0 → map (forget_tier id) ds ≡ ds
  forget-same [] e = refl
  forget-same (d ∷ ds) e = elim (Bool-cases (is_some_of d.prize_tier_id id)) [
    | inl hit ↦ absurd (ground (arith, e, hit))
    | inr miss ↦ rw (miss, forget-same ds (ground (arith, e, miss))) refl
  ]

  remaining :
      (i : Uuid) (ts : List RafflePrizeTier)
      → (i == id) ≡ false
      → is_none (find_first (has_tier_id i) (delete_where (is_undrawn id raffle) ts))
        ≡ is_none (find_first (has_tier_id i) ts)
  remaining i [] e = refl
  remaining i (t ∷ ts) e = ground (arith, e, remaining i ts e)

  pub delete-IsTiered :
      (ts : List RafflePrizeTier) (ds : List RaffleDraw)
      → drawn_in id ds ≡ 0
      → All (IsTiered ts) ds
      → All (IsTiered (delete_where (is_undrawn id raffle) ts)) ds
  delete-IsTiered ts [] e h = tt
  delete-IsTiered ts (d ∷ ds) e h =
      (one d.prize_tier_id (ground (arith, e)) h.0, delete-IsTiered ts ds (ground (arith, e)) h.1)
    where
      one :
          (o : Option Uuid)
          → is_some_of o id ≡ false
          → has_tier o ts ≡ true
          → has_tier o (delete_where (is_undrawn id raffle) ts) ≡ true
      one none n x = refl
      one (some i) n x = ap not (remaining i ts n) ∙ x
