-- ===== src/Raffles/Quotas.antt =====
-- Creating, editing and deleting the prize tiers of a raffle, and the fairness of its draws.
use tachigo.Base.{
  ◌≡◌, refl, sym, ◌∙◌, ap, Bool, true, false, Option, none, some, List, [], ◌∷◌, ◌==◌, not, arith,
  All, All-map, All-find_first, find_first, delete_where-none, count_where, update_where,
  delete_where, map, is_some_of, if◌then◌else◌, Bool-cases, inl, inr, ==_iff,
}
use tachigo.Int.{ℤ, pos, ◌≤ℤ◌, leb_ℤ, add64}
use tachigo.Models.{Uuid, RaffleDraw, RafflePrizeTier, prize_tier_not_found}
use tachigo.Effect.{Db}
use tachigo.Effect.Ensures.{Gives, Gives-if}
use tachigo.Effect.Safe.{
  Safe, Safe-bind, Safe-guard, Safe-check, Safe-sql, Safe-found, Safe-bind-new_uuid, Safe-outcome,
}
use tachigo.Raffles.Tiers.{
  CreatePrizeTierInput, UpdatePrizeTierInput, has_tier_id, is_tier_of, first_tier, max_position,
  stores_tier, new_tier, insert_tier_row, insert_tier, create_prize_tier, set_or, is_bad_count,
  edited, save_tier, update_prize_tier, forget_tier, is_undrawn, delete_prize_tier,
}
use tachigo.Raffles.Draws.{has_tier}
use tachigo.Raffles.Deletions.{
  delete-All, delete-HasTierKeys, counts_none, forget-same, delete-IsTiered,
}
use tachigo.Raffles.Access.{Owned, row-Gives, get_by_id-Owned}
use tachigo.Raffles.Fairness.{
  IsTiered, drawn_in, IsCounted, IsFair, OnlyPrizes, update-HasTierKeys, update-IsTiered,
}

-- No draw names a tier that is not there.
unnamed :
    (id : Uuid) (ts : List RafflePrizeTier) (ds : List RaffleDraw)
    → find_first (has_tier_id id) ts ≡ none
    → All (IsTiered ts) ds
    → drawn_in id ds ≡ 0
unnamed id ts [] e h = refl
unnamed id ts (d ∷ ds) e h = rw (other d.prize_tier_id h.0, unnamed id ts ds e h.1) refl
  where
    other : (o : Option Uuid) → has_tier o ts ≡ true → is_some_of o id ≡ false
    other none x = refl
    other (some i) x = elim (Bool-cases (i == id)) [
      | inl same ↦ absurd (there (rw ((==_iff i id).0 same) e) x)
      | inr apart ↦ apart
    ]
      where
        there : find_first (has_tier_id i) ts ≡ none → has_tier (some i) ts ≡ true → ⊥
        there e x = cc

abbrev pub Refit : Db → Db → Type 0
Refit db db' = IsFair db' × OnlyPrizes db db'

framed :
    (db db' : Db)
    → db'.raffles ≡ db.raffles
    → db'.raffle_entries ≡ db.raffle_entries
    → db'.raffle_claims ≡ db.raffle_claims
    → OnlyPrizes db db'
framed db db' r e c = record { same_raffles = r; same_entries = e; same_claims = c }

-- A new tier has no draws.
inserted-IsFair :
    (db : Db) (t : RafflePrizeTier)
    → IsFair db
    → t.drawn_count ≡ pos 0
    → leb_ℤ (pos 1) t.winner_count ≡ true
    → find_first (has_tier_id t.id) db.raffle_prize_tiers ≡ none
    → IsFair (record db { raffle_prize_tiers = t ∷ db.raffle_prize_tiers })
inserted-IsFair db t fair zero some_winner new = record {
  distinct = fair.distinct;
  entered = fair.entered;
  tiered = All-map db.raffle_draws (λ d x. kept d.prize_tier_id x) fair.tiered;
  keyed = (new, fair.keyed);
  tiers = (
    record {
      counted =
          zero ∙ ap pos (sym (unnamed t.id db.raffle_prize_tiers db.raffle_draws new fair.tiered));
      within = ground (arith, zero, some_winner);
    },
    fair.tiers,
  );
}
  where
    kept :
        (o : Option Uuid)
        → has_tier o db.raffle_prize_tiers ≡ true
        → has_tier o (t ∷ db.raffle_prize_tiers) ≡ true
    kept none x = refl
    kept (some i) x = ground (arith, x)

insert_tier-Gives :
    (db : Db) (t : RafflePrizeTier)
    → IsFair db
    → t.drawn_count ≡ pos 0
    → Gives (insert_tier t db) (λ _ db'. Refit db db')
insert_tier-Gives db t fair zero = go (find_first (has_tier_id t.id) db.raffle_prize_tiers) refl
  where
    go :
        (o : Option RafflePrizeTier)
        → find_first (has_tier_id t.id) db.raffle_prize_tiers ≡ o
        → Gives (insert_tier_row t o db) (λ _ db'. Refit db db')
    go (some _) e = tt
    go none e =
        Gives-if _ (stores_tier t) _ _
          (λ _.
            Gives-if _ (leb_ℤ (pos 1) t.winner_count) _ _
              (λ some_winner.
                (inserted-IsFair db t fair zero some_winner e, framed _ _ refl refl refl))
              (λ _. tt))
          (λ _. tt)

-- One row is replaced by another with its id.
replaced-All :
    (P : RafflePrizeTier → Type 0) (p : RafflePrizeTier → Bool) (t : RafflePrizeTier)
    (ts : List RafflePrizeTier)
    → P t
    → All P ts
    → All P (update_where p (λ _. t) ts)
replaced-All P p t [] pt h = tt
replaced-All P p t (u ∷ ts) pt h = elim (Bool-cases (p u)) [
  | inl hit ↦ rw hit (pt, replaced-All P p t ts pt h.1)
  | inr miss ↦ rw miss (h.0, replaced-All P p t ts pt h.1)
]

saved-IsFair :
    (db : Db) (t : RafflePrizeTier)
    → IsFair db
    → IsCounted db.raffle_draws t
    → Gives (save_tier t db) (λ _ db'. Refit db db')
saved-IsFair db t fair counted =
    Gives-if _ (stores_tier t) _ _
      (λ _.
        Gives-if _ (leb_ℤ (pos 1) t.winner_count) _ _
          (λ _.
            let same : (u : RafflePrizeTier) → has_tier_id t.id u ≡ true → t.id ≡ u.id =
              λ u e. sym ((==_iff u.id t.id).0 e) in
            (
              record {
                distinct = fair.distinct;
                entered = fair.entered;
                tiered =
                    update-IsTiered (has_tier_id t.id) (λ _. t) same db.raffle_prize_tiers
                      db.raffle_draws fair.tiered;
                keyed =
                    update-HasTierKeys (has_tier_id t.id) (λ _. t) same db.raffle_prize_tiers
                      fair.keyed;
                tiers =
                    replaced-All (IsCounted db.raffle_draws) (has_tier_id t.id) t
                      db.raffle_prize_tiers counted fair.tiers;
              },
              framed _ _ refl refl refl,
            ))
          (λ _. tt))
      (λ _. tt)

-- An edit that passes the test of the count leaves room for the draws made.
edited-IsCounted :
    (input : UpdatePrizeTierInput) (ds : List RaffleDraw) (t : RafflePrizeTier)
    → not (is_bad_count input.winner_count t) ≡ true
    → IsCounted ds t
    → IsCounted ds (edited input t)
edited-IsCounted input ds t good h = record {
  counted = h.counted;
  within = room input.winner_count good;
}
  where
    room : (n : Option ℤ) → not (is_bad_count n t) ≡ true → t.drawn_count ≤ℤ set_or n t.winner_count
    room none x = h.within
    room (some n) x = ground (arith, x)

module _ (raffle user : Uuid) (db : Db) (fair : IsFair db) where
  abbrev Kept : Db → Type 0
  Kept db' = db' ≡ db

  pub create_prize_tier-IsFair :
      (input : CreatePrizeTierInput)
      → Safe Kept db (create_prize_tier raffle user input) (λ _ db'. Refit db db')
  unfolding create_prize_tier max_position
  create_prize_tier-IsFair input = Safe-guard _ _ _ refl λ _.
      Safe-bind (λ r db'. Owned raffle user db r × (db' ≡ db)) _ _ (get_by_id-Owned raffle user db)
        λ r db' own. rw own.1 (
          Safe-bind (λ last db'. db' ≡ db) _ _ (Safe-sql _ refl refl)
            λ last db' same. rw same (
              Safe-bind-new_uuid _ λ id.
                Safe-sql _ refl
                  (insert_tier-Gives db (new_tier id raffle input (add64 last (pos 1))) fair refl)))

  pub update_prize_tier-IsFair :
      (id : Uuid) (input : UpdatePrizeTierInput)
      → Safe Kept db (update_prize_tier raffle id user input) (λ _ db'. Refit db db')
  unfolding update_prize_tier
  update_prize_tier-IsFair id input =
      Safe-bind (λ r db'. Owned raffle user db r × (db' ≡ db)) _ _ (get_by_id-Owned raffle user db)
        λ r db' own. rw own.1 (
          Safe-bind
            (λ t db'.
              (find_first (is_tier_of id raffle) db.raffle_prize_tiers ≡ some t) × (db' ≡ db))
            _ _
            (Safe-found prize_tier_not_found _
              (Safe-sql (first_tier id raffle) refl (row-Gives db _)))
            λ t db' found. rw found.1 (
              Safe-guard _ _ _ refl λ good. Safe-sql _ refl (
                saved-IsFair db (edited input t) fair (
                  edited-IsCounted input db.raffle_draws t good (
                    All-find_first (IsCounted db.raffle_draws) (is_tier_of id raffle)
                      db.raffle_prize_tiers fair.tiers found.0)))))

  -- What the statement of the deletion leaves, whether or not it deletes.
  deleted-IsFair :
      (id : Uuid) (n : Bool)
      → (count_where (is_undrawn id raffle) db.raffle_prize_tiers == 0) ≡ n
      → IsFair (record db {
        raffle_prize_tiers = delete_where (is_undrawn id raffle) db.raffle_prize_tiers;
        raffle_draws = if n then db.raffle_draws else map (forget_tier id) db.raffle_draws;
      })
  deleted-IsFair id true e =
      rw (delete_where-none (is_undrawn id raffle) db.raffle_prize_tiers ((==_iff _ 0).0 e))
        (record {
          distinct = fair.distinct;
          entered = fair.entered;
          tiered = fair.tiered;
          keyed = fair.keyed;
          tiers = fair.tiers;
        })
  deleted-IsFair id false e =
      let zero = counts_none id raffle db.raffle_draws db.raffle_prize_tiers fair.tiers e in
      rw (forget-same id raffle db.raffle_draws zero) (record {
        distinct = fair.distinct;
        entered = fair.entered;
        tiered = delete-IsTiered id raffle db.raffle_prize_tiers db.raffle_draws zero fair.tiered;
        keyed = delete-HasTierKeys (is_undrawn id raffle) db.raffle_prize_tiers fair.keyed;
        tiers =
            delete-All (IsCounted db.raffle_draws) (is_undrawn id raffle) db.raffle_prize_tiers
              fair.tiers;
      })

  pub delete_prize_tier-IsFair :
      (id : Uuid) → Safe (Refit db) db (delete_prize_tier raffle id user) (λ _ db'. Refit db db')
  unfolding delete_prize_tier
  delete_prize_tier-IsFair id =
      Safe-bind (λ r db'. Owned raffle user db r × (db' ≡ db)) _ _
        (Safe-outcome Kept _ (get_by_id-Owned raffle user db) still (λ _ _ h. h))
        λ r db' own. rw own.1 (
          Safe-bind
            (λ t db'.
              (find_first (is_tier_of id raffle) db.raffle_prize_tiers ≡ some t) × (db' ≡ db))
            _ _
            (Safe-found prize_tier_not_found _
              (Safe-sql (first_tier id raffle) (fair, framed _ _ refl refl refl) (row-Gives db _)))
            λ t db' found. rw found.1 (
              Safe-bind (λ _ db'. Refit db db') _ _
                (Safe-sql _ (fair, framed _ _ refl refl refl)
                  (deleted-IsFair id _ refl, framed _ _ refl refl refl))
                λ n db' kept. Safe-check _ _ kept kept))
    where
      still : (db' : Db) → db' ≡ db → Refit db db'
      still db' e = rw e (fair, framed _ _ refl refl refl)
