-- ===== src/Raffles/Drawing.antt =====
-- What a draw does, for every outcome of its attempts.
use tachigo.Base.{
  ℕ, zero, suc, ◌≡◌, refl, sym, ◌∙◌, ap, Bool, true, false, Option, none, some, ◌∷◌, ◌==◌, not,
  arith, All-map, find_first, count_where, update_where,
}
use tachigo.Models.{Uuid, Raffle, RaffleEntry, raffle_exhausted, prize_tier_not_found}
use tachigo.Effect.{Db, M, raise}
use tachigo.Effect.Ensures.{
  Ensures, Ensures-pure, Ensures-raise, Ensures-bind, Ensures-bind-sql, Ensures-bind-ask,
  Ensures-guard, Ensures-weaken,
}
use tachigo.Effect.Safe.{
  Safe, Safe-pure, Safe-raise, Safe-if, Safe-bind, Safe-guard, Safe-catch, Safe-sql, Safe-found,
  Safe-transaction, Safe-outcome,
}
use tachigo.Raffles.{is_active, is_completed}
use tachigo.Raffles.Tiers.{first_tier, is_tier_of}
use tachigo.Raffles.Draws.{
  Winner, has_room, one_more, random_entry, random_loser, won_ids, drawn_from, counted_draw,
  draw_in_tx, tier_draw_in_tx, count_draw, is_duplicated, draw_attempts, draw_max_retries,
  draw_next, draw_from_tier,
}
use tachigo.Raffles.Access.{Owned, row-Gives, get_by_id-Owned}
use tachigo.Raffles.Fairness.{
  update-IsTiered, IsFair, OnlyPrizes, untiered-IsCounted, count-IsCounted, update-HasTierKeys,
  unclashed,
}
use tachigo.Raffles.Recording.{Drawn, Recorded, record_draw-Recorded}

module _ (raffle : Uuid) (db : Db) (fair : IsFair db) where
  -- Fair draws and a recorded one make a draw, once the counters are right.
  drawn :
      (tier : Option Uuid) (e : RaffleEntry) (w : Winner) (db1 db' : Db)
      → Recorded raffle tier e db w db1
      → db'.raffle_draws ≡ w.draw ∷ db.raffle_draws
      → OnlyPrizes db db'
      → IsFair db'
      → Drawn raffle tier db w db'
  drawn tier e w db1 db' r logged frame kept =
      let entry : w.draw.entry_id ≡ w.entry.id = r.of_entry ∙ ap (λ x. x.id) (sym r.same_entry) in
      record {
        fair = kept;
        of_raffle = r.of_raffle;
        of_entry = entry;
        of_tier = r.of_tier;
        entered = rw (← r.of_raffle, ← entry) r.entered;
        fresh = rw (← r.of_raffle, ← entry) (unclashed w.draw db.raffle_draws r.unique);
        frame = frame;
        logged = logged;
      }

  untiered-Drawn :
      (e : RaffleEntry) (w : Winner) (db1 : Db)
      → Recorded raffle none e db w db1
      → Drawn raffle none db w db1
  untiered-Drawn e w db1 r = rw r.stored (
      drawn none e w db1 _ r refl
        (record { same_raffles = refl; same_entries = refl; same_claims = refl })
        (record {
          distinct = (r.unique, fair.distinct);
          entered = (r.entered, fair.entered);
          tiered = (r.tiered, fair.tiered);
          keyed = fair.keyed;
          tiers =
              All-map db.raffle_prize_tiers
                (λ t h. untiered-IsCounted w.draw db.raffle_draws t r.of_tier h) fair.tiers;
        }))

  draw_in_tx-Drawn : Ensures db (draw_in_tx raffle) (Drawn raffle none db)
  unfolding draw_in_tx
  draw_in_tx-Drawn = Ensures-bind-ask _ _ λ n. Ensures-bind-sql _ _ (go (random_entry raffle n db))
    where
      go : (o : Option RaffleEntry) → Ensures db (drawn_from raffle none o) (Drawn raffle none db)
      go none = Ensures-raise raffle_exhausted
      go (some e) =
          Ensures-weaken (Recorded raffle none e db) (record_draw-Recorded raffle none e db)
            λ w db' r. untiered-Drawn e w db' r

  -- The statement that counts the draw, after its row is stored.
  counted-Drawn :
      (tier : Uuid) (e : RaffleEntry) (w : Winner) (db1 : Db)
      → Recorded raffle (some tier) e db w db1
      → (count_where (has_room tier) db.raffle_prize_tiers == 0) ≡ false
      → Drawn raffle (some tier) db w (record db {
        raffle_draws = w.draw ∷ db.raffle_draws;
        raffle_prize_tiers = update_where (has_room tier) one_more db.raffle_prize_tiers;
      })
  counted-Drawn tier e w db1 r affected =
      drawn (some tier) e w db1 _ r refl
        (record { same_raffles = refl; same_entries = refl; same_claims = refl })
        (record {
          distinct = (r.unique, fair.distinct);
          entered = (r.entered, fair.entered);
          tiered =
              update-IsTiered (has_room tier) one_more (λ t _. refl) db.raffle_prize_tiers
                (w.draw ∷ db.raffle_draws) (r.tiered, fair.tiered);
          keyed =
              update-HasTierKeys (has_room tier) one_more (λ t _. refl) db.raffle_prize_tiers
                fair.keyed;
          tiers =
              count-IsCounted tier w.draw db.raffle_draws r.of_tier db.raffle_prize_tiers fair.keyed
                fair.tiers affected;
        })

  tier_draw_in_tx-Drawn :
      (tier : Uuid) → Ensures db (tier_draw_in_tx raffle tier) (Drawn raffle (some tier) db)
  unfolding tier_draw_in_tx count_draw
  tier_draw_in_tx-Drawn tier = Ensures-bind-sql _ _ (
      Ensures-bind-ask _ _
        λ n. Ensures-bind-sql _ _ (go (random_loser raffle (won_ids raffle db) n db)))
    where
      go :
          (o : Option RaffleEntry)
          → Ensures db (counted_draw raffle tier o) (Drawn raffle (some tier) db)
      go none = Ensures-raise raffle_exhausted
      go (some e) =
          Ensures-bind (Recorded raffle (some tier) e db) _ _
            (record_draw-Recorded raffle (some tier) e db)
            λ w db1 r. rw r.stored (
              Ensures-bind-sql _ _ (
                Ensures-guard _ _ _ λ affected.
                  Ensures-pure w (counted-Drawn tier e w db1 r (ground (arith, affected)))))

  attempts-Drawn :
      (tier : Option Uuid) (m : M Winner)
      → Ensures db m (Drawn raffle tier db)
      → (n : ℕ) → Safe (λ db'. db' ≡ db) db (draw_attempts n m) (Drawn raffle tier db)
  unfolding draw_attempts
  attempts-Drawn tier m h zero = Safe-raise raffle_exhausted refl
  attempts-Drawn tier m h (suc n) =
      Safe-catch (λ db'. db' ≡ db) (Drawn raffle tier db) _ _ (Safe-transaction _ refl h)
        (λ w db' d. Safe-pure w d)
        (λ e db' same.
          Safe-if (is_duplicated e) (draw_attempts n m) (raise e)
            (λ _. rw same (attempts-Drawn tier m h n)) (λ _. Safe-raise e same))

-- The raffle is the user's, and in a status that permits the draw.
pub record Permitted (raffle user : Uuid) (db : Db) (permits : Raffle → Bool) : Type 0 where
  pub found : Raffle
  pub owned : Owned raffle user db found
  pub permitted : permits found ≡ true

module _ (raffle user : Uuid) (db : Db) (fair : IsFair db) where
  -- `DrawNext`, from fair draws: if it returns, the raffle is the user's and not completed, the winner
  -- is an entry of the raffle that nobody had drawn in it, its row heads the table of draws, and the
  -- draws of all raffles are fair still, each entry drawn once in its raffle at most; if it fails,
  -- after however many attempts, the tables are what they were.
  pub draw_next-Drawn :
      Safe
        (λ db'. db' ≡ db)
        db
        (draw_next raffle user)
        (λ w db'. Drawn raffle none db w db' × Permitted raffle user db (λ r. not (is_completed r)))
  unfolding draw_next
  draw_next-Drawn =
      Safe-bind (λ r db'. Owned raffle user db r × (db' ≡ db)) _ _ (get_by_id-Owned raffle user db)
        λ r db' own. rw own.1 (
          Safe-guard _ _ _ refl λ open_still.
            Safe-outcome (λ db'. db' ≡ db) (Drawn raffle none db)
              (attempts-Drawn raffle db fair none _ (draw_in_tx-Drawn raffle db fair)
                draw_max_retries)
              (λ db' same. same)
              (λ w db' d. (d, record { found = r; owned = own.0; permitted = open_still })))

  -- `DrawFromTier`, from fair draws: if it returns, the raffle is the user's and active, the winner is
  -- an entry of the raffle that nobody had drawn in it for any prize, its row heads the table of
  -- draws, and the draws of all raffles are fair still, so that every tier counts its draws and
  -- has no more than its number of winners; if it fails, after however many attempts, the tables are
  -- what they were.
  pub draw_from_tier-Drawn :
      (tier : Uuid)
      → Safe
          (λ db'. db' ≡ db)
          db
          (draw_from_tier raffle tier user)
          (λ w db'. Drawn raffle (some tier) db w db' × Permitted raffle user db is_active)
  unfolding draw_from_tier
  draw_from_tier-Drawn tier =
      Safe-bind (λ r db'. Owned raffle user db r × (db' ≡ db)) _ _ (get_by_id-Owned raffle user db)
        λ r db' own. rw own.1 (
          Safe-guard _ _ _ refl λ open_still.
            Safe-bind
              (λ t db'.
                (find_first (is_tier_of tier raffle) db.raffle_prize_tiers ≡ some t) × (db' ≡ db))
              _ _
              (Safe-found prize_tier_not_found _
                (Safe-sql (first_tier tier raffle) refl (row-Gives db _)))
              λ t db' same. rw same.1 (
                Safe-guard _ _ _ refl λ room.
                  Safe-outcome (λ db'. db' ≡ db) (Drawn raffle (some tier) db)
                    (attempts-Drawn raffle db fair (some tier) _
                      (tier_draw_in_tx-Drawn raffle db fair tier) draw_max_retries)
                    (λ db' same. same)
                    (λ w db' d. (d, record { found = r; owned = own.0; permitted = open_still }))))
