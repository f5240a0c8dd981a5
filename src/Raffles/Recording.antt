-- ===== src/Raffles/Recording.antt =====
-- Recording a draw, and what a draw has done.
use tachigo.Base.{◌+◌, ◌≡◌, ◌≢◌, refl, ap, true, Option, none, some, ◌∷◌, not, arith, find_first}
use tachigo.Models.{Uuid, RaffleEntry, RaffleDraw}
use tachigo.Effect.{Db}
use tachigo.Effect.Ensures.{
  Gives, Gives-if, Ensures, Ensures-pure, Ensures-bind, Ensures-sql, Ensures-bind-now,
  Ensures-bind-new_uuid, Ensures-bind-ask,
}
use tachigo.Raffles.Draws.{
  Winner, draws_entry, has_entry_id, draw_clashes, is_none, refers, insert_draw_row, insert_draw,
  new_draw, record_draw, claim_token_ttl,
}
use tachigo.Raffles.Fairness.{IsEntered, IsTiered, IsFair, OnlyPrizes}

-- A draw that has been recorded, before any counter: its row heads the table, and clashes with none.
pub record Recorded (raffle : Uuid) (tier : Option Uuid) (e : RaffleEntry) (db : Db) (w : Winner)
    (db' : Db) : Type 0 where
  pub same_entry : w.entry ≡ e
  pub of_raffle : w.draw.raffle_id ≡ raffle
  pub of_entry : w.draw.entry_id ≡ e.id
  pub of_tier : w.draw.prize_tier_id ≡ tier
  pub stored : db' ≡ record db { raffle_draws = w.draw ∷ db.raffle_draws }
  pub unique : find_first (draw_clashes w.draw) db.raffle_draws ≡ none
  pub entered : IsEntered db.raffle_entries w.draw
  pub tiered : IsTiered db.raffle_prize_tiers w.draw

there {ℓ} : {A : Type ℓ} (o : Option A) → not (is_none o) ≡ true → o ≢ none
there none h e = cc
there (some a) h e = cc

-- What the insertion leaves.
abbrev Inserted : RaffleDraw → Db → RaffleDraw → Db → Type 0
Inserted d db d' db' =
    (d' ≡ d)
    × (db' ≡ record db { raffle_draws = d ∷ db.raffle_draws })
    × (find_first (draw_clashes d) db.raffle_draws ≡ none)
    × IsEntered db.raffle_entries d
    × IsTiered db.raffle_prize_tiers d

insert_draw-Gives : (d : RaffleDraw) (db : Db) → Gives (insert_draw d db) (Inserted d db)
unfolding insert_draw
insert_draw-Gives d db = go (find_first (draw_clashes d) db.raffle_draws) refl
  where
    go :
        (o : Option RaffleDraw)
        → find_first (draw_clashes d) db.raffle_draws ≡ o
        → Gives (insert_draw_row d o db) (Inserted d db)
    go (some _) e = tt
    go none e =
        Gives-if _ (refers d db) _ _
          (λ r. (refl, refl, e, there _ (ground (arith, r)), ground (arith, r))) (λ _. tt)

pub record_draw-Recorded :
    (raffle : Uuid) (tier : Option Uuid) (e : RaffleEntry) (db : Db)
    → Ensures db (record_draw raffle tier e) (Recorded raffle tier e db)
unfolding record_draw
record_draw-Recorded raffle tier e db = Ensures-bind-new_uuid _ λ raw. Ensures-bind-ask _ _ λ token.
    Ensures-bind-now _ λ expiry. Ensures-bind-now _ λ at. Ensures-bind-new_uuid _ λ id.
      let draw = new_draw id raffle e.id token (expiry + claim_token_ttl) at tier in
      Ensures-bind (Inserted draw db) _ _
        (Ensures-sql (insert_draw draw) (insert_draw-Gives draw db))
        λ d db' h. Ensures-pure _ (record {
          same_entry = refl;
          of_raffle = ap (λ x. x.raffle_id) h.0;
          of_entry = ap (λ x. x.entry_id) h.0;
          of_tier = ap (λ x. x.prize_tier_id) h.0;
          stored = rw h.0 h.1;
          unique = rw h.0 h.2;
          entered = rw h.0 h.3;
          tiered = rw h.0 h.4;
        })

-- What a draw has done: the winner is an entry of the raffle that nobody had drawn in it, its row
-- heads the table of draws, and the draws of all raffles are fair still.
pub record Drawn (raffle : Uuid) (tier : Option Uuid) (db : Db) (w : Winner) (db' : Db)
    : Type 0 where
  pub fair : IsFair db'
  pub of_raffle : w.draw.raffle_id ≡ raffle
  pub of_entry : w.draw.entry_id ≡ w.entry.id
  pub of_tier : w.draw.prize_tier_id ≡ tier
  pub entered : find_first (has_entry_id raffle w.entry.id) db.raffle_entries ≢ none
  pub fresh : find_first (draws_entry raffle w.entry.id) db.raffle_draws ≡ none
  pub frame : OnlyPrizes db db'
  pub logged : db'.raffle_draws ≡ w.draw ∷ db.raffle_draws
