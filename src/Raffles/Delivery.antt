-- ===== src/Raffles/Delivery.antt =====
-- The claim of a prize: GetDrawByToken and SubmitClaim of services/raffle_service.go.
use tachigo.Base.{
  ℕ, suc, ◌≡◌, refl, true, Option, none, some, List, ◌∷◌, ◌==◌, leb, [], arith, find_first,
}
use tachigo.Models.{
  Uuid, Time, Name, RaffleDraw, RaffleEntry, RaffleClaim, Error, err, duplicated_key,
  claim_not_found, claim_already_done, claim_token_expired, ok,
}
use tachigo.Effect.{Db, Env, World, world, sql, now, guard, pure, ◌>>=◌}
use tachigo.Effect.Runs.{
  IsRead, Runs, Runs-Safe, Runs-bind, Runs-bind-ask, Runs-bind-found, Runs-bind-sql, Runs-bind-now,
  Runs-guard,
}
use tachigo.Ledger.{row_or_missing}
use tachigo.Effect.Ensures.{Gives}
use tachigo.Effect.Safe.{
  Safe, Safe-pure, Safe-raise, Safe-guard, Safe-catch, Safe-sql, Safe-bind-now, Safe-bind-new_uuid,
}
use tachigo.Raffles.Winners.{
  ClaimInput, has_token, first_draw, entry_of, get_draw_by_token, is_winner, new_claim, claims_draw,
  claim_clashes, insert_claim_row, insert_raffle_claim, after_claim, submit_claim,
}

-- One claim of a draw at most.
abbrev pub HasSingleClaims : List RaffleClaim → Type 0
HasSingleClaims [] = Unit
HasSingleClaims (c ∷ cs) = (find_first (claims_draw c.draw_id) cs ≡ none) × HasSingleClaims cs

-- The presented token, by its hash, finds the draw, and a reading of the clock is before its expiry.
pub record Opened (raw : Name) (w : World) (d : RaffleDraw) : Type 0 where
  pub found : find_first (has_token (w.env.outside.sha256_hex raw)) w.db.raffle_draws ≡ some d
  pub at : Time
  pub read : IsRead w at
  pub in_time : leb at d.claim_expires_at ≡ true

get_draw_by_token-Opened :
    (raw : Name) (env : Env) (tick : ℕ) (db : Db)
    → Runs
        (λ db'. db' ≡ db)
        (world env tick db)
        (get_draw_by_token raw)
        (λ (r : RaffleDraw × Option RaffleEntry) db'.
          Opened raw (world env tick db) r.0 × (r.1 ≡ entry_of r.0 db) × (db' ≡ db))
unfolding get_draw_by_token
get_draw_by_token-Opened raw env tick db = Runs-bind-ask _ _ (
    Runs-bind-found claim_not_found (first_draw (env.outside.sha256_hex raw)) _ refl
      (go (find_first (has_token (env.outside.sha256_hex raw)) db.raffle_draws) refl))
  where
    go :
        (o : Option RaffleDraw)
        → find_first (has_token (env.outside.sha256_hex raw)) db.raffle_draws ≡ o
        → Gives (row_or_missing o db) (λ d db'.
          Runs
            (λ db'. db' ≡ db)
            (world env (suc (suc tick)) db')
            (sql (λ db. ok (entry_of d db, db)) >>= λ e. now >>= λ at.
              guard (leb at d.claim_expires_at) claim_token_expired >>= λ _. pure (d, e))
            (λ (r : RaffleDraw × Option RaffleEntry) db'.
              Opened raw (world env tick db) r.0 × (r.1 ≡ entry_of r.0 db) × (db' ≡ db)))
    go none found = tt
    go (some d) found = Runs-bind-sql _ _ refl (
        Runs-bind-now _ (
          Runs-guard _ _ _ refl λ in_time. Runs-Safe (
            Safe-pure (d, entry_of d db)
              (
                record {
                  found = found;
                  at = env.clock (suc (suc (suc tick)));
                  read = (_, omega arith, refl);
                  in_time = in_time;
                },
                refl,
                refl,
              ))))

-- What a claim leaves: the winner's, of a draw whose token has not expired and that had no claim.
pub record Claimed (raw : Name) (user : Uuid) (w : World) (c : RaffleClaim) (db' : Db)
    : Type 0 where
  pub draw : RaffleDraw
  pub opened : Opened raw w draw
  pub winner : is_winner user (entry_of draw w.db) ≡ true
  pub of_draw : c.draw_id ≡ draw.id
  pub first : find_first (claims_draw draw.id) w.db.raffle_claims ≡ none
  pub stored : db' ≡ record w.db { raffle_claims = c ∷ w.db.raffle_claims }
  pub single : HasSingleClaims db'.raffle_claims

unclaimed :
    (c : RaffleClaim) (cs : List RaffleClaim)
    → find_first (claim_clashes c) cs ≡ none
    → find_first (claims_draw c.draw_id) cs ≡ none
unclaimed c [] e = refl
unclaimed c (b ∷ cs) e = ground (arith, e, unclaimed c cs)

module _ (raw : Name) (user : Uuid) (input : ClaimInput) (w : World)
    (single : HasSingleClaims w.db.raffle_claims) where
  insert-Claimed :
      (d : RaffleDraw) (c : RaffleClaim)
      → Opened raw w d
      → is_winner user (entry_of d w.db) ≡ true
      → c.draw_id ≡ d.id
      → Gives (insert_raffle_claim c w.db) (Claimed raw user w)
  unfolding insert_raffle_claim
  insert-Claimed d c opened winner own =
      go (find_first (claim_clashes c) w.db.raffle_claims) refl
        (find_first (λ r. r.id == c.draw_id) w.db.raffle_draws)
    where
      go :
          (o : Option RaffleClaim)
          → find_first (claim_clashes c) w.db.raffle_claims ≡ o
          → (r : Option RaffleDraw) → Gives (insert_claim_row c o r w.db) (Claimed raw user w)
      go (some _) e r = tt
      go none e none = tt
      go none e (some _) =
          let first = unclaimed c w.db.raffle_claims e in
          record {
            draw = d;
            opened = opened;
            winner = winner;
            of_draw = own;
            first = rw (← own) first;
            stored = refl;
            single = (first, single);
          }

  -- `SubmitClaim`, from tables with one claim of a draw at most: if it returns, the hash of the presented
  -- token is a draw's, whose expiry the clock has not passed, the user is linked to the entry that the draw
  -- picked, the draw had no claim, and the new claim of it is the only change, so that there is still
  -- one claim of a draw at most; if it fails, the tables are what they were.
  pub submit_claim-Claimed :
      Runs (λ db'. db' ≡ w.db) w (submit_claim raw user input) (Claimed raw user w)
  unfolding submit_claim
  submit_claim-Claimed =
      Runs-bind (λ r db'. Opened raw w r.0 × (r.1 ≡ entry_of r.0 w.db) × (db' ≡ w.db)) _ _
        (get_draw_by_token-Opened raw w.env w.tick w.db)
        λ r db' open_draw. rw open_draw.2 (
          Safe-guard _ _ _ refl λ won. Safe-bind-now _ λ at. Safe-bind-new_uuid _ λ id.
            Safe-catch (λ db'. db' ≡ w.db) (Claimed raw user w) _ _
              (Safe-sql _ refl (
                insert-Claimed r.0 (new_claim id r.0.id input at) open_draw.0
                  (rw (← open_draw.1) won) refl))
              (λ c db' h. Safe-pure c h) (λ e db' same. failed e db' same))
    where
      failed :
          (e : Error) (db' : Db)
          → db' ≡ w.db
          → Safe (λ db'. db' ≡ w.db) db' (after_claim (err e)) (Claimed raw user w)
      failed duplicated_key db' same = Safe-raise claim_already_done same
      failed e db' same = Safe-raise e same
