-- ===== src/Raffles/Winners.antt =====
-- Claims of winners, who come with the token of their draw.
use tachigo.Base.{
  Bool, false, ◌||◌, Option, none, some, ◌∷◌, ◌==◌, leb, if◌then◌else◌, find_first, is_some_of,
}
use tachigo.Models.{
  Uuid, Time, Name, RaffleEntry, RaffleDraw, RaffleClaim, Result, ok, err, duplicated_key,
  foreign_key_violated, claim_not_found, claim_token_expired, claim_forbidden, claim_already_done,
}
use tachigo.Effect.{
  Db, M, sql, ask, now, new_uuid, guard, raise, catch, not_found_as, ◌>>=◌, ◌>>◌, pure,
}
use tachigo.Ledger.{row_or_missing}
use tachigo.Raffles.Draws.{has_entry_id}

pub record ClaimInput : Type 0 where
  pub recipient_name : Name
  pub phone : Name
  pub address_line1 : Name
  pub address_line2 : Name
  pub city : Name
  pub postal_code : Name
  pub country : Name

abbrev pub has_token : Name → RaffleDraw → Bool
has_token token d = d.claim_token == token

abbrev pub first_draw : Name → Db → Result (RaffleDraw × Db)
first_draw token db = row_or_missing (find_first (has_token token) db.raffle_draws) db

-- `Preload("Entry")`
abbrev pub entry_of : RaffleDraw → Db → Option RaffleEntry
entry_of d db = find_first (has_entry_id d.raffle_id d.entry_id) db.raffle_entries

unfoldable pub get_draw_by_token : Name → M (RaffleDraw × Option RaffleEntry)
get_draw_by_token raw = do
  token ← ask λ env _. env.outside.sha256_hex raw
  d ← not_found_as claim_not_found (sql (first_draw token))
  e ← sql λ db. ok (entry_of d db, db)
  at ← now
  guard (leb at d.claim_expires_at) claim_token_expired
  pure (d, e)

-- `draw.Entry.UserID != nil && *draw.Entry.UserID == userID`
abbrev pub is_winner : Uuid → Option RaffleEntry → Bool
is_winner user none = false
is_winner user (some e) = is_some_of e.user_id user

-- "TW", whose bytes are 0x54 and 0x57.
abbrev pub default_country : Name
default_country = 21591

abbrev pub country_of : Name → Name
country_of c = if c == 0 then default_country else c

abbrev pub new_claim : Uuid → Uuid → ClaimInput → Time → RaffleClaim
new_claim id draw input at = record {
  id = id;
  draw_id = draw;
  recipient_name = input.recipient_name;
  phone = input.phone;
  address_line1 = input.address_line1;
  address_line2 = input.address_line2;
  city = input.city;
  postal_code = input.postal_code;
  country = country_of input.country;
  submitted_at = at;
}

-- The primary key, and one claim of a draw.
abbrev pub claims_draw : Uuid → RaffleClaim → Bool
claims_draw draw c = c.draw_id == draw

abbrev pub claim_clashes : RaffleClaim → RaffleClaim → Bool
claim_clashes c b = b.id == c.id || claims_draw c.draw_id b

abbrev pub insert_claim_row :
    RaffleClaim → Option RaffleClaim → Option RaffleDraw → Db → Result (RaffleClaim × Db)
insert_claim_row c (some _) _ db = err duplicated_key
insert_claim_row c none none db = err foreign_key_violated
insert_claim_row c none (some _) db = ok (c, record db { raffle_claims = c ∷ db.raffle_claims })

unfoldable pub insert_raffle_claim : RaffleClaim → Db → Result (RaffleClaim × Db)
insert_raffle_claim c db =
    insert_claim_row c (find_first (claim_clashes c) db.raffle_claims)
      (find_first (λ d. d.id == c.draw_id) db.raffle_draws) db

-- A duplicate key is a claim that was submitted before.
abbrev pub after_claim : Result RaffleClaim → M RaffleClaim
after_claim (ok c) = pure c
after_claim (err duplicated_key) = raise claim_already_done
after_claim (err e) = raise e

unfoldable pub submit_claim : Name → Uuid → ClaimInput → M RaffleClaim
unfolding get_draw_by_token
submit_claim raw user input = do
  found ← get_draw_by_token raw
  guard (is_winner user found.1) claim_forbidden
  at ← now
  id ← new_uuid
  catch (sql (insert_raffle_claim (new_claim id found.0.id input at))) after_claim
