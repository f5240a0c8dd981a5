-- ===== src/Raffles/Draws.antt =====
-- Draws of winners: `DrawNext` among all entries, `DrawFromTier` for a prize tier. The e-mail and the
-- webhook that follow a draw run beside the call and are left out.
use tachigo.Base.{
  ℕ, zero, suc, Bool, true, false, not, ◌&&◌, ◌||◌, Option, none, some, List, [], ◌∷◌, ◌+◌, ◌%◌,
  ◌==◌, leb, if◌then◌else◌, find_first, select, sort_by, update_where, count_where, length, map,
}
use tachigo.Int.{pos, ltb_ℤ, ◌+ℤ◌}
use tachigo.Models.{
  Uuid, Time, Name, RaffleEntry, RaffleDraw, RafflePrizeTier, Result, Error, ok, err,
  duplicated_key, foreign_key_violated, raffle_exhausted, raffle_completed, raffle_not_active,
  prize_tier_not_found, prize_tier_exhausted,
}
use tachigo.Effect.{
  Db, M, sql, ask, now, new_uuid, guard, raise, catch, transaction, not_found_as, ◌>>=◌, ◌>>◌, pure,
}
use tachigo.Raffles.{get_by_id, is_active, is_completed, has_raffle_id}
use tachigo.Raffles.Tiers.{first_tier, has_tier_id}

abbrev pub claim_token_ttl : ℕ
claim_token_ttl = 604800000000000

abbrev pub draw_max_retries : ℕ
draw_max_retries = 5

-- The draw with what is known only when it is made: the raw token, and the entry. The copy of the
-- tier that `DrawFromTier` attaches for the webhook is left out.
pub record Winner : Type 0 where
  pub draw : RaffleDraw
  pub claim_token_raw : Name
  pub entry : RaffleEntry

-- `raffle_id = ? AND entry_id = ?`
abbrev pub draws_entry : Uuid → Uuid → RaffleDraw → Bool
draws_entry raffle entry d = d.raffle_id == raffle && d.entry_id == entry

abbrev pub is_none {ℓ} : {A : Type ℓ} → Option A → Bool
is_none none = true
is_none (some _) = false

-- The entries of a raffle that no draw of the raffle names.
abbrev pub can_win : Uuid → List RaffleDraw → RaffleEntry → Bool
can_win raffle draws e =
    e.raffle_id == raffle && is_none (find_first (draws_entry raffle e.id) draws)

abbrev pub undrawn : Uuid → Db → List RaffleEntry
undrawn raffle db = select (can_win raffle db.raffle_draws) db.raffle_entries

abbrev pub nth {ℓ} : {A : Type ℓ} → ℕ → List A → Option A
nth n [] = none
nth zero (x ∷ xs) = some x
nth (suc n) (x ∷ xs) = nth n xs

-- `ORDER BY RANDOM() LIMIT 1`
abbrev pub random_entry : Uuid → ℕ → Db → Option RaffleEntry
random_entry raffle n db = let es = undrawn raffle db in nth (n % length es) es

abbrev pub has_entry_id : Uuid → Uuid → RaffleEntry → Bool
has_entry_id raffle id e = e.id == id && e.raffle_id == raffle

-- The primary key, the unique token, and one draw of an entry in a raffle.
abbrev pub draw_clashes : RaffleDraw → RaffleDraw → Bool
draw_clashes d c =
    c.id == d.id || c.claim_token == d.claim_token || draws_entry d.raffle_id d.entry_id c

abbrev pub has_tier : Option Uuid → List RafflePrizeTier → Bool
has_tier none ts = true
has_tier (some id) ts = not (is_none (find_first (has_tier_id id) ts))

-- The rows that a draw refers to are there.
abbrev pub refers : RaffleDraw → Db → Bool
refers d db =
    not (is_none (find_first (has_entry_id d.raffle_id d.entry_id) db.raffle_entries))
    && not (is_none (find_first (has_raffle_id d.raffle_id) db.raffles))
    && has_tier d.prize_tier_id db.raffle_prize_tiers

abbrev pub insert_draw_row : RaffleDraw → Option RaffleDraw → Db → Result (RaffleDraw × Db)
insert_draw_row d (some _) db = err duplicated_key
insert_draw_row d none db =
    if refers d db
    then ok (d, record db { raffle_draws = d ∷ db.raffle_draws })
    else err foreign_key_violated

unfoldable pub insert_draw : RaffleDraw → Db → Result (RaffleDraw × Db)
insert_draw d db = insert_draw_row d (find_first (draw_clashes d) db.raffle_draws) db

abbrev pub new_draw : Uuid → Uuid → Uuid → Name → Time → Time → Option Uuid → RaffleDraw
new_draw id raffle entry token expires at tier = record {
  id = id;
  raffle_id = raffle;
  entry_id = entry;
  claim_token = token;
  claim_expires_at = expires;
  drawn_at = at;
  prize_tier_id = tier;
}

-- The winner's row: a new raw token, of which the row keeps the hash.
unfoldable pub record_draw : Uuid → Option Uuid → RaffleEntry → M Winner
record_draw raffle tier entry = do
  raw ← new_uuid
  token ← ask λ env _. env.outside.sha256_hex raw
  expiry ← now
  at ← now
  id ← new_uuid
  draw ← sql (insert_draw (new_draw id raffle entry.id token (expiry + claim_token_ttl) at tier))
  pure (record { draw = draw; claim_token_raw = raw; entry = entry })

-- The entry that was picked, or none left.
abbrev pub drawn_from : Uuid → Option Uuid → Option RaffleEntry → M Winner
drawn_from raffle tier none = raise raffle_exhausted
drawn_from raffle tier (some e) = record_draw raffle tier e

-- The transaction of `DrawNext`.
unfoldable pub draw_in_tx : Uuid → M Winner
unfolding record_draw
draw_in_tx raffle = do
  n ← ask λ env t. env.outside.random t
  entry ← sql λ db. ok (random_entry raffle n db, db)
  drawn_from raffle none entry

abbrev pub has_room : Uuid → RafflePrizeTier → Bool
has_room id t = has_tier_id id t && ltb_ℤ t.drawn_count t.winner_count

abbrev pub one_more : RafflePrizeTier → RafflePrizeTier
one_more t = record t { drawn_count = t.drawn_count +ℤ pos 1 }

-- `UPDATE … SET drawn_count = drawn_count + 1 WHERE id = ? AND drawn_count < winner_count`
unfoldable pub count_draw : Uuid → Db → Result (ℕ × Db)
count_draw id db = ok (
  count_where (has_room id) db.raffle_prize_tiers,
  record db { raffle_prize_tiers = update_where (has_room id) one_more db.raffle_prize_tiers },
)

-- The entry that has won a tier's prize, and the tier's counter.
abbrev pub counted_draw : Uuid → Uuid → Option RaffleEntry → M Winner
counted_draw raffle tier none = raise raffle_exhausted
counted_draw raffle tier (some e) = do
  w ← record_draw raffle (some tier) e
  affected ← sql (count_draw tier)
  guard (not (affected == 0)) prize_tier_exhausted
  pure w

-- The entries that have won anything in the raffle: `Pluck("entry_id", &wonIDs)`.
abbrev pub won_ids : Uuid → Db → List Uuid
won_ids raffle db = map (λ d. d.entry_id) (select (λ d. d.raffle_id == raffle) db.raffle_draws)

-- `raffle_id = ? AND id NOT IN ?`
abbrev pub has_not_won : Uuid → List Uuid → RaffleEntry → Bool
has_not_won raffle won e = e.raffle_id == raffle && is_none (find_first (λ id. id == e.id) won)

abbrev pub random_loser : Uuid → List Uuid → ℕ → Db → Option RaffleEntry
random_loser raffle won n db =
    let es = select (has_not_won raffle won) db.raffle_entries in nth (n % length es) es

-- The transaction of `DrawFromTier`.
unfoldable pub tier_draw_in_tx : Uuid → Uuid → M Winner
unfolding record_draw
tier_draw_in_tx raffle tier = do
  won ← sql λ db. ok (won_ids raffle db, db)
  n ← ask λ env t. env.outside.random t
  entry ← sql λ db. ok (random_loser raffle won n db, db)
  counted_draw raffle tier entry

abbrev pub is_duplicated : Error → Bool
is_duplicated duplicated_key = true
is_duplicated _ = false

-- A duplicate key leads to another attempt, any other error is returned.
abbrev pub after_draw : M Winner → Result Winner → M Winner
after_draw again (ok w) = pure w
after_draw again (err e) = if is_duplicated e then again else raise e

-- Each attempt runs in its own transaction; after the last the raffle counts as exhausted.
unfoldable pub draw_attempts : ℕ → M Winner → M Winner
draw_attempts zero m = raise raffle_exhausted
draw_attempts (suc n) m = catch (transaction m) (after_draw (draw_attempts n m))

unfoldable pub draw_next : Uuid → Uuid → M Winner
unfolding get_by_id draw_in_tx draw_attempts
draw_next raffle user = do
  r ← get_by_id raffle user
  guard (not (is_completed r)) raffle_completed
  draw_attempts draw_max_retries (draw_in_tx raffle)

unfoldable pub draw_from_tier : Uuid → Uuid → Uuid → M Winner
unfolding get_by_id tier_draw_in_tx draw_attempts
draw_from_tier raffle tier user = do
  r ← get_by_id raffle user
  guard (is_active r) raffle_not_active
  t ← not_found_as prize_tier_not_found (sql (first_tier tier raffle))
  guard (ltb_ℤ t.drawn_count t.winner_count) prize_tier_exhausted
  draw_attempts draw_max_retries (tier_draw_in_tx raffle tier)

-- `ORDER BY drawn_at DESC`, each draw with its entry.
abbrev pub drawn_later : RaffleDraw → RaffleDraw → Bool
drawn_later d c = leb c.drawn_at d.drawn_at

abbrev pub with_entry : Db → RaffleDraw → RaffleDraw × Option RaffleEntry
with_entry db d = (d, find_first (has_entry_id d.raffle_id d.entry_id) db.raffle_entries)

abbrev pub draws_of : Uuid → Db → List (RaffleDraw × Option RaffleEntry)
draws_of raffle db =
    map (with_entry db) (sort_by drawn_later (select (λ d. d.raffle_id == raffle) db.raffle_draws))

pub get_draws_by_raffle_public : Uuid → M (List (RaffleDraw × Option RaffleEntry))
get_draws_by_raffle_public raffle = sql λ db. ok (draws_of raffle db, db)

pub list_draws : Uuid → Uuid → M (List (RaffleDraw × Option RaffleEntry))
list_draws raffle user = get_by_id raffle user >> sql λ db. ok (draws_of raffle db, db)
