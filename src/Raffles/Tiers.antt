-- ===== src/Raffles/Tiers.antt =====
-- The prize tiers of a raffle.
use tachigo.Base.{
  ℕ, Bool, not, ◌&&◌, ◌||◌, Option, none, some, List, [], ◌∷◌, ◌==◌, if◌then◌else◌, find_first,
  select, sort_by, update_where, delete_where, count_where, map, is_some_of,
}
use tachigo.Int.{ℤ, pos, eq_ℤ, ltb_ℤ, leb_ℤ, add64, fits_int32}
use tachigo.Models.{
  Uuid, Name, RaffleDraw, RafflePrizeTier, Result, ok, err, duplicated_key, out_of_range,
  check_violated, prize_tier_invalid_count, prize_tier_not_found, prize_tier_has_draws,
}
use tachigo.Effect.{Db, M, sql, new_uuid, guard, not_found_as, ◌>>=◌, ◌>>◌}
use tachigo.Ledger.{row_or_missing}
use tachigo.Raffles.{get_by_id}

pub record CreatePrizeTierInput : Type 0 where
  pub name : Name
  pub prize_description : Name
  pub winner_count : ℤ

pub record UpdatePrizeTierInput : Type 0 where
  pub name : Option Name
  pub prize_description : Option Name
  pub winner_count : Option ℤ

abbrev pub has_tier_id : Uuid → RafflePrizeTier → Bool
has_tier_id id t = t.id == id

-- `id = ? AND raffle_id = ?`
abbrev pub is_tier_of : Uuid → Uuid → RafflePrizeTier → Bool
is_tier_of id raffle t = has_tier_id id t && t.raffle_id == raffle

abbrev pub first_tier : Uuid → Uuid → Db → Result (RafflePrizeTier × Db)
first_tier id raffle db =
    row_or_missing (find_first (is_tier_of id raffle) db.raffle_prize_tiers) db

abbrev pub tiers_of : Uuid → Db → List RafflePrizeTier
tiers_of raffle db = select (λ t. t.raffle_id == raffle) db.raffle_prize_tiers

-- `COALESCE(MAX(position), 0)`
unfoldable pub max_position : List RafflePrizeTier → ℤ
max_position [] = pos 0
max_position (t ∷ []) = t.position
max_position (t ∷ ts) =
    let rest = max_position ts in if ltb_ℤ rest t.position then t.position else rest

-- The checks of the table: the columns are 32 bits wide, and a tier has a winner.
abbrev pub stores_tier : RafflePrizeTier → Bool
stores_tier t = fits_int32 t.winner_count && fits_int32 t.drawn_count && fits_int32 t.position

abbrev pub checked_tier : RafflePrizeTier → Db → Result (RafflePrizeTier × Db)
checked_tier t db =
    if stores_tier t
    then (if leb_ℤ (pos 1) t.winner_count then ok (t, db) else err check_violated)
    else err out_of_range

abbrev pub insert_tier_row :
    RafflePrizeTier → Option RafflePrizeTier → Db → Result (RafflePrizeTier × Db)
insert_tier_row t (some _) db = err duplicated_key
insert_tier_row t none db =
    checked_tier t (record db { raffle_prize_tiers = t ∷ db.raffle_prize_tiers })

abbrev pub insert_tier : RafflePrizeTier → Db → Result (RafflePrizeTier × Db)
insert_tier t db = insert_tier_row t (find_first (has_tier_id t.id) db.raffle_prize_tiers) db

abbrev pub new_tier : Uuid → Uuid → CreatePrizeTierInput → ℤ → RafflePrizeTier
new_tier id raffle input position = record {
  id = id;
  raffle_id = raffle;
  name = input.name;
  prize_description = input.prize_description;
  winner_count = input.winner_count;
  drawn_count = pos 0;
  position = position;
}

unfoldable pub create_prize_tier : Uuid → Uuid → CreatePrizeTierInput → M RafflePrizeTier
unfolding max_position
create_prize_tier raffle user input = do
  guard (not (ltb_ℤ input.winner_count (pos 1))) prize_tier_invalid_count
  get_by_id raffle user
  last ← sql λ db. ok (max_position (tiers_of raffle db), db)
  id ← new_uuid
  sql (insert_tier (new_tier id raffle input (add64 last (pos 1))))

-- `ORDER BY position ASC`
abbrev pub placed_before : RafflePrizeTier → RafflePrizeTier → Bool
placed_before t s = leb_ℤ t.position s.position

pub list_prize_tiers : Uuid → Uuid → M (List RafflePrizeTier)
list_prize_tiers raffle user = do
  get_by_id raffle user
  sql λ db. ok (sort_by placed_before (tiers_of raffle db), db)

-- Whether the new number of winners is refused.
abbrev pub is_bad_count : Option ℤ → RafflePrizeTier → Bool
is_bad_count none t = Bool.false
is_bad_count (some n) t = ltb_ℤ n (pos 1) || ltb_ℤ n t.drawn_count

abbrev pub set_or {ℓ} : {A : Type ℓ} → Option A → A → A
set_or none a = a
set_or (some b) a = b

abbrev pub edited : UpdatePrizeTierInput → RafflePrizeTier → RafflePrizeTier
edited input t = record t {
  name = set_or input.name t.name;
  prize_description = set_or input.prize_description t.prize_description;
  winner_count = set_or input.winner_count t.winner_count;
}

-- `Save`: every column of the row is written, the number of draws that was read included.
abbrev pub save_tier : RafflePrizeTier → Db → Result (RafflePrizeTier × Db)
save_tier t db = checked_tier t (record db {
  raffle_prize_tiers = update_where (has_tier_id t.id) (λ _. t) db.raffle_prize_tiers;
})

unfoldable pub update_prize_tier : Uuid → Uuid → Uuid → UpdatePrizeTierInput → M RafflePrizeTier
update_prize_tier raffle id user input = do
  get_by_id raffle user
  t ← not_found_as prize_tier_not_found (sql (first_tier id raffle))
  guard (not (is_bad_count input.winner_count t)) prize_tier_invalid_count
  sql (save_tier (edited input t))

-- `prize_tier_id … ON DELETE SET NULL`
abbrev pub forget_tier : Uuid → RaffleDraw → RaffleDraw
forget_tier id d = if is_some_of d.prize_tier_id id then record d { prize_tier_id = none } else d

abbrev pub is_undrawn : Uuid → Uuid → RafflePrizeTier → Bool
is_undrawn id raffle t = is_tier_of id raffle t && eq_ℤ t.drawn_count (pos 0)

-- The number of rows deleted.
abbrev pub delete_tier : Uuid → Uuid → Db → Result (ℕ × Db)
delete_tier id raffle db =
    let n = count_where (is_undrawn id raffle) db.raffle_prize_tiers in
    ok (
      n,
      record db {
        raffle_prize_tiers = delete_where (is_undrawn id raffle) db.raffle_prize_tiers;
        raffle_draws = if n == 0 then db.raffle_draws else map (forget_tier id) db.raffle_draws;
      },
    )

unfoldable pub delete_prize_tier : Uuid → Uuid → Uuid → M (Unit {0})
delete_prize_tier raffle id user = do
  get_by_id raffle user
  not_found_as prize_tier_not_found (sql (first_tier id raffle))
  deleted ← sql (delete_tier id raffle)
  guard (not (deleted == 0)) prize_tier_has_draws
