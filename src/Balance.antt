-- ===== src/Balance.antt =====
-- The token balances (models/tachi_balance.go), which claims fill and coupons empty. The column is
-- numeric(20,6) with the check that it is not negative; one row for each user.
pub mod Tokens
use tachigo.Base.{
  ℕ, Bool, not, ◌&&◌, Option, none, some, ◌∷◌, ◌==◌, ltb, if◌then◌else◌, find_first, update_where,
}
use tachigo.Int.{ℤ, pos, pos_part, neg_part, ◌+ℤ◌, ◌*ℤ◌, leb_ℤ}
use tachigo.Models.{
  Uuid, Time, TachiBalance, Result, ok, err, duplicated_key, check_violated, out_of_range,
}
use tachigo.Effect.{Db, M, sql, pure, not_found_to, ◌>>=◌}
use tachigo.Ledger.{row_or_missing}

abbrev pub balance_of_user : Uuid → TachiBalance → Bool
balance_of_user user b = b.user_id == user

abbrev pub has_balance_id : Uuid → TachiBalance → Bool
has_balance_id id b = b.id == id

-- Fourteen digits stand before the point.
abbrev pub numeric_limit : ℕ
numeric_limit = 100000000000000

abbrev pub fits_numeric : ℤ → Bool
fits_numeric a = ltb (pos_part a) numeric_limit && ltb (neg_part a) numeric_limit

-- The constraints of a balance that is about to be stored, then the write.
abbrev pub checked : ℤ → Db → Result (Unit {0} × Db) → Result (Unit {0} × Db)
checked balance db r =
    if not (fits_numeric balance)
    then err out_of_range
    else (if leb_ℤ (pos 0) balance then r else err check_violated)

abbrev pub topped_up : ℤ → Time → TachiBalance → TachiBalance
topped_up amount at b = record b { balance = b.balance +ℤ amount; updated_at = at }

abbrev pub set_user_balance : ℤ → Time → TachiBalance → TachiBalance
set_user_balance balance at b = record b { balance = balance; updated_at = at }

abbrev pub insert_balance : TachiBalance → Option TachiBalance → Db → Result (Unit {0} × Db)
insert_balance b (some _) db = err duplicated_key
insert_balance b none db = ok (tt, record db { tachi_balances = b ∷ db.tachi_balances })

abbrev pub upsert_balance_row :
    Uuid → Uuid → ℤ → Time → Option TachiBalance → Db → Result (Unit {0} × Db)
upsert_balance_row id user amount at (some b) db = checked (b.balance +ℤ amount) db (
    ok (
      tt,
      record db {
        tachi_balances =
            update_where (balance_of_user user) (topped_up amount at) db.tachi_balances;
      },
    ))
upsert_balance_row id user amount at none db = checked amount db (
    insert_balance (record { id = id; user_id = user; balance = amount; updated_at = at })
      (find_first (has_balance_id id) db.tachi_balances) db)

-- `INSERT INTO tachi_balances … ON CONFLICT (user_id) DO UPDATE SET balance = … + EXCLUDED.balance`
unfoldable pub upsert_balance : Uuid → Uuid → ℤ → Time → Db → Result (Unit {0} × Db)
upsert_balance id user amount at db =
    upsert_balance_row id user amount at (find_first (balance_of_user user) db.tachi_balances) db

abbrev pub read_balance : Uuid → Db → Result (TachiBalance × Db)
read_balance user db = row_or_missing (find_first (balance_of_user user) db.tachi_balances) db

-- `loadTachiBalanceValue`: the stored whole tokens, or that there is no row.
unfoldable pub load_tachi_balance_value : Uuid → M ℤ
load_tachi_balance_value user = sql (read_balance user) >>= λ b. pure b.balance

-- `GetTachiBalance`
pub get_tachi_balance : Uuid → M ℤ
unfolding load_tachi_balance_value
get_tachi_balance user = not_found_to (pos 0) (load_tachi_balance_value user)

-- `tachiWholeTokensToRawUnits`: eighteen decimals.
unfoldable pub tachi_whole_tokens_to_raw_units : ℤ → ℤ
tachi_whole_tokens_to_raw_units amount = amount *ℤ pos 1000000000000000000
