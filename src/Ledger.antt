-- ===== src/Ledger.antt =====
-- The statements on `points_ledgers` and `points_transactions` that the services issue, with the
-- constraints of the schema: primary keys, the foreign key of a transaction, the partial unique index
-- on external ids, and the range of a bigint column.
pub mod Awards
pub mod Audit
pub mod Rows
pub mod Entries
pub mod Lookups
pub mod Posting
pub mod Credit
pub mod Debit
use tachigo.Base.{
  ℕ, String, Bool, true, false, ◌&&◌, ◌||◌, Option, none, some, List, [], ◌∷◌, ◌==◌, if◌then◌else◌,
  find_first, update_where,
}
use tachigo.Int.{ℤ, pos, ◌+ℤ◌, fits_int64}
use tachigo.Models.{
  Uuid, Time, Name, TxSource, PointsLedger, PointsTransaction, Result, ok, err, record_not_found,
  duplicated_key, foreign_key_violated, out_of_range,
}
use tachigo.Effect.{Db, M, sql, now, new_uuid, ◌>>=◌, ◌>>◌, pure}
use text.Mathlib.Text.{◌==◌ as str_eq}

-- `user_id = ? AND channel_id = ?`
abbrev pub owned : Uuid → Name → PointsLedger → Bool
owned user channel l = l.user_id == user && l.channel_id == channel

abbrev pub has_id : Uuid → PointsLedger → Bool
has_id id l = l.id == id

abbrev pub row_or_missing : {A : Type 0} → Option A → Db → Result (A × Db)
row_or_missing none db = err record_not_found
row_or_missing (some a) db = ok (a, db)

-- `Where("user_id = ? AND channel_id = ?").First(&ledger)`
abbrev pub first_ledger : Uuid → Name → Db → Result (PointsLedger × Db)
first_ledger user channel db = row_or_missing (find_first (owned user channel) db.points_ledgers) db

-- `Where("id = ?").First(&ledger)`
abbrev pub ledger_by_id : Uuid → Db → Result (PointsLedger × Db)
ledger_by_id id db = row_or_missing (find_first (has_id id) db.points_ledgers) db

-- `Updates({"spendable_balance": balance, "updated_at": at})` on the row `id`.
abbrev pub with_balance : ℤ → Time → PointsLedger → PointsLedger
with_balance balance at l = record l { spendable_balance = balance; updated_at = at }

abbrev pub set_balance : Uuid → ℤ → Time → Db → Result (Unit {0} × Db)
set_balance id balance at db = ok (
  tt,
  record db {
    points_ledgers = update_where (has_id id) (with_balance balance at) db.points_ledgers;
  },
)

-- `DO UPDATE SET spendable_balance = … + EXCLUDED.spendable_balance, …`
abbrev pub credited : ℤ → Time → PointsLedger → PointsLedger
credited amount at l = record l {
  spendable_balance = l.spendable_balance +ℤ amount;
  cumulative_total = l.cumulative_total +ℤ amount;
  updated_at = at;
}

abbrev pub new_ledger : Uuid → Uuid → Name → ℤ → Time → PointsLedger
new_ledger id user channel amount at = record {
  id = id;
  user_id = user;
  channel_id = channel;
  cumulative_total = amount;
  spendable_balance = amount;
  created_at = at;
  updated_at = at;
}

abbrev pub update_ledger : Uuid → Name → ℤ → Time → PointsLedger → Db → Result (Unit {0} × Db)
update_ledger user channel amount at l db =
    if fits_int64 (l.spendable_balance +ℤ amount) && fits_int64 (l.cumulative_total +ℤ amount)
    then ok (
      tt,
      record db {
        points_ledgers = update_where (owned user channel) (credited amount at) db.points_ledgers;
      },
    )
    else err out_of_range

abbrev pub insert_ledger : PointsLedger → Option PointsLedger → Db → Result (Unit {0} × Db)
insert_ledger l (some _) db = err duplicated_key
insert_ledger l none db = ok (tt, record db { points_ledgers = l ∷ db.points_ledgers })

abbrev pub upsert_row :
    Uuid → Uuid → Name → ℤ → Time → Option PointsLedger → Db → Result (Unit {0} × Db)
upsert_row id user channel amount at (some l) db = update_ledger user channel amount at l db
upsert_row id user channel amount at none db =
    insert_ledger (new_ledger id user channel amount at) (find_first (has_id id) db.points_ledgers)
      db

-- `INSERT INTO points_ledgers … ON CONFLICT (user_id, channel_id) DO UPDATE …`
pub upsert_ledger : Uuid → Uuid → Name → ℤ → Time → Db → Result (Unit {0} × Db)
upsert_ledger id user channel amount at db =
    upsert_row id user channel amount at (find_first (owned user channel) db.points_ledgers) db

-- Two external ids collide under the partial unique index, which ignores nulls.
abbrev same_text : String → Option String → Bool
same_text e none = false
same_text e (some f) = str_eq e f

abbrev pub same_external_id : Option String → PointsTransaction → Bool
same_external_id none t = false
same_external_id (some e) t = same_text e t.external_transaction_id

abbrev pub has_tx_id : Uuid → PointsTransaction → Bool
has_tx_id id t = t.id == id

-- A row collides with another by its primary key or by its external id.
abbrev pub collides : PointsTransaction → PointsTransaction → Bool
collides t s = has_tx_id t.id s || same_external_id t.external_transaction_id s

abbrev pub insert_row :
    PointsTransaction → Option PointsTransaction → Option PointsLedger → Db → Result (Unit {0} × Db)
insert_row t (some _) _ db = err duplicated_key
insert_row t none none db = err foreign_key_violated
insert_row t none (some _) db =
    ok (tt, record db { points_transactions = t ∷ db.points_transactions })

unfoldable pub insert_transaction : PointsTransaction → Db → Result (Unit {0} × Db)
insert_transaction t db =
    insert_row t (find_first (collides t) db.points_transactions)
      (find_first (has_id t.ledger_id) db.points_ledgers) db

-- `BeforeCreate` gives a row without an id a new one, and gorm sets a zero `CreatedAt`.
abbrev pub before_create : Uuid → Time → PointsTransaction → PointsTransaction
before_create id at t = record t {
  id = if t.id == 0 then id else t.id;
  created_at = if t.created_at == 0 then at else t.created_at;
}

-- `tx.Create(txRecord)`
unfoldable pub create_transaction : PointsTransaction → M PointsTransaction
create_transaction t = do
  id ← new_uuid
  at ← now
  let row = before_create id at t
  sql (insert_transaction row)
  pure row

-- The columns that a service leaves out of a new row.
abbrev pub blank_transaction : PointsTransaction
blank_transaction = record {
  id = 0;
  ledger_id = 0;
  watch_session_id = none;
  source = TxSource.t_point;
  delta = pos 0;
  balance_after = pos 0;
  sku = none;
  note = none;
  external_transaction_id = none;
  created_at = 0;
}

-- The write of an award: a new ledger id, the upsert, the read of the row that it left, and the
-- transaction, which `row` makes from that row. The row read is returned.
pub credit : Uuid → Name → ℤ → Time → (PointsLedger → PointsTransaction) → M PointsLedger
credit user channel amount at row = do
  id ← new_uuid
  sql (upsert_ledger id user channel amount at)
  ledger ← sql (first_ledger user channel)
  create_transaction (row ledger)
  pure ledger
