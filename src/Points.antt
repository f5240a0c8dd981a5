-- ===== src/Points.antt =====
-- services/api/internal/services/points_service.go: balances, credits and deductions. The pairs of
-- a method and its `…Context` form are one definition.
pub mod Credit
pub mod Deduct
use Prim.Native.String.{count}
use tachigo.Base.{
  ℕ, String, Bool, true, false, not, ◌&&◌, Option, none, some, List, [], ◌∷◌, ◌<◌, ◌==◌, ltb, leb,
  if◌then◌else◌, take, select, sort_by,
}
use tachigo.Int.{ℤ, pos, ltb_ℤ, leb_ℤ, sub64}
use tachigo.Models.{
  Uuid, Time, Name, TxSource, PointsLedger, PointsTransaction, Note, text, Result, ok, err,
  insufficient_balance, invalid_points_amount, invalid_sku, invalid_external_transaction_id,
}
use tachigo.Effect.{
  Db, M, pure, raise, sql, transaction, now, guard, not_found_as, not_found_to, ◌>>=◌, ◌>>◌,
}
use tachigo.Ledger.{first_ledger, set_balance, create_transaction, blank_transaction, credit}

pub record PointsCreditMeta : Type 0 where
  pub sku : Option String
  pub note : Option String
  pub external_transaction_id : Option String

abbrev pub no_meta : PointsCreditMeta
no_meta = record { sku = none; note = none; external_transaction_id = none }

pub record PointsBalance : Type 0 where
  pub cumulative_total : ℤ
  pub spendable_balance : ℤ

-- `WatchService.GetBalance` and, in one record, `PointsService.GetBalance`.
abbrev balance_of : Option PointsLedger → PointsBalance
balance_of none = record { cumulative_total = pos 0; spendable_balance = pos 0 }
balance_of (some l) = record {
  cumulative_total = l.cumulative_total;
  spendable_balance = l.spendable_balance;
}

abbrev found_ledger : Uuid → Name → M (Option PointsLedger)
found_ledger user channel =
    not_found_to none (sql (first_ledger user channel) >>= λ l. pure (some l))

pub get_balance : Uuid → Name → M PointsBalance
get_balance user channel = do l ← found_ledger user channel; pure (balance_of l)

-- `ORDER BY created_at DESC, id DESC`
abbrev pub newer : PointsTransaction → PointsTransaction → Bool
newer s t = if s.created_at == t.created_at then leb t.id s.id else ltb t.created_at s.created_at

abbrev pub transaction_limit : ℕ
transaction_limit = 50

abbrev pub recent_of : Uuid → List PointsTransaction → List PointsTransaction
recent_of id ts = take transaction_limit (sort_by newer (select (λ t. t.ledger_id == id) ts))

abbrev recent : Option PointsLedger → M (List PointsTransaction)
recent none = pure []
recent (some l) = sql λ db. ok (recent_of l.id db.points_transactions, db)

pub list_transactions : Uuid → Name → M (List PointsTransaction)
list_transactions user channel = do l ← found_ledger user channel; recent l

pub validate_positive_points_amount : ℤ → M (Unit {0})
validate_positive_points_amount amount = guard (not (leb_ℤ amount (pos 0))) invalid_points_amount

-- Go's `-amount` on int64.
abbrev pub neg64 : ℤ → ℤ
neg64 a = sub64 (pos 0) a

-- The row that a deduction writes.
abbrev pub spend_row : Uuid → ℤ → ℤ → String → PointsTransaction
spend_row ledger amount balance note = record blank_transaction {
  ledger_id = ledger;
  source = TxSource.spend;
  delta = neg64 amount;
  balance_after = balance;
  note = some (text note);
}

-- The body of the transaction of `DeductPoints`.
pub deduct_in_tx : Uuid → Name → ℤ → String → M PointsTransaction
deduct_in_tx user channel amount note = do
  ledger ← not_found_as insufficient_balance (sql (first_ledger user channel))
  guard (not (ltb_ℤ ledger.spendable_balance amount)) insufficient_balance
  let balance = sub64 ledger.spendable_balance amount
  at ← now
  sql (set_balance ledger.id balance at)
  create_transaction (spend_row ledger.id amount balance note)

pub deduct_points : Uuid → Name → ℤ → String → M PointsTransaction
unfolding validate_positive_points_amount deduct_in_tx
deduct_points user channel amount note =
    validate_positive_points_amount amount >> transaction (deduct_in_tx user channel amount note)

abbrev pub noted : Option String → Option Note
noted none = none
noted (some s) = some (text s)

-- The row that a credit writes for the ledger it read back.
abbrev pub credit_row : TxSource → ℤ → PointsCreditMeta → Time → PointsLedger → PointsTransaction
credit_row source amount meta at ledger = record blank_transaction {
  ledger_id = ledger.id;
  source = source;
  delta = amount;
  balance_after = ledger.spendable_balance;
  sku = meta.sku;
  note = noted meta.note;
  external_transaction_id = meta.external_transaction_id;
  created_at = at;
}

pub add_points_with_meta_at : Time → Uuid → Name → TxSource → ℤ → PointsCreditMeta → M PointsLedger
add_points_with_meta_at at user channel source amount meta =
    credit user channel amount at (credit_row source amount meta at)

-- `meta.SKU != nil && utf8.RuneCountInString(*meta.SKU) > 255`
abbrev pub too_long : Option String → Bool
too_long none = false
too_long (some s) = ltb 255 (count s)

pub add_points_with_meta : Uuid → Name → TxSource → ℤ → PointsCreditMeta → M PointsLedger
unfolding validate_positive_points_amount add_points_with_meta_at
add_points_with_meta user channel source amount meta = do
  validate_positive_points_amount amount
  guard (not (too_long meta.sku)) invalid_sku
  guard (not (too_long meta.external_transaction_id)) invalid_external_transaction_id
  transaction (now >>= λ at. add_points_with_meta_at at user channel source amount meta)

pub add_points : Uuid → Name → TxSource → ℤ → M PointsLedger
unfolding validate_positive_points_amount add_points_with_meta
add_points user channel source amount = do
  validate_positive_points_amount amount
  add_points_with_meta user channel source amount no_meta
