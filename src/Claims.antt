-- ===== src/Claims.antt =====
-- services/api/internal/services/claim_service.go: a claim turns points into tokens in steps, each
-- in a transaction of its own, around two calls of the chain.
pub mod Balances
pub mod Returns
pub mod Compensation
pub mod Selection
pub mod Amounts
pub mod Postings
pub mod Rounds
pub mod Reservations
pub mod Steps
pub mod Saga
pub mod Frames
pub mod Finalization
pub mod Settlement
use tachigo.Base.{
  ℕ, Bool, true, false, not, ◌&&◌, ◌||◌, Option, none, some, List, [], ◌∷◌, ◌==◌, ltb, leb,
  if◌then◌else◌, find_first, select, sort_by, update_where, delete_where, count_where,
}
use tachigo.Int.{ℤ, pos, negsuc, ltb_ℤ, leb_ℤ, ◌+ℤ◌, ◌*ℤ◌, add64, sub64, fits_int64}
use tachigo.Models.{
  Uuid, Time, Name, Error, ClaimStatus, TxSource, PointsLedger, PointsTransaction, Note,
  compensation_for, Claim, ClaimItem, TachiBalance, Result, ok, err, duplicated_key,
  foreign_key_violated, check_violated, out_of_range, record_not_found, claim_amount_invalid,
  claim_insufficient_balance, claim_wallet_not_linked, claim_contract_config,
  invalid_wallet_address, mint_receipt_status_failed, tx_hash_mismatch, invalid_claim_status,
  wrapped, claim_broadcast_record,
}
use tachigo.Effect.{
  Db, M, pure, raise, sql, transaction, now, new_uuid, ask, guard, lift, catch, not_found_to, ◌>>=◌,
  ◌>>◌,
}
use tachigo.Ledger.{
  has_id, has_tx_id, row_or_missing, set_balance, ledger_by_id, create_transaction,
  blank_transaction,
}
use tachigo.Points.{neg64}
use tachigo.Wallet.{resolve_wallet_address}

pub record ClaimReservationItem : Type 0 where
  pub ledger_id : Uuid
  pub transaction_id : Uuid
  pub amount : ℤ

pub record ClaimReservation : Type 0 where
  pub user_id : Uuid
  pub to_addr : Name
  pub amount : ℤ
  pub claim_id : Uuid
  pub items : List ClaimReservationItem

-- `user_id = ? AND spendable_balance > 0`, ordered by `created_at ASC, id ASC`.
abbrev pub spendable_row : Uuid → PointsLedger → Bool
spendable_row user l = l.user_id == user && ltb_ℤ (pos 0) l.spendable_balance

abbrev earlier : PointsLedger → PointsLedger → Bool
earlier l r = if l.created_at == r.created_at then leb l.id r.id else ltb l.created_at r.created_at

abbrev pub spendable_ledgers : Uuid → List PointsLedger → List PointsLedger
spendable_ledgers user ls = sort_by earlier (select (spendable_row user) ls)

-- `totalSpendable += l.SpendableBalance`
pub total_spendable : ℤ → List PointsLedger → ℤ
total_spendable total [] = total
total_spendable total (l ∷ ls) = total_spendable (add64 total l.spendable_balance) ls

abbrev pub is_zero : ℤ → Bool
is_zero (pos n) = n == 0
is_zero (negsuc n) = false

-- The row of a new claim, whose `BeforeCreate` sets the id.
abbrev pub pending_claim : Uuid → Time → Uuid → Name → ℤ → Claim
pending_claim id at user to amount = record {
  id = id;
  user_id = user;
  wallet_addr = to;
  amount = amount;
  status = ClaimStatus.pending;
  tx_hash = none;
  error_message = none;
  broadcast_at = none;
  confirmed_at = none;
  failed_at = none;
  finalize_failed_at = none;
  created_at = at;
  updated_at = at;
}

abbrev pub has_claim_id : Uuid → Claim → Bool
has_claim_id id c = c.id == id

abbrev insert_claim_row : Claim → Option Claim → Db → Result (Unit {0} × Db)
insert_claim_row c (some _) db = err duplicated_key
insert_claim_row c none db =
    if ltb_ℤ (pos 0) c.amount
    then ok (tt, record db { claims = c ∷ db.claims })
    else err check_violated

pub insert_claim : Claim → Db → Result (Unit {0} × Db)
insert_claim c db = insert_claim_row c (find_first (has_claim_id c.id) db.claims) db

pub create_claim : Uuid → Name → ℤ → M Claim
unfolding insert_claim
create_claim user to amount = do
  id ← new_uuid
  at ← now
  let claim = pending_claim id at user to amount
  sql (insert_claim claim)
  pure claim

-- The primary key and the unique reference to a transaction.
abbrev pub item_clashes : ClaimItem → ClaimItem → Bool
item_clashes i j = j.id == i.id || j.points_transaction_id == i.points_transaction_id

abbrev insert_item_row : ClaimItem → Option ClaimItem → Db → Result (Unit {0} × Db)
insert_item_row i (some _) db = err duplicated_key
insert_item_row i none db =
    if ltb_ℤ (pos 0) i.amount
    then ok (tt, record db { claim_items = i ∷ db.claim_items })
    else err check_violated

pub insert_item : ClaimItem → Db → Result (Unit {0} × Db)
insert_item i db = insert_item_row i (find_first (item_clashes i) db.claim_items) db

pub create_claim_item : Uuid → Uuid → Uuid → Uuid → ℤ → M (Unit {0})
unfolding insert_item
create_claim_item claim user ledger tx amount = do
  id ← new_uuid
  sql (
      insert_item (record {
        id = id;
        claim_id = claim;
        claim_user_id = user;
        ledger_id = ledger;
        points_transaction_id = tx;
        amount = amount;
      }))

abbrev pub claim_row : Uuid → ℤ → ℤ → PointsTransaction
claim_row ledger delta balance = record blank_transaction {
  ledger_id = ledger;
  source = TxSource.claim;
  delta = delta;
  balance_after = balance;
}

-- One round of the loop of `reserveClaim`.
pub reserve_one : Uuid → Uuid → Time → ℤ → PointsLedger → M ClaimReservationItem
unfolding create_claim_item
reserve_one claim user at remaining ledger = do
  let deduct =
      if ltb_ℤ remaining ledger.spendable_balance then remaining else ledger.spendable_balance
  let balance = sub64 ledger.spendable_balance deduct
  sql (set_balance ledger.id balance at)
  t ← create_transaction (claim_row ledger.id (neg64 deduct) balance)
  create_claim_item claim user ledger.id t.id deduct
  pure (record { ledger_id = ledger.id; transaction_id = t.id; amount = deduct })

pub reserve_items : Uuid → Uuid → Time → ℤ → List PointsLedger → M (List ClaimReservationItem)
unfolding reserve_one
reserve_items claim user at remaining [] = pure []
reserve_items claim user at remaining (l ∷ ls) =
    if is_zero remaining
    then pure []
    else (reserve_one claim user at remaining l >>= λ item.
        reserve_items claim user at (sub64 remaining item.amount) ls >>= λ items.
        pure (item ∷ items))

-- `amount == 0` claims all there is.
abbrev pub claimed_amount : ℤ → ℤ → ℤ
claimed_amount amount total = if is_zero amount then total else amount

pub reserve_claim : Uuid → ℤ → M ClaimReservation
unfolding total_spendable create_claim
reserve_claim user amount = do
  ledgers ← sql λ db. ok (spendable_ledgers user db.points_ledgers, db)
  let total = total_spendable (pos 0) ledgers
  let claim_amount = claimed_amount amount total
  guard (ltb_ℤ (pos 0) claim_amount) claim_amount_invalid
  guard (not (ltb_ℤ total claim_amount)) claim_insufficient_balance
  to ← resolve_wallet_address claim_wallet_not_linked user
  claim ← create_claim user to claim_amount
  at ← now
  items ← reserve_items claim.id user at claim_amount ledgers
  pure (record {
    user_id = user;
    to_addr = to;
    amount = claim_amount;
    claim_id = claim.id;
    items = items;
  })
