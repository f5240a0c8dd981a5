-- ===== src/Claims/Steps.antt =====
-- The transactions of a claim after its reservation (services/claim_service.go).
use tachigo.Base.{
  ℕ, Bool, true, false, not, ◌&&◌, Option, none, some, List, [], ◌∷◌, ◌==◌, if◌then◌else◌,
  find_first, update_where, delete_where, count_where, is_some_of,
}
use tachigo.Int.{ℤ, ◌+ℤ◌, add64, fits_int64}
use tachigo.Models.{
  Uuid, Time, Name, Error, ClaimStatus, PointsLedger, PointsTransaction, compensation_for, Claim,
  ClaimItem, Result, ok, err, duplicated_key, foreign_key_violated, out_of_range, tx_hash_mismatch,
  invalid_claim_status,
}
use tachigo.Effect.{Db, M, pure, sql, now, lift, ◌>>=◌, ◌>>◌}
use tachigo.Ledger.{
  has_id, has_tx_id, row_or_missing, set_balance, ledger_by_id, create_transaction,
}
use tachigo.Claims.{ClaimReservation, ClaimReservationItem, has_claim_id, claim_row}

-- `id = ? AND user_id = ?`
abbrev pub claim_of : ClaimReservation → Claim → Bool
claim_of r c = has_claim_id r.claim_id c && c.user_id == r.user_id

-- Another row holds the hash that an update is about to set (`idx_claims_tx_hash_not_null`).
abbrev pub hash_taken : (Claim → Bool) → Option Name → Claim → Bool
hash_taken p none c = false
hash_taken p (some h) c = not (p c) && is_some_of c.tx_hash h

abbrev pub write_claims : (Claim → Bool) → (Claim → Claim) → Option Claim → Db → Result (ℕ × Db)
write_claims p f (some _) db = err duplicated_key
write_claims p f none db =
    ok (count_where p db.claims, record db { claims = update_where p f db.claims })

-- An update of the claims that pass `p`, which sets the hash `h`: the rows affected.
unfoldable pub update_claims : (Claim → Bool) → (Claim → Claim) → Option Name → Db → Result (ℕ × Db)
update_claims p f h db =
    if count_where p db.claims == 0
    then ok (0, db)
    else write_claims p f (find_first (hash_taken p h) db.claims) db

abbrev pub broadcasted : Name → Time → Claim → Claim
broadcasted hash at c = record c {
  status = ClaimStatus.broadcast;
  tx_hash = some hash;
  broadcast_at = some at;
  error_message = none;
  updated_at = at;
}

unfoldable pub mark_claim_broadcast : ClaimReservation → Name → M (Unit {0})
unfolding update_claims
mark_claim_broadcast r hash = do
  at ← now
  sql (update_claims (claim_of r) (broadcasted hash at) (some hash))
  pure tt

-- Deleting a claim deletes its items (`ON DELETE CASCADE`).
abbrev pub delete_claim : Uuid → Db → Result (Unit {0} × Db)
delete_claim id db = ok (
  tt,
  record db {
    claims = delete_where (has_claim_id id) db.claims;
    claim_items = delete_where (λ i. i.claim_id == id) db.claim_items;
  },
)

-- `spendable_balance = spendable_balance + ?` on the row `id`, computed by the database.
abbrev pub raised : ℤ → Time → PointsLedger → PointsLedger
raised amount at l = record l { spendable_balance = l.spendable_balance +ℤ amount; updated_at = at }

abbrev pub overflows : Uuid → ℤ → PointsLedger → Bool
overflows id amount l = has_id id l && not (fits_int64 (l.spendable_balance +ℤ amount))

abbrev pub raise_rows : Uuid → ℤ → Time → Option PointsLedger → Db → Result (Unit {0} × Db)
raise_rows id amount at (some _) db = err out_of_range
raise_rows id amount at none db = ok (
  tt,
  record db { points_ledgers = update_where (has_id id) (raised amount at) db.points_ledgers },
)

unfoldable pub raise_balance : Uuid → ℤ → Time → Db → Result (Unit {0} × Db)
raise_balance id amount at db =
    raise_rows id amount at (find_first (overflows id amount) db.points_ledgers) db

-- A transaction that a claim item names cannot be deleted.
abbrev pub delete_tx_rows : Uuid → Option ClaimItem → Db → Result (Unit {0} × Db)
delete_tx_rows id (some _) db = err foreign_key_violated
delete_tx_rows id none db =
    ok (tt, record db { points_transactions = delete_where (has_tx_id id) db.points_transactions })

unfoldable pub delete_transaction : Uuid → Db → Result (Unit {0} × Db)
delete_transaction id db =
    delete_tx_rows id (find_first (λ i. i.points_transaction_id == id) db.claim_items) db

unfoldable pub restore_items : Time → List ClaimReservationItem → M (Unit {0})
unfolding raise_balance delete_transaction
restore_items at [] = pure tt
restore_items at (i ∷ items) = do
  sql (raise_balance i.ledger_id i.amount at)
  sql (delete_transaction i.transaction_id)
  restore_items at items

unfoldable pub delete_reserved_claim : Uuid → M (Unit {0})
delete_reserved_claim id = if not (id == 0) then sql (delete_claim id) else pure tt

unfoldable pub rollback_claim_reservation : ClaimReservation → M (Unit {0})
unfolding restore_items delete_reserved_claim
rollback_claim_reservation r = do
  delete_reserved_claim r.claim_id
  at ← now
  restore_items at r.items

abbrev pub receipt_unknown : Name → Error → Time → Claim → Claim
receipt_unknown hash e at c = record c {
  status = ClaimStatus.broadcast;
  tx_hash = some hash;
  error_message = some e;
  updated_at = at;
}

unfoldable pub record_claim_receipt_unknown : ClaimReservation → Name → Error → M (Unit {0})
unfolding update_claims
record_claim_receipt_unknown r hash e = do
  at ← now
  sql (update_claims (claim_of r) (receipt_unknown hash e at) (some hash))
  pure tt

abbrev pub claim_failed : Name → Error → Time → Claim → Claim
claim_failed hash e at c = record c {
  status = ClaimStatus.failed;
  tx_hash = some hash;
  error_message = some e;
  failed_at = some at;
  updated_at = at;
}

-- One round of the compensation: the balance goes up again beside a transaction of its own.
unfoldable pub compensate_one : Uuid → Time → ClaimReservationItem → M PointsTransaction
compensate_one claim at i = do
  ledger ← sql (ledger_by_id i.ledger_id)
  let balance_after = add64 ledger.spendable_balance i.amount
  sql (set_balance ledger.id balance_after at)
  create_transaction (record (claim_row i.ledger_id i.amount balance_after) {
    note = some (compensation_for claim);
  })

unfoldable pub compensate_items : Uuid → Time → List ClaimReservationItem → M (Unit {0})
unfolding compensate_one
compensate_items claim at [] = pure tt
compensate_items claim at (i ∷ items) =
    compensate_one claim at i >>= λ _. compensate_items claim at items

unfoldable pub mark_claim_failed_and_compensate : ClaimReservation → Name → Error → M (Unit {0})
unfolding update_claims compensate_items
mark_claim_failed_and_compensate r hash e = do
  at ← now
  sql (update_claims (claim_of r) (claim_failed hash e at) (some hash))
  compensate_items r.claim_id at r.items

abbrev pub is_broadcast : ClaimStatus → Bool
is_broadcast ClaimStatus.broadcast = true
is_broadcast ClaimStatus.finalize_failed = true
is_broadcast _ = false

-- `mintTxHash == ""` sets no hash and asks for none.
abbrev pub new_hash : Name → Option Name
new_hash hash = if hash == 0 then none else some hash

abbrev hash_agrees : Option Name → Option Name → Bool
hash_agrees none h = true
hash_agrees (some h) none = true
hash_agrees (some h) (some g) = g == h

-- `status IN ('broadcast', 'finalize_failed')` and `tx_hash IS NULL OR tx_hash = ?`
abbrev pub finalizable : ClaimReservation → Name → Claim → Bool
finalizable r hash c =
    claim_of r c && is_broadcast c.status && hash_agrees (new_hash hash) c.tx_hash

abbrev with_hash : Name → Claim → Claim
with_hash hash c = if hash == 0 then c else record c { tx_hash = some hash }

abbrev pub finalize_failure : Name → Error → Time → Claim → Claim
finalize_failure hash e at c = with_hash hash (record c {
  status = ClaimStatus.finalize_failed;
  error_message = some e;
  finalize_failed_at = some at;
  updated_at = at;
})

abbrev pub finalized : Name → Time → Claim → Claim
finalized hash at c = with_hash hash (record c {
  status = ClaimStatus.confirmed;
  confirmed_at = some at;
  error_message = none;
  updated_at = at;
})

abbrev pub is_confirmed : ClaimStatus → Bool
is_confirmed ClaimStatus.confirmed = true
is_confirmed _ = false

-- What an update that affected no row makes of the claim that is there.
abbrev pub judge_skipped : Name → Claim → Result (Unit {0})
judge_skipped hash c =
    if hash_agrees (new_hash hash) c.tx_hash
    then (if is_confirmed c.status then ok tt else err (invalid_claim_status c.status))
    else err (tx_hash_mismatch hash)

unfoldable pub skipped : ClaimReservation → Name → M (Unit {0})
skipped r hash = sql (λ db. row_or_missing (find_first (claim_of r) db.claims) db) >>= λ c.
    lift (judge_skipped hash c)

unfoldable pub mark_finalize_failed_claim : ClaimReservation → Name → Error → M (Unit {0})
unfolding update_claims skipped
mark_finalize_failed_claim r hash e = do
  at ← now
  affected ← sql (update_claims (finalizable r hash) (finalize_failure hash e at) (new_hash hash))
  if affected == 0 then skipped r hash else pure tt
