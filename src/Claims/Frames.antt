-- ===== src/Claims/Frames.antt =====
-- What the transactions of a claim leave alone, and what its updates of the claims do.
use tachigo.Base.{
  ℕ, ◌≡◌, refl, sym, ap, ◌∙◌, Bool, not, ◌==◌, Option, none, some, List, [], ◌∷◌, find_first,
  update_where, update_where-none, count_where, Bool-cases, inl, inr, ==_iff,
}
use tachigo.Int.{ℤ, add64}
use tachigo.Models.{
  Uuid, Time, Name, Error, Claim, PointsLedger, PointsTransaction, ClaimItem, Result, ok, err,
  compensation_for,
}
use tachigo.Effect.{Db, M, pure, sql, now, ◌>>=◌, lift}
use tachigo.Effect.Ensures.{
  Gives, Ensures, Ensures-pure, Ensures-if, Ensures-sql, Ensures-bind, Ensures-bind-sql,
  Ensures-bind-now, Ensures-lift,
}
use tachigo.Ledger.{row_or_missing, create_transaction, has_id, set_balance}
use tachigo.Ledger.Awards.{create_transaction-Ensures}
use tachigo.Claims.{ClaimReservation, ClaimReservationItem, claim_row}
use tachigo.Claims.Steps.{
  update_claims, write_claims, hash_taken, claim_of, receipt_unknown, claim_failed, finalizable,
  finalize_failure, new_hash, record_claim_receipt_unknown, raise_balance, delete_transaction,
  restore_items, delete_reserved_claim, rollback_claim_reservation, compensate_one,
  compensate_items, mark_claim_failed_and_compensate, skipped, judge_skipped,
  mark_finalize_failed_claim, raise_rows, delete_tx_rows, overflows,
}

-- The token balances are what they were.
abbrev pub SameTokens : Db → Db → Type 0
SameTokens db db' = db'.tachi_balances ≡ db.tachi_balances

-- An update of the claims that returns has changed the rows that pass, and counted them.
pub update_claims-Gives :
    (p : Claim → Bool) (f : Claim → Claim) (h : Option Name) (db : Db)
    → Gives (update_claims p f h db) (λ k db'.
      (k ≡ count_where p db.claims) × (db' ≡ record db { claims = update_where p f db.claims }))
unfolding update_claims
update_claims-Gives p f h db = elim (Bool-cases (count_where p db.claims == 0)) [
  | inl idle ↦ rw idle (
    sym ((==_iff _ _).0 idle),
    λ i. record db { claims = sym (update_where-none p f db.claims ((==_iff _ _).0 idle)) i },
  )
  | inr hit ↦ rw hit (go (find_first (hash_taken p h) db.claims))
]
  where
    go :
        (o : Option Claim)
        → Gives (write_claims p f o db) (λ k db'.
          (k ≡ count_where p db.claims) × (db' ≡ record db { claims = update_where p f db.claims }))
    go (some _) = tt
    go none = (refl, refl)

-- A transaction of a claim that touches no token balance, from tables with those of `before`.
abbrev pub Keeps : {A : Type 0} → Db → M A → Type 0
Keeps {A} before m =
    (db : Db) → SameTokens before db → Ensures db m (λ _ db'. SameTokens before db')

module _ (before : Db) where
  update_claims-Keeps :
      (p : Claim → Bool) (f : Claim → Claim) (h : Option Name)
      → Keeps before (sql (update_claims p f h))
  update_claims-Keeps p f h db same =
      Ensures-sql _ (go (update_claims p f h db) (update_claims-Gives p f h db))
    where
      go :
          (r : Result (ℕ × Db))
          → Gives r (λ k db'.
            (k ≡ count_where p db.claims)
            × (db' ≡ record db { claims = update_where p f db.claims }))
          → Gives r (λ _ db'. SameTokens before db')
      go (ok (k, db')) (_, e) = ap (λ d. d.tachi_balances) e ∙ same
      go (err e) _ = tt

  module _ (p : Claim → Bool) (f : Time → Claim → Claim) (h : Option Name) where
    touch-Keeps : Keeps before (now >>= λ at. sql (update_claims p (f at) h) >>= λ _. pure tt)
    touch-Keeps db same = Ensures-bind-now _ λ at.
        Ensures-bind (λ _ db'. SameTokens before db') _ _ (update_claims-Keeps p (f at) h db same)
          λ _ db' kept. Ensures-pure tt kept

  pub record_claim_receipt_unknown-Keeps :
      (r : ClaimReservation) (hash : Name) (e : Error)
      → Keeps before (record_claim_receipt_unknown r hash e)
  unfolding record_claim_receipt_unknown
  record_claim_receipt_unknown-Keeps r hash e =
      touch-Keeps (claim_of r) (receipt_unknown hash e) (some hash)

  raise_balance-Keeps :
      (id : Uuid) (amount : ℤ) (at : Time) → Keeps before (sql (raise_balance id amount at))
  unfolding raise_balance
  raise_balance-Keeps id amount at db same =
      Ensures-sql _ (go (find_first (overflows id amount) db.points_ledgers))
    where
      go :
          (o : Option PointsLedger)
          → Gives (raise_rows id amount at o db) (λ _ db'. SameTokens before db')
      go none = same
      go (some _) = tt

  delete_transaction-Keeps : (id : Uuid) → Keeps before (sql (delete_transaction id))
  unfolding delete_transaction
  delete_transaction-Keeps id db same =
      Ensures-sql _ (go (find_first (λ i. i.points_transaction_id == id) db.claim_items))
    where
      go : (o : Option ClaimItem) → Gives (delete_tx_rows id o db) (λ _ db'. SameTokens before db')
      go none = same
      go (some _) = tt

  restore_items-Keeps :
      (at : Time) (items : List ClaimReservationItem) → Keeps before (restore_items at items)
  unfolding restore_items
  restore_items-Keeps at [] db same = Ensures-pure tt same
  restore_items-Keeps at (i ∷ items) db same =
      Ensures-bind (λ _ db'. SameTokens before db') _ _
        (raise_balance-Keeps i.ledger_id i.amount at db same)
        λ _ db1 kept1.
          Ensures-bind (λ _ db'. SameTokens before db') _ _
            (delete_transaction-Keeps i.transaction_id db1 kept1)
            λ _ db2 kept2. restore_items-Keeps at items db2 kept2

  pub rollback_claim_reservation-Keeps :
      (r : ClaimReservation) → Keeps before (rollback_claim_reservation r)
  unfolding rollback_claim_reservation delete_reserved_claim
  rollback_claim_reservation-Keeps r db same =
      Ensures-bind (λ _ db'. SameTokens before db') _ _
        (Ensures-if (not (r.claim_id == 0)) _ _ (λ _. Ensures-sql _ same)
          (λ _. Ensures-pure tt same))
        λ _ db1 kept. Ensures-bind-now _ λ at. restore_items-Keeps at r.items db1 kept

  create_transaction-Keeps : (t : PointsTransaction) → Keeps before (create_transaction t)
  create_transaction-Keeps t db same =
      create_transaction-Ensures db t _ λ id at s e fresh there. same

  compensate_one-Keeps :
      (claim : Uuid) (at : Time) (i : ClaimReservationItem)
      → Keeps before (compensate_one claim at i)
  unfolding compensate_one
  compensate_one-Keeps claim at i db same =
      Ensures-bind-sql _ _ (go (find_first (has_id i.ledger_id) db.points_ledgers))
    where
      go :
          (o : Option PointsLedger)
          → Gives (row_or_missing o db) (λ l db'.
            Ensures db'
              (sql (set_balance l.id (add64 l.spendable_balance i.amount) at) >>= λ _.
                create_transaction
                  (record (claim_row i.ledger_id i.amount (add64 l.spendable_balance i.amount)) {
                    note = some (compensation_for claim);
                  }))
              (λ _ db''. SameTokens before db''))
      go none = tt
      go (some l) = Ensures-bind-sql _ _ (create_transaction-Keeps _ _ same)

  compensate_items-Keeps :
      (claim : Uuid) (at : Time) (items : List ClaimReservationItem)
      → Keeps before (compensate_items claim at items)
  unfolding compensate_items
  compensate_items-Keeps claim at [] db same = Ensures-pure tt same
  compensate_items-Keeps claim at (i ∷ items) db same =
      Ensures-bind (λ _ db'. SameTokens before db') _ _ (compensate_one-Keeps claim at i db same)
        λ _ db' kept. compensate_items-Keeps claim at items db' kept

  pub mark_claim_failed_and_compensate-Keeps :
      (r : ClaimReservation) (hash : Name) (e : Error)
      → Keeps before (mark_claim_failed_and_compensate r hash e)
  unfolding mark_claim_failed_and_compensate
  mark_claim_failed_and_compensate-Keeps r hash e db same = Ensures-bind-now _ λ at.
      Ensures-bind (λ _ db'. SameTokens before db') _ _
        (update_claims-Keeps (claim_of r) (claim_failed hash e at) (some hash) db same)
        λ _ db' kept. compensate_items-Keeps r.claim_id at r.items db' kept

  skipped-Keeps : (r : ClaimReservation) (hash : Name) → Keeps before (skipped r hash)
  unfolding skipped
  skipped-Keeps r hash db same = Ensures-bind-sql _ _ (go (find_first (claim_of r) db.claims))
    where
      go :
          (o : Option Claim)
          → Gives (row_or_missing o db) (λ c db'.
            Ensures db' (lift (judge_skipped hash c)) (λ _ db''. SameTokens before db''))
      go none = tt
      go (some c) = Ensures-lift _ λ _. same

  pub mark_finalize_failed_claim-Keeps :
      (r : ClaimReservation) (hash : Name) (e : Error)
      → Keeps before (mark_finalize_failed_claim r hash e)
  unfolding mark_finalize_failed_claim
  mark_finalize_failed_claim-Keeps r hash e db same = Ensures-bind-now _ λ at.
      Ensures-bind (λ _ db'. SameTokens before db') _ _
        (update_claims-Keeps (finalizable r hash) (finalize_failure hash e at) (new_hash hash) db
          same)
        λ k db' kept.
          Ensures-if (k == 0) _ _ (λ _. skipped-Keeps r hash db' kept) (λ _. Ensures-pure tt kept)
