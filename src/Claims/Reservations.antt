-- ===== src/Claims/Reservations.antt =====
-- What the reservation of a claim does to the books and to the claims.
use tachigo.Base.{
  ◌≡◌, refl, sym, List, subst, true, not, Option, none, some, ◌∷◌, find_first, arith, Bool-cases,
  inl, inr,
}
use tachigo.Int.{ℤ, pos, ◌-ℤ◌, ◌≤ℤ◌, ◌<ℤ◌, IsInt64, ltb_ℤ, +ℤ_zero_left}
use tachigo.Models.{
  PointsLedger, PointsTransaction, ClaimItem, Uuid, Name, Claim, ClaimStatus,
  claim_wallet_not_linked,
}
use tachigo.Effect.{Db, transaction, pure}
use tachigo.Effect.Ensures.{
  Gives, Gives-if, Ensures, Ensures-pure, Ensures-bind, Ensures-bind-sql, Ensures-bind-now,
  Ensures-bind-new_uuid, Ensures-guard,
}
use tachigo.Effect.Safe.{Safe, Safe-transaction}
use tachigo.Ledger.Audit.{IsAudited}
use tachigo.Wallet.Lookup.{resolve_wallet_address-Ensures}
use tachigo.Claims.{
  ClaimReservation, spendable_ledgers, total_spendable, claimed_amount, pending_claim, has_claim_id,
  is_zero, insert_claim, insert_claim_row, create_claim, reserve_claim,
}
use tachigo.Claims.Selection.{spendable_ledgers-IsOffered}
use tachigo.Claims.Amounts.{offered, taken, total_spendable_le, total_spendable-IsInt64}
use tachigo.Claims.Balances.{balance_at, took_from}
use tachigo.Claims.Postings.{Noted, reframe-IsAudited}
use tachigo.Claims.Rounds.{Took, reserve_items-Took, rows-IsGiving}

-- A new claim is pending, is for its user and amount, and its id is new.
pub record Opened (user : Uuid) (to : Name) (amount : ℤ) (db : Db) (c : Claim) (db' : Db)
    : Type 0 where
  pub user_eq : c.user_id ≡ user
  pub amount_eq : c.amount ≡ amount
  pub pending : c.status ≡ ClaimStatus.pending
  pub unsent : c.tx_hash ≡ none
  pub fresh : find_first (has_claim_id c.id) db.claims ≡ none
  pub stored : db' ≡ record db { claims = c ∷ db.claims }

create_claim-Opened :
    (user : Uuid) (to : Name) (amount : ℤ) (db : Db)
    → Ensures db (create_claim user to amount) (Opened user to amount db)
unfolding create_claim insert_claim
create_claim-Opened user to amount db = Ensures-bind-new_uuid _ λ id. Ensures-bind-now _ λ at.
    Ensures-bind-sql _ _ (
      go (pending_claim id at user to amount) refl refl refl refl
        (find_first (has_claim_id id) db.claims) refl)
  where
    go :
        (c : Claim)
        → c.user_id ≡ user
        → c.amount ≡ amount
        → c.status ≡ ClaimStatus.pending
        → c.tx_hash ≡ none
        → (o : Option Claim) → find_first (has_claim_id c.id) db.claims ≡ o
        → Gives (insert_claim_row c o db) (λ _ db'. Ensures db' (pure c) (Opened user to amount db))
    go c eu ea es eh (some _) e = tt
    go c eu ea es eh none e =
        Gives-if (λ _ db'. Ensures db' (pure c) (Opened user to amount db)) (ltb_ℤ (pos 0) c.amount)
          _ _
          (λ _. Ensures-pure c (record {
            user_eq = eu;
            amount_eq = ea;
            pending = es;
            unsent = eh;
            fresh = e;
            stored = refl;
          }))
          (λ _. tt)

-- What is claimed: the amount asked for, or for zero all that the loop counts.
abbrev pub claimed : Uuid → ℤ → Db → ℤ
claimed user amount db =
    claimed_amount amount (total_spendable (pos 0) (spendable_ledgers user db.points_ledgers))

-- What a reservation that returned has done.
pub record ReservedClaim (user : Uuid) (amount : ℤ) (db : Db) (r : ClaimReservation) (db' : Db)
    : Type 0 where
  pub audited : IsAudited db'
  pub user_eq : r.user_id ≡ user
  pub amount_eq : r.amount ≡ claimed user amount db
  pub positive : pos 0 <ℤ r.amount
  pub covered : r.amount ≤ℤ offered (spendable_ledgers user db.points_ledgers)
  pub total : taken r.items ≡ r.amount
  pub lost : (k : Uuid) → balance_at k db' ≡ balance_at k db -ℤ took_from k r.items
  pub noted :
      Noted r.claim_id user r.items db.points_transactions db.claim_items db'.points_transactions
        db'.claim_items
  pub row : Claim
  pub row_id : row.id ≡ r.claim_id
  pub row_user : row.user_id ≡ user
  pub row_amount : row.amount ≡ r.amount
  pub pending : row.status ≡ ClaimStatus.pending
  pub unsent : row.tx_hash ≡ none
  pub fresh : find_first (has_claim_id row.id) db.claims ≡ none
  pub frame : db' ≡ (record db {
    claims = row ∷ db.claims;
    claim_items = db'.claim_items;
    points_ledgers = db'.points_ledgers;
    points_transactions = db'.points_transactions;
  })

claimed-IsInt64 :
    (user : Uuid) (amount : ℤ) (db : Db) → IsInt64 amount → IsInt64 (claimed user amount db)
claimed-IsInt64 user amount db f = elim (Bool-cases (is_zero amount)) [
  | inl zero_amount ↦
      rw zero_amount
        (total_spendable-IsInt64 (pos 0) (spendable_ledgers user db.points_ledgers) (omega arith))
  | inr given ↦ rw given f
]

reserve-Ensures :
    (user : Uuid) (amount : ℤ) (db : Db)
    → IsAudited db
    → IsInt64 (claimed user amount db)
    → Ensures db (reserve_claim user amount) (ReservedClaim user amount db)
unfolding reserve_claim
reserve-Ensures user amount db audit fits =
    let ls = spendable_ledgers user db.points_ledgers in
    let n = claimed user amount db in
    let (on_offer, distinct) = spendable_ledgers-IsOffered user db.points_ledgers audit.keyed in
    let below = total_spendable_le (pos 0) ls (omega arith) (rows-IsGiving db ls audit on_offer) in
    Ensures-bind-sql _ _ (
      Ensures-guard _ _ _ λ above. Ensures-guard _ _ _ λ enough.
        let covered : n ≤ℤ offered ls =
          subst (λ z. n ≤ℤ z) (+ℤ_zero_left (offered ls)) (at_most n _ _ enough below) in
        Ensures-bind _ _ _ (resolve_wallet_address-Ensures claim_wallet_not_linked user db)
          λ to db1 same. rw same (
            Ensures-bind (Opened user to n db) _ _ (create_claim-Opened user to n db) λ c db2 o.
              rw o.stored (
                Ensures-bind-now _ λ at.
                  Ensures-bind (Took c.id user n (record db { claims = c ∷ db.claims })) _ _
                    (reserve_items-Took c.id user at n ls _ (reframe-IsAudited db _ refl refl audit)
                      on_offer distinct (weak n above) fits covered)
                    λ items db3 t. Ensures-pure _ (record {
                      audited = t.audited;
                      user_eq = refl;
                      amount_eq = refl;
                      positive = strict n above;
                      covered = covered;
                      total = t.total;
                      lost = t.lost;
                      noted =
                          subst
                            (λ (d : Db).
                              Noted c.id user items db.points_transactions db.claim_items
                                d.points_transactions d.claim_items)
                            (sym t.frame) t.noted;
                      row = c;
                      row_id = refl;
                      row_user = o.user_eq;
                      row_amount = o.amount_eq;
                      pending = o.pending;
                      unsent = o.unsent;
                      fresh = o.fresh;
                      frame = framed db c db3 t.ls t.ts t.cs t.frame;
                    }))))
  where
    framed :
        (db : Db) (c : Claim) (db3 : Db) (ls : List PointsLedger) (ts : List PointsTransaction)
        (cs : List ClaimItem)
        → db3 ≡ (record db {
          claims = c ∷ db.claims;
          points_ledgers = ls;
          points_transactions = ts;
          claim_items = cs;
        })
        → db3 ≡ (record db {
          claims = c ∷ db.claims;
          claim_items = db3.claim_items;
          points_ledgers = db3.points_ledgers;
          points_transactions = db3.points_transactions;
        })
    framed db c db3 ls ts cs e = rw e refl

    strict : (n : ℤ) → ltb_ℤ (pos 0) n ≡ true → pos 0 <ℤ n
    strict n h = ground arith

    weak : (n : ℤ) → ltb_ℤ (pos 0) n ≡ true → pos 0 ≤ℤ n
    weak n h = ground arith

    at_most : (n t s : ℤ) → not (ltb_ℤ t n) ≡ true → t ≤ℤ s → n ≤ℤ s
    at_most n t s h k = ground arith

-- A reservation in its transaction, from audited books, of an amount that is an int64. If it
-- returns, the books are audited; the amount is the one asked for, or for zero the sum that the
-- code computes; it is positive and not above the true sum of the user's balances, even if the
-- code's sum has wrapped; the items add up to exactly the amount, and every ledger has lost exactly
-- what they took from it; for each item a transaction of that many points and its row are stored;
-- a pending claim with a new id is stored; and nothing else has changed. If it fails, the tables are
-- what they were.
pub reserve_claim-ReservedClaim :
    (user : Uuid) (amount : ℤ) (db : Db)
    → IsAudited db
    → IsInt64 amount
    → Safe
        (λ db'. db' ≡ db)
        db
        (transaction (reserve_claim user amount))
        (ReservedClaim user amount db)
reserve_claim-ReservedClaim user amount db audit fits =
    Safe-transaction _ refl
      (reserve-Ensures user amount db audit (claimed-IsInt64 user amount db fits))
