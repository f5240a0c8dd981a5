-- ===== src/Claims/Compensation.antt =====
-- What becomes of a claim whose mint has failed: markClaimFailedAndCompensate in claim_service.go.
use tachigo.Base.{◌≡◌, refl, some, List, update_where, count_where}
use tachigo.Int.{◌+ℤ◌}
use tachigo.Models.{Uuid, Time, Name, Error, PointsLedger, PointsTransaction}
use tachigo.Effect.{Db, transaction}
use tachigo.Effect.Ensures.{
  Gives-weaken, Ensures-sql, Ensures-bind, Ensures-bind-now, Ensures-weaken,
}
use tachigo.Effect.Safe.{Safe, Safe-transaction}
use tachigo.Ledger.Audit.{IsAudited}
use tachigo.Claims.{ClaimReservation}
use tachigo.Claims.Steps.{claim_of, update_claims, claim_failed, mark_claim_failed_and_compensate}
use tachigo.Claims.Frames.{update_claims-Gives}
use tachigo.Claims.Postings.{reframe-IsAudited}
use tachigo.Claims.Balances.{balance_at, took_from}
use tachigo.Claims.Returns.{IsTaking, HasRoom, compensate_items-GaveBack}

-- The tables with the claim of a reservation marked as failed.
abbrev pub with_failure : ClaimReservation → Name → Error → Time → Db → Db
with_failure r hash e at db = record db {
  claims = update_where (claim_of r) (claim_failed hash e at) db.claims;
}

-- The claim is marked as failed and every ledger has back what the items took from it, on audited
-- books; no other table differs.
pub record Compensated (r : ClaimReservation) (hash : Name) (e : Error) (db db' : Db) : Type 0 where
  pub audited : IsAudited db'
  pub balances : (id : Uuid) → balance_at id db' ≡ balance_at id db +ℤ took_from id r.items
  pub at : Time
  pub ls : List PointsLedger
  pub ts : List PointsTransaction
  pub only :
      db' ≡ (record (with_failure r hash e at db) { points_ledgers = ls; points_transactions = ts })

-- The compensation of a claim whose mint has failed, on audited books, where each item took a
-- positive amount and no balance leaves int64 by what is given back: if it returns, the user's claim
-- is marked as failed with the hash and the error, every ledger has back exactly what the items took
-- from it, the books are audited, and only the claims, the ledgers and the transactions have changed.
-- If it fails, nothing has changed.
pub mark_claim_failed_and_compensate-Compensated :
    (r : ClaimReservation) (hash : Name) (e : Error) (db : Db)
    → IsAudited db
    → IsTaking r.items
    → HasRoom r.items db
    → Safe
        (λ db'. db' ≡ db)
        db
        (transaction (mark_claim_failed_and_compensate r hash e))
        (λ _ db'. Compensated r hash e db db')
unfolding mark_claim_failed_and_compensate
mark_claim_failed_and_compensate-Compensated r hash e db audit taking room =
    Safe-transaction _ refl (
      Ensures-bind-now _ λ at.
        Ensures-bind (λ _ db1. db1 ≡ with_failure r hash e at db) _ _
          (Ensures-sql _ (
            Gives-weaken
              (λ k db1.
                (k ≡ count_where (claim_of r) db.claims) × (db1 ≡ with_failure r hash e at db))
              (λ _ db1. db1 ≡ with_failure r hash e at db)
              (update_claims (claim_of r) (claim_failed hash e at) (some hash) db) (λ k db1 h. h.1)
              (update_claims-Gives (claim_of r) (claim_failed hash e at) (some hash) db)))
          λ _ db1 marked. rw marked (
            Ensures-weaken _
              (compensate_items-GaveBack r.claim_id at r.items (with_failure r hash e at db)
                (reframe-IsAudited db _ refl refl audit) taking room)
              λ _ db' g. record {
                audited = g.audited;
                balances = g.balances;
                at = at;
                ls = g.ls;
                ts = g.ts;
                only = g.only;
              }))
