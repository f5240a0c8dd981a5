-- ===== src/Claims/Settlement.antt =====
-- A whole claim: Claim of claim_service.go, from the reservation to the finalization.
use tachigo.Base.{
  ◌≡◌, refl, sym, subst, ap, ◌∙◌, true, ◌==◌, if◌then◌else◌, Option, none, some, find_first, arith,
  ==_refl,
}
use tachigo.Int.{ℤ, ◌+ℤ◌, ◌-ℤ◌, IsInt64}
use tachigo.Models.{Uuid, Time, Name, Error, Claim, ClaimStatus, Result, ok, err}
use tachigo.Effect.{Db, M, transaction, catch}
use tachigo.Effect.Safe.{
  Safe, Safe-pure, Safe-raise, Safe-if, Safe-transaction, Safe-catch, Safe-bind, Safe-guard,
  Safe-bind-ask, Safe-lift, Safe-outcome,
}
use tachigo.Ledger.Audit.{IsAudited}
use tachigo.Balance.Tokens.{tokens, held, Moved}
use tachigo.Balance.{balance_of_user}
use tachigo.Claims.{ClaimReservation}
use tachigo.Claims.Amounts.{taken}
use tachigo.Claims.Steps.{broadcasted, finalizable}
use tachigo.Claims.Saga.{
  or_error, mint_broadcast_on_chain, wait_mint_receipt_on_chain, is_status_failed, repaired,
  after_wait, after_broadcast, claim,
}
use tachigo.Claims.Balances.{balance_at, took_from}
use tachigo.Claims.Postings.{Noted, reframe-IsAudited}
use tachigo.Claims.Reservations.{claimed, ReservedClaim, reserve_claim-ReservedClaim}
use tachigo.Claims.Frames.{
  SameTokens, Keeps, rollback_claim_reservation-Keeps, record_claim_receipt_unknown-Keeps,
  mark_claim_failed_and_compensate-Keeps, mark_finalize_failed_claim-Keeps,
}
use tachigo.Claims.Finalization.{
  ClaimIs, OnlyPaid, OnlyPaid-trans, Finalized, mark_claim_broadcast-Ensures,
  finalize_claim-Finalized,
}

-- Calls of the chain change no table.
or_error-Safe :
    (db : Db) (o : Option Error) → Safe (λ db'. db' ≡ db) db (or_error o) (λ _ db'. db' ≡ db)
or_error-Safe db none = Safe-pure tt refl
or_error-Safe db (some e) = Safe-raise e refl

mint-Safe :
    (to : Name) (amount : ℤ) (db : Db)
    → Safe (λ db'. db' ≡ db) db (mint_broadcast_on_chain to amount) (λ _ db'. db' ≡ db)
unfolding mint_broadcast_on_chain
mint-Safe to amount db = Safe-bind-ask _ _ λ ready. Safe-guard _ _ _ refl λ _.
    Safe-bind-ask _ _ λ valid. Safe-guard _ _ _ refl λ _. Safe-guard _ _ _ refl λ _.
      Safe-bind-ask _ _ λ key.
        Safe-bind (λ _ db'. db' ≡ db) _ _ (or_error-Safe db key)
          λ _ db' same. rw same (Safe-bind-ask _ _ λ r. Safe-lift r refl λ _. refl)

wait-Safe :
    (hash : Name) (db : Db)
    → Safe (λ db'. db' ≡ db) db (wait_mint_receipt_on_chain hash) (λ _ db'. db' ≡ db)
unfolding wait_mint_receipt_on_chain
wait-Safe hash db =
    Safe-bind-ask _ _ λ ready. Safe-guard _ _ _ refl λ _. Safe-bind-ask _ _ λ e. or_error-Safe db e

-- A claim that returned: every ledger has lost exactly what its items took, each item has a
-- transaction and a row, the user's tokens have risen by exactly the amount of the items, which is
-- reported, no one else's have changed, and the claim is stored as confirmed.
pub record Settled (user : Uuid) (amount : ℤ) (db : Db) (balance : ℤ) (db' : Db) : Type 0 where
  pub reservation : ClaimReservation
  pub amount_eq : reservation.amount ≡ claimed user amount db
  pub total : taken reservation.items ≡ reservation.amount
  pub audited : IsAudited db'
  pub lost : (k : Uuid) → balance_at k db' ≡ balance_at k db -ℤ took_from k reservation.items
  pub noted :
      Noted reservation.claim_id user reservation.items db.points_transactions db.claim_items
        db'.points_transactions db'.claim_items
  pub moved : Moved user (tokens user db +ℤ reservation.amount) db db'
  pub reported : balance ≡ tokens user db +ℤ reservation.amount
  pub row : Claim
  pub stored : ClaimIs reservation row db'
  pub confirmed : row.status ≡ ClaimStatus.confirmed

module _ (db : Db) where
  -- A repair in a transaction, after which the error goes on.
  repair-Safe :
      {Q : ℤ → Db → Type 0} (m : M (Unit {0})) (e : Error) (db1 : Db)
      → SameTokens db db1
      → Keeps db m
      → Safe (SameTokens db) db1 (catch (transaction m) (repaired e)) Q
  repair-Safe m e db1 same keeps =
      Safe-catch (SameTokens db) (λ _ db'. SameTokens db db') _ _
        (Safe-transaction _ same (keeps db1 same)) (λ _ db' kept. Safe-raise e kept)
        (λ f db' kept. Safe-raise _ kept)

  module _ (r : ClaimReservation) (hash : Name) (c : Claim) where
    -- From the receipt on, with the claim stored as one that may be finalized.
    after_wait-Settled :
        (db1 : Db) (x : Result (Unit {0}))
        → SameTokens db db1
        → ClaimIs r c db1
        → finalizable r hash c ≡ true
        → Safe (SameTokens db) db1 (after_wait r hash x) (Finalized r db1)
    after_wait-Settled db1 (ok _) same found ready =
        Safe-catch (SameTokens db) (Finalized r db1) _ _
          (Safe-transaction _ same (finalize_claim-Finalized r hash c db1 found ready))
          (λ b db' f. Safe-pure b f)
          (λ e db' kept. repair-Safe _ e db' kept (mark_finalize_failed_claim-Keeps db r hash e))
    after_wait-Settled db1 (err e) same found ready =
        Safe-if (is_status_failed e) _ _
          (λ _. repair-Safe _ e db1 same (mark_claim_failed_and_compensate-Keeps db r hash e))
          (λ _. repair-Safe _ e db1 same (record_claim_receipt_unknown-Keeps db r hash e))

  -- The claim is paid on the tokens that it found, and since its reservation, of which `held_at` are the
  -- tables, only claims and tokens have changed.
  pub record Paid (r : ClaimReservation) (held_at : Db) (balance : ℤ) (db' : Db) : Type 0 where
    pub only : OnlyPaid held_at db'
    pub moved : Moved r.user_id (tokens r.user_id db +ℤ r.amount) db db'
    pub reported : balance ≡ tokens r.user_id db +ℤ r.amount
    pub row : Claim
    pub stored : ClaimIs r row db'
    pub confirmed : row.status ≡ ClaimStatus.confirmed

  paid :
      (r : ClaimReservation) (held_at db1 : Db)
      → OnlyPaid held_at db1
      → SameTokens db db1
      → (b : ℤ) (db' : Db) → Finalized r db1 b db'
      → Paid r held_at b db'
  paid r held_at db1 only same b db' f = record {
    only = OnlyPaid-trans held_at db1 db' only f.only;
    moved = λ v.
        f.moved v
        ∙ ap
            (λ bs.
              if v == r.user_id
              then held (find_first (balance_of_user r.user_id) bs) +ℤ r.amount
              else held (find_first (balance_of_user v) bs))
            same;
    reported =
        f.reported ∙ ap (λ bs. held (find_first (balance_of_user r.user_id) bs) +ℤ r.amount) same;
    row = f.row;
    stored = f.stored;
    confirmed = f.confirmed;
  }

  after_broadcast-Paid :
      (r : ClaimReservation) (c : Claim) (x : Result Name) (db1 : Db)
      → SameTokens db db1
      → ClaimIs r c db1
      → c.id ≡ r.claim_id
      → c.user_id ≡ r.user_id
      → Safe (SameTokens db) db1 (after_broadcast r x) (Paid r db1)
  after_broadcast-Paid r c (err e) db1 same found ei eu =
      repair-Safe _ e db1 same (rollback_claim_reservation-Keeps db r)
  after_broadcast-Paid r c (ok hash) db1 same found ei eu =
      Safe-catch (λ db'. db' ≡ db1)
        (λ _ db'.
          (at : Time) × ClaimIs r (broadcasted hash at c) db'
          × SameTokens db1 db'
          × OnlyPaid db1 db')
        _ _ (Safe-transaction _ refl (mark_claim_broadcast-Ensures r hash c db1 found))
        (λ _ db2 (at, there, kept, only).
          Safe-catch (λ db'. db' ≡ db2) (λ _ db'. db' ≡ db2) _ _ (wait-Safe hash db2)
            (λ u db3 e3. rw e3 (waited (ok u) at db2 there only (kept ∙ same)))
            (λ e db3 e3. rw e3 (waited (err e) at db2 there only (kept ∙ same))))
        (λ e db' e1. Safe-raise _ (ap (λ d. d.tachi_balances) e1 ∙ same))
    where
      ready : (at : Time) → finalizable r hash (broadcasted hash at c) ≡ true
      ready at = ground (arith, ei, eu)

      waited :
          (x : Result (Unit {0})) (at : Time) (db2 : Db)
          → ClaimIs r (broadcasted hash at c) db2
          → OnlyPaid db1 db2
          → SameTokens db db2
          → Safe (SameTokens db) db2 (after_wait r hash x) (Paid r db1)
      waited x at db2 there only kept =
          Safe-outcome (SameTokens db) (Finalized r db2)
            (after_wait-Settled r hash (broadcasted hash at c) db2 x kept there (ready at))
            (λ db' s. s) (paid r db1 db2 only kept)

-- A claim from audited books, of an amount that is an int64, however the database and the chain
-- behave. If it returns, every ledger has lost exactly what the items took from it, for each item a
-- transaction of that many points and its row are stored, and the books are audited; the user's tokens
-- have risen by exactly the sum of the items, which is the amount asked for or for zero the sum that the
-- code computes; the new balance is reported, no one else's tokens have changed, and the claim is stored
-- as confirmed. If it fails, at whatever step, no token balance has changed.
pub claim-Settled :
    (user : Uuid) (amount : ℤ) (db : Db)
    → IsAudited db
    → IsInt64 amount
    → Safe (SameTokens db) db (claim user amount) (Settled user amount db)
unfolding claim
claim-Settled user amount db audit fits =
    Safe-bind (ReservedClaim user amount db) _ _
      (Safe-outcome (λ db'. db' ≡ db) (ReservedClaim user amount db)
        (reserve_claim-ReservedClaim user amount db audit fits)
        (λ db' same. ap (λ d. d.tachi_balances) same) (λ r db' res. res))
      λ r db1 res.
        let there : ClaimIs r res.row db1 = rw (
          ap (λ d. d.claims) res.frame,
          res.row_id,
          res.row_user,
          res.user_eq,
          ==_refl r.claim_id,
          ==_refl user,
        ) in
        Safe-outcome (SameTokens db) (Paid db r db1)
          (Safe-catch (λ db'. db' ≡ db1) (λ _ db'. db' ≡ db1) _ _ (mint-Safe r.to_addr r.amount db1)
            (λ hash db2 e2. rw e2 (
              after_broadcast-Paid db r res.row (ok hash) db1 (ap (λ d. d.tachi_balances) res.frame)
                there res.row_id (res.row_user ∙ sym res.user_eq)))
            (λ e db2 e2. rw e2 (
              after_broadcast-Paid db r res.row (err e) db1 (ap (λ d. d.tachi_balances) res.frame)
                there res.row_id (res.row_user ∙ sym res.user_eq))))
          (λ db' s. s)
          (λ b db' p. record {
            reservation = r;
            amount_eq = res.amount_eq;
            total = res.total;
            audited =
                reframe-IsAudited db1 db' (ap (λ d. d.points_ledgers) p.only)
                  (ap (λ d. d.points_transactions) p.only) res.audited;
            lost = λ k. ap (balance_at k) p.only ∙ res.lost k;
            noted =
                subst
                  (λ (d : Db).
                    Noted r.claim_id user r.items db.points_transactions db.claim_items
                      d.points_transactions d.claim_items)
                  (sym p.only) res.noted;
            moved = subst (λ u. Moved u (tokens u db +ℤ r.amount) db db') res.user_eq p.moved;
            reported = subst (λ u. b ≡ tokens u db +ℤ r.amount) res.user_eq p.reported;
            row = p.row;
            stored = p.stored;
            confirmed = p.confirmed;
          })
