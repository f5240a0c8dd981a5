-- ===== src/Claims/Finalization.antt =====
-- The broadcast mark and the finalization of a claim: markClaimBroadcast and finalizeClaim of
-- claim_service.go.
use tachigo.Base.{
  ℕ, ◌≡◌, refl, sym, ap, ◌∙◌, Bool, true, false, ◌==◌, Option, none, some, ◌∷◌, find_first,
  find_first-update, find_first-update_other, update_where, count_where, count_where-found, arith,
  Bool-cases, inl, inr, ==_refl,
}
use tachigo.Int.{ℤ, ◌+ℤ◌, +ℤ_zero_left}
use tachigo.Models.{Uuid, Time, Name, Claim, ClaimStatus, TachiBalance}
use tachigo.Effect.{Db, pure, sql}
use tachigo.Effect.Ensures.{
  Gives, Ensures, Ensures-pure, Ensures-bind, Ensures-bind-sql, Ensures-sql, Ensures-bind-now,
  Ensures-bind-new_uuid, Ensures-weaken,
}
use tachigo.Ledger.{row_or_missing}
use tachigo.Balance.{
  balance_of_user, has_balance_id, topped_up, insert_balance, upsert_balance_row, upsert_balance,
  load_tachi_balance_value,
}
use tachigo.Balance.Tokens.{tokens, Moved, held-update, checked-Gives}
use tachigo.Claims.{ClaimReservation}
use tachigo.Claims.Steps.{
  claim_of, broadcasted, finalizable, finalized, new_hash, update_claims, mark_claim_broadcast,
}
use tachigo.Claims.Saga.{finalize_claim}
use tachigo.Claims.Frames.{SameTokens, update_claims-Gives}

-- The claim of a reservation is stored as `c`.
abbrev pub ClaimIs : ClaimReservation → Claim → Db → Type 0
ClaimIs r c db = find_first (claim_of r) db.claims ≡ some c

-- Only claims and tokens have changed.
abbrev pub OnlyPaid : Db → Db → Type 0
OnlyPaid db db' = db' ≡ (record db { claims = db'.claims; tachi_balances = db'.tachi_balances })

pub OnlyPaid-trans : (a b c : Db) → OnlyPaid a b → OnlyPaid b c → OnlyPaid a c
OnlyPaid-trans a b c h k =
    k ∙ ap (λ (x : Db). record x { claims = c.claims; tachi_balances = c.tachi_balances }) h

-- An update of the claims as a step of a transaction.
update_claims-Ensures :
    (p : Claim → Bool) (f : Claim → Claim) (h : Option Name) (db : Db)
    → Ensures db (sql (update_claims p f h)) (λ k db'.
      (k ≡ count_where p db.claims) × (db' ≡ record db { claims = update_where p f db.claims }))
update_claims-Ensures p f h db = Ensures-sql _ (update_claims-Gives p f h db)

-- The mark stores the hash and changes nothing but claims.
pub mark_claim_broadcast-Ensures :
    (r : ClaimReservation) (hash : Name) (c : Claim) (db : Db)
    → ClaimIs r c db
    → Ensures db (mark_claim_broadcast r hash) (λ _ db'.
      (at : Time) × ClaimIs r (broadcasted hash at c) db' × SameTokens db db' × OnlyPaid db db')
unfolding mark_claim_broadcast
mark_claim_broadcast-Ensures r hash c db found = Ensures-bind-now _ λ at.
    Ensures-bind _ _ _ (update_claims-Ensures (claim_of r) (broadcasted hash at) (some hash) db)
      λ k db' (_, e). Ensures-pure tt (
        rw e (
          at,
          find_first-update (claim_of r) (broadcasted hash at) db.claims (λ x. refl) found,
          refl,
          refl,
        ))

turned : (v u : ℕ) (b : Bool) → (v == u) ≡ b → (u == v) ≡ b
turned v u b h = ground (arith, h)

module _ (user : Uuid) (amount : ℤ) (db : Db) where
  -- The upsert pays the amount to the user, and to no one else.
  upsert_balance-Gives :
      (id : Uuid) (at : Time)
      → Gives (upsert_balance id user amount at db) (λ _ db'.
        Moved user (tokens user db +ℤ amount) db db'
        × (db' ≡ record db { tachi_balances = db'.tachi_balances }))
  unfolding upsert_balance
  upsert_balance-Gives id at = go (find_first (balance_of_user user) db.tachi_balances) refl
    where
      first :
          (o : Option TachiBalance)
          → find_first (balance_of_user user) db.tachi_balances ≡ none
          → Gives
              (insert_balance
                (record { id = id; user_id = user; balance = amount; updated_at = at })
                o
                db)
              (λ _ db'.
                Moved user (tokens user db +ℤ amount) db db'
                × (db' ≡ record db { tachi_balances = db'.tachi_balances }))
      first (some _) e = tt
      first none e = (opened, refl)
        where
          opened : Moved user (tokens user db +ℤ amount) db (record db {
            tachi_balances =
                record { id = id; user_id = user; balance = amount; updated_at = at }
                ∷ db.tachi_balances;
          })
          opened v = elim (Bool-cases (v == user)) [
            | inl same ↦ rw (same, turned v user true same, e) (sym (+ℤ_zero_left amount))
            | inr other ↦ rw (other, turned v user false other)
          ]

      go :
          (o : Option TachiBalance)
          → find_first (balance_of_user user) db.tachi_balances ≡ o
          → Gives (upsert_balance_row id user amount at o db) (λ _ db'.
            Moved user (tokens user db +ℤ amount) db db'
            × (db' ≡ record db { tachi_balances = db'.tachi_balances }))
      go (some b) e = checked-Gives _ (b.balance +ℤ amount) db _ λ nonneg. (
        (λ v. rw (held-update user (topped_up amount at) (λ x. refl) db.tachi_balances e v, e)),
        refl,
      )
      go none e =
          checked-Gives _ amount db _
            λ nonneg. first (find_first (has_balance_id id) db.tachi_balances) e

  load-Ensures :
      Ensures db (load_tachi_balance_value user) (λ b db'. (b ≡ tokens user db) × (db' ≡ db))
  unfolding load_tachi_balance_value
  load-Ensures =
      Ensures-bind-sql _ _ (go (find_first (balance_of_user user) db.tachi_balances) refl)
    where
      go :
          (o : Option TachiBalance)
          → find_first (balance_of_user user) db.tachi_balances ≡ o
          → Gives
              (row_or_missing o db)
              (λ b db'. Ensures db' (pure b.balance) (λ b db'. (b ≡ tokens user db) × (db' ≡ db)))
      go none e = tt
      go (some b) e = Ensures-pure _ (rw e, refl)

-- A finalization that returned has paid the amount, reports the balance, and has confirmed the claim.
pub record Finalized (r : ClaimReservation) (db : Db) (balance : ℤ) (db' : Db) : Type 0 where
  pub moved : Moved r.user_id (tokens r.user_id db +ℤ r.amount) db db'
  pub reported : balance ≡ tokens r.user_id db +ℤ r.amount
  pub row : Claim
  pub stored : ClaimIs r row db'
  pub confirmed : row.status ≡ ClaimStatus.confirmed
  pub only : OnlyPaid db db'

-- The finalization of a claim that is there and finalizable.
pub finalize_claim-Finalized :
    (r : ClaimReservation) (hash : Name) (c : Claim) (db : Db)
    → ClaimIs r c db
    → finalizable r hash c ≡ true
    → Ensures db (finalize_claim r hash) (Finalized r db)
unfolding finalize_claim
finalize_claim-Finalized r hash c db found ready = Ensures-bind-now _ λ at.
    Ensures-bind _ _ _
      (update_claims-Ensures (finalizable r hash) (finalized hash at) (new_hash hash) db)
      λ k db1 (ek, e1).
        rw (e1, ek, count_where-found (claim_of r) (finalizable r hash) db.claims found ready)
          (Ensures-bind-new_uuid _ λ id.
            Ensures-bind
              (λ _ db2.
                Moved r.user_id (tokens r.user_id db +ℤ r.amount) db db2
                × (db2 ≡ (record db {
                  claims = update_where (finalizable r hash) (finalized hash at) db.claims;
                  tachi_balances = db2.tachi_balances;
                })))
              _ _ (Ensures-sql _ (upsert_balance-Gives r.user_id r.amount _ id at))
              λ _ db2 (moved, same).
                Ensures-weaken (λ b db3. (b ≡ tokens r.user_id db2) × (db3 ≡ db2))
                  (load-Ensures r.user_id r.amount db2)
                  λ b db3 (eb, e3). rw e3 (record {
                    moved = moved;
                    reported = eb ∙ moved r.user_id ∙ rw (==_refl r.user_id);
                    row = finalized hash at c;
                    stored =
                        ap (λ d. find_first (claim_of r) d.claims) same
                        ∙ find_first-update_other (claim_of r) (finalizable r hash)
                            (finalized hash at) db.claims (kept at) found ready;
                    confirmed = now_confirmed at;
                    only =
                        same
                        ∙ ap (λ cs. record db { claims = cs; tachi_balances = db2.tachi_balances })
                            (sym (ap (λ d. d.claims) same));
                  }))
  where
    kept : (at : Time) (x : Claim) → claim_of r (finalized hash at x) ≡ claim_of r x
    kept at x = ground arith

    now_confirmed : (at : Time) → (finalized hash at c).status ≡ ClaimStatus.confirmed
    now_confirmed at = ground arith
