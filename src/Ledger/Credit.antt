-- ===== src/Ledger/Credit.antt =====
-- The award of points and the audit of the books.
use tachigo.Base.{
  ◌≡◌, ◌≢◌, refl, ◌∙◌, sym, ap, Bool, false, Option, some, none, List, ◌∷◌, ◌==◌, arith, find_first,
  find_first-none, update_where, All-find_first, ==_refl, ==_iff, Bool-cases, inl, inr, &&_split,
}
use tachigo.Int.{ℤ, pos, ◌+ℤ◌, ◌≤ℤ◌, IsInt64, fits_int64, fits_int64→IsInt64, +ℤ_zero_left}
use tachigo.Models.{Uuid, Time, Name, PointsLedger, PointsTransaction}
use tachigo.Effect.{Db, sql, pure, ◌>>=◌}
use tachigo.Effect.Ensures.{
  Gives, Gives-if, Ensures, Ensures-pure, Ensures-bind-sql, Ensures-bind-new_uuid, Ensures-bind,
  Ensures-weaken,
}
use tachigo.Ledger.{
  owned, has_id, credited, new_ledger, first_ledger, upsert_ledger, upsert_row, insert_ledger,
  create_transaction, credit,
}
use tachigo.Ledger.Audit.{is_earning, IsBalanced, IsAudited}
use tachigo.Ledger.Rows.{find_owned-update}
use tachigo.Ledger.Entries.{channel_at-update, find_owned-other}
use tachigo.Ledger.Posting.{credit-IsAudited, open-IsAudited}
use tachigo.Ledger.Awards.{Awards, Credited, Logged, create_transaction-Ensures, ledger_of}

-- The row that an owner finds is found by its id as well.
pub found_by_id :
    (p : PointsLedger → Bool) (ls : List PointsLedger) {x : PointsLedger}
    → find_first p ls ≡ some x
    → find_first (has_id x.id) ls ≢ none
found_by_id p ls {x} e none_there =
    let other : has_id x.id x ≡ false =
      All-find_first (λ l. has_id x.id l ≡ false) p ls (find_first-none (has_id x.id) ls none_there)
        e in
    cc (other, ==_refl x.id)

module _ (user : Uuid) (channel : Name) (amount : ℤ) (at : Time)
    (row : PointsLedger → PointsTransaction) (db : Db) (audit : IsAudited db)
    (awards : Awards amount row) (nn : pos 0 ≤ℤ amount) (fits : IsInt64 amount) where
  abbrev pub Done : PointsLedger → Db → Type 0
  Done l db' = Credited user channel amount db l db' × Logged user channel (row l) db db'

  -- After the upsert of an owner who has the ledger `x`.
  update-step :
      (x : PointsLedger)
      → ledger_of user channel db ≡ some x
      → IsInt64 (x.spendable_balance +ℤ amount)
      → (l : PointsLedger) → l ≡ credited amount at x
      → Ensures
          (record db {
            points_ledgers =
                update_where (owned user channel) (credited amount at) db.points_ledgers;
          })
          (create_transaction (row l) >>= λ _. pure l)
          Done
  update-step x found fit l el =
      Ensures-bind (λ _ db'. Done l db') (create_transaction (row l)) (λ _. pure l)
        (create_transaction-Ensures _ (row l) _ λ id tx_at s e fresh there.
          let moved : s.delta ≡ amount = ap (λ r. r.delta) e ∙ awards.moved l in
          let balanced : IsBalanced db.points_transactions x =
            All-find_first (IsBalanced db.points_transactions) (owned user channel)
              db.points_ledgers audit.balanced found in
          (
            record {
              audited = rw (← moved) (
                  credit-IsAudited db s audit user channel x at found fresh
                    (ap (λ r. r.ledger_id) e ∙ awards.owner l ∙ ap (λ r. r.id) el)
                    (found_by_id (owned user channel) db.points_ledgers found)
                    (ap (λ r. is_earning r.source) e ∙ awards.earning l) (rw moved nn)
                    (rw (moved, ← balanced.spendable) fit));
              read =
                  find_owned-update (owned user channel) (credited amount at)
                    (λ r. (refl, refl, refl)) user channel db.points_ledgers found
                  ∙ ap some (sym el);
              spendable = rw (el, found);
              cumulative = rw (el, found);
              frame = refl;
            },
            record {
              id = id;
              at = tx_at;
              posted = ap (λ r. r ∷ db.points_transactions) e;
              channels = λ i _.
                  channel_at-update (owned user channel) (credited amount at)
                    (λ r. (refl, refl, refl)) i db.points_ledgers;
              others = λ u other.
                  find_owned-other (credited amount at) (λ r. (refl, refl, refl)) user channel u
                    other db.points_ledgers;
            },
          ))
        (λ s db' q. Ensures-pure l q)

  -- After the upsert that opens a ledger.
  open-step :
      (id : Uuid)
      → ledger_of user channel db ≡ none
      → find_first (has_id id) db.points_ledgers ≡ none
      → Ensures
          (record db { points_ledgers = new_ledger id user channel amount at ∷ db.points_ledgers })
          (create_transaction (row (new_ledger id user channel amount at)) >>= λ _.
            pure (new_ledger id user channel amount at))
          Done
  open-step id unowned new =
      let l = new_ledger id user channel amount at in
      Ensures-bind (λ _ db'. Done l db') (create_transaction (row l)) (λ _. pure l)
        (create_transaction-Ensures _ (row l) _ λ tx_id tx_at s e fresh there.
          let moved : s.delta ≡ amount = ap (λ r. r.delta) e ∙ awards.moved l in
          (
            record {
              audited = rw (← moved) (
                  open-IsAudited db s audit user channel id at unowned new fresh
                    (ap (λ r. r.ledger_id) e ∙ awards.owner l)
                    (ap (λ r. is_earning r.source) e ∙ awards.earning l) (rw moved nn)
                    (rw moved fits));
              read = rw (==_refl user, ==_refl channel) refl;
              spendable = rw unowned (sym (+ℤ_zero_left amount));
              cumulative = rw unowned (sym (+ℤ_zero_left amount));
              frame = refl;
            },
            record {
              id = tx_id;
              at = tx_at;
              posted = ap (λ r. r ∷ db.points_transactions) e;
              channels = λ i known. elim (Bool-cases (id == i)) [
                | inl same ↦ absurd (known (rw (← (==_iff id i).0 same) new))
                | inr apart ↦ rw apart refl
              ];
              others = λ u other. ground (arith, other);
            },
          ))
        (λ s db' q. Ensures-pure l q)

  -- The read of the owner's row, whose answer is known, and the rest.
  read-step :
      (db1 : Db) (l : PointsLedger)
      → ledger_of user channel db1 ≡ some l
      → Ensures db1 (create_transaction (row l) >>= λ _. pure l) Done
      → Ensures db1
          (sql (first_ledger user channel) >>= λ ledger.
            create_transaction (row ledger) >>= λ _. pure ledger)
          Done
  read-step db1 l e h = Ensures-bind-sql _ _ (rw e h)

  upsert-step :
      (id : Uuid) (o : Option PointsLedger)
      → ledger_of user channel db ≡ o
      → Gives (upsert_row id user channel amount at o db) (λ _ db1.
        Ensures db1
          (sql (first_ledger user channel) >>= λ ledger.
            create_transaction (row ledger) >>= λ _. pure ledger)
          Done)
  upsert-step id (some x) found =
      Gives-if _ _ _ _
        (λ fit.
          let both =
            &&_split (fits_int64 (x.spendable_balance +ℤ amount))
              (fits_int64 (x.cumulative_total +ℤ amount)) fit in
          read-step _ (credited amount at x)
            (find_owned-update (owned user channel) (credited amount at) (λ r. (refl, refl, refl))
              user channel db.points_ledgers found)
            (update-step x found (fits_int64→IsInt64 _ both.0) (credited amount at x) refl))
        (λ _. tt)
  upsert-step id none unowned = go (find_first (has_id id) db.points_ledgers) refl
    where
      go :
          (o : Option PointsLedger)
          → find_first (has_id id) db.points_ledgers ≡ o
          → Gives (insert_ledger (new_ledger id user channel amount at) o db) (λ _ db1.
            Ensures db1
              (sql (first_ledger user channel) >>= λ ledger.
                create_transaction (row ledger) >>= λ _. pure ledger)
              Done)
      go (some _) e = tt
      go none e =
          read-step _ (new_ledger id user channel amount at)
            (rw (==_refl user, ==_refl channel) refl) (open-step id unowned e)

  -- An award keeps the books audited and raises both balances of the owner by its amount; its row
  -- heads the log.
  pub credit-Logged : Ensures db (credit user channel amount at row) Done
  unfolding credit upsert_ledger
  credit-Logged =
      Ensures-bind-new_uuid _
        λ id. Ensures-bind-sql _ _ (upsert-step id (ledger_of user channel db) refl)

  pub credit-Ensures :
      Ensures db (credit user channel amount at row) (Credited user channel amount db)
  credit-Ensures = Ensures-weaken Done credit-Logged λ l db' d. d.0
