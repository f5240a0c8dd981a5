-- ===== src/Ledger/Debit.antt =====
-- An owner's balance set beside a transaction that earns nothing, and the audit of the books.
use tachigo.Base.{◌≡◌, refl, sym, ap, ◌∙◌, false, some, All-find_first}
use tachigo.Int.{ℤ, pos, ◌+ℤ◌, ◌≤ℤ◌, IsInt64}
use tachigo.Models.{Uuid, Time, Name, PointsLedger, PointsTransaction}
use tachigo.Effect.{Db, sql, ◌>>=◌}
use tachigo.Effect.Ensures.{Ensures, Ensures-bind-sql}
use tachigo.Ledger.{owned, with_balance, set_balance, create_transaction}
use tachigo.Ledger.Audit.{is_earning, IsBalanced, IsAudited}
use tachigo.Ledger.Rows.{update_owned-eq-update_id, find_owned-update}
use tachigo.Ledger.Posting.{set_balance-IsAudited}
use tachigo.Ledger.Awards.{create_transaction-Ensures, OnlyBooks, ledger_of}
use tachigo.Ledger.Credit.{found_by_id}

-- The books stay audited, the owner's balance is the new one, and the total is what it was.
pub record Debited (user : Uuid) (channel : Name) (x : PointsLedger) (balance : ℤ) (db : Db)
    (t : PointsTransaction) (db' : Db) : Type 0 where
  pub audited : IsAudited db'
  pub at : Time
  pub stored : ledger_of user channel db' ≡ some (with_balance balance at x)
  pub delta : x.spendable_balance +ℤ t.delta ≡ balance
  pub frame : OnlyBooks db db'

module _ (user : Uuid) (channel : Name) (x : PointsLedger) (balance : ℤ) (at : Time)
    (row : PointsTransaction) (db : Db) where
  pub debit-Ensures :
      IsAudited db
      → ledger_of user channel db ≡ some x
      → row.ledger_id ≡ x.id
      → is_earning row.source ≡ false
      → x.spendable_balance +ℤ row.delta ≡ balance
      → pos 0 ≤ℤ balance
      → IsInt64 balance
      → Ensures db
          (sql (set_balance x.id balance at) >>= λ _. create_transaction row)
          (λ t db'. Debited user channel x balance db t db')
  debit-Ensures audit found own es moved nn fits = Ensures-bind-sql _ _ (
      create_transaction-Ensures _ row _ λ id tx_at t e fresh there.
        let row_balanced : IsBalanced db.points_transactions x =
          All-find_first (IsBalanced db.points_transactions) (owned user channel) db.points_ledgers
            audit.balanced found in
        let delta_moved : x.spendable_balance +ℤ t.delta ≡ balance =
          ap (λ r. x.spendable_balance +ℤ r.delta) e ∙ moved in
        record {
          audited =
              set_balance-IsAudited db t audit x balance at fresh (ap (λ r. r.ledger_id) e ∙ own)
                (found_by_id (owned user channel) db.points_ledgers found)
                (sym delta_moved ∙ ap (λ z. z +ℤ t.delta) row_balanced.spendable)
                (ap (λ r. is_earning r.source) e ∙ es) nn fits;
          at = at;
          stored =
              rw
                (← update_owned-eq-update_id user channel (with_balance balance at)
                  db.points_ledgers audit.keyed found)
                (find_owned-update (owned user channel) (with_balance balance at)
                  (λ r. (refl, refl, refl)) user channel db.points_ledgers found);
          delta = delta_moved;
          frame = refl;
        })
