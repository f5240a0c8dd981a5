-- ===== src/Ledger/Awards.antt =====
-- The creation of a transaction, and what an award of points does to the books.
use tachigo.Base.{
  ◌≡◌, ◌≢◌, refl, ◌∙◌, sym, ap, true, false, Option, some, none, ◌∷◌, ◌==◌, find_first,
}
use tachigo.Int.{ℤ, pos, ◌+ℤ◌}
use tachigo.Models.{Uuid, Time, Name, PointsLedger, PointsTransaction}
use tachigo.Effect.{Db, pure}
use tachigo.Effect.Ensures.{
  Gives, Ensures, Ensures-pure, Ensures-bind-sql, Ensures-bind-now, Ensures-bind-new_uuid,
}
use tachigo.Ledger.{
  owned, has_id, has_tx_id, collides, insert_transaction, insert_row, before_create,
  create_transaction,
}
use tachigo.Ledger.Audit.{is_earning, IsAudited}
use tachigo.Ledger.Entries.{channel_at}
use tachigo.Ledger.Posting.{fresh_id}

-- A created transaction is the given row but for its id and time, has a new id and a ledger.
pub create_transaction-Ensures :
    (db : Db) (t : PointsTransaction) (Q : PointsTransaction → Db → Type 0)
    → ((id : Uuid) (at : Time) (s : PointsTransaction)
        → s ≡ before_create id at t
        → find_first (has_tx_id s.id) db.points_transactions ≡ none
        → find_first (has_id t.ledger_id) db.points_ledgers ≢ none
        → Q s (record db { points_transactions = s ∷ db.points_transactions }))
    → Ensures db (create_transaction t) Q
unfolding create_transaction insert_transaction
create_transaction-Ensures db t Q q = Ensures-bind-new_uuid _ λ id. Ensures-bind-now _ λ at.
    Ensures-bind-sql _ _ (
      go id at (before_create id at t) refl
        (find_first (collides (before_create id at t)) db.points_transactions) refl
        (find_first (has_id t.ledger_id) db.points_ledgers) refl)
  where
    go :
        (id : Uuid) (at : Time) (s : PointsTransaction)
        → s ≡ before_create id at t
        → (o : Option PointsTransaction) → find_first (collides s) db.points_transactions ≡ o
        → (l : Option PointsLedger) → find_first (has_id t.ledger_id) db.points_ledgers ≡ l
        → Gives (insert_row s o l db) (λ _ db'. Ensures db' (pure s) Q)
    go id at s e (some _) eo l el = tt
    go id at s e none eo none el = tt
    go id at s e none eo (some l) el =
        Ensures-pure s (q id at s e (fresh_id s db.points_transactions eo) (λ x. cc (sym el ∙ x)))

-- What an award's row must say of the ledger that it is made from.
pub record Awards (amount : ℤ) (row : PointsLedger → PointsTransaction) : Type 0 where
  pub owner : (l : PointsLedger) → (row l).ledger_id ≡ l.id
  pub moved : (l : PointsLedger) → (row l).delta ≡ amount
  pub earning : (l : PointsLedger) → is_earning (row l).source ≡ true

-- The balances of an owner in a channel, zero if there is no ledger.
abbrev pub spendable_of : Option PointsLedger → ℤ
spendable_of none = pos 0
spendable_of (some l) = l.spendable_balance

abbrev pub cumulative_of : Option PointsLedger → ℤ
cumulative_of none = pos 0
cumulative_of (some l) = l.cumulative_total

abbrev pub ledger_of : Uuid → Name → Db → Option PointsLedger
ledger_of user channel db = find_first (owned user channel) db.points_ledgers

-- No table has changed but the two of the books.
abbrev pub OnlyBooks : Db → Db → Type 0
OnlyBooks db db' = db' ≡ record db {
  points_ledgers = db'.points_ledgers;
  points_transactions = db'.points_transactions;
}

pub OnlyBooks-trans : (a b c : Db) → OnlyBooks a b → OnlyBooks b c → OnlyBooks a c
OnlyBooks-trans a b c h k =
    k
    ∙ ap
        (λ (x : Db). record x {
          points_ledgers = c.points_ledgers;
          points_transactions = c.points_transactions;
        })
        h

-- The books stay audited and both balances of the owner have risen by the amount.
pub record Credited (user : Uuid) (channel : Name) (amount : ℤ) (db : Db) (l : PointsLedger)
    (db' : Db) : Type 0 where
  pub audited : IsAudited db'
  pub read : ledger_of user channel db' ≡ some l
  pub spendable : l.spendable_balance ≡ spendable_of (ledger_of user channel db) +ℤ amount
  pub cumulative : l.cumulative_total ≡ cumulative_of (ledger_of user channel db) +ℤ amount
  pub frame : OnlyBooks db db'

-- The row of the award is in the log, ledgers stay in their channels, and the ledgers of other
-- users in the channel are as they were.
pub record Logged (user : Uuid) (channel : Name) (t : PointsTransaction) (db db' : Db)
    : Type 0 where
  pub id : Uuid
  pub at : Time
  pub posted : db'.points_transactions ≡ before_create id at t ∷ db.points_transactions
  pub channels :
      (i : Uuid)
      → find_first (has_id i) db.points_ledgers ≢ none
      → channel_at i db'.points_ledgers ≡ channel_at i db.points_ledgers
  pub others : (u : Uuid) → (u == user) ≡ false → ledger_of u channel db' ≡ ledger_of u channel db
