-- ===== src/Points/Deduct.antt =====
-- Deductions: DeductPoints of services/points_service.go.
use tachigo.Base.{
  ◌≡◌, refl, sym, ◌∙◌, not, arith, Option, none, some, All-find_first, Option-cases, inl, inr,
  String, Bool, true, false, suc, List, [], ◌∷◌, find_first, update_where,
}
use tachigo.Int.{
  ℤ, pos, ◌+ℤ◌, ◌-ℤ◌, ◌≤ℤ◌, ◌<ℤ◌, IsInt64, ltb_ℤ, leb_ℤ, sub64, wrap64-eq, int_laws, one_part,
}
use tachigo.Models.{
  Uuid, Name, PointsLedger, PointsTransaction, Result, ok, err, insufficient_balance,
}
use tachigo.Effect.{Db, World, M, calm, now, guard, sql, ◌>>=◌, ◌>>◌}
use tachigo.Effect.Ensures.{
  Gives, Ensures, Ensures-bind-now, Ensures-bind-sql, Ensures-bind-found, Ensures-guard,
  Ensures-weaken,
}
use tachigo.Effect.Safe.{Safe, Safe-guard, Safe-transaction}
use tachigo.Ledger.{
  owned, has_id, has_tx_id, collides, before_create, row_or_missing, first_ledger, with_balance,
  create_transaction, insert_transaction,
}
use tachigo.Ledger.Rows.{find-update}
use tachigo.Ledger.Audit.{IsBalanced, IsAudited}
use tachigo.Ledger.Awards.{OnlyBooks, ledger_of, spendable_of, cumulative_of}
use tachigo.Ledger.Credit.{found_by_id}
use tachigo.Ledger.Debit.{Debited, debit-Ensures}
use tachigo.Points.{validate_positive_points_amount, neg64, spend_row, deduct_in_tx, deduct_points}

-- What a deduction that returned has done.
pub record Deducted (user : Uuid) (channel : Name) (amount : ℤ) (db : Db) (t : PointsTransaction)
    (db' : Db) : Type 0 where
  pub audited : IsAudited db'
  pub covered : amount ≤ℤ spendable_of (ledger_of user channel db)
  pub spendable :
      spendable_of (ledger_of user channel db') ≡ spendable_of (ledger_of user channel db) -ℤ amount
  pub cumulative :
      cumulative_of (ledger_of user channel db') ≡ cumulative_of (ledger_of user channel db)
  pub frame : OnlyBooks db db'

-- A covered difference does not wrap, and is what adding the negated amount gives.
pub covered_difference :
    (s a : ℤ)
    → pos 0 <ℤ a
    → a ≤ℤ s
    → IsInt64 s
    → (sub64 s a ≡ s -ℤ a) × (s +ℤ neg64 a ≡ s -ℤ a) × (pos 0 ≤ℤ s -ℤ a) × IsInt64 (s -ℤ a)
unfolding sub64
covered_difference s a h c f =
    let fits : IsInt64 (s -ℤ a) = omega (int_laws, one_part (s -ℤ a)) in
    let neg_fits : IsInt64 (pos 0 -ℤ a) = omega (int_laws, one_part (pos 0 -ℤ a)) in
    (wrap64-eq _ fits, rw (wrap64-eq _ neg_fits) (omega int_laws), omega int_laws, fits)

abbrev in_tx : Uuid → Name → ℤ → String → PointsLedger → M PointsTransaction
in_tx user channel amount note ledger = do
  guard (not (ltb_ℤ ledger.spendable_balance amount)) insufficient_balance
  let balance = sub64 ledger.spendable_balance amount
  at ← now
  sql (tachigo.Ledger.set_balance ledger.id balance at)
  tachigo.Ledger.create_transaction (spend_row ledger.id amount balance note)

module _ (user : Uuid) (channel : Name) (amount : ℤ) (note : String) (db : Db)
    (audit : IsAudited db) (above_zero : pos 0 <ℤ amount) where
  found-Deducted :
      (o : Option PointsLedger)
      → ledger_of user channel db ≡ o
      → Gives (row_or_missing o db) (λ ledger db'.
        Ensures db' (in_tx user channel amount note ledger) (Deducted user channel amount db))
  found-Deducted none e = tt
  found-Deducted (some l) e = Ensures-guard _ _ _ λ enough. Ensures-bind-now _ λ at.
      let row_balanced : IsBalanced db.points_transactions l =
        All-find_first (IsBalanced db.points_transactions) (owned user channel) db.points_ledgers
          audit.balanced e in
      let covered : amount ≤ℤ l.spendable_balance = ground arith in
      let (exact, moved, nn, fits) =
        covered_difference l.spendable_balance amount above_zero covered
          row_balanced.spendable_fits in
      Ensures-weaken (Debited user channel l (sub64 l.spendable_balance amount) db)
        (debit-Ensures user channel l (sub64 l.spendable_balance amount) at
          (spend_row l.id amount (sub64 l.spendable_balance amount) note) db audit e refl refl
          (moved ∙ sym exact) (rw exact nn) (rw exact fits))
        λ t db' d. record {
          audited = d.audited;
          covered = rw e covered;
          spendable = rw (d.stored, e) exact;
          cumulative = rw (d.stored, e);
          frame = d.frame;
        }

-- A deduction from audited books: if it returns, they are audited still, the amount was covered by
-- the owner's spendable balance, that balance is the old one less the amount, and the cumulative
-- total is the same; if it fails, at whatever statement, the tables are what they were.
pub deduct_points-Deducted :
    (user : Uuid) (channel : Name) (amount : ℤ) (note : String) (db : Db)
    → IsAudited db
    → Safe
        (λ db'. db' ≡ db)
        db
        (deduct_points user channel amount note)
        (λ t db'. Deducted user channel amount db t db')
unfolding deduct_points validate_positive_points_amount deduct_in_tx
deduct_points-Deducted user channel amount note db audit = Safe-guard _ _ _ refl λ positive.
    Safe-transaction _ refl (
      Ensures-bind-found _ _ _ (
        Ensures-bind-sql _ _ (
          found-Deducted user channel amount note db audit (ground arith)
            (ledger_of user channel db) refl)))

-- On a database that does not fail, a deduction of a positive amount that the owner's balance does
-- not cover is refused as such, whether there is a ledger or none.
pub deduct_points-insufficient :
    (user : Uuid) (channel : Name) (amount : ℤ) (note : String) (w : World)
    → pos 0 <ℤ amount
    → spendable_of (ledger_of user channel w.db) <ℤ amount
    → (deduct_points user channel amount note (calm w)).0 ≡ err insufficient_balance
unfolding deduct_points validate_positive_points_amount deduct_in_tx calm
deduct_points-insufficient user channel amount note w positive short =
    elim (Option-cases (ledger_of user channel w.db)) [
      | inl missing ↦ ground arith
      | inr (l, found) ↦ ground arith
    ]

abbrev pub is_ok : {A : Type 0} → Result A → Bool
is_ok (ok a) = true
is_ok (err e) = false

no_collision :
    (t : PointsTransaction) (ts : List PointsTransaction)
    → t.external_transaction_id ≡ none
    → find_first (has_tx_id t.id) ts ≡ none
    → find_first (collides t) ts ≡ none
no_collision t [] e h = refl
no_collision t (s ∷ ts) e h = ground (arith, no_collision t ts e)

-- On a database that does not fail, a deduction of a positive amount that the owner's balance covers
-- goes through, if the id drawn for its transaction is new.
pub deduct_points-returns :
    (user : Uuid) (channel : Name) (amount : ℤ) (note : String) (w : World) (l : PointsLedger)
    → pos 0 <ℤ amount
    → ledger_of user channel w.db ≡ some l
    → amount ≤ℤ l.spendable_balance
    → find_first (has_tx_id (w.env.uuid (suc (suc (suc w.tick))))) w.db.points_transactions ≡ none
    → is_ok (deduct_points user channel amount note (calm w)).0 ≡ true
unfolding deduct_points validate_positive_points_amount deduct_in_tx calm create_transaction
    insert_transaction
deduct_points-returns user channel amount note w l positive found covered fresh =
    let above_zero : not (leb_ℤ amount (pos 0)) ≡ true = ground arith in
    let enough : not (ltb_ℤ l.spendable_balance amount) ≡ true = ground arith in
    let at = w.env.clock (suc w.tick) in
    let row =
      before_create (w.env.uuid (suc (suc (suc w.tick))))
        (w.env.clock (suc (suc (suc (suc w.tick)))))
        (spend_row l.id amount (sub64 l.spendable_balance amount) note) in
    let lone = no_collision row w.db.points_transactions refl fresh in
    let there =
      find-update (has_id l.id) (with_balance (sub64 l.spendable_balance amount) at)
        (λ r. (refl, refl, refl)) l.id w.db.points_ledgers in
    let known = found_by_id (owned user channel) w.db.points_ledgers found in
    elim (Option-cases (
      find_first (has_id l.id) (
        update_where (has_id l.id) (with_balance (sub64 l.spendable_balance amount) at)
          w.db.points_ledgers))) [
            | inl missing ↦ absurd (known (there missing))
            | inr (x, stored) ↦ rw (above_zero, found, enough, lone, stored) refl
          ]
