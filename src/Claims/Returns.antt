-- ===== src/Claims/Returns.antt =====
-- The points that the items of a failed claim give back to the ledgers (claim_service.go).
use tachigo.Base.{
  ◌≡◌, refl, sym, ap, subst, ◌∙◌, Option, none, some, List, [], ◌∷◌, ◌==◌, find_first, ==_refl,
  find_first-passes, All, All-find_first, Bool-cases, inl, inr, ==_iff, arith,
}
use tachigo.Int.{
  ℤ, pos, ◌+ℤ◌, ◌≤ℤ◌, ◌<ℤ◌, IsInt64, add64, wrap64-eq, int_laws, one_part, +ℤ_zero_right,
}
use tachigo.Models.{Uuid, Time, PointsLedger, PointsTransaction, compensation_for}
use tachigo.Effect.{Db, sql, ◌>>=◌}
use tachigo.Effect.Ensures.{
  Gives, Ensures, Ensures-pure, Ensures-bind, Ensures-bind-sql, Ensures-weaken,
}
use tachigo.Ledger.{create_transaction, has_id, row_or_missing, set_balance}
use tachigo.Ledger.Audit.{IsBalanced, IsAudited, is_earning}
use tachigo.Ledger.Posting.{set_balance-IsAudited}
use tachigo.Ledger.Awards.{create_transaction-Ensures}
use tachigo.Claims.{ClaimReservationItem, claim_row}
use tachigo.Claims.Steps.{compensate_one, compensate_items}
use tachigo.Claims.Balances.{balance_at, took_from, given_at, regroup}

abbrev pub IsTaking : List ClaimReservationItem → Type 0
IsTaking items = All (λ i. pos 0 <ℤ i.amount) items

-- The balances with what the items took are still of 64 bits.
abbrev pub HasRoom : List ClaimReservationItem → Db → Type 0
HasRoom items db = (id : Uuid) → IsInt64 (balance_at id db +ℤ took_from id items)

-- Every ledger has back what the items took from it, and only the books have changed.
pub record GaveBack (items : List ClaimReservationItem) (db db' : Db) : Type 0 where
  pub audited : IsAudited db'
  pub balances : (id : Uuid) → balance_at id db' ≡ balance_at id db +ℤ took_from id items
  pub ls : List PointsLedger
  pub ts : List PointsTransaction
  pub only : db' ≡ (record db { points_ledgers = ls; points_transactions = ts })

took_from-nonneg :
    (id : Uuid) (items : List ClaimReservationItem) → IsTaking items → pos 0 ≤ℤ took_from id items
took_from-nonneg id [] h = omega arith
took_from-nonneg id (i ∷ items) h = elim (Bool-cases (i.ledger_id == id)) [
  | inl same ↦ rw same (omega (int_laws, h.0, took_from-nonneg id items h.1))
  | inr other ↦ rw other (omega (int_laws, took_from-nonneg id items h.1))
]

-- A balance that has room for what is given back does not wrap.
room_for :
    (s a rest : ℤ)
    → pos 0 ≤ℤ s
    → pos 0 <ℤ a
    → pos 0 ≤ℤ rest
    → IsInt64 (s +ℤ (a +ℤ rest))
    → (add64 s a ≡ s +ℤ a) × (pos 0 ≤ℤ s +ℤ a) × IsInt64 (s +ℤ a)
unfolding add64
room_for s a rest hs ha hr fits =
    let small : IsInt64 (s +ℤ a) =
      omega (int_laws, one_part (s +ℤ a), one_part (s +ℤ (a +ℤ rest))) in
    (wrap64-eq _ small, omega int_laws, small)

module _ (claim : Uuid) (at : Time) where
  compensate_one-GaveBack :
      (i : ClaimReservationItem) (rest : List ClaimReservationItem) (db : Db)
      → IsAudited db
      → IsTaking (i ∷ rest)
      → HasRoom (i ∷ rest) db
      → Ensures db (compensate_one claim at i) (λ _ db'. GaveBack (i ∷ []) db db')
  unfolding compensate_one
  compensate_one-GaveBack i rest db audit taking room =
      Ensures-bind-sql _ _ (go (find_first (has_id i.ledger_id) db.points_ledgers) refl)
    where
      go :
          (o : Option PointsLedger)
          → find_first (has_id i.ledger_id) db.points_ledgers ≡ o
          → Gives (row_or_missing o db) (λ ledger db'.
            Ensures db'
              (sql (set_balance ledger.id (add64 ledger.spendable_balance i.amount) at) >>= λ _.
                create_transaction
                  (record (claim_row i.ledger_id i.amount
                    (add64 ledger.spendable_balance i.amount)) {
                      note = some (compensation_for claim);
                    }))
              (λ _ db''. GaveBack (i ∷ []) db db''))
      go none e = tt
      go (some l) e =
          let own : l.id ≡ i.ledger_id =
            (==_iff _ _).0 (find_first-passes (has_id i.ledger_id) db.points_ledgers e) in
          let row : IsBalanced db.points_transactions l =
            All-find_first (IsBalanced db.points_transactions) (has_id i.ledger_id)
              db.points_ledgers audit.balanced e in
          let stored : find_first (has_id l.id) db.points_ledgers ≡ some l =
            ap (λ k. find_first (has_id k) db.points_ledgers) own ∙ e in
          let (exact, nn, fits) =
            room_for l.spendable_balance i.amount (took_from i.ledger_id rest) row.nonneg taking.0
              (took_from-nonneg i.ledger_id rest taking.1)
              (rw (e, ==_refl i.ledger_id) at (room i.ledger_id)) in
          rw exact (
            Ensures-bind-sql _ _ (
              create_transaction-Ensures _ _ _ λ id tx_at t et fresh there. record {
                audited =
                    set_balance-IsAudited db t audit l _ at fresh
                      (ap (λ r. r.ledger_id) et ∙ sym own) (λ x. cc (sym stored ∙ x))
                      (rw (← row.spendable, ap (λ r. r.delta) et) refl)
                      (ap (λ r. is_earning r.source) et) nn fits;
                balances = λ k. given_at l i.amount at db.points_ledgers i.ledger_id k e own;
                ls = _;
                ts = _;
                only = refl;
              }))

  pub compensate_items-GaveBack :
      (items : List ClaimReservationItem) (db : Db)
      → IsAudited db
      → IsTaking items
      → HasRoom items db
      → Ensures db (compensate_items claim at items) (λ _ db'. GaveBack items db db')
  unfolding compensate_items
  compensate_items-GaveBack [] db audit taking room = Ensures-pure tt (record {
    audited = audit;
    balances = λ id. sym (+ℤ_zero_right _);
    ls = db.points_ledgers;
    ts = db.points_transactions;
    only = refl;
  })
  compensate_items-GaveBack (i ∷ items) db audit taking room =
      Ensures-bind (λ _ db1. GaveBack (i ∷ []) db db1) _ _
        (compensate_one-GaveBack i items db audit taking room)
        λ _ db1 one.
          let moved =
            λ (id : Uuid). ap (λ n. n +ℤ took_from id items) (one.balances id) ∙ regroup _ _ _ in
          Ensures-weaken (λ _ db'. GaveBack items db1 db')
            (compensate_items-GaveBack items db1 one.audited taking.1
              (λ id. subst IsInt64 (sym (moved id)) (room id)))
            λ _ db' rest. record {
              audited = rest.audited;
              balances = λ id. rest.balances id ∙ moved id;
              ls = rest.ls;
              ts = rest.ts;
              only =
                  rest.only
                  ∙ ap
                      (λ (d : Db). record d {
                        points_ledgers = rest.ls;
                        points_transactions = rest.ts;
                      })
                      one.only;
            }
