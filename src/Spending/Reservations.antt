-- ===== src/Spending/Reservations.antt =====
-- What reserving and returning tokens does to the balances.
use tachigo.Base.{◌≡◌, refl, not, Option, none, some, find_first, All, All-find_first, arith}
use tachigo.Int.{
  ℤ, pos, ◌+ℤ◌, ◌-ℤ◌, ◌≤ℤ◌, ◌<ℤ◌, ltb_ℤ, IsInt64, sub64, wrap64-eq, int_laws, one_part,
}
use tachigo.Models.{
  Uuid, Name, Time, TachiBalance, spend_insufficient_balance, spend_wallet_not_linked,
}
use tachigo.Effect.{Db, sql, now, guard, pure, ◌>>=◌}
use tachigo.Effect.Ensures.{
  Gives, Ensures, Ensures-pure, Ensures-sql, Ensures-bind-sql, Ensures-bind-now, Ensures-bind-found,
  Ensures-guard, Ensures-bind,
}
use tachigo.Ledger.{row_or_missing}
use tachigo.Balance.{balance_of_user, topped_up, set_user_balance}
use tachigo.Balance.Tokens.{tokens, IsFunded, Moved, held-update, checked-Gives}
use tachigo.Wallet.{resolve_wallet_address}
use tachigo.Wallet.Lookup.{resolve_wallet_address-Ensures}
use tachigo.Spending.{
  SpendReservation, reserve_spend, write_balance, raise_row, rollback_spend_reservation,
}

difference : (s a : ℤ) → pos 0 <ℤ a → a ≤ℤ s → IsInt64 s → sub64 s a ≡ s -ℤ a
unfolding sub64
difference s a h c f = wrap64-eq _ (omega (int_laws, one_part (s -ℤ a)))

-- A reservation takes the amount off the user's balance, which covers it.
pub record Reserved (user : Uuid) (amount : ℤ) (db : Db) (r : SpendReservation) (db' : Db)
    : Type 0 where
  pub covered : amount ≤ℤ tokens user db
  pub moved : Moved user (tokens user db -ℤ amount) db db'
  pub amount_eq : r.amount ≡ amount
  pub reported : r.new_balance ≡ tokens user db -ℤ amount

module _ (user : Uuid) (amount : ℤ) (db : Db) where
  write-Reserved :
      (x : TachiBalance) (from : Name)
      → find_first (balance_of_user user) db.tachi_balances ≡ some x
      → amount ≤ℤ x.balance
      → sub64 x.balance amount ≡ x.balance -ℤ amount
      → Ensures db
          (now >>= λ at. sql (write_balance user (sub64 x.balance amount) at) >>= λ _.
            pure
              (record { from_addr = from; amount = amount; new_balance = sub64 x.balance amount }))
          (Reserved user amount db)
  write-Reserved x from e covered exact = Ensures-bind-now _ λ at. Ensures-bind-sql _ _ (
      checked-Gives _ (sub64 x.balance amount) db _ λ nonneg.
        Ensures-pure {Q = Reserved user amount db} _ (record {
          covered = rw e covered;
          moved = λ v. rw (
            held-update user (set_user_balance (sub64 x.balance amount) at) (λ b. refl)
                db.tachi_balances e v,
            e,
            exact,
          );
          amount_eq = refl;
          reported = rw (e, exact);
        }))

  pub reserve_spend-Reserved :
      pos 0 <ℤ amount
      → All IsFunded db.tachi_balances
      → Ensures db (reserve_spend user amount) (Reserved user amount db)
  unfolding reserve_spend
  reserve_spend-Reserved positive funded =
      Ensures-bind-found _ _ _
        (Ensures-bind-sql _ _ (go (find_first (balance_of_user user) db.tachi_balances) refl))
    where
      go :
          (o : Option TachiBalance)
          → find_first (balance_of_user user) db.tachi_balances ≡ o
          → Gives (row_or_missing o db) (λ b db'.
            Ensures db'
              (guard (not (ltb_ℤ b.balance amount)) spend_insufficient_balance >>= λ _.
                resolve_wallet_address spend_wallet_not_linked user >>= λ from. now >>= λ at.
                sql (write_balance user (sub64 b.balance amount) at) >>= λ _. pure (record {
                  from_addr = from;
                  amount = amount;
                  new_balance = sub64 b.balance amount;
                }))
              (Reserved user amount db))
      go none e = tt
      go (some x) e = Ensures-guard _ _ _ λ enough.
          let f : IsFunded x =
            All-find_first IsFunded (balance_of_user user) db.tachi_balances funded e in
          let covered : amount ≤ℤ x.balance = ground arith in
          Ensures-bind _ _ _ (resolve_wallet_address-Ensures spend_wallet_not_linked user db)
            λ from db' same.
              rw same
                (write-Reserved x from e covered (difference x.balance amount positive covered f.1))

  -- A rollback that returns puts the amount back.
  pub rollback_spend_reservation-Moved :
      Ensures db
        (rollback_spend_reservation user amount)
        (λ _ db'. Moved user (tokens user db +ℤ amount) db db')
  unfolding rollback_spend_reservation
  rollback_spend_reservation-Moved =
      Ensures-bind-now _
        λ at. Ensures-sql _ (go at (find_first (balance_of_user user) db.tachi_balances) refl)
    where
      go :
          (at : Time) (o : Option TachiBalance)
          → find_first (balance_of_user user) db.tachi_balances ≡ o
          → Gives
              (raise_row user amount at o db)
              (λ _ db'. Moved user (tokens user db +ℤ amount) db db')
      go at none e = tt
      go at (some x) e =
          checked-Gives (λ _ db'. Moved user (tokens user db +ℤ amount) db db')
            (x.balance +ℤ amount) db _
            λ nonneg v.
              rw (held-update user (topped_up amount at) (λ b. refl) db.tachi_balances e v, e)
