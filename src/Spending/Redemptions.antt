-- ===== src/Spending/Redemptions.antt =====
-- What a redemption leaves, however it ends.
use tachigo.Base.{
  ◌≡◌, refl, ap, ◌∙◌, ◌==◌, Option, none, some, find_first, All, arith, Bool-cases, inl, inr, ◌⊎◌,
  ==_refl, ==_iff,
}
use tachigo.Int.{ℤ, ◌+ℤ◌, ◌-ℤ◌, int_laws}
use tachigo.Models.{Uuid, Name, Error}
use tachigo.Effect.{Db}
use tachigo.Effect.Ensures.{Ensures-weaken}
use tachigo.Effect.Safe.{
  Safe, Safe-raise, Safe-if, Safe-transaction, Safe-catch, Safe-bind, Safe-guard, Safe-bind-ask,
  Safe-outcome,
}
use tachigo.Balance.{balance_of_user}
use tachigo.Balance.Tokens.{held, tokens, IsFunded, Moved}
use tachigo.Spending.{SpendReservation, after_burn, redeem, Redemption}
use tachigo.Spending.Records.{
  Recorded, Noted, Served, burn_on_chain-Safe, create_pending_coupon_redemption-Safe,
  redeem_at_shop-Served,
}
use tachigo.Spending.Reservations.{
  Reserved, reserve_spend-Reserved, rollback_spend_reservation-Moved,
}

-- No one's tokens have changed.
abbrev pub Unmoved : Db → Db → Type 0
Unmoved db db' = (v : Uuid) → tokens v db' ≡ tokens v db

-- A redemption that returned: the balance reported is the stored one, less the amount, nobody
-- else's has changed, and the redemption is recorded.
pub record Redeemed (user : Uuid) (coupon : Name) (amount : ℤ) (db : Db) (r : Redemption) (db' : Db)
    : Type 0 where
  pub moved : Moved user (tokens user db -ℤ amount) db db'
  pub reported : r.0 ≡ tokens user db -ℤ amount
  pub recorded : Recorded user coupon amount db'

-- A redemption that failed has taken nothing, or exactly the amount.
abbrev pub Unsettled : Uuid → ℤ → Db → Db → Type 0
Unsettled user amount db db' = Unmoved db db' ⊎ Moved user (tokens user db -ℤ amount) db db'

module _ (user : Uuid) (coupon : Name) (amount : ℤ) (db : Db) (db1 : Db) (r : SpendReservation)
    (res : Reserved user amount db r db1) where
  -- Tables whose balances are those after the reservation.
  spent :
      (db' : Db)
      → db'.tachi_balances ≡ db1.tachi_balances
      → Moved user (tokens user db -ℤ amount) db db'
  spent db' same v = ap (λ bs. held (find_first (balance_of_user v) bs)) same ∙ res.moved v

  returned : (db' : Db) → Moved user (tokens user db1 +ℤ r.amount) db1 db' → Unmoved db db'
  returned db' back v = elim (Bool-cases (v == user)) [
    | inl same ↦
        let here : v ≡ user = (==_iff _ _).0 same in
        back v ∙ rw (same, here, res.amount_eq, res.moved user, ==_refl user) undo
    | inr other ↦ back v ∙ rw (other, res.moved v, other)
  ]
    where
      undo : tokens user db -ℤ amount +ℤ amount ≡ tokens user db
      undo = omega int_laws

  after_burn-Settled :
      (hash : Name) (o : Option Error)
      → Safe
          (Unsettled user amount db)
          db1
          (after_burn user coupon amount r hash o)
          (Redeemed user coupon amount db)
  unfolding after_burn
  after_burn-Settled hash (some e) =
      Safe-if (hash == 0) _ _
        (λ unsent.
          Safe-catch (λ db'. db' ≡ db1) (λ _ db'. Unmoved db db') _ _
            (Safe-transaction _ refl (
              Ensures-weaken _ (rollback_spend_reservation-Moved user r.amount db1)
                (λ _ db' back. returned db' back)))
            (λ _ db' same. Safe-raise e (inl same))
            (λ f db' same. Safe-raise _ (inr (spent db' (ap (λ d. d.tachi_balances) same)))))
        (λ sent.
          Safe-catch (λ db'. db' ≡ db1) (Noted user coupon r.amount db1) _ _
            (create_pending_coupon_redemption-Safe user coupon r.amount hash db1)
            (λ c db' p. Safe-raise e (inr (spent db' p.balances)))
            (λ f db' same. Safe-raise _ (inr (spent db' (ap (λ d. d.tachi_balances) same)))))
  after_burn-Settled hash none =
      Safe-bind (Noted user coupon amount db1) _ _
        (Safe-outcome (λ db'. db' ≡ db1) (Noted user coupon amount db1)
          (create_pending_coupon_redemption-Safe user coupon amount hash db1)
          (λ db' same. inr (spent db' (ap (λ d. d.tachi_balances) same))) (λ c db' p. p))
        λ c db2 p. Safe-bind-ask _ _ λ shop.
          Safe-outcome (λ db'. db'.tachi_balances ≡ db1.tachi_balances)
            (Served user coupon amount r.new_balance db1)
            (redeem_at_shop-Served user coupon amount db1 db2 c p r shop)
            (λ db' same. inr (spent db' same))
            (λ x db' s. record {
              moved = spent db' s.balances;
              reported = s.reported ∙ res.reported;
              recorded = s.recorded;
            })

-- From funded balances, however the database, the chain and the shop behave: a redemption that
-- returns has taken exactly the amount from the user, reports the balance that is left, and has
-- recorded the coupon; one that fails has taken nothing or exactly the amount; and the tokens of
-- no one else change.
pub redeem-Settled :
    (user : Uuid) (coupon : Name) (amount : ℤ) (db : Db)
    → All IsFunded db.tachi_balances
    → Safe
        (Unsettled user amount db)
        db
        (redeem user coupon amount)
        (Redeemed user coupon amount db)
unfolding redeem
redeem-Settled user coupon amount db funded = Safe-guard _ _ _ (inl λ v. refl) λ above_zero.
    Safe-bind (Reserved user amount db) _ _
      (Safe-transaction _ (inl λ v. refl)
        (reserve_spend-Reserved user amount db (ground arith) funded))
      λ r db1 res.
        Safe-bind (λ _ db2. db2 ≡ db1) _ _
          (burn_on_chain-Safe (Unsettled user amount db) r.from_addr r.amount db1)
          λ burnt db2 same.
            rw same (after_burn-Settled user coupon amount db db1 r res burnt.0 burnt.1)
