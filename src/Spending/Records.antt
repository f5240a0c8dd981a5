-- ===== src/Spending/Records.antt =====
-- What the burn, the record of a redemption and the shop leave in the tables.
use tachigo.Base.{
  ◌≡◌, refl, ap, ◌∙◌, Bool, true, false, ◌==◌, Option, none, some, find_first, update_where,
  find_first-update, ==_refl,
}
use tachigo.Int.{ℤ, pos, ltb_ℤ}
use tachigo.Models.{Uuid, Name, Error, CouponRedemption, Result, ok, err}
use tachigo.Effect.{Db}
use tachigo.Effect.Ensures.{Gives, Gives-if}
use tachigo.Effect.Safe.{
  Safe, Safe-pure, Safe-raise, Safe-sql, Safe-catch, Safe-guard, Safe-bind-new_uuid, Safe-ask,
  Safe-bind-ask,
}
use tachigo.Spending.{
  SpendReservation, has_redemption_id, pending_redemption, create_pending_coupon_redemption,
  redeem_at_shop, burn_guards, burn_on_chain, Redemption, redeemed, compensating, or_error,
  after_shop, insert_redemption,
}

-- A burn changes no table.
pub burn_on_chain-Safe :
    (E : Db → Type 0) (from : Name) (amount : ℤ) (db : Db)
    → Safe E db (burn_on_chain from amount) (λ _ db'. db' ≡ db)
unfolding burn_on_chain burn_guards
burn_on_chain-Safe E from amount db =
    Safe-catch (λ db'. db' ≡ db) (λ _ db'. db' ≡ db) _ _
      (Safe-bind-ask _ _ λ ready. Safe-guard _ _ _ refl λ _. Safe-bind-ask _ _ λ valid.
        Safe-guard _ _ _ refl λ _. Safe-guard _ _ _ refl λ _. Safe-bind-ask _ _ key_or_error)
      (λ _ db' same. Safe-ask _ λ _. same) (λ e db' same. Safe-pure _ same)
  where
    key_or_error : (o : Option Error) → Safe (λ db'. db' ≡ db) db (or_error o) (λ _ db'. db' ≡ db)
    key_or_error none = Safe-pure tt refl
    key_or_error (some e) = Safe-raise e refl

-- The record of the redemption, with what it is for.
pub record Recorded (user : Uuid) (coupon : Name) (amount : ℤ) (db' : Db) : Type 0 where
  pub id : Uuid
  pub row : CouponRedemption
  pub found : find_first (has_redemption_id id) db'.coupon_redemptions ≡ some row
  pub user_eq : row.user_id ≡ user
  pub coupon_eq : row.coupon_id ≡ coupon
  pub amount_eq : row.amount ≡ amount

-- A pending record has been stored, and no balance has changed.
pub record Noted (user : Uuid) (coupon : Name) (amount : ℤ) (db : Db) (c : CouponRedemption)
    (db' : Db) : Type 0 where
  pub found : find_first (has_redemption_id c.id) db'.coupon_redemptions ≡ some c
  pub user_eq : c.user_id ≡ user
  pub coupon_eq : c.coupon_id ≡ coupon
  pub amount_eq : c.amount ≡ amount
  pub balances : db'.tachi_balances ≡ db.tachi_balances

module _ (user : Uuid) (coupon : Name) (amount : ℤ) where
  pub create_pending_coupon_redemption-Safe :
      (hash : Name) (db : Db)
      → Safe
          (λ db'. db' ≡ db)
          db
          (create_pending_coupon_redemption user coupon amount hash)
          (Noted user coupon amount db)
  unfolding create_pending_coupon_redemption
  create_pending_coupon_redemption-Safe hash db = Safe-bind-new_uuid _ λ id. Safe-sql _ refl (
      go (pending_redemption id user coupon amount hash) refl refl refl
        (find_first (has_redemption_id id) db.coupon_redemptions) refl)
    where
      go :
          (c : CouponRedemption)
          → c.user_id ≡ user
          → c.coupon_id ≡ coupon
          → c.amount ≡ amount
          → (o : Option CouponRedemption)
          → find_first (has_redemption_id c.id) db.coupon_redemptions ≡ o
          → Gives (insert_redemption c o db) (Noted user coupon amount db)
      go c eu ec ea (some _) e = tt
      go c eu ec ea none e =
          Gives-if (Noted user coupon amount db) (ltb_ℤ (pos 0) c.amount) _ _
            (λ _. record {
              found = rw (==_refl c.id) refl;
              user_eq = eu;
              coupon_eq = ec;
              amount_eq = ea;
              balances = refl;
            })
            (λ _. tt)

  -- What the shop's part leaves: the balances as they were, and the record.
  pub record Served (balance : ℤ) (db : Db) (r : Redemption) (db' : Db) : Type 0 where
    pub reported : r.0 ≡ balance
    pub balances : db'.tachi_balances ≡ db.tachi_balances
    pub recorded : Recorded user coupon amount db'

  module _ (db db1 : Db) (c : CouponRedemption) (p : Noted user coupon amount db c db1) where
    mark_keeps_record :
        (f : CouponRedemption → CouponRedemption)
        → ((x : CouponRedemption)
            → ((f x).id ≡ x.id)
              × ((f x).user_id ≡ x.user_id)
              × ((f x).coupon_id ≡ x.coupon_id)
              × ((f x).amount ≡ x.amount))
        → Recorded user coupon amount (record db1 {
          coupon_redemptions = update_where (has_redemption_id c.id) f db1.coupon_redemptions;
        })
    mark_keeps_record f keeps =
        let (ei, eu, ec, ea) = keeps c in
        record {
          id = c.id;
          row = f c;
          found =
              find_first-update (has_redemption_id c.id) f db1.coupon_redemptions
                (λ x. ap (λ i. i == c.id) (keeps x).0) p.found;
          user_eq = eu ∙ p.user_eq;
          coupon_eq = ec ∙ p.coupon_eq;
          amount_eq = ea ∙ p.amount_eq;
        }

    abbrev update_redemption_db : (CouponRedemption → CouponRedemption) → Db
    update_redemption_db f = record db1 {
      coupon_redemptions = update_where (has_redemption_id c.id) f db1.coupon_redemptions;
    }

    unmarked : Recorded user coupon amount db1
    unmarked = record {
      id = c.id;
      row = c;
      found = p.found;
      user_eq = p.user_eq;
      coupon_eq = p.coupon_eq;
      amount_eq = p.amount_eq;
    }

    pub redeem_at_shop-Served :
        (r : SpendReservation) (shop : Bool)
        → Safe
            (λ db'. db'.tachi_balances ≡ db.tachi_balances)
            db1
            (redeem_at_shop r coupon shop c)
            (Served r.new_balance db)
    unfolding redeem_at_shop
    redeem_at_shop-Served r false =
        Safe-catch (λ db'. db' ≡ db1) (λ _ db'. db' ≡ (update_redemption_db (redeemed none))) _ _
          (Safe-sql _ refl refl)
          (λ _ db' e. rw e (
            Safe-pure _ (record {
              reported = refl;
              balances = p.balances;
              recorded = mark_keeps_record (redeemed none) (λ x. (refl, refl, refl, refl));
            })))
          (λ _ db' e.
            rw e (
              Safe-pure _ (record { reported = refl; balances = p.balances; recorded = unmarked })))
    redeem_at_shop-Served r true = Safe-bind-ask _ _ answered
      where
        answered :
            (x : Result Name)
            → Safe
                (λ db'. db'.tachi_balances ≡ db.tachi_balances)
                db1
                (after_shop c.id r.new_balance x)
                (Served r.new_balance db)
        answered (ok v) =
            Safe-catch (λ db'. db' ≡ db1)
              (λ _ db'. db' ≡ (update_redemption_db (redeemed (some v)))) _ _ (Safe-sql _ refl refl)
              (λ _ db' e. rw e (
                Safe-pure _ (record {
                  reported = refl;
                  balances = p.balances;
                  recorded = mark_keeps_record (redeemed (some v)) (λ x. (refl, refl, refl, refl));
                })))
              (λ f db' e. Safe-raise f (rw e p.balances))
        answered (err e) =
            Safe-catch (λ db'. db' ≡ db1) (λ _ db'. db' ≡ (update_redemption_db (compensating e))) _
              _ (Safe-sql _ refl refl) (λ _ db' x. Safe-raise _ (rw x p.balances))
              (λ f db' x. Safe-raise _ (rw x p.balances))
