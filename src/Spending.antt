-- ===== src/Spending.antt =====
-- services/api/internal/services/spend_service.go: a redemption burns tokens for a coupon.
pub mod Reservations
pub mod Records
pub mod Redemptions
use tachigo.Base.{
  Bool, true, false, not, Option, none, some, ◌∷◌, ◌==◌, if◌then◌else◌, find_first, update_where,
}
use tachigo.Int.{ℤ, pos, ltb_ℤ, leb_ℤ, ◌+ℤ◌, sub64}
use tachigo.Models.{
  Uuid, Time, Name, Error, CouponRedemption, CouponRedemptionStatus, TachiBalance, Result, ok, err,
  duplicated_key, check_violated, spend_amount_invalid, spend_insufficient_balance,
  spend_wallet_not_linked, spend_contract_config, rollback_without_balance, tachiya_redeem_failed,
  invalid_wallet_address, wrapped,
}
use tachigo.Effect.{
  Db, M, pure, raise, sql, transaction, now, new_uuid, ask, guard, catch, not_found_as, ◌>>=◌, ◌>>◌,
}
use tachigo.Balance.{
  balance_of_user, checked, topped_up, set_user_balance, read_balance,
  tachi_whole_tokens_to_raw_units,
}
use tachigo.Wallet.{resolve_wallet_address}

pub record SpendReservation : Type 0 where
  pub from_addr : Name
  pub amount : ℤ
  pub new_balance : ℤ

-- The rows of the user, set under the constraints of the column.
abbrev pub write_balance : Uuid → ℤ → Time → Db → Result (Unit {0} × Db)
write_balance user balance at db = checked balance db (
    ok (
      tt,
      record db {
        tachi_balances =
            update_where (balance_of_user user) (set_user_balance balance at) db.tachi_balances;
      },
    ))

pub reserve_spend : Uuid → ℤ → M SpendReservation
reserve_spend user amount = do
  b ← not_found_as spend_insufficient_balance (sql (read_balance user))
  guard (not (ltb_ℤ b.balance amount)) spend_insufficient_balance
  from ← resolve_wallet_address spend_wallet_not_linked user
  let balance = sub64 b.balance amount
  at ← now
  sql (write_balance user balance at)
  pure (record { from_addr = from; amount = amount; new_balance = balance })

-- `balance = balance + ?`, computed by the database: the rows affected.
abbrev pub raise_row : Uuid → ℤ → Time → Option TachiBalance → Db → Result (Unit {0} × Db)
raise_row user amount at none db = err rollback_without_balance
raise_row user amount at (some b) db = checked (b.balance +ℤ amount) db (
    ok (
      tt,
      record db {
        tachi_balances =
            update_where (balance_of_user user) (topped_up amount at) db.tachi_balances;
      },
    ))

pub rollback_spend_reservation : Uuid → ℤ → M (Unit {0})
rollback_spend_reservation user amount = do
  at ← now
  sql λ db. raise_row user amount at (find_first (balance_of_user user) db.tachi_balances) db

abbrev or_error : Option Error → M (Unit {0})
or_error none = pure tt
or_error (some e) = raise e

-- `BurnOnChain`: a guard that fails has no hash; the call itself may return both a hash and an
-- error.
pub burn_guards : Name → ℤ → M (Unit {0})
burn_guards from amount = do
  ready ← ask λ env _. env.outside.chain.ready
  guard ready spend_contract_config
  valid ← ask λ env _. env.outside.chain.is_hex_address from
  guard valid (invalid_wallet_address from)
  guard (ltb_ℤ (pos 0) amount) spend_amount_invalid
  key ← ask λ env _. env.outside.chain.signer_error
  or_error key

abbrev burn_after : Name → ℤ → Result (Unit {0}) → M (Name × Option Error)
burn_after from amount (err e) = pure (0, some e)
burn_after from amount (ok _) = ask λ env tick.
    env.outside.chain.burn tick (env.outside.chain.checksum_address from)
      (tachi_whole_tokens_to_raw_units amount)

pub burn_on_chain : Name → ℤ → M (Name × Option Error)
unfolding burn_guards tachi_whole_tokens_to_raw_units
burn_on_chain from amount = catch (burn_guards from amount) (burn_after from amount)

abbrev insert_redemption :
    CouponRedemption → Option CouponRedemption → Db → Result (CouponRedemption × Db)
insert_redemption c (some _) db = err duplicated_key
insert_redemption c none db =
    if ltb_ℤ (pos 0) c.amount
    then ok (c, record db { coupon_redemptions = c ∷ db.coupon_redemptions })
    else err check_violated

abbrev pub has_redemption_id : Uuid → CouponRedemption → Bool
has_redemption_id id c = c.id == id

abbrev pub pending_redemption : Uuid → Uuid → Name → ℤ → Name → CouponRedemption
pending_redemption id user coupon amount hash = record {
  id = id;
  user_id = user;
  coupon_id = coupon;
  amount = amount;
  tx_hash = hash;
  status = CouponRedemptionStatus.pending;
  voucher_code = none;
  error_message = none;
}

abbrev pub store_redemption : CouponRedemption → Db → Result (CouponRedemption × Db)
store_redemption c db =
    insert_redemption c (find_first (has_redemption_id c.id) db.coupon_redemptions) db

pub create_pending_coupon_redemption : Uuid → Name → ℤ → Name → M CouponRedemption
create_pending_coupon_redemption user coupon amount hash = do
  id ← new_uuid
  sql (store_redemption (pending_redemption id user coupon amount hash))

abbrev pub update_redemption :
    Uuid → (CouponRedemption → CouponRedemption) → Db → Result (Unit {0} × Db)
update_redemption id f db = ok (
  tt,
  record db { coupon_redemptions = update_where (has_redemption_id id) f db.coupon_redemptions },
)

abbrev pub redeemed : Option Name → CouponRedemption → CouponRedemption
redeemed none c = record c { status = CouponRedemptionStatus.redeemed }
redeemed (some v) c = record c { status = CouponRedemptionStatus.redeemed; voucher_code = some v }

abbrev pub compensating : Error → CouponRedemption → CouponRedemption
compensating e c = record c {
  status = CouponRedemptionStatus.compensation_needed;
  error_message = some e;
}

-- What `Redeem` returns: the balance and the voucher's code, empty without a shop.
abbrev pub Redemption : Type 0
Redemption = ℤ × Name

abbrev after_redeemed_mark : Redemption → Result (Unit {0}) → M Redemption
after_redeemed_mark r _ = pure r

abbrev after_voucher : Redemption → Result (Unit {0}) → M Redemption
after_voucher r (ok _) = pure r
after_voucher r (err e) = raise e

abbrev after_compensation : Error → Result (Unit {0}) → M Redemption
after_compensation e (ok _) = raise (wrapped tachiya_redeem_failed e)
after_compensation e (err f) = raise (wrapped tachiya_redeem_failed (wrapped e f))

-- After the shop's answer.
abbrev after_shop : Uuid → ℤ → Result Name → M Redemption
after_shop id balance (ok voucher) =
    catch (sql (update_redemption id (redeemed (some voucher)))) (after_voucher (balance, voucher))
after_shop id balance (err e) =
    catch (sql (update_redemption id (compensating e))) (after_compensation e)

-- Without a client of the shop the redemption is marked at once, and a failed mark is logged only.
pub redeem_at_shop : SpendReservation → Name → Bool → CouponRedemption → M Redemption
redeem_at_shop r coupon false rec =
    catch (sql (update_redemption rec.id (redeemed none))) (after_redeemed_mark (r.new_balance, 0))
redeem_at_shop r coupon true rec = do
  answer ← ask λ env tick. env.outside.chain.redeem_coupon tick coupon r.amount
  after_shop rec.id r.new_balance answer

abbrev after_record : Error → Result CouponRedemption → M Redemption
after_record e (ok _) = raise e
after_record e (err f) = raise (wrapped f e)

abbrev after_rollback : Error → Result (Unit {0}) → M Redemption
after_rollback e (ok _) = raise e
after_rollback e (err f) = raise (wrapped e f)

-- After the burn: with a hash the chain may have burned, so the balance stays reserved.
pub after_burn : Uuid → Name → ℤ → SpendReservation → Name → Option Error → M Redemption
unfolding create_pending_coupon_redemption rollback_spend_reservation redeem_at_shop
after_burn user coupon amount r hash (some e) =
    if hash == 0
    then catch (transaction (rollback_spend_reservation user r.amount)) (after_rollback e)
    else catch (create_pending_coupon_redemption user coupon r.amount hash) (after_record e)
after_burn user coupon amount r hash none = do
  rec ← create_pending_coupon_redemption user coupon amount hash
  shop ← ask λ env _. env.outside.chain.shop_configured
  redeem_at_shop r coupon shop rec

pub redeem : Uuid → Name → ℤ → M Redemption
unfolding reserve_spend burn_on_chain after_burn
redeem user coupon amount = do
  guard (not (leb_ℤ amount (pos 0))) spend_amount_invalid
  r ← transaction (reserve_spend user amount)
  burnt ← burn_on_chain r.from_addr r.amount
  after_burn user coupon amount r burnt.0 burnt.1
