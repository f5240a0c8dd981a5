-- ===== src/Models/Claims.antt =====
-- Claims and the token balance that they fill and coupons empty (models/claim.go,
-- models/tachi_balance.go, models/coupon_redemption.go).
-- An error message is kept as the error whose text it is.
use tachigo.Base.{Option}
use tachigo.Int.{ℤ}
use tachigo.Models.Status.{Uuid, Time, Name, ClaimStatus, CouponRedemptionStatus, Error}

pub record Claim : Type 0 where
  pub id : Uuid
  pub user_id : Uuid
  pub wallet_addr : Name
  pub amount : ℤ
  pub status : ClaimStatus
  pub tx_hash : Option Name
  pub error_message : Option Error
  pub broadcast_at : Option Time
  pub confirmed_at : Option Time
  pub failed_at : Option Time
  pub finalize_failed_at : Option Time
  pub created_at : Time
  pub updated_at : Time

pub record ClaimItem : Type 0 where
  pub id : Uuid
  pub claim_id : Uuid
  pub claim_user_id : Uuid
  pub ledger_id : Uuid
  pub points_transaction_id : Uuid
  pub amount : ℤ

pub record TachiBalance : Type 0 where
  pub id : Uuid
  pub user_id : Uuid
  pub balance : ℤ
  pub updated_at : Time

pub record CouponRedemption : Type 0 where
  pub id : Uuid
  pub user_id : Uuid
  pub coupon_id : Name
  pub amount : ℤ
  pub tx_hash : Name
  pub status : CouponRedemptionStatus
  pub voucher_code : Option Name
  pub error_message : Option Error
