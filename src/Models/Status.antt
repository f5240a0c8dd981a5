-- ===== src/Models/Status.antt =====
-- The enumerations that the rows carry, and every error that the services return.
use tachigo.Base.{ℕ}
use tachigo.Int.{ℤ}

abbrev pub Uuid : Type 0
Uuid = ℕ

abbrev pub Time : Type 0
Time = ℕ

-- Text that the program only compares.
abbrev pub Name : Type 0
Name = ℕ

pub data TxSource : Type 0 where
  bits t_point watch_time click spend claim airdrop : TxSource

pub data ClaimStatus : Type 0 where
  pending broadcast confirmed failed finalize_failed : ClaimStatus

pub data CouponRedemptionStatus : Type 0 where
  pending redeemed compensation_needed : CouponRedemptionStatus

pub data ProviderType : Type 0 where
  twitch google web3 email : ProviderType

pub data UserRole : Type 0 where
  viewer streamer agency admin : UserRole

pub data RaffleStatus : Type 0 where
  draft active completed : RaffleStatus

pub data RaffleSource : Type 0 where
  csv twitch_api extension_button : RaffleSource

pub data RaffleMode : Type 0 where
  public subscribers_only : RaffleMode

-- The errors that gorm reports, those that the services declare, and those that wrap others.
-- `wrapped e f` is `fmt.Errorf("%w; …: %v", e, f)`: `errors.Is` sees `e` through it.
pub data Error : Type 0 where
  record_not_found duplicated_key foreign_key_violated check_violated out_of_range : Error
  db_failure : Name → Error
  insufficient_balance invalid_points_amount invalid_sku : Error
  invalid_external_transaction_id points_delta_overflow : Error
  no_active_session : Error
  click_on_cooldown : ℤ → Error
  claim_amount_invalid claim_insufficient_balance claim_wallet_not_linked : Error
  claim_contract_config mint_receipt_status_failed : Error
  invalid_wallet_address : Name → Error
  chain_failure : Name → Error
  tx_hash_mismatch : Name → Error
  invalid_claim_status : ClaimStatus → Error
  spend_amount_invalid spend_insufficient_balance spend_wallet_not_linked : Error
  spend_contract_config rollback_without_balance : Error
  tachiya_redeem_failed : Error
  serialization_failure index_out_of_range no_active_viewers : Error
  daily_airdrop_exceeded : ℤ → ℤ → ℤ → ℤ → Error
  raffle_not_found raffle_forbidden raffle_exhausted raffle_completed raffle_not_draft : Error
  raffle_not_active claim_token_expired claim_not_found claim_already_done claim_forbidden : Error
  twitch_token_missing twitch_insufficient_scope unsupported_raffle_source : Error
  invalid_discord_webhook_url prize_tier_not_found prize_tier_has_draws : Error
  prize_tier_exhausted prize_tier_invalid_count entry_not_open already_joined : Error
  not_subscriber viewer_not_linked : Error
  unexpected_status : ℕ → Error
  user_not_found invalid_credentials email_exists username_exists invalid_token : Error
  refresh_token_expired invalid_nonce invalid_signature last_provider : Error
  already_verified no_email_address invalid_verify_token invalid_reset_token : Error
  password_reset_email_send : Error
  oauth_token_encryption_key_missing encrypted_oauth_token_too_short : Error
  unsupported_snapshot_source : RaffleSource → Error
  wrapped : Error → Error → Error
  claim_broadcast_record : Uuid → Uuid → Name → Error → Error

pub data Result {ℓ} (A : Type ℓ) : Type ℓ where
  ok : A → Result A
  err : Error → Result A
