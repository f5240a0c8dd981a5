-- ===== src/Effect/Tables.antt =====
-- The tables that the services share.
use tachigo.Base.{List}
use tachigo.Models.{
  PointsLedger, PointsTransaction, WatchSession, WatchTimeStat, BroadcastTimeStat, BroadcastTimeLog,
  ChannelConfig, AuthProvider, Claim, ClaimItem, TachiBalance, CouponRedemption, User, Raffle,
  RaffleEntry, RaffleDraw, RaffleClaim, RafflePrizeTier, RefreshToken, Web3Nonce, EmailVerification,
  PasswordReset,
}

pub record Db : Type 0 where
  pub points_ledgers : List PointsLedger
  pub points_transactions : List PointsTransaction
  pub watch_sessions : List WatchSession
  pub watch_time_stats : List WatchTimeStat
  pub broadcast_time_stats : List BroadcastTimeStat
  pub broadcast_time_logs : List BroadcastTimeLog
  pub channel_configs : List ChannelConfig
  pub auth_providers : List AuthProvider
  pub claims : List Claim
  pub claim_items : List ClaimItem
  pub tachi_balances : List TachiBalance
  pub coupon_redemptions : List CouponRedemption
  pub users : List User
  pub raffles : List Raffle
  pub raffle_entries : List RaffleEntry
  pub raffle_draws : List RaffleDraw
  pub raffle_claims : List RaffleClaim
  pub raffle_prize_tiers : List RafflePrizeTier
  pub refresh_tokens : List RefreshToken
  pub web3_nonces : List Web3Nonce
  pub email_verifications : List EmailVerification
  pub password_resets : List PasswordReset
