-- ===== src/Models/Sessions.antt =====
-- Refresh tokens and wallet nonces (models/refresh_token.go), and the tokens that are sent by e-mail
-- (models/email_auth.go).
use tachigo.Models.Status.{Uuid, Time, Name}

pub record RefreshToken : Type 0 where
  pub id : Uuid
  pub user_id : Uuid
  pub token_hash : Name
  pub expires_at : Time
  pub created_at : Time

pub record Web3Nonce : Type 0 where
  pub id : Uuid
  pub nonce : Name
  pub address : Name
  pub expires_at : Time
  pub created_at : Time

pub record EmailVerification : Type 0 where
  pub id : Uuid
  pub user_id : Uuid
  pub token_hash : Name
  pub expires_at : Time
  pub created_at : Time

pub record PasswordReset : Type 0 where
  pub id : Uuid
  pub email : Name
  pub token_hash : Name
  pub expires_at : Time
  pub created_at : Time
