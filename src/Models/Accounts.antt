-- ===== src/Models/Accounts.antt =====
-- External logins (models/auth_provider.go). Soft-deleted rows are those with `deleted_at`.
use tachigo.Base.{Option}
use tachigo.Models.Status.{Uuid, Time, Name, ProviderType}

pub record AuthProvider : Type 0 where
  pub id : Uuid
  pub user_id : Uuid
  pub provider : ProviderType
  pub provider_id : Name
  pub access_token : Option Name
  pub refresh_token : Option Name
  pub token_expires_at : Option Time
  pub created_at : Time
  pub deleted_at : Option Time
