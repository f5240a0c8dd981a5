-- ===== src/Accounts/Rows.antt =====
-- The rows of users and logins: services/api/internal/services/auth_service.go.
use tachigo.Base.{
  Bool, true, false, not, ◌&&◌, ◌||◌, Option, none, some, ◌∷◌, ◌==◌, if◌then◌else◌, find_first,
  is_some_of,
}
use tachigo.Models.{
  Uuid, Time, Name, ProviderType, twitch, google, web3, email, AuthProvider, User, Result, ok, err,
  duplicated_key,
}
use tachigo.Effect.{Db, M, ask, lift, ◌>>=◌, pure}
use tachigo.Ledger.{row_or_missing}
use tachigo.Sessions.{is_nil}

-- The tokens that an OAuth provider has exchanged; an expiry of 0 is the zero time.
pub record OauthToken : Type 0 where
  pub access_token : Name
  pub expiry : Time

-- What a provider says of the one who signs in.
pub record Identity : Type 0 where
  pub provider : ProviderType
  pub provider_id : Name
  pub username : Name
  pub email : Name
  pub email_verified : Bool
  pub avatar_url : Option Name
  pub token : Option OauthToken

abbrev pub same_type : ProviderType → ProviderType → Bool
same_type twitch twitch = true
same_type google google = true
same_type web3 web3 = true
same_type email email = true
same_type _ _ = false

-- `provider = ? AND provider_id = ?`, on rows that are not soft-deleted.
abbrev pub is_login : ProviderType → Name → AuthProvider → Bool
is_login provider id p = same_type p.provider provider && p.provider_id == id && is_nil p.deleted_at

abbrev pub find_login : Identity → Db → Option AuthProvider
find_login i db = find_first (is_login i.provider i.provider_id) db.auth_providers

abbrev pub first_login : Identity → Db → Result (AuthProvider × Db)
first_login i db = row_or_missing (find_login i db) db

abbrev pub is_same_text : Option Name → Option Name → Bool
is_same_text none _ = false
is_same_text (some a) b = is_some_of b a

-- The primary key, and the unique columns of users.
abbrev pub user_clashes : User → User → Bool
user_clashes u v =
    v.id == u.id || (is_same_text u.username v.username || is_same_text u.email v.email)

abbrev pub insert_user_row : User → Option User → Db → Result (User × Db)
insert_user_row u (some _) db = err duplicated_key
insert_user_row u none db = ok (u, record db { users = u ∷ db.users })

unfoldable pub insert_user : User → Db → Result (User × Db)
insert_user u db = insert_user_row u (find_first (user_clashes u) db.users) db

abbrev pub shares_wallet : AuthProvider → AuthProvider → Bool
shares_wallet p q = same_type p.provider web3 && same_type q.provider web3 && q.user_id == p.user_id

-- The primary key of logins, and the unique indexes on the rows that are not soft-deleted: the
-- provider with the id there, and one wallet for each user.
abbrev pub login_clashes : AuthProvider → AuthProvider → Bool
login_clashes p q =
    q.id == p.id
    || (is_nil q.deleted_at
        && ((same_type q.provider p.provider && q.provider_id == p.provider_id)
            || shares_wallet p q))

abbrev pub insert_login_row : AuthProvider → Option AuthProvider → Db → Result (AuthProvider × Db)
insert_login_row p (some _) db = err duplicated_key
insert_login_row p none db = ok (p, record db { auth_providers = p ∷ db.auth_providers })

unfoldable pub insert_login : AuthProvider → Db → Result (AuthProvider × Db)
insert_login p db = insert_login_row p (find_first (login_clashes p) db.auth_providers) db

abbrev pub new_login : Uuid → Uuid → ProviderType → Name → Time → AuthProvider
new_login id user provider provider_id at = record {
  id = id;
  user_id = user;
  provider = provider;
  provider_id = provider_id;
  access_token = none;
  refresh_token = none;
  token_expires_at = none;
  created_at = at;
  deleted_at = none;
}

abbrev pub text_or_nil : Name → Option Name
text_or_nil t = if t == 0 then none else some t

abbrev pub is_twitch_login : ProviderType → Bool
is_twitch_login twitch = true
is_twitch_login _ = false

abbrev pub unassigned : AuthProvider → AuthProvider
unassigned p = record p { access_token = none; refresh_token = none; token_expires_at = none }

abbrev pub with_access_token : AuthProvider → Time → Name → AuthProvider
with_access_token p expiry encrypted = record (unassigned p) {
  access_token = some encrypted;
  token_expires_at = text_or_nil expiry;
}

abbrev pub encrypted_tokens : AuthProvider → OauthToken → M AuthProvider
encrypted_tokens p t =
    ask (λ env tick. env.outside.identity.encrypt_token tick t.access_token) >>= λ encrypted.
    lift encrypted >>= λ e. pure (with_access_token p t.expiry e)

-- Only Twitch's tokens are kept, and only encrypted.
unfoldable pub assign_provider_tokens : AuthProvider → ProviderType → OauthToken → M AuthProvider
assign_provider_tokens p provider t =
    if not (is_twitch_login provider) || t.access_token == 0
    then pure (unassigned p)
    else encrypted_tokens p t
