-- ===== src/Accounts.antt =====
-- Accounts: services/api/internal/services/auth_service.go, how users come to be and which logins lead
-- to them. A login is a row of auth_providers.
pub mod Steps
pub mod SigningIn
pub mod Recovery
pub mod Siwe
pub mod Logins
pub mod Registering
pub mod Unlinking
pub mod Wallets
pub mod Rows
use tachigo.Base.{
  ℕ, zero, suc, ◌+◌, String, Bool, true, false, not, ◌&&◌, ◌||◌, Option, none, some, List, ◌∷◌,
  ◌==◌, leb, ltb, if◌then◌else◌, find_first, update_where, delete_where, count_where, is_some_of,
}
use tachigo.Models.{
  Uuid, Time, Name, ProviderType, twitch, google, web3, email, AuthProvider, User, UserRole, viewer,
  Web3Nonce, Result, Error, ok, err, duplicated_key, record_not_found, email_exists,
  username_exists, user_not_found, last_provider, invalid_nonce, invalid_signature,
}
use tachigo.Effect.{
  Db, M, sql, transaction, ask, now, new_uuid, guard, raise, catch, lift, not_found_to, ◌>>=◌, ◌>>◌,
  pure,
}
use tachigo.Ledger.{row_or_missing}
use tachigo.Sessions.{
  TokenPair, is_nil, has_user_id, first_user, has_email, by_email, or_fail, issue_token_pair_tx,
}
use tachigo.Accounts.Rows.{
  Identity, OauthToken, assign_provider_tokens, first_login, insert_login, insert_user, new_login,
  text_or_nil,
}

abbrev pub save_login : AuthProvider → Db → Result (Unit {0} × Db)
save_login p db =
    ok (
      tt,
      record db { auth_providers = update_where (λ q. q.id == p.id) (λ _. p) db.auth_providers },
    )

-- The tokens of a known login are replaced by the new ones.
abbrev pub renew_tokens : AuthProvider → ProviderType → Option OauthToken → M (Unit {0})
renew_tokens p provider none = pure tt
renew_tokens p provider (some t) = assign_provider_tokens p provider t >>= λ p'. sql (save_login p')

unfoldable pub finish_existing_oauth_provider_tx :
    AuthProvider → ProviderType → Option OauthToken → M (User × TokenPair)
unfolding assign_provider_tokens issue_token_pair_tx
finish_existing_oauth_provider_tx p provider token = do
  renew_tokens p provider token
  user ← catch (sql (first_user p.user_id)) (or_fail user_not_found)
  pair ← issue_token_pair_tx user
  pure (user, pair)

-- The user of the address, if there is one.
abbrev pub owner_of_email : Name → M (Option User)
owner_of_email address =
    if address == 0
    then pure none
    else not_found_to none (sql (by_email address) >>= λ u. pure (some u))

-- An address that the provider has not verified leads to no account.
abbrev pub may_join : Bool → Option User → Bool
may_join verified none = true
may_join verified (some _) = verified

abbrev pub new_user : Uuid → Identity → User
new_user id i = record {
  id = id;
  username = text_or_nil i.username;
  email = text_or_nil i.email;
  password_hash = none;
  avatar_url = i.avatar_url;
  role = viewer;
  email_verified = not (i.email == 0) && i.email_verified;
  deleted_at = none;
}

abbrev pub found_or_created : Identity → Option User → M User
found_or_created i none = new_uuid >>= λ id. sql (insert_user (new_user id i))
found_or_created i (some u) = pure u

abbrev pub with_new_tokens : AuthProvider → ProviderType → Option OauthToken → M AuthProvider
with_new_tokens p provider none = pure p
with_new_tokens p provider (some t) = assign_provider_tokens p provider t

-- A login that is not known yet: of the user of a verified address, or of a new user.
unfoldable pub link_or_create : Identity → M (User × TokenPair)
unfolding insert_user assign_provider_tokens insert_login issue_token_pair_tx
link_or_create i = do
  owner ← owner_of_email i.email
  guard (may_join i.email_verified owner) email_exists
  user ← found_or_created i owner
  id ← new_uuid
  at ← now
  p ← with_new_tokens (new_login id user.id i.provider i.provider_id at) i.provider i.token
  sql (insert_login p)
  pair ← issue_token_pair_tx user
  pure (user, pair)

abbrev pub known_or_new : Identity → Option AuthProvider → M (User × TokenPair)
known_or_new i (some p) = finish_existing_oauth_provider_tx p i.provider i.token
known_or_new i none = link_or_create i

unfoldable pub upsert_oauth_user_tx : Identity → M (User × TokenPair)
unfolding finish_existing_oauth_provider_tx link_or_create
upsert_oauth_user_tx i =
    not_found_to none (sql (first_login i) >>= λ p. pure (some p)) >>= known_or_new i

-- Another request may have stored the login in between.
unfoldable pub recover_oauth_provider_conflict : Identity → M (User × TokenPair)
unfolding finish_existing_oauth_provider_tx
recover_oauth_provider_conflict i =
    transaction
      (sql (first_login i) >>= λ p. finish_existing_oauth_provider_tx p i.provider i.token)

abbrev pub error_mentions : Error → String → M Bool
error_mentions e text = ask λ env _. env.outside.strings.mentions e text

abbrev pub is_duplicated_key : Error → Bool
is_duplicated_key duplicated_key = true
is_duplicated_key _ = false

unfoldable pub is_duplicated_key_error : Error → M Bool
is_duplicated_key_error e = if is_duplicated_key e then pure true else do
  unique ← error_mentions e "UNIQUE constraint failed"
  dup ← error_mentions e "duplicate key"
  dupd ← error_mentions e "duplicated key"
  pure (unique || (dup || dupd))

-- A count that fails, or finds none, says nothing.
abbrev pub some_counted : Result ℕ → M Bool
some_counted (ok n) = pure (not (n == 0))
some_counted (err _) = pure false

abbrev pub is_taken : Name → (User → Bool) → M Bool
is_taken text p =
    if text == 0 then pure false else catch (sql λ db. ok (count_where p db.users, db)) some_counted

abbrev pub has_username : Name → User → Bool
has_username name u = is_some_of u.username name && is_nil u.deleted_at

-- Which of the unique columns was taken.
unfoldable pub map_oauth_user_unique_error : Identity → Error → M Error
map_oauth_user_unique_error i fallback = do
  email_taken ← is_taken i.email (has_email i.email)
  if email_taken then pure email_exists else do
    name_taken ← is_taken i.username (has_username i.username)
    if name_taken then pure username_exists else do
      of_email ← error_mentions fallback "email"
      of_name ← error_mentions fallback "username"
      pure (if of_email then email_exists else if of_name then username_exists else fallback)

abbrev pub is_missing : Error → Bool
is_missing record_not_found = true
is_missing _ = false

abbrev pub is_username_exists : Error → Bool
is_username_exists username_exists = true
is_username_exists _ = false

abbrev pub unnamed : Identity → Identity
unnamed i = record i { username = 0 }

abbrev pub done : User × TokenPair → M (Option (User × TokenPair))
done r = pure (some r)

-- A taken username is dropped, and the whole tried again. `again` is that second call.
abbrev pub after_recovery :
    Identity
    → Error
    → M (Option (User × TokenPair))
    → Result (User × TokenPair)
    → M (Option (User × TokenPair))
after_recovery i e again (ok r) = done r
after_recovery i e again (err f) =
    if not (is_missing f)
    then raise f
    else (map_oauth_user_unique_error i e >>= λ mapped.
        if not (i.username == 0) && is_username_exists mapped then again else raise mapped)

abbrev pub after_upsert :
    Identity
    → M (Option (User × TokenPair))
    → Result (User × TokenPair)
    → M (Option (User × TokenPair))
after_upsert i again (ok r) = done r
after_upsert i again (err e) = is_duplicated_key_error e >>= λ dup.
    if not dup
    then raise e
    else catch (recover_oauth_provider_conflict i) (after_recovery i e again)

-- The function calls itself, on the number of calls that it may make: `none` when that runs out.
unfoldable pub upsert_oauth_user : ℕ → Identity → M (Option (User × TokenPair))
unfolding upsert_oauth_user_tx recover_oauth_provider_conflict is_duplicated_key_error
    map_oauth_user_unique_error
upsert_oauth_user zero i = pure none
upsert_oauth_user (suc fuel) i =
    let again = upsert_oauth_user fuel (unnamed i) in
    catch (transaction (upsert_oauth_user_tx i)) (after_upsert i again)
