-- ===== src/Accounts/Logins.antt =====
-- Registration by e-mail, the end of a login, and signing in by a wallet: Register, UnlinkProvider,
-- Web3Nonce and Web3Verify of services/auth_service.go.
use tachigo.Base.{
  ℕ, ◌+◌, Bool, false, not, ◌&&◌, ◌||◌, Option, none, some, ◌∷◌, ◌==◌, leb, ltb, if◌then◌else◌,
  find_first, update_where, delete_where, count_where,
}
use tachigo.Models.{
  Uuid, Time, Name, ProviderType, web3, AuthProvider, User, viewer, Web3Nonce, Result, ok, err,
  duplicated_key, email_exists, username_exists, last_provider, invalid_nonce, invalid_signature,
}
use tachigo.Effect.{
  Db, M, Outside, sql, transaction, ask, now, new_uuid, guard, raise, catch, lift, not_found_as,
  ◌>>=◌, ◌>>◌, pure,
}
use tachigo.Ledger.{row_or_missing}
use tachigo.Sessions.{TokenPair, is_nil, first_user, has_email, issue_token_pair_tx}
use tachigo.Accounts.Siwe.{verify_eth_signature, message_at}
use tachigo.Accounts.Rows.{Identity, same_type, insert_user, insert_login, new_login}
use tachigo.Accounts.{has_username, upsert_oauth_user}

pub record RegisterInput : Type 0 where
  pub username : Name
  pub email : Name
  pub password : Name

abbrev pub count_users : (User → Bool) → M ℕ
count_users p = sql λ db. ok (count_where p db.users, db)

abbrev pub registered_user : Uuid → RegisterInput → Name → User
registered_user id input hash = record {
  id = id;
  username = some input.username;
  email = some input.email;
  password_hash = some hash;
  avatar_url = none;
  role = viewer;
  email_verified = false;
  deleted_at = none;
}

-- The user, a login by e-mail for consistency, and a pair of tokens.
unfoldable pub register_in_tx : RegisterInput → Name → M (User × TokenPair)
unfolding insert_user insert_login issue_token_pair_tx
register_in_tx input hash = do
  id ← new_uuid
  user ← sql (insert_user (registered_user id input hash))
  row ← new_uuid
  at ← now
  sql (insert_login (new_login row user.id ProviderType.email input.email at))
  pair ← issue_token_pair_tx user
  pure (user, pair)

unfoldable pub register : RegisterInput → M (User × TokenPair)
unfolding register_in_tx
register input = do
  with_email ← count_users (has_email input.email)
  guard (with_email == 0) email_exists
  with_name ← count_users (has_username input.username)
  guard (with_name == 0) username_exists
  hash ← ask λ env tick. env.outside.identity.hash_password tick input.password
  hashed ← lift hash
  transaction (register_in_tx input hashed)

-- `user_id = ?`, on rows that are not soft-deleted.
abbrev pub belongs_to : Uuid → AuthProvider → Bool
belongs_to user p = p.user_id == user && is_nil p.deleted_at

abbrev pub is_login_by : Uuid → ProviderType → AuthProvider → Bool
is_login_by user provider p = belongs_to user p && same_type p.provider provider

abbrev pub end_login : Time → AuthProvider → AuthProvider
end_login at p = record p { deleted_at = some at }

abbrev pub delete_logins : Uuid → ProviderType → Time → Db → Result (Unit {0} × Db)
delete_logins user provider at db = ok (
  tt,
  record db {
    auth_providers = update_where (is_login_by user provider) (end_login at) db.auth_providers;
  },
)

-- One other way to sign in has to remain.
unfoldable pub unlink_provider : Uuid → ProviderType → M (Unit {0})
unlink_provider id provider = do
  count ← sql λ db. ok (count_where (belongs_to id) db.auth_providers, db)
  user ← sql (first_user id)
  guard (not (leb count 1 && is_nil user.password_hash)) last_provider
  at ← now
  sql (delete_logins id provider at)

-- Five minutes, in nanoseconds.
abbrev pub nonce_ttl : ℕ
nonce_ttl = 300000000000

abbrev pub nonce_clashes : Web3Nonce → Web3Nonce → Bool
nonce_clashes n m = m.id == n.id || m.nonce == n.nonce

abbrev pub insert_nonce_row : Web3Nonce → Option Web3Nonce → Db → Result (Unit {0} × Db)
insert_nonce_row n (some _) db = err duplicated_key
insert_nonce_row n none db = ok (tt, record db { web3_nonces = n ∷ db.web3_nonces })

unfoldable pub insert_nonce : Web3Nonce → Db → Result (Unit {0} × Db)
insert_nonce n db = insert_nonce_row n (find_first (nonce_clashes n) db.web3_nonces) db

abbrev pub delete_nonces : (Web3Nonce → Bool) → Db → Result (ℕ × Db)
delete_nonces p db =
    ok (count_where p db.web3_nonces, record db { web3_nonces = delete_where p db.web3_nonces })

abbrev pub new_nonce : Uuid → Name → Name → Time → Time → Web3Nonce
new_nonce id nonce address expires at = record {
  id = id;
  nonce = nonce;
  address = address;
  expires_at = expires;
  created_at = at;
}

-- A new nonce takes the place of those that the address had.
unfoldable pub web3_nonce : Name → M (Name × Time)
unfolding insert_nonce
web3_nonce given = do
  outside ← ask λ env _. env.outside
  let address = outside.strings.to_lower (outside.chain.checksum_address given)
  random ← ask λ env tick. env.outside.identity.generate_nonce tick
  nonce ← lift random
  start ← now
  id ← new_uuid
  at ← now
  transaction (
      sql (delete_nonces (λ n. n.address == address))
      >> sql (insert_nonce (new_nonce id nonce address (start + nonce_ttl) at)))
  pure (nonce, at)

pub record Web3VerifyInput : Type 0 where
  pub address : Name
  pub signature : Name
  pub nonce : Name

abbrev pub is_nonce : Name → Name → Web3Nonce → Bool
is_nonce nonce address n = n.nonce == nonce && n.address == address

abbrev pub first_nonce : Name → Name → Db → Result (Web3Nonce × Db)
first_nonce nonce address db =
    row_or_missing (find_first (is_nonce nonce address) db.web3_nonces) db

abbrev pub has_nonce_id : Uuid → Web3Nonce → Bool
has_nonce_id id n = n.id == id

-- What is known of the owner of a wallet.
abbrev pub wallet_identity : Name → Identity
wallet_identity address = record {
  provider = web3;
  provider_id = address;
  username = 0;
  email = 0;
  email_verified = false;
  avatar_url = none;
  token = none;
}

-- The nonce is used up together with the signing in.
unfoldable pub consume_nonce : ℕ → Web3Nonce → Name → M (Option (User × TokenPair))
unfolding upsert_oauth_user
consume_nonce fuel n checksum = do
  affected ← sql (delete_nonces (has_nonce_id n.id))
  guard (affected == 1) invalid_nonce
  upsert_oauth_user fuel (wallet_identity checksum)

unfoldable pub web3_verify_with : ℕ → Web3VerifyInput → Outside → M (Option (User × TokenPair))
unfolding consume_nonce
web3_verify_with fuel input outside = do
  let address = outside.strings.to_lower input.address
  n ← not_found_as invalid_nonce (sql (first_nonce input.nonce address))
  at ← now
  if ltb n.expires_at at
      then catch (sql (delete_nonces (has_nonce_id n.id))) (λ _. raise invalid_nonce)
      else (guard
            (verify_eth_signature outside (message_at outside address input.nonce n.created_at)
              input.signature address)
            invalid_signature
          >> transaction (consume_nonce fuel n (outside.chain.checksum_address input.address)))

-- The functions on texts, addresses and signatures are asked for first.
unfoldable pub web3_verify : ℕ → Web3VerifyInput → M (Option (User × TokenPair))
unfolding web3_verify_with
web3_verify fuel input = ask (λ env _. env.outside) >>= web3_verify_with fuel input
