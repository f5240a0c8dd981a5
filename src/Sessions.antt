-- ===== src/Sessions.antt =====
-- Sessions: services/api/internal/services/auth_service.go, pairs of an access token and a refresh
-- token, their rotation and their end. Of a refresh token only the hash is stored.
pub mod Tokens
pub mod Rotation
pub mod Calls
pub mod Refinement
use tachigo.Base.{
  ℕ, ◌+◌, Bool, true, false, not, ◌||◌, Option, none, some, List, ◌∷◌, ◌==◌, ltb, if◌then◌else◌,
  find_first, delete_where, count_where, is_some_of, ◌&&◌, ◌/◌,
}
use tachigo.Models.{
  Uuid, Time, Name, User, RefreshToken, Result, Error, ok, err, duplicated_key, user_not_found,
  invalid_credentials, invalid_token, refresh_token_expired,
}
use tachigo.Effect.{
  Db, M, AccessClaims, sql, transaction, ask, now, new_uuid, guard, raise, catch, lift, ◌>>=◌, ◌>>◌,
  pure,
}
use tachigo.Ledger.{row_or_missing}

pub record TokenPair : Type 0 where
  pub access_token : Name
  pub refresh_token : Name
  pub expires_in : ℕ

-- `time.Duration.Seconds()`, cut to whole ones.
abbrev pub whole_seconds : ℕ → ℕ
whole_seconds nanos = nanos / 1000000000

-- Rows of users that are not deleted.
abbrev pub is_nil {ℓ} : {A : Type ℓ} → Option A → Bool
is_nil none = true
is_nil (some _) = false

abbrev pub has_user_id : Uuid → User → Bool
has_user_id id u = u.id == id && is_nil u.deleted_at

abbrev pub first_user : Uuid → Db → Result (User × Db)
first_user id db = row_or_missing (find_first (has_user_id id) db.users) db

abbrev pub has_hash : Name → RefreshToken → Bool
has_hash hash t = t.token_hash == hash

abbrev pub first_refresh_token : Name → Db → Result (RefreshToken × Db)
first_refresh_token hash db = row_or_missing (find_first (has_hash hash) db.refresh_tokens) db

-- The primary key and the unique index on the hash.
abbrev pub token_clashes : RefreshToken → RefreshToken → Bool
token_clashes t u = u.id == t.id || u.token_hash == t.token_hash

abbrev pub insert_token_row : RefreshToken → Option RefreshToken → Db → Result (Unit {0} × Db)
insert_token_row t (some _) db = err duplicated_key
insert_token_row t none db = ok (tt, record db { refresh_tokens = t ∷ db.refresh_tokens })

unfoldable pub insert_refresh_token : RefreshToken → Db → Result (Unit {0} × Db)
insert_refresh_token t db = insert_token_row t (find_first (token_clashes t) db.refresh_tokens) db

abbrev pub delete_tokens : (RefreshToken → Bool) → Db → Result (ℕ × Db)
delete_tokens p db = ok (
  count_where p db.refresh_tokens,
  record db { refresh_tokens = delete_where p db.refresh_tokens },
)

abbrev pub hash_token : Name → M Name
hash_token raw = ask λ env _. env.outside.sha256_hex raw

-- The claims of the access token: who, which role, and until when.
abbrev pub access_claims : User → ℕ → Time → Time → AccessClaims
access_claims user ttl from at = record {
  user_id = user.id;
  role = user.role;
  issued_at = at;
  expires_at = from + ttl;
}

abbrev pub new_refresh_token : Uuid → Uuid → Name → Time → Time → RefreshToken
new_refresh_token id user hash expires at = record {
  id = id;
  user_id = user;
  token_hash = hash;
  expires_at = expires;
  created_at = at;
}

-- A signed access token, and a random refresh token whose hash is stored.
unfoldable pub issue_token_pair_tx : User → M TokenPair
issue_token_pair_tx user = do
  ttl ← ask λ env _. env.outside.identity.access_ttl
  from ← now
  at ← now
  signed ← ask λ env _. env.outside.identity.sign (access_claims user ttl from at)
  access ← lift signed
  nonce ← ask λ env t. env.outside.identity.generate_nonce t
  raw ← lift nonce
  hash ← hash_token raw
  refresh_ttl ← ask λ env _. env.outside.identity.refresh_ttl
  start ← now
  id ← new_uuid
  created ← now
  sql (insert_refresh_token (new_refresh_token id user.id hash (start + refresh_ttl) created))
  pure (record { access_token = access; refresh_token = raw; expires_in = whole_seconds ttl })

-- Whatever the error, the caller sees only that the credentials are wrong.
abbrev pub or_fail : {A : Type 0} → Error → Result A → M A
or_fail e (ok a) = pure a
or_fail e (err _) = raise e

abbrev pub has_email : Name → User → Bool
has_email email u = is_some_of u.email email && is_nil u.deleted_at

abbrev pub by_email : Name → Db → Result (User × Db)
by_email email db = row_or_missing (find_first (has_email email) db.users) db

pub record LoginInput : Type 0 where
  pub email : Name
  pub password : Name

-- A user who never set a password has none that matches.
abbrev pub password_matches : Option Name → Name → M Bool
password_matches none password = pure false
password_matches (some hash) password =
    ask λ env _. env.outside.identity.matches_password hash password

unfoldable pub login : LoginInput → M (User × TokenPair)
unfolding issue_token_pair_tx
login input = do
  user ← catch (sql (by_email input.email)) (or_fail invalid_credentials)
  matches ← password_matches user.password_hash input.password
  guard matches invalid_credentials
  pair ← issue_token_pair_tx user
  pure (user, pair)

abbrev pub has_token_id : Uuid → RefreshToken → Bool
has_token_id id t = t.id == id

-- One use of a refresh token: the row is deleted, and a new pair issued.
unfoldable pub rotate : Name → M TokenPair
unfolding issue_token_pair_tx
rotate hash = do
  stored ← catch (sql (first_refresh_token hash)) (or_fail invalid_token)
  at ← now
  guard (not (ltb stored.expires_at at)) refresh_token_expired
  user ← catch (sql (first_user stored.user_id)) (or_fail user_not_found)
  affected ← sql (delete_tokens (has_token_id stored.id))
  guard (not (affected == 0)) invalid_token
  issue_token_pair_tx user

abbrev pub is_expired_error : Error → Bool
is_expired_error refresh_token_expired = true
is_expired_error _ = false

-- A token that has expired is deleted, outside the transaction that found it so.
abbrev pub after_rotation : Name → Result TokenPair → M TokenPair
after_rotation hash (ok pair) = pure pair
after_rotation hash (err e) =
    if is_expired_error e
    then sql (delete_tokens (has_hash hash)) >> raise invalid_token
    else raise e

unfoldable pub refresh : Name → M TokenPair
unfolding rotate
refresh raw = hash_token raw >>= λ hash. catch (transaction (rotate hash)) (after_rotation hash)

unfoldable pub logout : Name → M (Unit {0})
logout raw = do hash ← hash_token raw; sql (delete_tokens (has_hash hash)); pure tt

-- `expires_at < ?`
abbrev pub expires_before : Time → RefreshToken → Bool
expires_before at t = ltb t.expires_at at

unfoldable pub delete_expired_refresh_tokens : M ℕ
delete_expired_refresh_tokens = now >>= λ at. sql (delete_tokens (expires_before at))
