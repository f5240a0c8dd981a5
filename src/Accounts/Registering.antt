-- ===== src/Accounts/Registering.antt =====
-- Registration by e-mail: Register of services/auth_service.go.
use tachigo.Base.{
  some, false, ℕ, ◌≤◌, arith, ◌≡◌, refl, true, none, ◌∷◌, ◌==◌, find_first, count_where,
}
use tachigo.Models.{
  viewer, ok, Name, ProviderType, AuthProvider, User, email_exists, username_exists,
}
use tachigo.Effect.{Db, Env, World, world}
use tachigo.Effect.Runs.{Runs, Runs-Safe, Runs-bind-sql, Runs-bind-ask, Runs-bind-lift, Runs-guard}
use tachigo.Effect.Safe.{
  Safe, Safe-pure, Safe-bind, Safe-sql, Safe-bind-now, Safe-bind-new_uuid, Safe-transaction,
  Safe-outcome, Safe-Ensures,
}
use tachigo.Sessions.{has_email}
use tachigo.Sessions.Rotation.{Issued, issue-Issued}
use tachigo.Accounts.Rows.{user_clashes, insert_user, insert_login, new_login}
use tachigo.Accounts.{has_username}
use tachigo.Accounts.Steps.{insert_user-Gives, insert_login-Gives}
use tachigo.Accounts.Logins.{RegisterInput, registered_user, register_in_tx, register}

-- What bcrypt has made of the password at some moment of the world or later.
abbrev pub IsHashed : World → Name → Name → Type 0
IsHashed w password hash =
    (k : ℕ) × (w.tick ≤ k) × (w.env.outside.identity.hash_password k password ≡ ok hash)

-- A new viewer with the address, the name and a hash of the password, a login by e-mail, and a refresh
-- token.
pub record Registered (input : RegisterInput) (w : World) (u : User) (db' : Db) : Type 0 where
  pub free_email : (count_where (has_email input.email) w.db.users == 0) ≡ true
  pub free_name : (count_where (has_username input.username) w.db.users == 0) ≡ true
  pub hash : Name
  pub hashed : IsHashed w input.password hash
  pub of_input : u ≡ (record u {
    username = some input.username;
    email = some input.email;
    password_hash = some hash;
    avatar_url = none;
    role = viewer;
    email_verified = false;
    deleted_at = none;
  })
  pub unused : find_first (user_clashes u) w.db.users ≡ none
  pub login : AuthProvider
  pub of_user : login.user_id ≡ u.id
  pub live : login.deleted_at ≡ none
  pub by_email : (login.provider ≡ ProviderType.email) × (login.provider_id ≡ input.email)
  pub issued :
      Issued u.id
        (record w.db { users = u ∷ w.db.users; auth_providers = login ∷ w.db.auth_providers })
        db'

module _ (input : RegisterInput) (env : Env) (tick : ℕ) (db : Db)
    (free_email : (count_where (has_email input.email) db.users == 0) ≡ true)
    (free_name : (count_where (has_username input.username) db.users == 0) ≡ true) where
  abbrev w : World
  w = world env tick db

  in_tx-Registered :
      (hash : Name)
      → IsHashed w input.password hash
      → Safe (λ _. Unit) db (register_in_tx input hash) (λ r db'. Registered input w r.0 db')
  unfolding register_in_tx
  in_tx-Registered hash hashed = Safe-bind-new_uuid _ λ id.
      let user = registered_user id input hash in
      Safe-bind
        (λ v db'.
          (v ≡ user)
          × (find_first (user_clashes user) db.users ≡ none)
          × (db' ≡ record db { users = user ∷ db.users }))
        _ _ (Safe-sql (insert_user user) tt (insert_user-Gives user db))
        λ v db' h.
          rw (h.0, h.2)
            (Safe-bind-new_uuid _ λ row. Safe-bind-now _ λ at.
              let login = new_login row id ProviderType.email input.email at in
              let mid : Db = record db {
                users = user ∷ db.users;
                auth_providers = login ∷ db.auth_providers;
              } in
              Safe-bind (λ _ db'. db' ≡ mid) _ _
                (Safe-sql (insert_login login) tt (insert_login-Gives login _))
                λ _ db' same. rw same (
                  Safe-bind (λ _ db'. Issued id mid db') _ _
                    (Safe-outcome (λ db'. db' ≡ mid) _ (issue-Issued user mid) (λ _ _. tt)
                      (λ _ _ x. x))
                    λ pair db' x.
                      Safe-pure (user, pair)
                        (record {
                          free_email = free_email;
                          free_name = free_name;
                          hash = hash;
                          hashed = hashed;
                          of_input = refl;
                          unused = h.1;
                          login = login;
                          of_user = refl;
                          live = refl;
                          by_email = (refl, refl);
                          issued = x;
                        })))

-- `Register`: if it returns, no user who is not deleted had the address or the name, the user is a new
-- viewer with both and with what bcrypt has made of the password, whose row clashes with none, a login
-- by e-mail and a refresh token are stored for the user, and nothing else has changed. If it fails,
-- nothing has.
pub register-Registered :
    (input : RegisterInput) (w : World)
    → Runs (λ db'. db' ≡ w.db) w (register input) (λ r db'. Registered input w r.0 db')
unfolding register
register-Registered input w = Runs-bind-sql _ _ refl (
    Runs-guard _ email_exists _ refl λ free_email. Runs-bind-sql _ _ refl (
      Runs-guard _ username_exists _ refl λ free_name. Runs-bind-ask _ _ (
        Runs-bind-lift _ _ refl λ hash made. Runs-Safe (
          Safe-transaction _ refl (
            Safe-Ensures {E = λ _. Unit} (
              in_tx-Registered input w.env w.tick w.db free_email free_name hash
                (_, omega arith, made)))))))
