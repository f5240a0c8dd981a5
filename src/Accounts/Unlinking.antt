-- ===== src/Accounts/Unlinking.antt =====
-- The end of a login: UnlinkProvider of services/auth_service.go.
use tachigo.Base.{
  ℕ, ◌+◌, ◌≤◌, ◌<◌, ◌≡◌, ◌≢◌, refl, ◌⊎◌, inl, inr, true, not, ◌&&◌, Option, none, some, List, [],
  ◌∷◌, leb, arith, find_first, update_where, count_where, Bool-cases, ==_iff, &&_split,
  find_first-passes,
}
use tachigo.Models.{Uuid, Time, Name, ProviderType, AuthProvider, User, last_provider}
use tachigo.Effect.{Db}
use tachigo.Effect.Safe.{Safe, Safe-bind, Safe-guard, Safe-sql, Safe-bind-now}
use tachigo.Raffles.Access.{row-Gives}
use tachigo.Sessions.{is_nil, has_user_id, first_user}
use tachigo.Accounts.Rows.{same_type}
use tachigo.Accounts.Logins.{belongs_to, is_login_by, end_login, delete_logins, unlink_provider}

-- The logins of the user are of distinct providers.
abbrev pub IsOnePerProvider : Uuid → List AuthProvider → Type 0
IsOnePerProvider user ps =
    (provider : ProviderType) → count_where (is_login_by user provider) ps ≤ 1

-- What remains are the logins of other providers.
remaining :
    (user : Uuid) (provider : ProviderType) (at : Time) (ps : List AuthProvider)
    → count_where (belongs_to user) (update_where (is_login_by user provider) (end_login at) ps)
        + count_where (is_login_by user provider) ps
      ≡ count_where (belongs_to user) ps
remaining user provider at [] = refl
remaining user provider at (p ∷ ps) = elim (Bool-cases (belongs_to user p)) [
  | inl mine ↦ elim (Bool-cases (same_type p.provider provider)) [
    | inl hit ↦ ground (arith, mine, hit, remaining user provider at ps)
    | inr miss ↦ ground (arith, mine, miss, remaining user provider at ps)
  ]
  | inr other ↦ ground (arith, other, remaining user provider at ps)
]

-- A password, or a login that is left.
abbrev pub HasWayIn : User → List AuthProvider → Type 0
HasWayIn u ps = (u.password_hash ≢ none) ⊎ (0 < count_where (belongs_to u.id) ps)

-- The logins of the provider are deleted, and nothing else changes.
pub record Unlinked (user : Uuid) (provider : ProviderType) (db db' : Db) : Type 0 where
  pub found : User
  pub alive : find_first (has_user_id user) db.users ≡ some found
  pub at : Time
  pub stored : db' ≡ (record db {
    auth_providers = update_where (is_login_by user provider) (end_login at) db.auth_providers;
  })
  pub way_in : HasWayIn found db'.auth_providers

kept_way :
    (user : Uuid) (provider : ProviderType) (at : Time) (u : User) (ps : List AuthProvider)
    → u.id ≡ user
    → IsOnePerProvider user ps
    → not (leb (count_where (belongs_to user) ps) 1 && is_nil u.password_hash) ≡ true
    → HasWayIn u (update_where (is_login_by user provider) (end_login at) ps)
kept_way user provider at u ps same once may = go u.password_hash refl
  where
    go :
        (o : Option Name)
        → u.password_hash ≡ o
        → HasWayIn u (update_where (is_login_by user provider) (end_login at) ps)
    go (some h) e = inl (λ q. cc (e, q))
    go none e = inr (
        rw same (
          omega (
            arith,
            remaining user provider at ps,
            once provider,
            several (count_where (belongs_to user) ps) u.password_hash e may,
          )))
      where
        several : (n : ℕ) (o : Option Name) → o ≡ none → not (leb n 1 && is_nil o) ≡ true → 2 ≤ n
        several n o e h = ground (arith, e, h)

-- `UnlinkProvider`, for a user whose logins are of distinct providers: if it returns, the user's live
-- logins of the provider, and only these, have been deleted, and the user has a password or another
-- login left. If it fails, nothing has changed.
pub unlink_provider-Unlinked :
    (user : Uuid) (provider : ProviderType) (db : Db)
    → IsOnePerProvider user db.auth_providers
    → Safe
        (λ db'. db' ≡ db)
        db
        (unlink_provider user provider)
        (λ _ db'. Unlinked user provider db db')
unfolding unlink_provider
unlink_provider-Unlinked user provider db once =
    Safe-bind (λ n db'. (n ≡ count_where (belongs_to user) db.auth_providers) × (db' ≡ db)) _ _
      (Safe-sql _ refl (refl, refl))
      λ n db' h. rw h.1 (
        Safe-bind (λ u db'. (find_first (has_user_id user) db.users ≡ some u) × (db' ≡ db)) _ _
          (Safe-sql (first_user user) refl (row-Gives db _))
          λ u db' alive. rw alive.1 (
            Safe-guard _ last_provider _ refl λ may. Safe-bind-now _ λ at.
              Safe-sql (delete_logins user provider at) refl (record {
                found = u;
                alive = alive.0;
                at = at;
                stored = refl;
                way_in =
                    kept_way user provider at u db.auth_providers
                      ((==_iff u.id user).0
                        (&&_split _ _ (find_first-passes (has_user_id user) db.users alive.0)).0)
                      once (rw (← h.0) may);
              })))
