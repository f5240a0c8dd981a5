-- ===== src/Accounts/Steps.antt =====
-- What signing in changes, and the steps that it takes.
use tachigo.Base.{
  ◌≡◌, refl, true, false, not, ◌||◌, Option, none, some, ◌∷◌, ◌==◌, ◌⊎◌, inl, inr, ap, sym, ◌∙◌,
  find_first, update_where,
}
use tachigo.Models.{Uuid, ProviderType, AuthProvider, User, viewer, user_not_found}
use tachigo.Effect.{Db, lift, pure}
use tachigo.Effect.Ensures.{Gives}
use tachigo.Effect.Safe.{
  Safe, Safe-pure, Safe-if, Safe-bind, Safe-sql, Safe-bind-ask, Safe-lift, Safe-outcome,
}
use tachigo.Raffles.Access.{row-Gives}
use tachigo.Sessions.{has_user_id, first_user, has_email}
use tachigo.Sessions.Rotation.{Issued, issue-Issued, replaced}
use tachigo.Accounts.Rows.{
  Identity, OauthToken, find_login, user_clashes, insert_user_row, insert_user, login_clashes,
  insert_login_row, insert_login, text_or_nil, assign_provider_tokens, is_twitch_login, unassigned,
  with_access_token, encrypted_tokens,
}
use tachigo.Accounts.{save_login, renew_tokens, finish_existing_oauth_provider_tx}

-- A row as a live login of the provider for the user.
abbrev pub IsLoginOf : Identity → Uuid → AuthProvider → Type 0
IsLoginOf i user p =
    (p.provider ≡ i.provider)
    × (p.provider_id ≡ i.provider_id)
    × (p.user_id ≡ user)
    × (p.deleted_at ≡ none)

-- A row with tokens is the row but for them.
abbrev pub SameLogin : AuthProvider → AuthProvider → Type 0
SameLogin p p' = p' ≡ (record p {
  access_token = p'.access_token;
  refresh_token = p'.refresh_token;
  token_expires_at = p'.token_expires_at;
})

-- At most the tokens of the row have been replaced.
abbrev pub Renewed : AuthProvider → Db → Db → Type 0
Renewed p db mid =
    (mid ≡ db)
    ⊎ ((p' : AuthProvider) × SameLogin p p'
        × (mid ≡ record db {
          auth_providers = update_where (λ q. q.id == p.id) (λ _. p') db.auth_providers;
        }))

-- The login is known, and its user is not deleted.
abbrev pub Known : Identity → Db → User → Db → Type 0
Known i db u mid =
    (p : AuthProvider) × (find_login i db ≡ some p)
    × (find_first (has_user_id p.user_id) db.users ≡ some u)
    × Renewed p db mid

-- The login is new, and its address, which the provider has verified, is the user's.
abbrev pub Joins : Identity → Db → User → Db → Type 0
Joins i db u mid =
    (find_login i db ≡ none)
    × (i.email_verified ≡ true)
    × ((i.email == 0) ≡ false)
    × (find_first (has_email i.email) db.users ≡ some u)
    × ((p : AuthProvider) × IsLoginOf i u.id p
        × (mid ≡ record db { auth_providers = p ∷ db.auth_providers }))

-- The login is new, its address leads to no user, and the user is a new viewer.
abbrev pub Created : Identity → Db → User → Db → Type 0
Created i db u mid =
    (find_login i db ≡ none)
    × (((i.email == 0) ≡ true) ⊎ (find_first (has_email i.email) db.users ≡ none))
    × (u.role ≡ viewer)
    × (u.deleted_at ≡ none)
    × (u.email ≡ text_or_nil i.email)
    × (find_first (user_clashes u) db.users ≡ none)
    × ((p : AuthProvider) × IsLoginOf i u.id p
        × (mid ≡ record db { users = u ∷ db.users; auth_providers = p ∷ db.auth_providers }))

-- One of the three, and a refresh token for the user.
abbrev pub SignsIn : Identity → Db → User → Db → Type 0
SignsIn i db u db' =
    (mid : Db) × (Known i db u mid ⊎ (Joins i db u mid ⊎ Created i db u mid)) × Issued u.id mid db'

abbrev pub Any : Db → Type 0
Any _ = Unit

pub assign-Same :
    (p : AuthProvider) (provider : ProviderType) (t : OauthToken) (db : Db)
    → Safe Any db (assign_provider_tokens p provider t) (λ p' db'. SameLogin p p' × (db' ≡ db))
unfolding assign_provider_tokens
assign-Same p provider t db =
    Safe-if (not (is_twitch_login provider) || t.access_token == 0) (pure (unassigned p))
      (encrypted_tokens p t) (λ _. Safe-pure (unassigned p) (refl, refl))
      λ _. Safe-bind-ask _ _ λ encrypted.
        Safe-bind (λ _ db'. db' ≡ db) (lift encrypted) (λ e. pure (with_access_token p t.expiry e))
          (Safe-lift encrypted tt (λ _. refl))
          λ e db' same. Safe-pure (with_access_token p t.expiry e) (refl, same)

renew-Renewed :
    (p : AuthProvider) (provider : ProviderType) (t : Option OauthToken) (db : Db)
    → Safe Any db (renew_tokens p provider t) (λ _ db'. Renewed p db db')
renew-Renewed p provider none db = Safe-pure tt (inl refl)
renew-Renewed p provider (some t) db =
    Safe-bind (λ p' db'. SameLogin p p' × (db' ≡ db)) _ _ (assign-Same p provider t db)
      λ p' db' s. rw s.1 (Safe-sql (save_login p') tt (inr (p', s.0, rw (ap (λ q. q.id) s.0) refl)))

pub finish-Known :
    (i : Identity) (p : AuthProvider) (db : Db)
    → find_login i db ≡ some p
    → Safe Any db
        (finish_existing_oauth_provider_tx p i.provider i.token)
        (λ r db'. SignsIn i db r.0 db')
unfolding finish_existing_oauth_provider_tx
finish-Known i p db found =
    Safe-bind (λ _ db'. Renewed p db db') _ _ (renew-Renewed p i.provider i.token db)
      λ _ mid renewed.
        Safe-bind (λ u db'. (find_first (has_user_id p.user_id) mid.users ≡ some u) × (db' ≡ mid)) _
          _ (replaced user_not_found _ (Safe-sql (first_user p.user_id) tt (row-Gives mid _)))
          λ u db' alive. rw alive.1 (
            Safe-bind (λ _ db'. Issued u.id mid db') _ _
              (Safe-outcome (λ db'. db' ≡ mid) _ (issue-Issued u mid) (λ _ _. tt) (λ _ _ x. x))
              λ pair db' x.
                Safe-pure _ (mid, inl (p, found, in_before u mid renewed alive.0, renewed), x))
  where
    in_before :
        (u : User) (mid : Db)
        → Renewed p db mid
        → find_first (has_user_id p.user_id) mid.users ≡ some u
        → find_first (has_user_id p.user_id) db.users ≡ some u
    in_before u mid (inl same) e =
        ap (λ d. find_first (has_user_id p.user_id) d.users) (sym same) ∙ e
    in_before u mid (inr (p', a, same)) e =
        ap (λ d. find_first (has_user_id p.user_id) d.users) (sym same) ∙ e

pub insert_user-Gives :
    (u : User) (db : Db)
    → Gives (insert_user u db) (λ v db'.
      (v ≡ u)
      × (find_first (user_clashes u) db.users ≡ none)
      × (db' ≡ record db { users = u ∷ db.users }))
unfolding insert_user
insert_user-Gives u db = go (find_first (user_clashes u) db.users) refl
  where
    go :
        (o : Option User)
        → find_first (user_clashes u) db.users ≡ o
        → Gives (insert_user_row u o db) (λ v db'.
          (v ≡ u)
          × (find_first (user_clashes u) db.users ≡ none)
          × (db' ≡ record db { users = u ∷ db.users }))
    go none e = (refl, e, refl)
    go (some _) e = tt

pub insert_login-Gives :
    (p : AuthProvider) (db : Db)
    → Gives
        (insert_login p db)
        (λ _ db'. db' ≡ record db { auth_providers = p ∷ db.auth_providers })
unfolding insert_login
insert_login-Gives p db = go (find_first (login_clashes p) db.auth_providers)
  where
    go :
        (o : Option AuthProvider)
        → Gives
            (insert_login_row p o db)
            (λ _ db'. db' ≡ record db { auth_providers = p ∷ db.auth_providers })
    go none = refl
    go (some _) = tt
