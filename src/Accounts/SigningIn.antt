-- ===== src/Accounts/SigningIn.antt =====
-- Who is signed in by a login of a provider, and what that changes.
use tachigo.Base.{
  ◌≡◌, refl, true, false, Option, none, some, ◌∷◌, ◌==◌, ◌⊎◌, inl, inr, ap, ◌∙◌, find_first,
}
use tachigo.Models.{AuthProvider, User, viewer, email_exists}
use tachigo.Effect.{Db, transaction}
use tachigo.Effect.Ensures.{Gives-weaken}
use tachigo.Effect.Safe.{
  Safe, Safe-pure, Safe-if, Safe-bind, Safe-guard, Safe-sql, Safe-bind-now, Safe-bind-new_uuid,
  Safe-transaction, Safe-outcome, Safe-Ensures,
}
use tachigo.Ledger.Lookups.{Safe-bind-lookup, Safe-lookup}
use tachigo.Raffles.Access.{row-Gives}
use tachigo.Sessions.{has_email}
use tachigo.Sessions.Rotation.{Issued, issue-Issued}
use tachigo.Accounts.Rows.{
  Identity, OauthToken, find_login, first_login, user_clashes, insert_user, insert_login, new_login,
  text_or_nil,
}
use tachigo.Accounts.{
  owner_of_email, may_join, new_user, found_or_created, with_new_tokens, link_or_create,
  known_or_new, upsert_oauth_user_tx, recover_oauth_provider_conflict,
}
use tachigo.Accounts.Steps.{
  Any, Created, IsLoginOf, Joins, Known, SameLogin, SignsIn, assign-Same, finish-Known,
  insert_login-Gives, insert_user-Gives,
}

module _ (i : Identity) (db : Db) where
  -- A user, old or new, whose login is to be stored.
  abbrev Owner : User → Db → Type 0
  Owner u mid =
      ((i.email_verified ≡ true)
        × ((i.email == 0) ≡ false)
        × (find_first (has_email i.email) db.users ≡ some u)
        × (mid ≡ db))
      ⊎ ((((i.email == 0) ≡ true) ⊎ (find_first (has_email i.email) db.users ≡ none))
          × (u.role ≡ viewer)
          × (u.deleted_at ≡ none)
          × (u.email ≡ text_or_nil i.email)
          × (find_first (user_clashes u) db.users ≡ none)
          × (mid ≡ record db { users = u ∷ db.users }))

  -- What the search by address finds.
  abbrev Searched : Option User → Type 0
  Searched none = ((i.email == 0) ≡ true) ⊎ (find_first (has_email i.email) db.users ≡ none)
  Searched (some u) = ((i.email == 0) ≡ false) × (find_first (has_email i.email) db.users ≡ some u)

  search-Searched : Safe Any db (owner_of_email i.email) (λ o db'. Searched o × (db' ≡ db))
  search-Searched =
      Safe-if (i.email == 0) _ _ (λ e. Safe-pure none (inl e, refl))
        λ some_email.
          Safe-outcome Any (λ o db'. (find_first (has_email i.email) db.users ≡ o) × (db' ≡ db))
            (Safe-lookup _ _ refl tt (refl, refl)) (λ _ _. tt)
            (λ o db' h. (known some_email o h.0, h.1))
    where
      known :
          (i.email == 0) ≡ false
          → (o : Option User) → find_first (has_email i.email) db.users ≡ o
          → Searched o
      known e none h = inr h
      known e (some u) h = (e, h)

  found_or_created-Owner :
      (o : Option User)
      → Searched o
      → may_join i.email_verified o ≡ true
      → Safe Any db (found_or_created i o) Owner
  found_or_created-Owner (some u) s may = Safe-pure u (inl (may, s.0, s.1, refl))
  found_or_created-Owner none s may = Safe-bind-new_uuid _ λ id.
      Safe-sql (insert_user (new_user id i)) tt (
        Gives-weaken _ Owner (insert_user (new_user id i) db)
          (λ u mid h. rw h.0 (inr (s, refl, refl, refl, h.1, h.2)))
          (insert_user-Gives (new_user id i) db))

  tokens-Same :
      (p : AuthProvider) (mid : Db)
      → Safe Any mid (with_new_tokens p i.provider i.token) (λ p' db'. SameLogin p p' × (db' ≡ mid))
  tokens-Same p mid = go i.token
    where
      go :
          (t : Option OauthToken)
          → Safe Any mid (with_new_tokens p i.provider t) (λ p' db'. SameLogin p p' × (db' ≡ mid))
      go none = Safe-pure p (refl, refl)
      go (some t) = assign-Same p i.provider t mid

  way :
      (u : User) (owned mid : Db) (p : AuthProvider)
      → find_login i db ≡ none
      → Owner u owned
      → IsLoginOf i u.id p
      → mid ≡ record owned { auth_providers = p ∷ owned.auth_providers }
      → Known i db u mid ⊎ (Joins i db u mid ⊎ Created i db u mid)
  way u owned mid p new (inl (verified, some_email, of_email, same)) is stored =
      let add : Db → Db = λ d. record d { auth_providers = p ∷ d.auth_providers } in
      inr (inl (new, verified, some_email, of_email, (p, is, stored ∙ ap add same)))
  way u owned mid p new (inr (nobody, role, live, address, unused, same)) is stored =
      let add : Db → Db = λ d. record d { auth_providers = p ∷ d.auth_providers } in
      inr (inr (new, nobody, role, live, address, unused, (p, is, stored ∙ ap add same)))

  link-SignsIn :
      find_login i db ≡ none → Safe Any db (link_or_create i) (λ r db'. SignsIn i db r.0 db')
  unfolding link_or_create
  link-SignsIn new =
      Safe-bind (λ o db'. Searched o × (db' ≡ db)) _ _ search-Searched
        λ o db' s. rw s.1 (
          Safe-guard (may_join i.email_verified o) email_exists _ tt λ may.
            Safe-bind Owner _ _ (found_or_created-Owner o s.0 may) λ u owned own.
              Safe-bind-new_uuid _ λ id. Safe-bind-now _ λ at.
                let row = new_login id u.id i.provider i.provider_id at in
                Safe-bind (λ p' db'. SameLogin row p' × (db' ≡ owned)) _ _ (tokens-Same row owned)
                  λ p' db' same. rw same.1 (
                    Safe-bind
                      (λ _ db'. db' ≡ record owned { auth_providers = p' ∷ owned.auth_providers }) _
                      _ (Safe-sql (insert_login p') tt (insert_login-Gives p' owned))
                      λ _ mid stored.
                        Safe-bind (λ _ db'. Issued u.id mid db') _ _
                          (Safe-outcome (λ db'. db' ≡ mid) _ (issue-Issued u mid) (λ _ _. tt)
                            (λ _ _ x. x))
                          λ pair db' x.
                            Safe-pure (u, pair)
                              (
                                mid,
                                way u owned mid p' new own
                                    (
                                      ap (λ q. q.provider) same.0,
                                      ap (λ q. q.provider_id) same.0,
                                      ap (λ q. q.user_id) same.0,
                                      ap (λ q. q.deleted_at) same.0,
                                    )
                                    stored,
                                x,
                              )))

  upsert-SignsIn : Safe Any db (upsert_oauth_user_tx i) (λ r db'. SignsIn i db r.0 db')
  unfolding upsert_oauth_user_tx
  upsert-SignsIn = Safe-bind-lookup (find_login i db) _ _ refl tt (go (find_login i db) refl)
    where
      go :
          (o : Option AuthProvider)
          → find_login i db ≡ o
          → Safe Any db (known_or_new i o) (λ r db'. SignsIn i db r.0 db')
      go none e = link-SignsIn e
      go (some p) e = finish-Known i p db e

  -- In a transaction, a failure leaves the tables.
  pub transaction-SignsIn :
      Safe
        (λ db'. db' ≡ db)
        db
        (transaction (upsert_oauth_user_tx i))
        (λ r db'. SignsIn i db r.0 db')
  transaction-SignsIn = Safe-transaction _ refl (Safe-Ensures upsert-SignsIn)

  pub recovery-SignsIn :
      Safe (λ db'. db' ≡ db) db (recover_oauth_provider_conflict i) (λ r db'. SignsIn i db r.0 db')
  unfolding recover_oauth_provider_conflict
  recovery-SignsIn = Safe-transaction _ refl (
      Safe-Ensures {E = Any} (
        Safe-bind (λ p db'. (find_login i db ≡ some p) × (db' ≡ db)) _ _
          (Safe-sql (first_login i) tt (row-Gives db _))
          λ p db' found. rw found.1 (finish-Known i p db found.0)))
