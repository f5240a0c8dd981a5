-- ===== src/Raffles/Syncing.antt =====
-- What a synchronisation with Twitch leaves.
use tachigo.Base.{
  ℕ, zero, suc, ◌≡◌, refl, true, false, not, ◌||◌, Option, none, some, List, [], ◌∷◌, ◌==◌, ◌⊎◌,
  find_first, inl, inr,
}
use tachigo.Models.{
  Uuid, Time, Name, AuthProvider, Raffle, RaffleEntry, Result, Error, ok, err,
  unsupported_raffle_source, twitch_token_missing,
}
use tachigo.Effect.{Db, M, TwitchSubscription, TwitchAnswer, raise, ◌>>=◌}
use tachigo.Effect.Ensures.{Gives}
use tachigo.Effect.Safe.{
  Safe, Safe-pure, Safe-raise, Safe-if, Safe-bind, Safe-guard, Safe-catch, Safe-sql, Safe-found,
  Safe-bind-now, Safe-bind-new_uuid, Safe-bind-ask, Safe-lift, Safe-outcome,
}
use tachigo.Ledger.Lookups.{Safe-bind-lookup}
use tachigo.Raffles.Access.{Owned, get_by_id-Owned, row-Gives}
use tachigo.Raffles.Entries.{
  links, first_broadcaster, clear_provider_tokens, decrypted, decrypted_provider_access_token,
  lacks_scope, has_expired, enters, insert_new_entry, insert_entry_row, insert_entry,
}
use tachigo.Raffles.Joining.{OnlyLogins, clears}
use tachigo.Raffles.Imports.{
  ImportResult, no_import, imported_entry, is_twitch_api, page_of, fetch_twitch_subs_page,
  sync_viewer, sync_page, sync_pages, sync_from_twitch_api,
}
use tachigo.Raffles.Importing.{Entered, Stopped, Inserted, Entered-none, Entered-one_more, stop}

insert_entry-Gives :
    (e : RaffleEntry) (db : Db)
    → Gives (insert_entry e db) (λ n db'. ((n ≡ 0) × (db' ≡ db)) ⊎ ((n ≡ 1) × Inserted e db db'))
unfolding insert_entry
insert_entry-Gives e db = go (find_first (enters e.raffle_id e.twitch_login) db.raffle_entries) refl
  where
    fresh :
        (o : Option RaffleEntry) (r : Option Raffle)
        → find_first (enters e.raffle_id e.twitch_login) db.raffle_entries ≡ none
        → Gives
            (insert_new_entry e o r db)
            (λ n db'. ((n ≡ 0) × (db' ≡ db)) ⊎ ((n ≡ 1) × Inserted e db db'))
    fresh (some _) r h = tt
    fresh none none h = tt
    fresh none (some _) h = inr (refl, (h, refl))

    go :
        (o : Option RaffleEntry)
        → find_first (enters e.raffle_id e.twitch_login) db.raffle_entries ≡ o
        → Gives
            (insert_entry_row e o db)
            (λ n db'. ((n ≡ 0) × (db' ≡ db)) ⊎ ((n ≡ 1) × Inserted e db db'))
    go (some _) h = inl (refl, refl)
    go none h = fresh _ _ h

-- A user who is not deleted has the login at Twitch.
abbrev pub IsLinked : Db → RaffleEntry → AuthProvider → Type 0
IsLinked before e p =
    (login : Name) × (find_first (links login before.users) before.auth_providers ≡ some p)

module _ (raffle : Uuid) (before : Db) where
  abbrev InSync : ℕ → Db → Type 0
  InSync = Entered raffle (IsLinked before) before

  -- What has come in when a run ends, by its count, or when its pages have run out.
  abbrev pub Synced : Option ImportResult → Db → Type 0
  Synced none db' = Stopped raffle (IsLinked before) before db'
  Synced (some r) db' = Entered raffle (IsLinked before) before r.imported db'

  abbrev Syncs : Db → M ImportResult → Type 0
  Syncs db m = Safe (Stopped raffle (IsLinked before) before) db m (λ r db'. InSync r.imported db')

  viewer-Syncs :
      (s : TwitchSubscription) (res : ImportResult) (db : Db) (o : Option AuthProvider)
      → InSync res.imported db
      → find_first (links s.user_id before.users) before.auth_providers ≡ o
      → Syncs db (sync_viewer raffle s res o)
  unfolding sync_viewer
  viewer-Syncs s res db none h e = Safe-pure _ h
  viewer-Syncs s res db (some p) h e = Safe-bind-new_uuid _ λ id. Safe-bind-now _ λ at.
      let entry = imported_entry id raffle p.user_id s.user_login s.user_name at in
      Safe-bind (λ n db'. ((n ≡ 0) × (db' ≡ db)) ⊎ ((n ≡ 1) × Inserted entry db db')) _ _
        (Safe-sql (insert_entry entry) (stop h) (insert_entry-Gives entry db))
        λ n db' out. elim out [
          | inl kept ↦ rw (kept.0, kept.1) (Safe-pure _ h)
          | inr (one, (first, stored)) ↦
              rw (one, stored)
                (Safe-pure _ (Entered-one_more h entry p refl refl (s.user_id, e) first))
        ]

  page-Syncs :
      (subs : List TwitchSubscription) (res : ImportResult) (db : Db)
      → InSync res.imported db
      → Syncs db (sync_page raffle subs res)
  unfolding sync_page
  page-Syncs [] res db h = Safe-pure _ h
  page-Syncs (s ∷ rest) res db h =
      Safe-bind-lookup (find_first (links s.user_id before.users) before.auth_providers) _ _
        (rw h.stored refl) (stop h)
        (Safe-bind (λ r db'. InSync r.imported db') _ _ (viewer-Syncs s res db _ h refl)
          λ r db' h'. page-Syncs rest r db' h')

  abbrev Ends : {A : Type 0} → (A → Db → Type 0) → Db → M A → Type 0
  Ends Q db m = Safe (Stopped raffle (IsLinked before) before) db m Q

  -- Clearing the tokens of a login, after what has come in.
  cleared :
      {n : ℕ} {db : Db} {A : Type 0} {Q : A → Db → Type 0} (h : InSync n db) (id : Uuid) (e : Error)
      → Ends Q db (clear_provider_tokens id >>= λ _. raise e)
  cleared {n} {db} {A} {Q} h id e =
      Safe-outcome (OnlyLogins db) Q (clears db id e)
        (λ db' o. record { n = n; reached = db; entered = h; logins = o }) (λ _ _ q. q)

  -- A page changes nothing.
  page-Ends :
      {n : ℕ} {db : Db} (h : InSync n db) (r : Result TwitchAnswer)
      → Safe (λ db'. db' ≡ db) db (page_of r) (λ _ db'. db' ≡ db)
  page-Ends h (err e) = Safe-raise e refl
  page-Ends h (ok a) =
      Safe-if (a.status == 401 || a.status == 403) _ _ (λ _. Safe-raise _ refl)
        λ _.
          Safe-if (a.status == 200) _ _ (λ _. Safe-lift a.page refl (λ _. refl))
            λ _. Safe-raise _ refl

  pages-Ends :
      (fuel : ℕ) (p : AuthProvider) (token cursor : Name) (res : ImportResult) (db : Db)
      → InSync res.imported db
      → Ends Synced db (sync_pages fuel raffle p token cursor res)
  unfolding sync_pages fetch_twitch_subs_page
  pages-Ends zero p token cursor res db h = Safe-pure none (stop h)
  pages-Ends (suc fuel) p token cursor res db h =
      Safe-bind (λ _ db'. db' ≡ db) _ _
        (Safe-catch (λ db'. db' ≡ db) (λ _ db'. db' ≡ db) _ _ (Safe-bind-ask _ _ (page-Ends h))
          (λ page db' same. rw same (Safe-pure page refl))
          (λ e db' same.
            rw same
              (Safe-if (lacks_scope e) _ _ (λ _. cleared h p.id e) λ _. Safe-raise e (stop h))))
        λ page db' same. rw same (
          Safe-bind (λ r db'. InSync r.imported db') _ _ (page-Syncs page.subscriptions res db h)
            λ r db' h'.
              Safe-if (page.cursor == 0) _ _ (λ _. Safe-pure (some r) h')
                λ _. pages-Ends fuel p token page.cursor r db' h')

  opened : (t : Option Name) → Ends (λ _ db'. db' ≡ before) before (decrypted t)
  opened none = Safe-pure 0 refl
  opened (some t) = Safe-bind-ask _ _ λ a. Safe-lift a (stop Entered-none) (λ _. refl)

  timed : (t : Option Time) → Ends (λ _ db'. db' ≡ before) before (has_expired t)
  timed none = Safe-pure false refl
  timed (some t) = Safe-bind-now _ λ at. Safe-pure _ refl

  pub sync_from_twitch_api-Synced :
      (fuel : ℕ) (user : Uuid)
      → Safe
          (Stopped raffle (IsLinked before) before)
          before
          (sync_from_twitch_api fuel raffle user)
          (λ o db'.
            ((found : Raffle) × Owned raffle user before found
              × (is_twitch_api found.source ≡ true))
            × Synced o db')
  unfolding sync_from_twitch_api decrypted_provider_access_token
  sync_from_twitch_api-Synced fuel user =
      Safe-bind (λ r db'. Owned raffle user before r × (db' ≡ before)) _ _
        (Safe-outcome (λ db'. db' ≡ before) _ (get_by_id-Owned raffle user before)
          (λ db' e. rw e (stop Entered-none)) (λ _ _ h. h))
        λ r db' own. rw own.1 (
          Safe-guard (is_twitch_api r.source) unsupported_raffle_source _ (stop Entered-none) λ src.
            Safe-bind (λ _ db'. db' ≡ before) _ _
              (Safe-outcome (λ db'. db' ≡ before) _
                (Safe-found twitch_token_missing _
                  (Safe-sql (first_broadcaster user) refl (row-Gives before _)))
                (λ db' e. rw e (stop Entered-none)) (λ _ _ h. h.1))
              λ p db' same. rw same (
                Safe-bind (λ _ db'. db' ≡ before) _ _ (opened p.access_token)
                  λ token db' same. rw same (
                    Safe-guard (not (token == 0)) twitch_token_missing _ (stop Entered-none) λ _.
                      Safe-bind (λ _ db'. db' ≡ before) _ _ (timed p.token_expires_at)
                        λ expired db' same. rw same (
                          Safe-if expired _ _ (λ _. cleared Entered-none p.id twitch_token_missing)
                            λ _.
                              Safe-outcome (Stopped raffle (IsLinked before) before) Synced
                                (pages-Ends fuel p token 0 no_import before Entered-none) (λ _ s. s)
                                (λ o db' s. ((r, own.0, src), s))))))
