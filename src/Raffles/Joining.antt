-- ===== src/Raffles/Joining.antt =====
-- Who joins a raffle, and what is left when joining fails.
use tachigo.Base.{
  ◌≡◌, refl, true, false, not, Option, none, some, ◌∷◌, ◌==◌, find_first, ℕ, inl, inr, ◌⊎◌,
}
use tachigo.Models.{
  Uuid, Name, Time, AuthProvider, Raffle, RaffleEntry, Result, Error, ok, err, raffle_not_found,
  entry_not_open, viewer_not_linked, already_joined, twitch_token_missing, not_subscriber,
}
use tachigo.Effect.{Db, M, TwitchAnswer, TwitchSubsPage, raise, ◌>>=◌}
use tachigo.Effect.Ensures.{Gives}
use tachigo.Effect.Safe.{
  Safe, Safe-pure, Safe-raise, Safe-if, Safe-bind, Safe-guard, Safe-guard_else, Safe-check,
  Safe-catch, Safe-sql, Safe-found, Safe-bind-now, Safe-bind-new_uuid, Safe-bind-ask, Safe-lift,
  Safe-outcome,
}
use tachigo.Raffles.{has_raffle_id, first_raffle}
use tachigo.Raffles.Access.{row-Gives}
use tachigo.Raffles.Entries.{
  links, first_viewer, first_broadcaster, decrypted, decrypted_provider_access_token, clear_tokens,
  clear_provider_tokens, decoded, is_subscribed, fetch_twitch_subscription, lacks_scope,
  has_expired, fetch_with, check_subscription, is_for_subscribers, new_entry, enters,
  insert_new_entry, insert_entry_row, insert_entry, enter_viewer, join_raffle,
}

-- At most tokens of a login have been cleared.
abbrev pub OnlyLogins : Db → Db → Type 0
OnlyLogins db db' = db' ≡ record db { auth_providers = db'.auth_providers }

-- A run that returns has changed nothing.
abbrev Reads : {A : Type 0} → Db → M A → Type 0
Reads db m = Safe (OnlyLogins db) db m (λ _ db'. db' ≡ db)

-- The answer of a run without effects.
abbrev Pure : {A : Type 0} → Db → M A → Type 0
Pure db m = Safe (λ db'. db' ≡ db) db m (λ _ db'. db' ≡ db)

module _ (db : Db) where
  pub clears :
      (id : Uuid) (e : Error)
      → {A : Type 0} {Q : A → Db → Type 0}
      → Safe (OnlyLogins db) db (clear_provider_tokens id >>= λ _. raise {A = A} e) Q
  unfolding clear_provider_tokens
  clears id e =
      Safe-bind (λ _ db'. OnlyLogins db db') _ _
        (Safe-if (id == 0) _ _ (λ _. Safe-pure tt refl)
          (λ _.
            Safe-catch (λ db'. db' ≡ db) (λ _ db'. OnlyLogins db db') _ _
              (Safe-sql (clear_tokens id) refl refl) (λ _ db' h. Safe-pure tt h)
              (λ _ db' h. Safe-pure tt (rw h refl))))
        λ _ db' h. Safe-raise e h

  answered : (r : Result TwitchAnswer) → Pure db (is_subscribed r)
  answered (err e) = Safe-raise e refl
  answered (ok a) =
      Safe-if (a.status == 401) _ _ (λ _. Safe-raise _ refl)
        λ _.
          Safe-if (a.status == 403) _ _ (λ _. Safe-raise _ refl)
            λ _.
              Safe-if (a.status == 404) _ _ (λ _. Safe-pure false refl)
                λ _. Safe-if (a.status == 200) _ _ (λ _. body a.page) λ _. Safe-raise _ refl
    where
      body : (p : Result TwitchSubsPage) → Pure db (decoded p)
      body (ok p) = Safe-pure _ refl
      body (err e) = Safe-raise e refl

  fetch_with-Reads : (b : AuthProvider) (login token : Name) → Reads db (fetch_with b login token)
  unfolding fetch_with fetch_twitch_subscription
  fetch_with-Reads b login token =
      Safe-bind (λ _ db'. db' ≡ db) _ _ (timed b.token_expires_at)
        λ expired db' same. rw same (
          Safe-if expired _ _ (λ _. clears b.id twitch_token_missing)
            λ _.
              Safe-catch (λ db'. db' ≡ db) (λ _ db'. db' ≡ db) _ _ (Safe-bind-ask _ _ answered)
                (λ sub db' same. rw same (Safe-check sub not_subscriber refl refl))
                (λ e db' same.
                  rw same
                    (Safe-if (lacks_scope e) _ _ (λ _. clears b.id e) λ _. Safe-raise e refl)))
    where
      timed : (t : Option Time) → Safe (OnlyLogins db) db (has_expired t) (λ _ db'. db' ≡ db)
      timed none = Safe-pure false refl
      timed (some t) = Safe-bind-now _ λ at. Safe-pure _ refl

  check_subscription-Reads : (r : Raffle) (login : Name) → Reads db (check_subscription r login)
  unfolding check_subscription decrypted_provider_access_token
  check_subscription-Reads r login =
      Safe-bind (λ _ db'. db' ≡ db) _ _
        (Safe-outcome (λ db'. db' ≡ db) _
          (Safe-found twitch_token_missing _
            (Safe-sql (first_broadcaster r.user_id) refl (row-Gives db _)))
          (λ db' h. rw h refl) (λ _ db' h. h.1))
        λ b db' same. rw same (
          Safe-bind (λ _ db'. db' ≡ db) _ _ (opened b.access_token)
            λ token db' same. rw same (
              Safe-if (token == 0) _ _ (λ _. clears b.id twitch_token_missing)
                λ _. fetch_with-Reads b login token))
    where
      opened : (t : Option Name) → Safe (OnlyLogins db) db (decrypted t) (λ _ db'. db' ≡ db)
      opened none = Safe-pure 0 refl
      opened (some t) = Safe-bind-ask _ _ λ a. Safe-lift a refl (λ _. refl)

-- What joining has done: a new entry of the raffle, which is open, for the user whom the login at
-- Twitch belongs to, and nothing else.
pub record Joined (raffle : Uuid) (login : Name) (db : Db) (e : RaffleEntry) (db' : Db)
    : Type 0 where
  pub found : Raffle
  pub there : find_first (has_raffle_id raffle) db.raffles ≡ some found
  pub open_still : found.entry_open ≡ true
  pub viewer : AuthProvider
  pub linked : find_first (links login db.users) db.auth_providers ≡ some viewer
  pub of_viewer : e.user_id ≡ some viewer.user_id
  pub of_raffle : e.raffle_id ≡ found.id
  pub first : find_first (enters e.raffle_id e.twitch_login) db.raffle_entries ≡ none
  pub stored : db' ≡ record db { raffle_entries = e ∷ db.raffle_entries }

-- A row that was inserted, or none.
record Inserted (e : RaffleEntry) (db : Db) (n : ℕ) (db' : Db) : Type 0 where
  logins : OnlyLogins db db' ⊎ (not (n == 0) ≡ true)
  new :
      not (n == 0) ≡ true
      → (find_first (enters e.raffle_id e.twitch_login) db.raffle_entries ≡ none)
        × (db' ≡ record db { raffle_entries = e ∷ db.raffle_entries })

insert_entry-Gives : (e : RaffleEntry) (db : Db) → Gives (insert_entry e db) (Inserted e db)
unfolding insert_entry
insert_entry-Gives e db = go (find_first (enters e.raffle_id e.twitch_login) db.raffle_entries) refl
  where
    fresh :
        (o : Option RaffleEntry) (r : Option Raffle)
        → find_first (enters e.raffle_id e.twitch_login) db.raffle_entries ≡ none
        → Gives (insert_new_entry e o r db) (Inserted e db)
    fresh (some _) r h = tt
    fresh none none h = tt
    fresh none (some _) h = record { logins = inr refl; new = λ _. (h, refl) }

    go :
        (o : Option RaffleEntry)
        → find_first (enters e.raffle_id e.twitch_login) db.raffle_entries ≡ o
        → Gives (insert_entry_row e o db) (Inserted e db)
    go (some _) h = record { logins = inl refl; new = λ x. cc }
    go none h = fresh _ _ h

module _ (raffle : Uuid) (login : Name) (db : Db) where
  enter-Joined :
      (r : Raffle) (p : AuthProvider)
      → find_first (has_raffle_id raffle) db.raffles ≡ some r
      → r.entry_open ≡ true
      → find_first (links login db.users) db.auth_providers ≡ some p
      → Safe (OnlyLogins db) db (enter_viewer r login p) (Joined raffle login db)
  unfolding enter_viewer
  enter-Joined r p stored opened linked =
      Safe-bind (λ _ db'. db' ≡ db) _ _ (Safe-sql _ refl refl)
        λ name db' same. rw same (
          Safe-bind (λ _ db'. db' ≡ db) _ _
            (Safe-if (is_for_subscribers r.mode) _ _ (λ _. check_subscription-Reads db r login)
              (λ _. Safe-pure tt refl))
            λ _ db' same. rw same (
              Safe-bind-now _ λ at. Safe-bind-new_uuid _ λ id.
                let entry = new_entry id r.id p.user_id name at in
                Safe-bind (Inserted entry db) _ _ (Safe-sql _ refl (insert_entry-Gives entry db))
                  λ n db' ins.
                    Safe-guard_else (not (n == 0)) already_joined _ (none_entered entry n db' ins)
                      λ row. Safe-pure entry (done entry n db' ins refl refl row)))
    where
      none_entered :
          (entry : RaffleEntry) (n : ℕ) (db' : Db)
          → Inserted entry db n db'
          → not (n == 0) ≡ false
          → OnlyLogins db db'
      none_entered entry n db' ins no_row = elim ins.logins [
        | inl kept ↦ kept
        | inr row ↦ cc (row, no_row)
      ]

      done :
          (entry : RaffleEntry) (n : ℕ) (db' : Db)
          → Inserted entry db n db'
          → entry.user_id ≡ some p.user_id
          → entry.raffle_id ≡ r.id
          → not (n == 0) ≡ true
          → Joined raffle login db entry db'
      done entry n db' ins u i some_row = record {
        found = r;
        there = stored;
        open_still = opened;
        viewer = p;
        linked = linked;
        of_viewer = u;
        of_raffle = i;
        first = (ins.new some_row).0;
        stored = (ins.new some_row).1;
      }

  pub join_raffle-Joined :
      Safe (OnlyLogins db) db (join_raffle raffle login) (Joined raffle login db)
  unfolding join_raffle
  join_raffle-Joined =
      Safe-bind (λ r db'. (find_first (has_raffle_id raffle) db.raffles ≡ some r) × (db' ≡ db)) _ _
        (Safe-found raffle_not_found _ (Safe-sql (first_raffle raffle) refl (row-Gives db _)))
        λ r db' found. rw found.1 (
          Safe-guard _ entry_not_open _ refl λ opened.
            Safe-bind
              (λ p db'. (find_first (links login db.users) db.auth_providers ≡ some p) × (db' ≡ db))
              _ _
              (Safe-found viewer_not_linked _ (Safe-sql (first_viewer login) refl (row-Gives db _)))
              λ p db' linked. rw linked.1 (enter-Joined r p found.0 opened linked.0))
