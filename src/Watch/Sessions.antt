-- ===== src/Watch/Sessions.antt =====
-- Starts and ends of watch sessions, and the active ones of a viewer in a channel.
use tachigo.Base.{
  ◌≡◌, refl, Bool, true, false, arith, Bool-cases, inl, inr, Option, none, some, List, [], ◌∷◌, All,
  find_first, find_first-none, update_where,
}
use tachigo.Int.{leb_ℤ, time_sub}
use tachigo.Models.{Uuid, Time, Name, WatchSession, ok, Error}
use tachigo.Effect.{Db, sql, catch}
use tachigo.Effect.Ensures.{
  Gives, Ensures, Ensures-pure, Ensures-raise, Ensures-if, Ensures-bind-sql, Ensures-bind-now,
  Ensures-bind-new_uuid,
}
use tachigo.Effect.Handled.{Ensures-catch-sql, Ensures-bind-optional}
use tachigo.Effect.Safe.{Safe, Safe-transaction, Safe-bind-now, Safe-sql}
use tachigo.Ledger.{row_or_missing}
use tachigo.Watch.Opening.{
  watching, has_session_id, ended, clashes, new_session, insert_session_row, insert_session,
  first_active, stale_threshold, existing_or, after_create, open_session, reuse_or_replace,
  start_from, start_session,
}
use tachigo.Watch.{end_session}

-- No two active sessions have the same viewer and channel.
abbrev pub IsSingle : List WatchSession → Type 0
IsSingle [] = Unit
IsSingle (s ∷ ss) =
    (s.is_active ≡ true → All (λ r. watching s.user_id s.channel_id r ≡ false) ss) × IsSingle ss

module _ (p : WatchSession → Bool) (at : Time) where
  still-false :
      (user : Uuid) (channel : Name) (ss : List WatchSession)
      → All (λ r. watching user channel r ≡ false) ss
      → All (λ r. watching user channel r ≡ false) (update_where p (ended at) ss)
  still-false user channel [] h = tt
  still-false user channel (s ∷ ss) h = ground (arith, still-false user channel ss h.1)

  -- Ending sessions leaves at most one active.
  pub end-IsSingle :
      (ss : List WatchSession) → IsSingle ss → IsSingle (update_where p (ended at) ss)
  end-IsSingle [] h = tt
  end-IsSingle (s ∷ ss) h = elim (Bool-cases (p s)) [
    | inl hit ↦ rw hit ((λ e. cc), end-IsSingle ss h.1)
    | inr miss ↦ rw miss ((λ e. still-false s.user_id s.channel_id ss (h.0 e)), end-IsSingle ss h.1)
  ]

unclashed :
    (s : WatchSession) (ss : List WatchSession)
    → s.is_active ≡ true
    → All (λ r. clashes s r ≡ false) ss
    → All (λ r. watching s.user_id s.channel_id r ≡ false) ss
unclashed s [] a h = tt
unclashed s (r ∷ ss) a h = ground (arith, unclashed s ss a h.1)

none_left :
    (user : Uuid) (channel : Name) (at : Time) (ss : List WatchSession)
    → find_first (watching user channel) (update_where (watching user channel) (ended at) ss) ≡ none
none_left user channel at [] = refl
none_left user channel at (s ∷ ss) = ground (arith, none_left user channel at ss)

-- What a start that returned has done: the session returned is the one that is active.
pub record Started (user : Uuid) (channel : Name) (s : WatchSession) (db' : Db) : Type 0 where
  pub single : IsSingle db'.watch_sessions
  pub active : find_first (watching user channel) db'.watch_sessions ≡ some s

module _ (user : Uuid) (channel : Name) where
  look_again :
      (db : Db) (e : Error)
      → IsSingle db.watch_sessions
      → Ensures db (catch (sql (first_active user channel)) (existing_or e)) (Started user channel)
  look_again db e single =
      Ensures-catch-sql _ _ (go (find_first (watching user channel) db.watch_sessions) refl)
        (λ f. Ensures-raise e)
    where
      go :
          (o : Option WatchSession)
          → find_first (watching user channel) db.watch_sessions ≡ o
          → Gives
              (row_or_missing o db)
              (λ s db'. Ensures db' (existing_or e (ok s)) (Started user channel))
      go none x = tt
      go (some s) x = Ensures-pure s (record { single = single; active = x })

  open-Started :
      (db : Db)
      → IsSingle db.watch_sessions
      → Ensures db (open_session user channel) (Started user channel)
  unfolding open_session insert_session
  open-Started db single = Ensures-bind-new_uuid _ λ id. Ensures-bind-now _ λ at.
      Ensures-catch-sql _ _
        (go (new_session id user channel at) refl refl refl
          (find_first (clashes (new_session id user channel at)) db.watch_sessions) refl)
        (λ e. look_again db e single)
    where
      go :
          (s : WatchSession)
          → s.is_active ≡ true
          → s.user_id ≡ user
          → s.channel_id ≡ channel
          → (o : Option WatchSession) → find_first (clashes s) db.watch_sessions ≡ o
          → Gives
              (insert_session_row s o db)
              (λ s db'. Ensures db' (after_create user channel (ok s)) (Started user channel))
      go s a eu ec (some _) x = tt
      go s a eu ec none x = Ensures-pure s (record {
        single = (
          λ _. unclashed s db.watch_sessions a (find_first-none (clashes s) db.watch_sessions x),
          single,
        );
        active = ground arith;
      })

  replace-Started :
      (db : Db) (s : WatchSession)
      → IsSingle db.watch_sessions
      → find_first (watching user channel) db.watch_sessions ≡ some s
      → Ensures db (reuse_or_replace user channel s) (Started user channel)
  unfolding reuse_or_replace
  replace-Started db s single found = Ensures-bind-now _ λ at.
      Ensures-if (leb_ℤ (time_sub at s.last_heartbeat_at) stale_threshold) _ _
        (λ fresh. Ensures-pure s (record { single = single; active = found }))
        (λ stale. Ensures-bind-now _ λ end_at.
          Ensures-bind-sql _ _
            (open-Started _ (end-IsSingle (has_session_id s.id) end_at db.watch_sessions single)))

  start_from-Started :
      (db : Db) (o : Option WatchSession)
      → IsSingle db.watch_sessions
      → find_first (watching user channel) db.watch_sessions ≡ o
      → Gives
          (row_or_missing o db)
          (λ s db'. Ensures db' (start_from user channel (some s)) (Started user channel))
  start_from-Started db none single e = tt
  start_from-Started db (some s) single e = replace-Started db s single e

-- From tables with at most one active session of a viewer in a channel: if a start returns, that
-- still holds and the session returned is the stored active one, new or not; if it fails, the
-- tables are what they were.
pub start_session-Started :
    (user : Uuid) (channel : Name) (db : Db)
    → IsSingle db.watch_sessions
    → Safe (λ db'. db' ≡ db) db (start_session user channel) (Started user channel)
unfolding start_session
start_session-Started user channel db single = Safe-transaction _ refl (
    Ensures-bind-optional _ _
      (start_from-Started user channel db (find_first (watching user channel) db.watch_sessions)
        single refl)
      (λ _. open-Started user channel db single))

-- From tables with at most one active session of a viewer in a channel: if ending a session
-- returns, that still holds and the viewer has no active session in the channel; if it fails, the
-- tables are what they were.
pub end_session-Ended :
    (user : Uuid) (channel : Name) (db : Db)
    → IsSingle db.watch_sessions
    → Safe
        (λ db'. db' ≡ db)
        db
        (end_session user channel)
        (λ _ db'.
          IsSingle db'.watch_sessions
          × (find_first (watching user channel) db'.watch_sessions ≡ none))
unfolding end_session
end_session-Ended user channel db single = Safe-bind-now _ λ at. Safe-sql _ refl (
  end-IsSingle (watching user channel) at db.watch_sessions single,
  none_left user channel at db.watch_sessions,
)
