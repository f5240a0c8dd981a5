-- ===== src/Watch/Opening.antt =====
-- The rows of watch sessions, and StartSession: services/api/internal/services/watch_service.go.
use tachigo.Base.{
  ℕ, Bool, true, false, ◌&&◌, ◌||◌, Option, none, some, List, ◌∷◌, ◌==◌, if◌then◌else◌, find_first,
  update_where,
}
use tachigo.Int.{ℤ, pos, leb_ℤ, time_sub}
use tachigo.Models.{Uuid, Time, Name, WatchSession, Result, Error, ok, err, duplicated_key}
use tachigo.Effect.{
  Db, M, pure, raise, sql, transaction, now, new_uuid, catch, not_found_to, ◌>>=◌, ◌>>◌,
}
use tachigo.Ledger.{row_or_missing}

-- Durations are nanoseconds.
abbrev pub second : ℕ
second = 1000000000

abbrev pub stale_threshold : ℤ
stale_threshold = pos 120000000000

abbrev pub click_cooldown : ℕ
click_cooldown = 5000000000

abbrev pub click_points_per_click : ℤ
click_points_per_click = pos 1

abbrev pub default_seconds_per_point : ℤ
default_seconds_per_point = pos 60

-- `user_id = ? AND channel_id = ? AND is_active = true`
abbrev pub watching : Uuid → Name → WatchSession → Bool
watching user channel s = s.user_id == user && s.channel_id == channel && s.is_active

abbrev pub first_active : Uuid → Name → Db → Result (WatchSession × Db)
first_active user channel db =
    row_or_missing (find_first (watching user channel) db.watch_sessions) db

abbrev pub has_session_id : Uuid → WatchSession → Bool
has_session_id id s = s.id == id

abbrev pub with_sessions : List WatchSession → Db → Db
with_sessions ss db = record db { watch_sessions = ss }

-- `tx.Model(&session).Updates(…)`
abbrev pub update_session : Uuid → (WatchSession → WatchSession) → Db → Result (Unit {0} × Db)
update_session id f db =
    ok (tt, with_sessions (update_where (has_session_id id) f db.watch_sessions) db)

abbrev pub ended : Time → WatchSession → WatchSession
ended at s = record s { is_active = false; ended_at = some at }

-- The primary key and the partial unique index on active sessions.
abbrev pub clashes : WatchSession → WatchSession → Bool
clashes s r = has_session_id s.id r || s.is_active && watching s.user_id s.channel_id r

abbrev pub insert_session_row : WatchSession → Option WatchSession → Db → Result (WatchSession × Db)
insert_session_row s (some _) db = err duplicated_key
insert_session_row s none db = ok (s, with_sessions (s ∷ db.watch_sessions) db)

unfoldable pub insert_session : WatchSession → Db → Result (WatchSession × Db)
insert_session s db = insert_session_row s (find_first (clashes s) db.watch_sessions) db

abbrev pub new_session : Uuid → Uuid → Name → Time → WatchSession
new_session id user channel at = record {
  id = id;
  user_id = user;
  channel_id = channel;
  accumulated_seconds = pos 0;
  rewarded_seconds = pos 0;
  last_heartbeat_at = at;
  click_cooldown_until = 0;
  is_active = true;
  ended_at = none;
}

-- What the second look says after a failed create.
abbrev pub existing_or : Error → Result WatchSession → M WatchSession
existing_or e (ok s) = pure s
existing_or e (err _) = raise e

-- After the create: if it failed, look for a session that a concurrent request has made. A
-- statement that fails inside the savepoint has changed nothing.
abbrev pub after_create : Uuid → Name → Result WatchSession → M WatchSession
after_create user channel (ok s) = pure s
after_create user channel (err e) = catch (sql (first_active user channel)) (existing_or e)

unfoldable pub open_session : Uuid → Name → M WatchSession
open_session user channel = do
  id ← new_uuid
  at ← now
  catch (sql (insert_session (new_session id user channel at))) (after_create user channel)

-- A session that is not stale is returned; a stale one is closed before a new one is opened.
unfoldable pub reuse_or_replace : Uuid → Name → WatchSession → M WatchSession
unfolding open_session
reuse_or_replace user channel s = do
  at ← now
  if leb_ℤ (time_sub at s.last_heartbeat_at) stale_threshold
      then pure s
      else do end_at ← now; sql (update_session s.id (ended end_at)); open_session user channel

abbrev pub start_from : Uuid → Name → Option WatchSession → M WatchSession
start_from user channel none = open_session user channel
start_from user channel (some s) = reuse_or_replace user channel s

unfoldable pub start_session : Uuid → Name → M WatchSession
unfolding open_session reuse_or_replace
start_session user channel = transaction (
    not_found_to none (sql (first_active user channel) >>= λ s. pure (some s))
    >>= start_from user channel)
