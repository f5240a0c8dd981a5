-- ===== src/Durations.antt =====
-- services/api/internal/services/points_service.go: the watch time of viewers and the broadcast
-- time of streamers. The pairs of a method and its `…Context` form are one definition.
pub mod Upserts
pub mod Counters
pub mod Heartbeats
pub mod Windows
use tachigo.Base.{
  Bool, true, false, ◌&&◌, Option, none, some, List, [], ◌∷◌, ◌==◌, leb, if◌then◌else◌, find_first,
  update_where,
}
use tachigo.Int.{ℤ, pos, ◌+ℤ◌, fits_int64}
use tachigo.Models.{
  Uuid, Time, Name, twitch, ProviderType, AuthProvider, WatchTimeStat, BroadcastTimeStat,
  BroadcastTimeLog, WatchSession, Result, ok, err, duplicated_key, out_of_range,
}
use tachigo.Effect.{Db, M, pure, sql, transaction, now, new_uuid, ask, not_found_to, ◌>>=◌, ◌>>◌}
use tachigo.Ledger.{row_or_missing}

-- `user_id = ? AND channel_id = ?`
abbrev pub watched_by : Uuid → Name → WatchTimeStat → Bool
watched_by user channel s = s.user_id == user && s.channel_id == channel

abbrev pub watched_longer : ℤ → Time → WatchTimeStat → WatchTimeStat
watched_longer seconds at s = record s {
  total_watch_seconds = s.total_watch_seconds +ℤ seconds;
  updated_at = at;
}

abbrev pub new_watch_stat : Uuid → Uuid → Name → ℤ → Time → WatchTimeStat
new_watch_stat id user channel seconds at = record {
  id = id;
  user_id = user;
  channel_id = channel;
  total_watch_seconds = seconds;
  created_at = at;
  updated_at = at;
}

abbrev insert_watch_stat : WatchTimeStat → Option WatchTimeStat → Db → Result (Unit {0} × Db)
insert_watch_stat s (some _) db = err duplicated_key
insert_watch_stat s none db = ok (tt, record db { watch_time_stats = s ∷ db.watch_time_stats })

abbrev pub upsert_watch_row :
    Uuid → Uuid → Name → ℤ → Time → Option WatchTimeStat → Db → Result (Unit {0} × Db)
upsert_watch_row id user channel seconds at (some s) db =
    if fits_int64 (s.total_watch_seconds +ℤ seconds)
    then ok (
      tt,
      record db {
        watch_time_stats =
            update_where (watched_by user channel) (watched_longer seconds at) db.watch_time_stats;
      },
    )
    else err out_of_range
upsert_watch_row id user channel seconds at none db =
    insert_watch_stat (new_watch_stat id user channel seconds at)
      (find_first (λ s. s.id == id) db.watch_time_stats) db

-- `INSERT INTO watch_time_stats … ON CONFLICT (user_id, channel_id) DO UPDATE …`
pub upsert_watch_time : Uuid → Uuid → Name → ℤ → Time → Db → Result (Unit {0} × Db)
upsert_watch_time id user channel seconds at db =
    upsert_watch_row id user channel seconds at
      (find_first (watched_by user channel) db.watch_time_stats) db

pub add_watch_time : Uuid → Name → ℤ → M (Unit {0})
unfolding upsert_watch_time
add_watch_time user channel seconds = do
  at ← now
  id ← new_uuid
  sql (upsert_watch_time id user channel seconds at)

-- No row scans as zero.
abbrev pub seconds_of : Option WatchTimeStat → ℤ
seconds_of none = pos 0
seconds_of (some s) = s.total_watch_seconds

pub get_watch_stats : Uuid → Name → M ℤ
get_watch_stats user channel =
    sql λ db. ok (seconds_of (find_first (watched_by user channel) db.watch_time_stats), db)

abbrev is_twitch : ProviderType → Bool
is_twitch twitch = true
is_twitch _ = false

abbrev is_live : Option Time → Bool
is_live none = true
is_live (some _) = false

-- `provider = 'twitch' AND provider_id = ?`, on rows that are not soft-deleted. `First` orders by
-- the primary key; at most one row matches, by the unique index on the live ones.
abbrev pub streams : Name → AuthProvider → Bool
streams channel p = is_twitch p.provider && p.provider_id == channel && is_live p.deleted_at

abbrev pub first_streamer : Name → Db → Result (AuthProvider × Db)
first_streamer channel db = row_or_missing (find_first (streams channel) db.auth_providers) db

-- `streamer_id = ? AND channel_id = ?`
abbrev pub broadcast_by : Uuid → Name → BroadcastTimeStat → Bool
broadcast_by streamer channel s = s.streamer_id == streamer && s.channel_id == channel

abbrev pub broadcast_longer : ℤ → Time → BroadcastTimeStat → BroadcastTimeStat
broadcast_longer seconds at s = record s {
  total_broadcast_seconds = s.total_broadcast_seconds +ℤ seconds;
  updated_at = at;
}

abbrev pub new_broadcast_stat : Uuid → Uuid → Name → ℤ → Time → BroadcastTimeStat
new_broadcast_stat id streamer channel seconds at = record {
  id = id;
  streamer_id = streamer;
  channel_id = channel;
  total_broadcast_seconds = seconds;
  created_at = at;
  updated_at = at;
}

abbrev insert_broadcast_stat :
    BroadcastTimeStat → Option BroadcastTimeStat → Db → Result (Unit {0} × Db)
insert_broadcast_stat s (some _) db = err duplicated_key
insert_broadcast_stat s none db =
    ok (tt, record db { broadcast_time_stats = s ∷ db.broadcast_time_stats })

abbrev pub upsert_broadcast_row :
    Uuid → Uuid → Name → ℤ → Time → Option BroadcastTimeStat → Db → Result (Unit {0} × Db)
upsert_broadcast_row id streamer channel seconds at (some s) db =
    if fits_int64 (s.total_broadcast_seconds +ℤ seconds)
    then ok (
      tt,
      record db {
        broadcast_time_stats =
            update_where (broadcast_by streamer channel) (broadcast_longer seconds at)
              db.broadcast_time_stats;
      },
    )
    else err out_of_range
upsert_broadcast_row id streamer channel seconds at none db =
    insert_broadcast_stat (new_broadcast_stat id streamer channel seconds at)
      (find_first (λ s. s.id == id) db.broadcast_time_stats) db

pub upsert_broadcast_time : Uuid → Uuid → Name → ℤ → Time → Db → Result (Unit {0} × Db)
upsert_broadcast_time id streamer channel seconds at db =
    upsert_broadcast_row id streamer channel seconds at
      (find_first (broadcast_by streamer channel) db.broadcast_time_stats) db

abbrev insert_log : BroadcastTimeLog → Option BroadcastTimeLog → Db → Result (Unit {0} × Db)
insert_log l (some _) db = err duplicated_key
insert_log l none db = ok (tt, record db { broadcast_time_logs = l ∷ db.broadcast_time_logs })

pub create_log : BroadcastTimeLog → Db → Result (Unit {0} × Db)
create_log l db = insert_log l (find_first (λ k. k.id == l.id) db.broadcast_time_logs) db

-- A channel without a registered streamer is skipped.
pub broadcast_from : Name → ℤ → Option AuthProvider → M (Unit {0})
unfolding upsert_broadcast_time create_log
broadcast_from channel seconds none = pure tt
broadcast_from channel seconds (some p) = do
  at ← now
  id ← new_uuid
  sql (upsert_broadcast_time id p.user_id channel seconds at)
  log_id ← new_uuid
  sql (
      create_log (record {
        id = log_id;
        streamer_id = p.user_id;
        channel_id = channel;
        seconds = seconds;
        recorded_at = at;
      }))

pub add_broadcast_time : Name → ℤ → M (Unit {0})
unfolding broadcast_from
add_broadcast_time channel seconds =
    not_found_to none (sql (first_streamer channel) >>= λ p. pure (some p))
    >>= broadcast_from channel seconds

pub add_heartbeat_time : Uuid → Name → ℤ → M (Unit {0})
unfolding add_watch_time add_broadcast_time
add_heartbeat_time user channel seconds =
    transaction (add_watch_time user channel seconds >> add_broadcast_time channel seconds)

pub record BroadcastStats : Type 0 where
  pub current_session_seconds : ℤ
  pub daily_seconds : ℤ
  pub monthly_seconds : ℤ
  pub yearly_seconds : ℤ

-- `COALESCE(SUM(…), 0)`, cast back to the bigint that the scan expects.
pub sum_accumulated : Name → List WatchSession → ℤ
sum_accumulated channel [] = pos 0
sum_accumulated channel (s ∷ ss) =
    (if s.channel_id == channel && s.is_active then s.accumulated_seconds else pos 0)
    +ℤ sum_accumulated channel ss

unfoldable pub sum_logged : Uuid → Name → Time → List BroadcastTimeLog → ℤ
sum_logged streamer channel since [] = pos 0
sum_logged streamer channel since (l ∷ ls) =
    (if l.streamer_id == streamer && l.channel_id == channel && leb since l.recorded_at
      then l.seconds
      else pos 0)
    +ℤ sum_logged streamer channel since ls

abbrev pub scanned : ℤ → Db → Result (ℤ × Db)
scanned n db = if fits_int64 n then ok (n, db) else err out_of_range

abbrev pub fetch : Uuid → Name → Time → M ℤ
fetch streamer channel since =
    sql λ db. scanned (sum_logged streamer channel since db.broadcast_time_logs) db

pub get_broadcast_stats : Uuid → Name → M BroadcastStats
get_broadcast_stats streamer channel = do
  at ← now
  current ← sql λ db. scanned (sum_accumulated channel db.watch_sessions) db
  day ← ask λ env _. env.outside.calendar.start_of_day at
  month ← ask λ env _. env.outside.calendar.start_of_month at
  year ← ask λ env _. env.outside.calendar.start_of_year at
  daily ← fetch streamer channel day
  monthly ← fetch streamer channel month
  yearly ← fetch streamer channel year
  pure (record {
    current_session_seconds = current;
    daily_seconds = daily;
    monthly_seconds = monthly;
    yearly_seconds = yearly;
  })
