-- ===== src/Durations/Heartbeats.antt =====
-- What a heartbeat adds to the counters of its viewer and of the channel's streamer, and to the log.
use tachigo.Base.{
  ◌≡◌, refl, sym, Bool, true, false, ◌&&◌, Option, none, some, List, ◌==◌, leb, arith,
  if◌then◌else◌, find_first, Option-cases, inl, inr,
}
use tachigo.Int.{ℤ, pos, ◌+ℤ◌, +ℤ_comm, +ℤ_zero_right}
use tachigo.Models.{
  Uuid, Time, Name, AuthProvider, WatchTimeStat, BroadcastTimeStat, BroadcastTimeLog,
}
use tachigo.Effect.{Db, World, ◌>>◌}
use tachigo.Effect.Ensures.{
  Ensures, Gives, Ensures-pure, Ensures-sql, Ensures-bind, Ensures-bind-now, Ensures-bind-new_uuid,
  Ensures-weaken,
}
use tachigo.Effect.Safe.{Safe, Safe-transaction, Safe-keeps, Safe-outcome}
use tachigo.Ledger.Lookups.{Ensures-bind-lookup}
use tachigo.Durations.{
  add_watch_time, streams, first_streamer, create_log, broadcast_from, add_broadcast_time,
  add_heartbeat_time, sum_logged,
}
use tachigo.Durations.Upserts.{added}
use tachigo.Durations.Counters.{
  watch_total, broadcast_total, WatchedMore, upsert_watch-Gives, BroadcastMore,
  upsert_broadcast-Gives,
}

-- All that was ever logged.
abbrev pub logged : Uuid → Name → List BroadcastTimeLog → ℤ
logged streamer channel ls = sum_logged streamer channel 0 ls

abbrev pub is_streamer : Option AuthProvider → Uuid → Bool
is_streamer none s = false
is_streamer (some p) s = p.user_id == s

-- The tables after a heartbeat: the viewer's counter, and the streamer's counter and log, if the
-- channel has a streamer, have grown by its seconds, each other total is as it was, and no other
-- table has changed.
pub record Timed (user : Uuid) (channel : Name) (seconds : ℤ) (db db' : Db) : Type 0 where
  pub ws : List WatchTimeStat
  pub bs : List BroadcastTimeStat
  pub ls : List BroadcastTimeLog
  pub stored :
      db'
      ≡ (record db { watch_time_stats = ws; broadcast_time_stats = bs; broadcast_time_logs = ls })
  pub watched :
      (u : Uuid) (c : Name)
      → watch_total u c ws
        ≡ watch_total u c db.watch_time_stats +ℤ added (user == u && channel == c) seconds
  pub broadcast :
      (s : Uuid) (c : Name)
      → broadcast_total s c bs
        ≡ broadcast_total s c db.broadcast_time_stats
          +ℤ added
              (is_streamer (find_first (streams channel) db.auth_providers) s && channel == c)
              seconds
  pub noted :
      (s : Uuid) (c : Name)
      → logged s c ls
        ≡ logged s c db.broadcast_time_logs
          +ℤ added
              (is_streamer (find_first (streams channel) db.auth_providers) s && channel == c)
              seconds

-- The streamer's log.
abbrev LoggedMore : Uuid → Name → ℤ → Db → Db → Type 0
LoggedMore streamer channel seconds db db' =
    (ls : List BroadcastTimeLog) × (db' ≡ (record db { broadcast_time_logs = ls }))
    × ((s : Uuid) (c : Name)
        → logged s c ls
          ≡ logged s c db.broadcast_time_logs +ℤ added (streamer == s && channel == c) seconds)

since_zero :
    (a b t : Bool) (n m : ℤ)
    → t ≡ true
    → (if a && b && t then n else pos 0) +ℤ m ≡ m +ℤ added (a && b) n
since_zero true true t n m e = rw e (+ℤ_comm n m)
since_zero true false t n m e = +ℤ_comm (pos 0) m
since_zero false b t n m e = +ℤ_comm (pos 0) m

create_log-Gives :
    (id streamer : Uuid) (channel : Name) (seconds : ℤ) (at : Time) (db : Db)
    → Gives
        (create_log
          (record {
            id = id;
            streamer_id = streamer;
            channel_id = channel;
            seconds = seconds;
            recorded_at = at;
          })
          db)
        (λ _ db'. LoggedMore streamer channel seconds db db')
unfolding create_log sum_logged
create_log-Gives id streamer channel seconds at db =
    elim (Option-cases (find_first (λ k. k.id == id) db.broadcast_time_logs)) [
      | inl fresh ↦ rw fresh (
        _,
        refl,
        λ s c.
            since_zero (streamer == s) (channel == c) (leb 0 at) seconds
              (sum_logged s c 0 db.broadcast_time_logs) (ground arith),
      )
      | inr (k, used) ↦ rw used tt
    ]

-- What the streamer of a channel, if it has one, is credited with.
abbrev BroadcastTimed : Uuid → Name → ℤ → Option AuthProvider → Db → Db → Type 0
BroadcastTimed user channel seconds o db db' =
    (bs : List BroadcastTimeStat) × (ls : List BroadcastTimeLog) × (db'
      ≡ (record db { broadcast_time_stats = bs; broadcast_time_logs = ls }))
    × ((s : Uuid) (c : Name)
        → broadcast_total s c bs
          ≡ broadcast_total s c db.broadcast_time_stats
            +ℤ added (is_streamer o s && channel == c) seconds)
    × ((s : Uuid) (c : Name)
        → logged s c ls
          ≡ logged s c db.broadcast_time_logs +ℤ added (is_streamer o s && channel == c) seconds)

broadcast_from-Timed :
    (user : Uuid) (channel : Name) (seconds : ℤ) (o : Option AuthProvider) (db : Db)
    → Ensures db
        (broadcast_from channel seconds o)
        (λ _ db'. BroadcastTimed user channel seconds o db db')
unfolding broadcast_from
broadcast_from-Timed user channel seconds none db = Ensures-pure tt (
  db.broadcast_time_stats,
  db.broadcast_time_logs,
  refl,
  (λ s c. sym (+ℤ_zero_right _)),
  λ s c. sym (+ℤ_zero_right _),
)
broadcast_from-Timed user channel seconds (some p) db = Ensures-bind-now _ λ at.
    Ensures-bind-new_uuid _ λ id.
      Ensures-bind (λ _ db'. BroadcastMore p.user_id channel seconds db db') _ _
        (Ensures-sql _ (upsert_broadcast-Gives id p.user_id channel seconds at db))
        λ _ db₁ more. rw more.1 (
          Ensures-bind-new_uuid _ λ log.
            Ensures-weaken
              (λ _ db'.
                LoggedMore p.user_id channel seconds (record db { broadcast_time_stats = more.0 })
                  db')
              (Ensures-sql _ (
                create_log-Gives log p.user_id channel seconds at
                  (record db { broadcast_time_stats = more.0 })))
              (λ _ db' l. (more.0, l.0, l.1, more.2, l.2)))

body-Timed :
    (user : Uuid) (channel : Name) (seconds : ℤ) (db : Db)
    → Ensures db
        (add_watch_time user channel seconds >> add_broadcast_time channel seconds)
        (λ _ db'. Timed user channel seconds db db')
unfolding add_watch_time add_broadcast_time
body-Timed user channel seconds db =
    Ensures-bind (λ _ db'. WatchedMore user channel seconds db db') _ _
      (Ensures-bind-now _ λ at.
        Ensures-bind-new_uuid _
          λ id. Ensures-sql _ (upsert_watch-Gives id user channel seconds at db))
      λ _ db₁ w. rw w.1 (
        Ensures-bind-lookup (find_first (streams channel) db.auth_providers)
          (first_streamer channel) _ refl
          (Ensures-weaken _
            (broadcast_from-Timed user channel seconds
              (find_first (streams channel) db.auth_providers)
              (record db { watch_time_stats = w.0 }))
            λ _ db' b. record {
              ws = w.0;
              bs = b.0;
              ls = b.1;
              stored = b.2;
              watched = w.2;
              broadcast = b.3;
              noted = b.4;
            }))

-- `AddHeartbeatTime`, whatever the database does: if it returns, the viewer's counter for the channel
-- has grown by the seconds, and so have the counter and the log of the channel's streamer, if there is
-- one; no other counter and no other total of the log has changed, nor any other table. If it fails,
-- nothing has changed.
pub add_heartbeat_time-Timed :
    (user : Uuid) (channel : Name) (seconds : ℤ) (db : Db)
    → Safe
        (λ db'. db' ≡ db)
        db
        (add_heartbeat_time user channel seconds)
        (λ _ db'. Timed user channel seconds db db')
unfolding add_heartbeat_time
add_heartbeat_time-Timed user channel seconds db =
    Safe-transaction _ refl (body-Timed user channel seconds db)

-- Every counter of a streamer is the sum of the streamer's log.
abbrev pub IsReconciled : Db → Type 0
IsReconciled db =
    (s : Uuid) (c : Name)
    → broadcast_total s c db.broadcast_time_stats ≡ logged s c db.broadcast_time_logs

Timed-IsReconciled :
    {user : Uuid} {channel : Name} {seconds : ℤ} {db db' : Db}
    → Timed user channel seconds db db'
    → IsReconciled db
    → IsReconciled db'
Timed-IsReconciled t h = rw t.stored (λ s c. cc (t.broadcast s c, h s c, t.noted s c))

-- `AddHeartbeatTime`, whether it returns or fails, keeps every counter of a streamer equal to the sum
-- of the log.
pub add_heartbeat_time-IsReconciled :
    (user : Uuid) (channel : Name) (seconds : ℤ) (w : World)
    → IsReconciled w.db
    → IsReconciled (add_heartbeat_time user channel seconds w).1.db
add_heartbeat_time-IsReconciled user channel seconds w h =
    Safe-keeps IsReconciled (add_heartbeat_time user channel seconds) w (
      Safe-outcome (λ db'. db' ≡ w.db) _ (add_heartbeat_time-Timed user channel seconds w.db)
        (λ db' same. rw same h) (λ _ db' t. Timed-IsReconciled t h))
