-- ===== src/Watch.antt =====
-- services/api/internal/services/watch_service.go: watch sessions, heartbeats and clicks.
pub mod Arithmetic
pub mod Rewards
pub mod Heartbeats
pub mod Sessions
pub mod Clicks
pub mod Opening
use tachigo.Base.{
  ℕ, Bool, true, false, not, ◌&&◌, ◌||◌, Option, none, some, List, [], ◌∷◌, ◌+◌, ◌/◌, ◌==◌, ltb,
  leb, if◌then◌else◌, find_first, update_where, is_some_of,
}
use tachigo.Int.{ℤ, pos, ltb_ℤ, leb_ℤ, ◌+ℤ◌, add64, sub64, mul64, div64, time_sub, max_int64}
use tachigo.Models.{
  Uuid, Time, Name, TxSource, PointsLedger, PointsTransaction, WatchSession, ChannelConfig, Result,
  Error, ok, err, no_active_session, click_on_cooldown, points_delta_overflow, duplicated_key,
}
use tachigo.Effect.{
  Db, M, pure, raise, sql, transaction, now, new_uuid, guard, catch, not_found_as, not_found_to,
  lift, ◌>>=◌, ◌>>◌,
}
use tachigo.Ledger.{row_or_missing, blank_transaction, credit}
use tachigo.Watch.Opening.{
  click_cooldown, click_points_per_click, default_seconds_per_point, ended, first_active, second,
  update_session, watching, with_sessions,
}

abbrev pub channel_config : Name → Db → Result (Option ChannelConfig × Db)
channel_config channel db = ok (find_first (λ c. c.channel_id == channel) db.channel_configs, db)

-- `getChannelConfig`: defaults for a missing row and for settings that are not positive.
abbrev positive_or : ℤ → ℤ → ℤ
positive_or default n = if leb_ℤ n (pos 0) then default else n

abbrev pub effective_config : Option ChannelConfig → ℤ × ℤ
effective_config none = (default_seconds_per_point, pos 1)
effective_config (some c) =
    (positive_or default_seconds_per_point c.seconds_per_point, positive_or (pos 1) c.multiplier)

pub get_channel_config : Name → M (ℤ × ℤ)
get_channel_config channel = do c ← sql (channel_config channel); pure (effective_config c)

-- The arithmetic of a heartbeat.
pub record Reward : Type 0 where
  pub accumulated : ℤ
  pub rewarded : ℤ
  pub points : ℤ

pub reward : ℤ → ℤ → ℤ → ℤ → ℤ → Result Reward
reward accumulated rewarded delta seconds_per_point multiplier =
    if ltb_ℤ (sub64 max_int64 delta) accumulated
    then err points_delta_overflow
    else let new_accumulated = add64 accumulated delta in
      let pending = sub64 new_accumulated rewarded in
      let base = div64 pending seconds_per_point in
      if ltb_ℤ (pos 0) base && ltb_ℤ (div64 max_int64 base) multiplier
      then err points_delta_overflow
      else ok (record {
        accumulated = new_accumulated;
        rewarded = add64 rewarded (mul64 base seconds_per_point);
        points = mul64 base multiplier;
      })

abbrev pub advanced : Reward → Time → WatchSession → WatchSession
advanced r at s = record s {
  accumulated_seconds = r.accumulated;
  rewarded_seconds = r.rewarded;
  last_heartbeat_at = at;
}

pub record HeartbeatResult : Type 0 where
  pub session : WatchSession
  pub points_earned : ℤ
  pub delta_seconds : ℤ

abbrev pub counted : WatchSession → Time → ℤ → Reward → HeartbeatResult
counted s at delta r = record {
  session = advanced r at s;
  points_earned = r.points;
  delta_seconds = delta;
}

-- The row of an award that a session earned.
abbrev pub session_row : TxSource → Uuid → ℤ → PointsLedger → PointsTransaction
session_row source session amount ledger = record blank_transaction {
  ledger_id = ledger.id;
  watch_session_id = some session;
  source = source;
  delta = amount;
  balance_after = ledger.spendable_balance;
}

pub award_points : Uuid → Name → Uuid → ℤ → M PointsLedger
award_points user channel session points = do
  at ← now
  credit user channel points at (session_row TxSource.watch_time session points)

-- The part of a heartbeat that counts: `elapsed` is at most thirty seconds and at least twenty.
pub count_heartbeat : Uuid → Name → WatchSession → Time → ℤ → M HeartbeatResult
unfolding get_channel_config reward award_points
count_heartbeat user channel s at delta_seconds = do
  config ← get_channel_config channel
  r ← lift (reward s.accumulated_seconds s.rewarded_seconds delta_seconds config.0 config.1)
  sql (update_session s.id (advanced r at))
  let result = counted s at delta_seconds r
  if ltb_ℤ (pos 0) r.points
      then (award_points user channel s.id r.points >>= λ _. pure result)
      else pure result

abbrev pub capped_seconds : ℤ → ℤ
capped_seconds delta =
    div64 (if ltb_ℤ (pos 30000000000) delta then pos 30000000000 else delta) (pos second)

pub heartbeat_in_tx : Uuid → Name → M HeartbeatResult
unfolding count_heartbeat
heartbeat_in_tx user channel = do
  s ← not_found_as no_active_session (sql (first_active user channel))
  at ← now
  let delta = time_sub at s.last_heartbeat_at
  if ltb_ℤ delta (pos 20000000000)
      then pure (record { session = s; points_earned = pos 0; delta_seconds = pos 0 })
      else count_heartbeat user channel s at (capped_seconds delta)

pub heartbeat : Uuid → Name → M HeartbeatResult
unfolding heartbeat_in_tx
heartbeat user channel = transaction (heartbeat_in_tx user channel)

pub end_session : Uuid → Name → M (Unit {0})
end_session user channel = do
  at ← now
  sql λ db.
      ok (tt, with_sessions (update_where (watching user channel) (ended at) db.watch_sessions) db)

pub record ClickResult : Type 0 where
  pub balance_after : ℤ
  pub delta : ℤ

-- `remaining.Milliseconds()`
abbrev pub milliseconds : ℤ → ℤ
milliseconds d = div64 d (pos 1000000)

pub check_cooldown : WatchSession → M (Unit {0})
check_cooldown s = do
  at ← now
  if ltb at s.click_cooldown_until
      then (now >>= λ t.
          raise (click_on_cooldown (milliseconds (time_sub s.click_cooldown_until t))))
      else pure tt

abbrev pub cooling : Time → WatchSession → WatchSession
cooling at s = record s { click_cooldown_until = at + click_cooldown }

pub click_in_tx : Uuid → Name → M ClickResult
unfolding check_cooldown
click_in_tx user channel = do
  s ← not_found_as no_active_session (sql (first_active user channel))
  check_cooldown s
  at ← now
  sql (update_session s.id (cooling at))
  upsert_at ← now
  ledger ←
      credit user channel click_points_per_click upsert_at
        (session_row TxSource.click s.id click_points_per_click)
  pure (record { balance_after = ledger.spendable_balance; delta = click_points_per_click })

pub record_click : Uuid → Name → M ClickResult
unfolding click_in_tx
record_click user channel = transaction (click_in_tx user channel)
