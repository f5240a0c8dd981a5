-- ===== src/Models/Watch.antt =====
-- Watch sessions, time statistics and channel settings (models/watch_session.go,
-- models/watch_stats.go, models/channel_config.go).
use tachigo.Base.{Bool, Option}
use tachigo.Int.{ℤ}
use tachigo.Models.Status.{Uuid, Time, Name}

pub record WatchSession : Type 0 where
  pub id : Uuid
  pub user_id : Uuid
  pub channel_id : Name
  pub accumulated_seconds : ℤ
  pub rewarded_seconds : ℤ
  pub last_heartbeat_at : Time
  pub click_cooldown_until : Time
  pub is_active : Bool
  pub ended_at : Option Time

pub record WatchTimeStat : Type 0 where
  pub id : Uuid
  pub user_id : Uuid
  pub channel_id : Name
  pub total_watch_seconds : ℤ
  pub created_at : Time
  pub updated_at : Time

pub record BroadcastTimeStat : Type 0 where
  pub id : Uuid
  pub streamer_id : Uuid
  pub channel_id : Name
  pub total_broadcast_seconds : ℤ
  pub created_at : Time
  pub updated_at : Time

pub record BroadcastTimeLog : Type 0 where
  pub id : Uuid
  pub streamer_id : Uuid
  pub channel_id : Name
  pub seconds : ℤ
  pub recorded_at : Time

pub record ChannelConfig : Type 0 where
  pub channel_id : Name
  pub seconds_per_point : ℤ
  pub multiplier : ℤ
  pub daily_airdrop_limit : ℤ
