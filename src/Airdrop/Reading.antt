-- ===== src/Airdrop/Reading.antt =====
-- What an airdrop reads, services/api/internal/services/airdrop_service.go: the points given on a day,
-- the viewers of the moment and the limit.
use tachigo.Base.{
  ℕ, String, Bool, true, false, ◌&&◌, Option, none, some, List, [], ◌∷◌, ◌+◌, ◌*◌, ◌/◌, ◌==◌, ltb,
  leb, if◌then◌else◌, find_first, select, sort_by, map,
}
use tachigo.Int.{ℤ, pos, eq_ℤ, ltb_ℤ, leb_ℤ, ◌+ℤ◌, pos_part}
use tachigo.Models.{
  Uuid, Time, Name, TxSource, PointsLedger, PointsTransaction, WatchSession, ChannelConfig, ok,
}
use tachigo.Effect.{M, pure, sql, now, not_found_to, ◌>>=◌}
use tachigo.Ledger.{has_id}
use tachigo.Watch.Opening.{stale_threshold}
use tachigo.Durations.{scanned}
use tachigo.ChannelConfigs.{first_config}

abbrev pub default_daily_airdrop_limit : ℤ
default_daily_airdrop_limit = pos 5000

abbrev pub max_airdrop_tx_retries : ℕ
max_airdrop_tx_retries = 5

-- Nanoseconds of a UTC day.
abbrev pub day : ℕ
day = 86400000000000

pub record AirdropRequest : Type 0 where
  pub channel_id : Name
  pub amount : ℤ
  pub note : String

pub record AirdropRecipient : Type 0 where
  pub user_id : Uuid
  pub allocated_points : ℤ

pub record AirdropResult : Type 0 where
  pub affected_count : ℤ
  pub distribution : List AirdropRecipient

pub record AirdropViewer : Type 0 where
  pub user_id : Uuid
  pub accumulated_seconds : ℤ
  pub share : ℤ
  pub remainder : ℤ

-- `JOIN points_ledgers ON points_ledgers.id = points_transactions.ledger_id`, where the ledger is
-- of the channel.
abbrev pub in_channel : Name → Option PointsLedger → Bool
in_channel channel none = false
in_channel channel (some l) = l.channel_id == channel

abbrev pub is_airdrop : TxSource → Bool
is_airdrop TxSource.airdrop = true
is_airdrop _ = false

-- A transaction of an airdrop in the channel on the UTC day of `at`.
abbrev pub dropped_on : Name → Time → List PointsLedger → PointsTransaction → Bool
dropped_on channel at ledgers t =
    in_channel channel (find_first (has_id t.ledger_id) ledgers)
    && is_airdrop t.source
    && leb (at / day * day) t.created_at
    && ltb t.created_at (at / day * day + day)

unfoldable pub dropped_total : Name → Time → List PointsLedger → List PointsTransaction → ℤ
dropped_total channel at ledgers [] = pos 0
dropped_total channel at ledgers (t ∷ ts) =
    (if dropped_on channel at ledgers t then t.delta else pos 0)
    +ℤ dropped_total channel at ledgers ts

unfoldable pub today_total : Name → Time → M ℤ
today_total channel at =
    sql λ db. scanned (dropped_total channel at db.points_ledgers db.points_transactions) db

pub current_total : Name → M ℤ
unfolding today_total
current_total channel = now >>= today_total channel

-- `channel_id = ? AND is_active = ? AND last_heartbeat_at > ?`
abbrev pub is_fresh : Name → Time → WatchSession → Bool
is_fresh channel at s =
    s.channel_id == channel
    && s.is_active
    && ltb at (s.last_heartbeat_at + pos_part stale_threshold)

-- `ORDER BY accumulated_seconds DESC, user_id ASC`
abbrev pub watched_before : WatchSession → WatchSession → Bool
watched_before s r =
    if eq_ℤ s.accumulated_seconds r.accumulated_seconds
    then leb s.user_id r.user_id
    else ltb_ℤ r.accumulated_seconds s.accumulated_seconds

abbrev pub viewer_of : WatchSession → AirdropViewer
viewer_of s = record {
  user_id = s.user_id;
  accumulated_seconds = s.accumulated_seconds;
  share = pos 0;
  remainder = pos 0;
}

abbrev pub viewers_of : Name → Time → List WatchSession → List AirdropViewer
viewers_of channel at ss = map viewer_of (sort_by watched_before (select (is_fresh channel at) ss))

unfoldable pub active_viewers_in_tx : Name → M (List AirdropViewer)
active_viewers_in_tx channel = do
  at ← now
  sql λ db. ok (viewers_of channel at db.watch_sessions, db)

abbrev pub limit_of : Option ChannelConfig → ℤ
limit_of none = default_daily_airdrop_limit
limit_of (some c) =
    if leb_ℤ c.daily_airdrop_limit (pos 0)
    then default_daily_airdrop_limit
    else c.daily_airdrop_limit

unfoldable pub daily_limit_in_tx : Name → M ℤ
daily_limit_in_tx channel =
    not_found_to none (sql (first_config channel) >>= λ c. pure (some c)) >>= λ c. pure (limit_of c)
