-- ===== src/ChannelConfigs.antt =====
-- services/api/internal/services/channel_config_service.go: the settings of a channel.
pub mod Updates
use tachigo.Base.{Option, none, some, ◌∷◌, ◌==◌, Bool, find_first, update_where, if◌then◌else◌}
use tachigo.Int.{ℤ, pos, negsuc, ltb_ℤ, leb_ℤ}
use tachigo.Models.{Name, ChannelConfig, Result, ok, err, duplicated_key}
use tachigo.Effect.{Db, M, sql, pure, not_found_to, ◌>>=◌}
use tachigo.Ledger.{row_or_missing}
use tachigo.Watch.Opening.{default_seconds_per_point}

abbrev pub of_channel : Name → ChannelConfig → Bool
of_channel channel c = c.channel_id == channel

abbrev pub first_config : Name → Db → Result (ChannelConfig × Db)
first_config channel db = row_or_missing (find_first (of_channel channel) db.channel_configs) db

pub get : Name → M (Option ChannelConfig)
get channel = not_found_to none (sql (first_config channel) >>= λ c. pure (some c))

abbrev pub multiplier_of : Option ChannelConfig → ℤ
multiplier_of none = pos 1
multiplier_of (some c) = if leb_ℤ c.multiplier (pos 0) then pos 1 else c.multiplier

pub effective_multiplier : Name → M ℤ
unfolding get
effective_multiplier channel = get channel >>= λ c. pure (multiplier_of c)

-- The column's default, which gorm takes for a new row whose limit is zero.
abbrev pub default_daily_airdrop_limit : ℤ
default_daily_airdrop_limit = pos 5000

-- The settings of a channel without a row.
abbrev pub new_config : Name → ChannelConfig
new_config channel = record {
  channel_id = channel;
  seconds_per_point = default_seconds_per_point;
  multiplier = pos 1;
  daily_airdrop_limit = default_daily_airdrop_limit;
}

abbrev pub or_new : Name → Option ChannelConfig → ChannelConfig
or_new channel none = new_config channel
or_new channel (some c) = c

-- A setting is replaced only by a positive one.
abbrev pub replaced : ℤ → ℤ → ℤ
replaced n old = if ltb_ℤ (pos 0) n then n else old

abbrev pub merged : ℤ → ℤ → ChannelConfig → ChannelConfig
merged seconds multiplier c = record c {
  seconds_per_point = replaced seconds c.seconds_per_point;
  multiplier = replaced multiplier c.multiplier;
}

-- The update half of `Assign(…).FirstOrCreate(cfg)`: gorm's `Assign` of a struct skips the fields
-- that are zero.
abbrev pub is_zero_setting : ℤ → Bool
is_zero_setting (pos n) = n == 0
is_zero_setting (negsuc n) = Bool.false

abbrev pub kept_if_zero : ℤ → ℤ → ℤ
kept_if_zero n old = if is_zero_setting n then old else n

abbrev pub assigned : ChannelConfig → ChannelConfig → ChannelConfig
assigned new c = record c {
  seconds_per_point = kept_if_zero new.seconds_per_point c.seconds_per_point;
  multiplier = kept_if_zero new.multiplier c.multiplier;
}

-- The primary key is the channel.
abbrev insert_config_row : ChannelConfig → Option ChannelConfig → Db → Result (ChannelConfig × Db)
insert_config_row c (some _) db = err duplicated_key
insert_config_row c none db = ok (c, record db { channel_configs = c ∷ db.channel_configs })

abbrev pub insert_config : ChannelConfig → Db → Result (ChannelConfig × Db)
insert_config c db =
    insert_config_row c (find_first (of_channel c.channel_id) db.channel_configs) db

abbrev pub save_config : ChannelConfig → Option ChannelConfig → M ChannelConfig
save_config new none = sql (insert_config new)
save_config new (some c) = sql λ db. ok (
  assigned new c,
  record db {
    channel_configs = update_where (of_channel new.channel_id) (assigned new) db.channel_configs;
  },
)

-- `UpdateChannelConfig`: the two looks and the write are statements outside any transaction.
pub update_channel_config : Name → ℤ → ℤ → M ChannelConfig
unfolding get
update_channel_config channel seconds multiplier = do
  found ← get channel
  let new = merged seconds multiplier (or_new channel found)
  again ← get channel
  save_config new again
