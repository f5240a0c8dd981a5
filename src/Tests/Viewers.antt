-- ===== src/Tests/Viewers.antt =====
-- A viewer who watches a channel, and the theorems on sessions applied to it.
use tachigo.Base.{
  ◌≡◌, true, Option, none, some, subst, [], ◌∷◌, ◌*◌, ◌+◌, arith, find_first, if◌then◌else◌, ltb,
  ◌&&◌,
}
use tachigo.Int.{pos, negsuc, int64_half}
use tachigo.Models.{WatchSession, ChannelConfig, ok, err, points_delta_overflow}
use tachigo.Effect.{Db, world}
use tachigo.Effect.Runs.{Runs}
use tachigo.Effect.Safe.{Safe}
use tachigo.Ledger.Audit.{IsAudited}
use tachigo.Watch.Opening.{watching, start_session}
use tachigo.Watch.{effective_config, reward, heartbeat, record_click, end_session}
use tachigo.Watch.Arithmetic.{earned, whole_points, reward_outcome}
use tachigo.Watch.Rewards.{
  IsWatched, IsTyped, InForce, Rewarded, effective_config-InForce, reward-Rewarded,
}
use tachigo.Watch.Heartbeats.{Heard, heartbeat-Heard}
use tachigo.Watch.Sessions.{IsSingle, Started, start_session-Started, end_session-Ended}
use tachigo.Watch.Clicks.{Clicked, record_click-Clicked}
use tachigo.Tests.Books.{env, books, books-IsAudited}

abbrev session : WatchSession
session = record {
  id = 31;
  user_id = 1;
  channel_id = 7;
  accumulated_seconds = pos 90;
  rewarded_seconds = pos 60;
  last_heartbeat_at = 5;
  click_cooldown_until = 0;
  is_active = true;
  ended_at = none;
}

abbrev config : ChannelConfig
config = record {
  channel_id = 7;
  seconds_per_point = pos 30;
  multiplier = negsuc 1;
  daily_airdrop_limit = pos 0;
}

abbrev pub viewed : Db
viewed = record books { watch_sessions = session ∷ []; channel_configs = config ∷ [] }

pub viewed-IsAudited : IsAudited viewed
viewed-IsAudited = record {
  balanced = books-IsAudited.balanced;
  keyed = books-IsAudited.keyed;
  posted = books-IsAudited.posted;
  distinct = books-IsAudited.distinct;
}

config-IsTyped : IsTyped config
config-IsTyped = record { seconds_fit = omega arith; multiplier_fits = omega arith }

session-IsWatched : IsWatched session
session-IsWatched = record { started = omega arith; owed = omega arith; fits = omega arith }

viewed-IsSingle : IsSingle viewed.watch_sessions
viewed-IsSingle = ((λ _. tt), tt)

heartbeat-Heard_example : Safe (λ db'. db' ≡ viewed) viewed (heartbeat 1 7) (Heard 1 7 viewed)
heartbeat-Heard_example =
    heartbeat-Heard 1 7 viewed viewed-IsAudited (session-IsWatched, tt) (config-IsTyped, tt)

record_click-Clicked_example :
    Runs
      (λ db'. db' ≡ viewed)
      (world env 0 viewed)
      (record_click 1 7)
      (Clicked 1 7 (world env 0 viewed))
record_click-Clicked_example = record_click-Clicked 1 7 (world env 0 viewed) viewed-IsAudited

start_session-Started_example : Safe (λ db'. db' ≡ viewed) viewed (start_session 1 7) (Started 1 7)
start_session-Started_example = start_session-Started 1 7 viewed viewed-IsSingle

end_session-Ended_example :
    Safe
      (λ db'. db' ≡ viewed)
      viewed
      (end_session 1 7)
      (λ _ db'. IsSingle db'.watch_sessions × (find_first (watching 1 7) db'.watch_sessions ≡ none))
end_session-Ended_example = end_session-Ended 1 7 viewed viewed-IsSingle

abbrev TypedIfThere : Option ChannelConfig → Type 0
TypedIfThere none = Unit
TypedIfThere (some c) = IsTyped c

config-IsTyped_if_there : (c : ChannelConfig) → some config ≡ some c → IsTyped c
config-IsTyped_if_there c e = subst TypedIfThere e config-IsTyped

effective_config-InForce_example : InForce (effective_config (some config))
effective_config-InForce_example = effective_config-InForce (some config) config-IsTyped_if_there

reward_outcome_example : reward (pos 90) (pos 60) (pos 30) (pos 30) (pos 2) ≡ (
    if ltb (90 + 30) int64_half && ltb (whole_points 90 60 30 30 * 2) int64_half
    then ok (earned 90 60 30 30 2)
    else err points_delta_overflow)
reward_outcome_example =
    reward_outcome 90 60 30 30 2 (omega arith) (omega arith) (omega arith) (omega arith)
      (omega arith) (omega arith)

reward-Rewarded_example : Rewarded (pos 90) (pos 60) 30 30 2 (earned 90 60 30 30 2)
reward-Rewarded_example =
    reward-Rewarded (pos 90) (pos 60) 30 30 2 (earned 90 60 30 30 2) (omega arith) (omega arith)
      (omega arith) (omega arith) (omega arith) (omega arith) (omega arith)
      (reward_outcome 90 60 30 30 2 (omega arith) (omega arith) (omega arith) (omega arith)
        (omega arith) (omega arith))
