-- ===== src/Tests/Hours.antt =====
-- Counters of watch time and settings of a channel, and the theorems on them at concrete tables.
use tachigo.Base.{◌*◌, ◌/◌, ◌≡◌, refl, [], ◌∷◌, arith, ◌==◌, Bool-cases, inl, inr}
use tachigo.Int.{pos, ◌+ℤ◌}
use tachigo.Effect.{Db, Env, world}
use tachigo.Effect.Safe.{Safe, Outcome}
use tachigo.Durations.{add_heartbeat_time, get_broadcast_stats, sum_logged}
use tachigo.Durations.Heartbeats.{
  Timed, IsReconciled, add_heartbeat_time-Timed, add_heartbeat_time-IsReconciled,
}
use tachigo.Durations.Windows.{IsOrderly, Nested, get_broadcast_stats-Nested}
use tachigo.ChannelConfigs.{update_channel_config}
use tachigo.ChannelConfigs.Updates.{Updated, update_channel_config-Updated}
use tachigo.Tests.Books.{env}
use tachigo.Tests.Viewers.{viewed}
use tachigo.Tests.Subscribers.{linked}

-- User 2 streams on the channel 2.
abbrev streamed : Db
streamed = record viewed {
  auth_providers = linked 2 ∷ [];
  broadcast_time_stats =
      record {
        id = 51;
        streamer_id = 2;
        channel_id = 2;
        total_broadcast_seconds = pos 70;
        created_at = 5;
        updated_at = 9;
      }
      ∷ [];
  broadcast_time_logs =
      record { id = 52; streamer_id = 2; channel_id = 2; seconds = pos 40; recorded_at = 25 }
      ∷ record { id = 53; streamer_id = 2; channel_id = 2; seconds = pos 30; recorded_at = 4 }
      ∷ [];
}

-- Days of ten ticks, months of a hundred, years of a thousand.
abbrev ten_ticks : Env
ten_ticks = record env {
  outside = record env.outside {
    calendar = record {
      start_of_day = λ t. t / 10 * 10;
      start_of_month = λ t. t / 100 * 100;
      start_of_year = λ t. t / 1000 * 1000;
    };
  };
}

streamed-IsReconciled : IsReconciled streamed
unfolding sum_logged ◌+ℤ◌
streamed-IsReconciled s c = elim (Bool-cases (2 == s)) [
  | inl streams ↦ elim (Bool-cases (2 == c)) [
    | inl here ↦ rw (streams, here) refl
    | inr elsewhere ↦ rw (streams, elsewhere) refl
  ]
  | inr other ↦ rw other refl
]

ten_ticks-IsOrderly : IsOrderly ten_ticks.outside.calendar
ten_ticks-IsOrderly = record { month_first = λ t. omega arith; year_first = λ t. omega arith }

add_heartbeat_time-Timed_example :
    Safe
      (λ db'. db' ≡ streamed)
      streamed
      (add_heartbeat_time 1 2 (pos 30))
      (λ _ db'. Timed 1 2 (pos 30) streamed db')
add_heartbeat_time-Timed_example = add_heartbeat_time-Timed 1 2 (pos 30) streamed

add_heartbeat_time-IsReconciled_example :
    IsReconciled (add_heartbeat_time 1 2 (pos 30) (world env 0 streamed)).1.db
add_heartbeat_time-IsReconciled_example =
    add_heartbeat_time-IsReconciled 1 2 (pos 30) (world env 0 streamed) streamed-IsReconciled

get_broadcast_stats-Nested_example :
    Outcome
      (λ db'. db' ≡ streamed)
      (get_broadcast_stats 2 2 (world ten_ticks 28 streamed))
      (Nested 2 2 streamed)
get_broadcast_stats-Nested_example =
    get_broadcast_stats-Nested 2 2 (world ten_ticks 28 streamed) ten_ticks-IsOrderly (omega arith)
      streamed-IsReconciled

update_channel_config-Updated_example :
    Safe
      (λ db'. db' ≡ viewed)
      viewed
      (update_channel_config 7 (pos 45) (pos 0))
      (Updated 7 (pos 45) (pos 0) viewed)
update_channel_config-Updated_example = update_channel_config-Updated 7 (pos 45) (pos 0) viewed
