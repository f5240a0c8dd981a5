-- ===== src/Durations/Counters.antt =====
-- What an upsert adds to the counters of a viewer and of a streamer.
use tachigo.Base.{
  ◌≡◌, refl, ◌&&◌, List, ◌∷◌, ◌==◌, arith, find_first, update_where, Bool-cases, ==_refl,
  Option-cases, inl, inr, ==_iff,
}
use tachigo.Int.{ℤ, ◌+ℤ◌, fits_int64}
use tachigo.Models.{Uuid, Time, Name, WatchTimeStat, BroadcastTimeStat}
use tachigo.Effect.{Db}
use tachigo.Effect.Ensures.{Gives}
use tachigo.Durations.{
  watched_by, watched_longer, new_watch_stat, new_broadcast_stat, upsert_watch_time, broadcast_by,
  broadcast_longer, upsert_broadcast_time,
}
use tachigo.Durations.Upserts.{added, total_of, Keys, total-insert, total-update}

abbrev pub watch_total : Uuid → Name → List WatchTimeStat → ℤ
watch_total user channel ws =
    total_of (λ s. s.total_watch_seconds) (find_first (watched_by user channel) ws)

abbrev pub broadcast_total : Uuid → Name → List BroadcastTimeStat → ℤ
broadcast_total streamer channel bs =
    total_of (λ s. s.total_broadcast_seconds) (find_first (broadcast_by streamer channel) bs)

-- The rows of one viewer and channel, and of one streamer and channel.
watch-Keys :
    (user u : Uuid) (channel c : Name)
    → Keys (watched_by user channel) (watched_by u c) (user == u && channel == c)
watch-Keys user u channel c = record {
  agree = λ e a. ground (arith, ==_iff user u, ==_iff channel c);
  apart = λ e a h. ground (arith, ==_iff a.user_id user, ==_iff a.channel_id channel);
}

broadcast-Keys :
    (streamer s : Uuid) (channel c : Name)
    → Keys (broadcast_by streamer channel) (broadcast_by s c) (streamer == s && channel == c)
broadcast-Keys streamer s channel c = record {
  agree = λ e a. ground (arith, ==_iff streamer s, ==_iff channel c);
  apart = λ e a h. ground (arith, ==_iff a.streamer_id streamer, ==_iff a.channel_id channel);
}

-- The viewer's counter.
abbrev pub WatchedMore : Uuid → Name → ℤ → Db → Db → Type 0
WatchedMore user channel seconds db db' =
    (ws : List WatchTimeStat) × (db' ≡ (record db { watch_time_stats = ws }))
    × ((u : Uuid) (c : Name)
        → watch_total u c ws
          ≡ watch_total u c db.watch_time_stats +ℤ added (user == u && channel == c) seconds)

pub upsert_watch-Gives :
    (id user : Uuid) (channel : Name) (seconds : ℤ) (at : Time) (db : Db)
    → Gives
        (upsert_watch_time id user channel seconds at db)
        (λ _ db'. WatchedMore user channel seconds db db')
unfolding upsert_watch_time
upsert_watch-Gives id user channel seconds at db =
    let total = λ (s : WatchTimeStat). s.total_watch_seconds in
    let table = db.watch_time_stats in
    elim (Option-cases (find_first (watched_by user channel) table)) [
      | inl missing ↦ elim (Option-cases (find_first (λ s. s.id == id) table)) [
        | inl fresh ↦
            let row = new_watch_stat id user channel seconds at in
            rw (missing, fresh)
              (
                row ∷ table,
                refl,
                λ u c.
                    total-insert total (watched_by user channel) (watched_by u c)
                      (watch-Keys user u channel c) seconds row table
                      (ground (arith, ==_refl user, ==_refl channel)) refl missing,
              )
        | inr (s, used) ↦ rw (missing, used) tt
      ]
      | inr (s, found) ↦ elim (Bool-cases (fits_int64 (total s +ℤ seconds))) [
        | inl fits ↦
            let raised = update_where (watched_by user channel) (watched_longer seconds at) table in
            rw (found, fits)
              (
                raised,
                refl,
                λ u c.
                    total-update total (watched_by user channel) (watched_by u c)
                      (watch-Keys user u channel c) seconds (watched_longer seconds at) (λ a. refl)
                      table (λ a. refl) found,
              )
        | inr over ↦ rw (found, over) tt
      ]
    ]

-- The streamer's counter.
abbrev pub BroadcastMore : Uuid → Name → ℤ → Db → Db → Type 0
BroadcastMore streamer channel seconds db db' =
    (bs : List BroadcastTimeStat) × (db' ≡ (record db { broadcast_time_stats = bs }))
    × ((s : Uuid) (c : Name)
        → broadcast_total s c bs
          ≡ broadcast_total s c db.broadcast_time_stats
            +ℤ added (streamer == s && channel == c) seconds)

pub upsert_broadcast-Gives :
    (id streamer : Uuid) (channel : Name) (seconds : ℤ) (at : Time) (db : Db)
    → Gives
        (upsert_broadcast_time id streamer channel seconds at db)
        (λ _ db'. BroadcastMore streamer channel seconds db db')
unfolding upsert_broadcast_time
upsert_broadcast-Gives id streamer channel seconds at db =
    let total = λ (s : BroadcastTimeStat). s.total_broadcast_seconds in
    let table = db.broadcast_time_stats in
    let own = broadcast_by streamer channel in
    elim (Option-cases (find_first own table)) [
      | inl missing ↦ elim (Option-cases (find_first (λ s. s.id == id) table)) [
        | inl fresh ↦
            let row = new_broadcast_stat id streamer channel seconds at in
            rw (missing, fresh)
              (
                row ∷ table,
                refl,
                λ s c.
                    total-insert total own (broadcast_by s c) (broadcast-Keys streamer s channel c)
                      seconds row table (ground (arith, ==_refl streamer, ==_refl channel)) refl
                      missing,
              )
        | inr (s, used) ↦ rw (missing, used) tt
      ]
      | inr (b, found) ↦ elim (Bool-cases (fits_int64 (total b +ℤ seconds))) [
        | inl fits ↦
            let f = broadcast_longer seconds at in
            rw (found, fits)
              (
                update_where own f table,
                refl,
                λ s c.
                    total-update total own (broadcast_by s c) (broadcast-Keys streamer s channel c)
                      seconds f (λ a. refl) table (λ a. refl) found,
              )
        | inr over ↦ rw (found, over) tt
      ]
    ]
