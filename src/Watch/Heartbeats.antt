-- ===== src/Watch/Heartbeats.antt =====
-- What a heartbeat does to the books and to the sessions.
use tachigo.Base.{
  ℕ, ◌≡◌, refl, sym, ap, ◌∙◌, false, arith, ◌==◌, ◌<◌, if◌then◌else◌, Option, none, some, List, All,
  All-find_first, find_first, find_first-update_other, update_where, ==_refl,
}
use tachigo.Int.{ℤ, pos, int64_half, ltb_ℤ, ◌+ℤ◌, ◌≤ℤ◌, int_laws, +ℤ_zero_right, time_sub}
use tachigo.Models.{Uuid, Time, Name, TxSource, WatchSession}
use tachigo.Effect.{Db, sql, pure, now, ◌>>=◌}
use tachigo.Effect.Ensures.{
  Gives, Ensures, Ensures-pure, Ensures-if, Ensures-bind, Ensures-bind-sql, Ensures-bind-now,
  Ensures-bind-found, Ensures-bind-lift,
}
use tachigo.Effect.Safe.{Safe, Safe-transaction}
use tachigo.Ledger.{row_or_missing}
use tachigo.Ledger.Audit.{IsAudited}
use tachigo.Ledger.Awards.{Credited, ledger_of, spendable_of}
use tachigo.Ledger.Credit.{credit-Ensures}
use tachigo.Watch.Opening.{watching, has_session_id, with_sessions}
use tachigo.Watch.{
  effective_config, channel_config, get_channel_config, Reward, advanced, counted, HeartbeatResult,
  session_row, award_points, count_heartbeat, capped_seconds, heartbeat_in_tx, heartbeat,
}
use tachigo.Watch.Rewards.{
  IsWatched, IsTyped, InForce, effective_config-InForce, capped_seconds_bounds, advance-IsWatched,
  Rewarded, reward-Rewarded,
}

-- The books that an update of the sessions leaves alone.
pub with_sessions-IsAudited :
    (ss : List WatchSession) (db : Db) → IsAudited db → IsAudited (with_sessions ss db)
with_sessions-IsAudited ss db a = record {
  balanced = a.balanced;
  keyed = a.keyed;
  posted = a.posted;
  distinct = a.distinct;
}

-- What a heartbeat that returned has done: the books are audited, every session has its seconds in
-- order, the owner's balance has risen by the points that the result reports, and the session that
-- it reports is the stored one, which has watched the seconds that it reports.
pub record Heard (user : Uuid) (channel : Name) (db : Db) (r : HeartbeatResult) (db' : Db)
    : Type 0 where
  pub audited : IsAudited db'
  pub sessions : All IsWatched db'.watch_sessions
  pub nonneg : pos 0 ≤ℤ r.points_earned
  pub spendable :
      spendable_of (ledger_of user channel db')
      ≡ spendable_of (ledger_of user channel db) +ℤ r.points_earned
  pub session : WatchSession
  pub active : find_first (watching user channel) db.watch_sessions ≡ some session
  pub stored : find_first (watching user channel) db'.watch_sessions ≡ some r.session
  pub counted_on : r.session.accumulated_seconds ≡ session.accumulated_seconds +ℤ r.delta_seconds

not_positive : (a : ℤ) → ltb_ℤ (pos 0) a ≡ false → a ≤ℤ pos 0
not_positive a h = ground arith

module _ (user : Uuid) (channel : Name) (db : Db) (audit : IsAudited db)
    (watched : All IsWatched db.watch_sessions) (typed : All IsTyped db.channel_configs) where
  -- The end of a counted heartbeat: the reward is known, the session advances, points are awarded.
  finish-Heard :
      (s : WatchSession) (at : Time) (delta seconds multiplier : ℕ) (r : Reward)
      → find_first (watching user channel) db.watch_sessions ≡ some s
      → Rewarded s.accumulated_seconds s.rewarded_seconds delta seconds multiplier r
      → Ensures
          (with_sessions (update_where (has_session_id s.id) (advanced r at) db.watch_sessions) db)
          (if ltb_ℤ (pos 0) r.points
            then (award_points user channel s.id r.points >>= λ _.
                pure (counted s at (pos delta) r))
            else pure (counted s at (pos delta) r))
          (Heard user channel db)
  unfolding award_points
  finish-Heard s at delta seconds multiplier r found rewarded =
      Ensures-if (ltb_ℤ (pos 0) r.points) _ _
        (λ some_points.
          Ensures-bind (Credited user channel r.points after) _ _
            (Ensures-bind-now _ λ upsert_at.
              credit-Ensures user channel r.points upsert_at
                (session_row TxSource.watch_time s.id r.points) after audited_after
                (record { owner = λ l. refl; moved = λ l. refl; earning = λ l. refl }) nonneg
                rewarded.points_fit)
            λ l db' c. Ensures-pure _ (record {
              audited = c.audited;
              sessions = rw (ap (λ d. d.watch_sessions) c.frame) in_order;
              nonneg = nonneg;
              spendable = ap spendable_of c.read ∙ c.spendable;
              session = s;
              active = found;
              stored = rw (ap (λ d. d.watch_sessions) c.frame) moved_on;
              counted_on = rewarded.watched;
            }))
        (λ no_points.
          let zero_points : r.points ≡ pos 0 =
            omega (int_laws, nonneg, not_positive r.points no_points) in
          Ensures-pure _ (record {
            audited = audited_after;
            sessions = in_order;
            nonneg = nonneg;
            spendable = rw zero_points (sym (+ℤ_zero_right _));
            session = s;
            active = found;
            stored = moved_on;
            counted_on = rewarded.watched;
          }))
    where
      after : Db
      after =
          with_sessions (update_where (has_session_id s.id) (advanced r at) db.watch_sessions) db

      audited_after : IsAudited after
      audited_after = with_sessions-IsAudited _ db audit

      moved_on : find_first (watching user channel) after.watch_sessions ≡ some (advanced r at s)
      moved_on =
          find_first-update_other (watching user channel) (has_session_id s.id) (advanced r at)
            db.watch_sessions (λ x. refl) found (==_refl s.id)

      nonneg : pos 0 ≤ℤ r.points
      nonneg = rw rewarded.points (omega arith)

      in_order : All IsWatched after.watch_sessions
      in_order =
          advance-IsWatched s.id r at db.watch_sessions
            (λ x. record {
              started = rewarded.started;
              owed = rewarded.owed;
              fits = rewarded.accumulated_fits;
            })
            watched

  -- A counted heartbeat, from the session that was found.
  count-Heard :
      (s : WatchSession) (at : Time) (delta : ℕ)
      → find_first (watching user channel) db.watch_sessions ≡ some s
      → IsWatched s
      → delta < int64_half
      → Ensures db (count_heartbeat user channel s at (pos delta)) (Heard user channel db)
  unfolding count_heartbeat get_channel_config
  count-Heard s at delta found w fd =
      Ensures-bind (λ c db'. (InForce c) × (db' ≡ db))
        (sql (channel_config channel) >>= λ c. pure (effective_config c)) _
        (Ensures-bind-sql _ _ (
          Ensures-pure _ (
            effective_config-InForce (find_first (λ c. c.channel_id == channel) db.channel_configs)
                (λ c e.
                  All-find_first IsTyped (λ c. c.channel_id == channel) db.channel_configs typed e),
            refl,
          )))
        λ c db' (f, same).
          rw (same, f.eq)
            (Ensures-bind-lift _ _ λ r e. Ensures-bind-sql _ _ (
              finish-Heard s at delta f.seconds f.multiplier r found (
                reward-Rewarded s.accumulated_seconds s.rewarded_seconds delta f.seconds
                  f.multiplier r w.started w.owed w.fits fd f.seconds_pos f.seconds_fit
                  f.multiplier_fits e)))

  heartbeat_from :
      (o : Option WatchSession)
      → find_first (watching user channel) db.watch_sessions ≡ o
      → Gives (row_or_missing o db) (λ s db'.
        Ensures db'
          (now >>= λ at.
            if ltb_ℤ (time_sub at s.last_heartbeat_at) (pos 20000000000)
            then pure (record { session = s; points_earned = pos 0; delta_seconds = pos 0 })
            else count_heartbeat user channel s at
                (capped_seconds (time_sub at s.last_heartbeat_at)))
          (Heard user channel db))
  heartbeat_from none e = tt
  heartbeat_from (some s) e = Ensures-bind-now _ λ at.
      Ensures-if (ltb_ℤ (time_sub at s.last_heartbeat_at) (pos 20000000000)) _ _
        (λ soon. Ensures-pure _ (record {
          audited = audit;
          sessions = watched;
          nonneg = omega arith;
          spendable = sym (+ℤ_zero_right _);
          session = s;
          active = e;
          stored = e;
          counted_on = sym (+ℤ_zero_right _);
        }))
        (λ later.
          let (d, ed, low, high) = capped_seconds_bounds (time_sub at s.last_heartbeat_at) later in
          let w : IsWatched s =
            All-find_first IsWatched (watching user channel) db.watch_sessions watched e in
          rw ed (count-Heard s at d e w (omega arith)))

-- A heartbeat from audited books, sessions in order and typed settings: if it returns, the books
-- are audited, every session has rewarded no more seconds than it has watched, the viewer's
-- balance has risen by the points that the result reports, which are not negative, and the session
-- reported is the stored active one, which has watched the seconds reported; if it fails, the
-- tables are what they were.
pub heartbeat-Heard :
    (user : Uuid) (channel : Name) (db : Db)
    → IsAudited db
    → All IsWatched db.watch_sessions
    → All IsTyped db.channel_configs
    → Safe (λ db'. db' ≡ db) db (heartbeat user channel) (Heard user channel db)
unfolding heartbeat heartbeat_in_tx
heartbeat-Heard user channel db audit watched typed = Safe-transaction _ refl (
    Ensures-bind-found _ _ _ (
      Ensures-bind-sql _ _ (
        heartbeat_from user channel db audit watched typed
          (find_first (watching user channel) db.watch_sessions) refl)))
