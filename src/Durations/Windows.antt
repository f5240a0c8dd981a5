-- ===== src/Durations/Windows.antt =====
-- The windows of time over which a streamer's log is summed.
use tachigo.Base.{
  ℕ, suc, ◌≤◌, ◌≡◌, refl, Bool, ◌&&◌, Option, none, some, List, [], ◌∷◌, ◌==◌, leb, arith,
  if◌then◌else◌, inl, inr, Bool-cases, All,
}
use tachigo.Int.{ℤ, pos, ◌≤ℤ◌, fits_int64, int_laws}
use tachigo.Models.{Uuid, Time, Name, Error, BroadcastTimeLog, Result}
use tachigo.Effect.{
  Db, Env, World, M, world, Calendar, sql, attempt, continue, now, ask, pure, ◌>>=◌,
}
use tachigo.Effect.Safe.{Outcome}
use tachigo.Durations.{BroadcastStats, sum_accumulated, sum_logged, scanned, get_broadcast_stats}
use tachigo.Durations.Counters.{broadcast_total}
use tachigo.Durations.Heartbeats.{IsReconciled}

-- A month begins no later than its days, and a year no later than its months.
pub record IsOrderly (c : Calendar) : Type 0 where
  pub month_first : (t : Time) → c.start_of_month t ≤ c.start_of_day t
  pub year_first : (t : Time) → c.start_of_year t ≤ c.start_of_month t

-- No entry takes time away.
abbrev pub IsPositive : List BroadcastTimeLog → Type 0
IsPositive ls = All (λ l. pos 0 ≤ℤ l.seconds) ls

later-entry :
    (a b : Bool) (r since later : Time) (n : ℤ)
    → since ≤ later
    → pos 0 ≤ℤ n
    → (if a && b && leb later r then n else pos 0) ≤ℤ (if a && b && leb since r then n else pos 0)
later-entry a b r since later n h p = ground arith

-- A window that begins later holds no more.
sum_logged-le :
    (streamer : Uuid) (channel : Name) (since later : Time) (ls : List BroadcastTimeLog)
    → since ≤ later
    → IsPositive ls
    → sum_logged streamer channel later ls ≤ℤ sum_logged streamer channel since ls
unfolding sum_logged
sum_logged-le streamer channel since later [] h p = omega arith
sum_logged-le streamer channel since later (l ∷ ls) h p = omega (
  int_laws,
  later-entry (l.streamer_id == streamer) (l.channel_id == channel) l.recorded_at since later
      l.seconds h p.0,
  sum_logged-le streamer channel since later ls h p.1,
)

-- What a run promises in the given surroundings, and rules for the effects of a report.
record Run {A : Type 0} (env : Env) (E : Db → Type 0) (db : Db) (m : M A) (Q : A → Db → Type 0)
    : Type 0 where
  at : (tick : ℕ) → Outcome E (m (world env tick db)) Q

module _ {B : Type 0} {env : Env} {E : Db → Type 0} {db : Db} {R : B → Db → Type 0} where
  scan_then :
      (x : Option Error) (n : ℤ) (tick : ℕ) (k : ℤ → M B)
      → E db
      → Run env E db (k n) R
      → Outcome E (continue (attempt x (scanned n db) (world env tick db)) k) R
  scan_then (some e) n tick k h g = h
  scan_then none n tick k h g = elim (Bool-cases (fits_int64 n)) [
    | inl fits ↦ rw fits (g.at tick)
    | inr over ↦ rw over h
  ]

  Run-bind-scan :
      (n : ℤ) (f : Db → Result (ℤ × Db)) (k : ℤ → M B)
      → f db ≡ scanned n db
      → E db
      → Run env E db (k n) R
      → Run env E db (sql f >>= k) R
  unfolding sql ◌>>=◌
  Run-bind-scan n f k e h g = record {
    at = λ tick. rw e (scan_then (env.fault tick) n (suc tick) k h g);
  }

  Run-bind-ask :
      {A : Type 0} (f : Env → ℕ → A) (k : A → M B)
      → ((tick : ℕ) → Run env E db (k (f env tick)) R)
      → Run env E db (ask f >>= k) R
  unfolding ask ◌>>=◌
  Run-bind-ask f k g = record { at = λ tick. (g tick).at (suc tick) }

  Run-bind-now : (k : Time → M B) → ((t : Time) → Run env E db (k t) R) → Run env E db (now >>= k) R
  unfolding now ◌>>=◌
  Run-bind-now k g = record { at = λ tick. (g (env.clock tick)).at (suc tick) }

  Run-pure : (b : B) → R b db → Run env E db (pure b) R
  unfolding pure
  Run-pure b h = record { at = λ tick. h }

-- What the windows say of a log that is reconciled with its counters.
abbrev pub Nested : Uuid → Name → Db → BroadcastStats → Db → Type 0
Nested streamer channel db r db' =
    (db' ≡ db)
    × (r.daily_seconds ≤ℤ r.monthly_seconds)
    × (r.monthly_seconds ≤ℤ r.yearly_seconds)
    × (r.yearly_seconds ≤ℤ broadcast_total streamer channel db.broadcast_time_stats)

report-Nested :
    (streamer : Uuid) (channel : Name) (env : Env) (db : Db)
    → IsOrderly env.outside.calendar
    → IsPositive db.broadcast_time_logs
    → IsReconciled db
    → Run env
        (λ db'. db' ≡ db)
        db
        (get_broadcast_stats streamer channel)
        (Nested streamer channel db)
unfolding get_broadcast_stats
report-Nested streamer channel env db orderly positive reconciled =
    let logs = db.broadcast_time_logs in
    let cal = env.outside.calendar in
    let sum = λ (since : Time). sum_logged streamer channel since logs in
    let less = λ (since later : Time) (h : since ≤ later).
      sum_logged-le streamer channel since later logs h positive in
    Run-bind-now _ λ at. Run-bind-scan (sum_accumulated channel db.watch_sessions) _ _ refl refl (
      Run-bind-ask _ _ λ _. Run-bind-ask _ _ λ _. Run-bind-ask _ _ λ _.
        Run-bind-scan (sum (cal.start_of_day at)) _ _ refl refl (
          Run-bind-scan (sum (cal.start_of_month at)) _ _ refl refl (
            Run-bind-scan (sum (cal.start_of_year at)) _ _ refl refl (
              Run-pure _ (
                refl,
                less _ _ (orderly.month_first at),
                less _ _ (orderly.year_first at),
                rw (reconciled streamer channel) (less 0 (cal.start_of_year at) (omega arith)),
              )))))

-- `GetBroadcastStats`, where the calendar is in order, no entry of the log is negative and the
-- counters are the sums of the log: it changes nothing, and if it returns, the day's seconds are at
-- most the month's, these at most the year's, and these at most the streamer's counter.
pub get_broadcast_stats-Nested :
    (streamer : Uuid) (channel : Name) (w : World)
    → IsOrderly w.env.outside.calendar
    → IsPositive w.db.broadcast_time_logs
    → IsReconciled w.db
    → Outcome
        (λ db'. db' ≡ w.db)
        (get_broadcast_stats streamer channel w)
        (Nested streamer channel w.db)
get_broadcast_stats-Nested streamer channel w orderly positive reconciled =
    (report-Nested streamer channel w.env w.db orderly positive reconciled).at w.tick
