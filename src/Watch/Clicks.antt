-- ===== src/Watch/Clicks.antt =====
-- What a click does: RecordClick of services/watch_service.go.
use tachigo.Base.{
  ◌==◌, ◌+◌, ℕ, suc, ◌≡◌, refl, ap, arith, Bool, true, false, Option, none, some, find_first,
  update_where, ltb, if◌then◌else◌,
}
use tachigo.Int.{pos, ◌+ℤ◌}
use tachigo.Models.{Uuid, Time, Name, TxSource, WatchSession, no_active_session}
use tachigo.Effect.{Db, Env, World, M, world, sql, pure, raise, now, continue, ◌>>=◌}
use tachigo.Effect.Ensures.{Gives}
use tachigo.Effect.Safe.{Outcome}
use tachigo.Effect.Runs.{
  IsRead, Runs, Runs-Ensures, Runs-bind-found, Runs-bind-now, Runs-bind-sql, Runs-transaction,
}
use tachigo.Effect.Ensures.{Ensures-bind, Ensures-pure}
use tachigo.Ledger.{row_or_missing}
use tachigo.Ledger.Audit.{IsAudited}
use tachigo.Ledger.Awards.{Credited, ledger_of, spendable_of}
use tachigo.Ledger.Credit.{credit-Ensures}
use tachigo.Watch.Opening.{watching, has_session_id, with_sessions, click_points_per_click}
use tachigo.Watch.{
  cooling, session_row, first_active, ClickResult, check_cooldown, click_in_tx, record_click,
}
use tachigo.Watch.Heartbeats.{with_sessions-IsAudited}

-- What a click that returned has done: a session was active, whose cooldown the clock had passed and
-- runs for five seconds from its next reading, the books are audited, the balance reported is the stored one, and it
-- has risen by one point.
pub record Clicked (user : Uuid) (channel : Name) (w : World) (r : ClickResult) (db' : Db)
    : Type 0 where
  pub session : WatchSession
  pub active : find_first (watching user channel) w.db.watch_sessions ≡ some session
  pub asked : Time
  pub asked_read : IsRead w asked
  pub elapsed : ltb asked session.click_cooldown_until ≡ false
  pub cooled : Time
  pub cooled_read : IsRead w cooled
  pub sessions :
      db'.watch_sessions
      ≡ update_where
          (λ s. s.id == session.id)
          (λ s. record s { click_cooldown_until = cooled + 5000000000 })
          w.db.watch_sessions
  pub audited : IsAudited db'
  pub reported : spendable_of (ledger_of user channel db') ≡ r.balance_after
  pub earned : r.balance_after ≡ spendable_of (ledger_of user channel w.db) +ℤ pos 1

-- What follows the check runs only where the cooldown has passed.
check_cooldown-Runs :
    {B : Type 0} {R : B → Db → Type 0} (env : Env) (tick : ℕ) (db : Db) (s : WatchSession)
    (k : Unit {0} → M B)
    → (ltb (env.clock tick) s.click_cooldown_until ≡ false
        → Runs (λ _. Unit) (world env (suc tick) db) (k tt) R)
    → Runs (λ _. Unit) (world env tick db) (check_cooldown s >>= k) R
unfolding check_cooldown now raise pure ◌>>=◌
check_cooldown-Runs {B} {R} env tick db s k h = record {
  outcome =
      go (ltb (env.clock tick) s.click_cooldown_until) _ _ (λ _. tt) (λ late. (h late).outcome);
}
  where
    go :
        (b : Bool) (m n : M (Unit {0}))
        → (b ≡ true → Outcome (λ _. Unit) (continue (m (world env (suc tick) db)) k) R)
        → (b ≡ false → Outcome (λ _. Unit) (continue (n (world env (suc tick) db)) k) R)
        → Outcome (λ _. Unit) (continue ((if b then m else n) (world env (suc tick) db)) k) R
    go true m n hm hn = hm refl
    go false m n hm hn = hn refl

module _ (user : Uuid) (channel : Name) (env : Env) (tick : ℕ) (db : Db)
    (audit : IsAudited db) where
  click_from :
      (o : Option WatchSession)
      → find_first (watching user channel) db.watch_sessions ≡ o
      → Gives (row_or_missing o db) (λ s db'.
        Runs
          (λ _. Unit)
          (world env (suc tick) db')
          (check_cooldown s >>= λ _. now >>= λ at.
            sql (tachigo.Watch.update_session s.id (cooling at)) >>= λ _. now >>= λ upsert_at.
            tachigo.Ledger.credit user channel click_points_per_click upsert_at
              (session_row TxSource.click s.id click_points_per_click)
            >>= λ ledger. pure (record {
              balance_after = ledger.spendable_balance;
              delta = click_points_per_click;
            }))
          (Clicked user channel (world env tick db)))
  click_from none e = tt
  click_from (some s) e = check_cooldown-Runs env (suc tick) db s _ λ late. Runs-bind-now _ (
      Runs-bind-sql _ _ tt (
        Runs-bind-now _ (
          let at = env.clock (suc (suc tick)) in
          let upsert_at = env.clock (suc (suc (suc (suc tick)))) in
          let after =
            with_sessions (update_where (has_session_id s.id) (cooling at) db.watch_sessions) db in
          Runs-Ensures (
            Ensures-bind (Credited user channel click_points_per_click after) _ _
              (credit-Ensures user channel click_points_per_click upsert_at
                (session_row TxSource.click s.id click_points_per_click) after
                (with_sessions-IsAudited _ db audit)
                (record { owner = λ l. refl; moved = λ l. refl; earning = λ l. refl }) (omega arith)
                (omega arith))
              λ l db'' c. Ensures-pure _ (record {
                session = s;
                active = e;
                asked = env.clock (suc tick);
                asked_read = (_, omega arith, refl);
                elapsed = late;
                cooled = at;
                cooled_read = (_, omega arith, refl);
                sessions = ap (λ d. d.watch_sessions) c.frame;
                audited = c.audited;
                reported = ap spendable_of c.read;
                earned = c.spendable;
              })))))

-- A click from audited books: if it returns, they are audited, the viewer had an active session, whose
-- cooldown a reading of the clock had reached, and runs anew, for five seconds from a reading of it; and the balance,
-- which the result reports, has risen by one. If it fails, the tables are what they were.
pub record_click-Clicked :
    (user : Uuid) (channel : Name) (w : World)
    → IsAudited w.db
    → Runs (λ db'. db' ≡ w.db) w (record_click user channel) (Clicked user channel w)
unfolding record_click click_in_tx
record_click-Clicked user channel w audit = Runs-transaction _ refl (
    Runs-bind-found no_active_session (first_active user channel) _ tt (
      click_from user channel w.env w.tick w.db audit
        (find_first (watching user channel) w.db.watch_sessions) refl))
