-- ===== src/Raffles/Snapshots.antt =====
-- Scheduled snapshots (RunScheduledSnapshots, snapshotOne): raffles that are due are synchronised and
-- activated, one after another, and the failure of one stops no other.
use tachigo.Base.{
  ℕ, ◌+◌, suc, Bool, true, false, not, ◌&&◌, Option, none, some, List, [], ◌∷◌, ◌==◌, ltb, leb,
  if◌then◌else◌, select, sort_by, take, length,
}
use tachigo.Models.{
  Uuid, Time, RaffleSource, csv, twitch_api, Raffle, active, Result, ok, err,
  unsupported_snapshot_source,
}
use tachigo.Effect.{Db, M, sql, raise, catch, ◌>>=◌, ◌>>◌, pure}
use tachigo.Raffles.{is_draft, is_draft_of, update_raffles, with_status}
use tachigo.Raffles.Imports.{ImportResult, sync_from_twitch_api}

-- Ten minutes, in nanoseconds.
abbrev pub snapshot_window : ℕ
snapshot_window = 600000000000

abbrev pub scheduled_snapshot_batch_limit : ℕ
scheduled_snapshot_batch_limit = 500

abbrev pub is_csv : RaffleSource → Bool
is_csv csv = true
is_csv _ = false

abbrev pub is_by : Time → Option Time → Bool
is_by window none = false
is_by window (some t) = leb t window

abbrev pub is_due : Time → Raffle → Bool
is_due window r = is_draft r && (not (is_csv r.source) && is_by window r.scheduled_at)

abbrev scheduled_at_or_zero : Option Time → Time
scheduled_at_or_zero none = 0
scheduled_at_or_zero (some t) = t

-- `ORDER BY scheduled_at ASC, id ASC`
abbrev pub due_before : Raffle → Raffle → Bool
due_before r s =
    let a = scheduled_at_or_zero r.scheduled_at in
    let b = scheduled_at_or_zero s.scheduled_at in if a == b then leb r.id s.id else ltb a b

unfoldable pub due_raffles : Time → Db → List Raffle
due_raffles window db =
    take scheduled_snapshot_batch_limit (sort_by due_before (select (is_due window) db.raffles))

-- Only a raffle that is still a draft becomes active. `false` when the pages ran out.
abbrev pub promote : Uuid → Option ImportResult → M Bool
promote id none = pure false
promote id (some _) = sql (update_raffles (is_draft_of id) (with_status active)) >> pure true

abbrev pub snapshot_of : ℕ → Raffle → RaffleSource → M Bool
snapshot_of fuel r twitch_api = sync_from_twitch_api fuel r.id r.user_id >>= promote r.id
snapshot_of fuel r s = raise (unsupported_snapshot_source s)

unfoldable pub snapshot_one : ℕ → Raffle → M Bool
unfolding sync_from_twitch_api
snapshot_one fuel r = snapshot_of fuel r r.source

-- What a run reports to the metrics.
pub data SchedulerResult : Type 0 where
  success failure partial_failure : SchedulerResult

abbrev pub result_of : ℕ → ℕ → SchedulerResult
result_of total failed =
    if failed == 0 then success else if failed == total then failure else partial_failure

abbrev pub reported : ℕ → Option ℕ → Option SchedulerResult
reported total none = none
reported total (some failed) = some (result_of total failed)

abbrev pub more_failed : Result Bool → ℕ → ℕ
more_failed (ok _) failed = failed
more_failed (err _) failed = suc failed

abbrev pub has_ended : Result Bool → Bool
has_ended (ok b) = b
has_ended (err _) = true

-- The number of raffles that failed, and `none` when the pages of one ran out.
unfoldable pub snapshot_all : ℕ → List Raffle → ℕ → M (Option ℕ)
unfolding snapshot_one
snapshot_all fuel [] failed = pure (some failed)
snapshot_all fuel (r ∷ rest) failed = catch (snapshot_one fuel r) λ out.
    let others = snapshot_all fuel rest (more_failed out failed) in
    if has_ended out then others else pure none

unfoldable pub run_scheduled_snapshots : ℕ → Time → M (Option SchedulerResult)
unfolding due_raffles snapshot_all
run_scheduled_snapshots fuel at = do
  due ← sql λ db. ok (due_raffles (at + snapshot_window) db, db)
  failed ← snapshot_all fuel due 0
  pure (reported (length due) failed)
