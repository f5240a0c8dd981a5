-- ===== src/Airdrop/Execution.antt =====
-- An attempt of an airdrop, and the whole of `Execute`.
use tachigo.Base.{
  ℕ, zero, suc, ◌≡◌, refl, sym, ◌∙◌, ap, subst, ◌-◌, ◌*◌, ◌≤◌, ◌<◌, ◌==◌, not, true, false, List,
  length, arith, All, All-map, sum_by, count_where, find_first,
}
use tachigo.Int.{
  ℤ, pos, ◌+ℤ◌, ◌-ℤ◌, ◌≤ℤ◌, ◌<ℤ◌, pos_part, int64_half, fits_int64, sub64, wrap64, one_part,
  wrap64_le, int_laws,
}
use tachigo.Models.{Uuid, Time, Name, Error, ok}
use tachigo.Effect.{Db, M, raise}
use tachigo.Effect.Ensures.{
  Gives, Gives-if, Ensures, Ensures-pure, Ensures-sql, Ensures-bind, Ensures-bind-now,
  Ensures-bind-sql, Ensures-bind-lift, Ensures-guard, Ensures-weaken,
}
use tachigo.Effect.Safe.{
  Safe, Safe-pure, Safe-raise, Safe-if, Safe-guard, Safe-catch, Safe-transaction, Safe-bind-clock,
}
use tachigo.Ledger.Lookups.{Ensures-bind-lookup}
use tachigo.Ledger.Audit.{IsAudited}
use tachigo.Ledger.Awards.{OnlyBooks, ledger_of, spendable_of}
use tachigo.ChannelConfigs.{of_channel}
use tachigo.Durations.{scanned}
use native.Mathlib.Nat.{mul-le-mul_left}
use tachigo.Points.{PointsCreditMeta}
use tachigo.Airdrop.Reading.{
  AirdropViewer, AirdropRequest, AirdropResult, viewers_of, active_viewers_in_tx, limit_of,
  daily_limit_in_tx, today_total, max_airdrop_tx_retries,
}
use tachigo.Airdrop.{
  distribute_airdrop, is_over, credit_viewers, airdrop_in_tx, airdrop_among, airdrop_within,
  attempt_once, attempt_airdrop, is_retryable_airdrop_tx_error, execute, meta_of,
}
use tachigo.Airdrop.Viewers.{
  CanShare, watches, viewers_of-seconds, viewers_of-HasWatched, viewers_of-count,
}
use tachigo.Airdrop.Shares.{seconds, points}
use tachigo.Airdrop.Distribution.{Shared, distribute_airdrop-Shared}
use tachigo.Airdrop.Credits.{
  allocated, is_recipient, allocated_to, today_of, Dropped, credit_viewers-Dropped,
}

-- What an airdrop of an amount in a channel has done: the whole amount is with viewers of the
-- channel, no viewer more often than there are active sessions, each recipient's balance has risen
-- by what the answer says, and the books are audited.
pub record Airdropped (channel : Name) (amount : ℤ) (db : Db) (r : AirdropResult) (db' : Db)
    : Type 0 where
  pub audited : IsAudited db'
  pub whole : pos (sum_by allocated r.distribution) ≡ amount
  pub above_zero : All (λ p. pos 0 <ℤ p.allocated_points) r.distribution
  pub counted : r.affected_count ≡ pos (length r.distribution)
  pub watching :
      (u : Uuid)
      → count_where (is_recipient u) r.distribution
        ≤ count_where (watches u channel) db.watch_sessions
  pub balances :
      (u : Uuid)
      → spendable_of (ledger_of u channel db')
        ≡ spendable_of (ledger_of u channel db) +ℤ pos (allocated_to u r.distribution)
  pub frame : OnlyBooks db db'

-- The airdrops of the UTC day have risen by the amount and are within the channel's limit.
pub record WithinLimit (channel : Name) (amount : ℤ) (at : Time) (db db' : Db) : Type 0 where
  pub today : today_of channel at db' ≡ today_of channel at db +ℤ amount
  pub limited :
      today_of channel at db' ≤ℤ limit_of (find_first (of_channel channel) db.channel_configs)

-- What passes the test of the limit.
not_over :
    (limit total amount : ℤ) → not (is_over limit total amount) ≡ true → total +ℤ amount ≤ℤ limit
unfolding sub64
not_over limit total amount h =
    let below : total ≤ℤ limit = ground (arith, h) in
    let room : amount ≤ℤ wrap64 (limit -ℤ total) = ground (arith, h) in
    omega (
      int_laws,
      below,
      room,
      wrap64_le (limit -ℤ total) (omega (int_laws, below, one_part (limit -ℤ total))),
    )

scanned-Gives : (n : ℤ) (db : Db) (Q : ℤ → Db → Type 0) → Q n db → Gives (scanned n db) Q
scanned-Gives n db Q q = Gives-if Q (fits_int64 n) _ _ (λ _. q) (λ _. tt)

module _ (req : AirdropRequest) (meta : PointsCreditMeta) (at : Time) (db : Db)
    (audit : IsAudited db) (shareable : CanShare req.channel_id req.amount db.watch_sessions)
    (above : pos 0 <ℤ req.amount) where
  abbrev Done : AirdropResult → Db → Type 0
  Done r db' =
      Airdropped req.channel_id req.amount db r db'
      × WithinLimit req.channel_id req.amount at db db'

  abbrev limit : ℤ
  limit = limit_of (find_first (of_channel req.channel_id) db.channel_configs)

  abbrev viewers : Time → List AirdropViewer
  viewers seen = viewers_of req.channel_id seen db.watch_sessions

  module _ (set : (at == 0) ≡ false) where
    finish :
        (seen : Time) (out : List AirdropViewer)
        → Shared (pos_part req.amount) (viewers seen) out
        → not (is_over limit (today_of req.channel_id at db) req.amount) ≡ true
        → (r : AirdropResult) (db' : Db) → Dropped req.channel_id meta at set out db r db'
        → Done r db'
    finish seen out shared passes r db' d =
        let whole : pos (sum_by points out) ≡ req.amount =
          omega (int_laws, shared.whole, above, one_part req.amount) in
        let today = d.today ∙ ap (λ n. today_of req.channel_id at db +ℤ n) whole in
        (
          record {
            audited = d.audited;
            whole = ap pos d.given ∙ whole;
            above_zero = d.above_zero;
            counted = d.counted;
            watching = λ u. omega (
              arith,
              d.times u,
              shared.kept u,
              viewers_of-count req.channel_id seen u db.watch_sessions,
            );
            balances = λ u.
                d.balances u
                ∙ ap (λ n. spendable_of (ledger_of u req.channel_id db) +ℤ pos n) (sym (d.named u));
            frame = d.frame;
          },
          record {
            today = today;
            limited = rw today (not_over limit (today_of req.channel_id at db) req.amount passes);
          },
        )

    credit-step :
        (seen : Time) (out : List AirdropViewer)
        → not (is_over limit (today_of req.channel_id at db) req.amount) ≡ true
        → not (length (viewers seen) == 0) ≡ true
        → distribute_airdrop (viewers seen) req.amount ≡ ok out
        → Ensures db (credit_viewers req.channel_id meta at out) Done
    credit-step seen out passes some_viewer e =
        let a = pos_part req.amount in
        let natural : req.amount ≡ pos a = omega (int_laws, above, one_part req.amount) in
        let fits : a * sum_by seconds (viewers seen) < int64_half = omega (
          arith,
          mul-le-mul_left a (viewers_of-seconds req.channel_id seen db.watch_sessions),
          shareable.products_fit,
        ) in
        let (given, e', shared) =
          distribute_airdrop-Shared a (viewers seen) (ground (arith, some_viewer))
            (viewers_of-HasWatched req.channel_id seen db.watch_sessions shareable.watched)
            shareable.amount_fits fits (omega (arith, above)) in
        let same : given ≡ out = cc (e, e', natural) in
        let shared' : Shared a (viewers seen) out = subst (Shared a (viewers seen)) same shared in
        Ensures-weaken (Dropped req.channel_id meta at set out db)
          (credit_viewers-Dropped req.channel_id meta at set out db
            (All-map out (λ v f. f.natural) shared'.fair)
            (omega (arith, shared'.whole, shareable.amount_fits)) audit)
          (finish seen out shared' passes)

    within-Done :
        (seen : Time)
        → not (length (viewers seen) == 0) ≡ true
        → Ensures db (airdrop_within req meta at (viewers seen) limit) Done
    unfolding airdrop_within today_total
    within-Done seen some_viewer = Ensures-bind-sql _ _ (
        scanned-Gives (today_of req.channel_id at db) db _ (
          Ensures-guard _ _ _
            λ passes. Ensures-bind-lift _ _ λ out e. credit-step seen out passes some_viewer e))

    among-Done : (seen : Time) → Ensures db (airdrop_among req meta at (viewers seen)) Done
    unfolding airdrop_among daily_limit_in_tx
    among-Done seen = Ensures-guard _ _ _ λ some_viewer.
        Ensures-bind (λ l db'. (l ≡ limit) × (db' ≡ db)) _ _
          (Ensures-bind-lookup (find_first (of_channel req.channel_id) db.channel_configs) _ _ refl
            (Ensures-pure _ (refl, refl)))
          λ l db' e. rw (e.0, e.1) (within-Done seen some_viewer)

    airdrop_in_tx-Ensures : Ensures db (airdrop_in_tx req meta at) Done
    unfolding airdrop_in_tx active_viewers_in_tx
    airdrop_in_tx-Ensures =
        Ensures-bind (λ vs db'. (seen : Time) × (vs ≡ viewers seen) × (db' ≡ db)) _ _
          (Ensures-bind-now _ λ seen. Ensures-sql _ (seen, refl, refl))
          λ vs db' e. rw (e.1, e.2) (among-Done e.0)

-- What a run of `Execute` that returns has done.
pub record Executed (req : AirdropRequest) (db : Db) (r : AirdropResult) (db' : Db) : Type 0 where
  pub at : Time
  pub airdropped : Airdropped req.channel_id req.amount db r db'
  pub within : WithinLimit req.channel_id req.amount at db db'

module _ (req : AirdropRequest) (db : Db) (audit : IsAudited db)
    (shareable : CanShare req.channel_id req.amount db.watch_sessions) where
  attempt_once-Executed :
      (meta : PointsCreditMeta) (again : Error → M AirdropResult)
      → pos 0 <ℤ req.amount
      → ((e : Error) → Safe (λ db'. db' ≡ db) db (again e) (Executed req db))
      → Safe (λ db'. db' ≡ db) db (attempt_once req meta again) (Executed req db)
  unfolding attempt_once
  attempt_once-Executed meta again above next = Safe-bind-clock _ λ at set.
      Safe-catch (λ db'. db' ≡ db) (Executed req db) _ _
        (Safe-transaction _ refl (
          Ensures-weaken (Done req meta at db audit shareable above)
            (airdrop_in_tx-Ensures req meta at db audit shareable above set)
            (λ r db' d. record { at = at; airdropped = d.0; within = d.1 })))
        (λ r db' d. Safe-pure r d)
        (λ e db' same.
          Safe-if (is_retryable_airdrop_tx_error e) (again e) (raise e) (λ _. rw same (next e))
            (λ _. Safe-raise e same))

  attempts-Executed :
      (meta : PointsCreditMeta)
      → pos 0 <ℤ req.amount
      → (n : ℕ) → Safe (λ db'. db' ≡ db) db (attempt_airdrop req meta n) (Executed req db)
  unfolding attempt_airdrop
  attempts-Executed meta above zero =
      attempt_once-Executed meta raise above (λ e. Safe-raise e refl)
  attempts-Executed meta above (suc n) =
      attempt_once-Executed meta (λ _. attempt_airdrop req meta n) above
        (λ _. attempts-Executed meta above n)

  -- An airdrop of an amount that can be shared among the sessions of the channel, from audited
  -- books: if it returns, in whichever attempt, the recipients have exactly the amount between them
  -- and each of them a positive part, nobody is named more often than they have active sessions in
  -- the channel, every user's balance in the channel has risen by what the answer gives them, the
  -- day's airdrops have risen by the amount and are within the channel's limit, and the books are
  -- audited; if it fails, the tables are what they were.
  pub execute-Executed : Safe (λ db'. db' ≡ db) db (execute req) (Executed req db)
  unfolding execute
  execute-Executed = Safe-guard _ _ _ refl λ above.
      attempts-Executed (meta_of req.note) (ground (arith, above)) (max_airdrop_tx_retries - 1)
