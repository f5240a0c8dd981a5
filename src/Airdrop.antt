-- ===== src/Airdrop.antt =====
-- services/api/internal/services/airdrop_service.go: points of a streamer shared among the viewers
-- of the moment, within a daily limit. The pairs of a method and its `…Context` form are one
-- definition.
pub mod Ranks
pub mod Shares
pub mod Parts
pub mod Distribution
pub mod Credits
pub mod Viewers
pub mod Execution
pub mod Reading
use Prim.Native.String.{count}
use tachigo.Base.{
  ℕ, zero, suc, String, Bool, true, false, not, ◌&&◌, ◌||◌, Option, none, some, List, [], ◌∷◌, ◌+◌,
  ◌-◌, ◌*◌, ◌/◌, ◌==◌, ltb, leb, if◌then◌else◌, find_first, select, sort_by, length, map,
}
use tachigo.Int.{ℤ, pos, eq_ℤ, ltb_ℤ, leb_ℤ, ◌+ℤ◌, add64, sub64, mul64, div64, rem64, pos_part}
use tachigo.Models.{
  Uuid, Time, Name, TxSource, PointsLedger, PointsTransaction, WatchSession, ChannelConfig, Result,
  Error, ok, err, wrapped, invalid_points_amount, serialization_failure, index_out_of_range,
  no_active_viewers, daily_airdrop_exceeded,
}
use tachigo.Effect.{
  Db, M, pure, raise, sql, transaction, now, guard, catch, not_found_to, lift, ◌>>=◌, ◌>>◌,
}
use tachigo.Ledger.{has_id}
use tachigo.Watch.Opening.{stale_threshold}
use tachigo.Durations.{scanned}
use tachigo.ChannelConfigs.{first_config}
use tachigo.Points.{PointsCreditMeta, no_meta, add_points_with_meta_at}
use tachigo.Airdrop.Reading.{
  AirdropRequest, AirdropResult, AirdropViewer, active_viewers_in_tx, daily_limit_in_tx,
  max_airdrop_tx_retries, today_total,
}

-- The seconds of the viewers who have any, added on int64.
abbrev pub weight : AirdropViewer → ℤ
weight v = if ltb_ℤ (pos 0) v.accumulated_seconds then v.accumulated_seconds else pos 0

unfoldable pub total_accumulated : ℤ → List AirdropViewer → ℤ
total_accumulated total [] = total
total_accumulated total (v ∷ vs) =
    total_accumulated
      (if ltb_ℤ (pos 0) v.accumulated_seconds then add64 total v.accumulated_seconds else total) vs

abbrev pub with_share : ℤ → AirdropViewer → AirdropViewer
with_share n v = record v { share = n }

-- Nobody has watched: equal shares, and one more for the first viewers.
unfoldable pub share_equally : ℤ → ℤ → ℕ → List AirdropViewer → List AirdropViewer
share_equally base remainder i [] = []
share_equally base remainder i (v ∷ vs) =
    with_share (if ltb_ℤ (pos i) remainder then add64 base (pos 1) else base) v
    ∷ share_equally base remainder (suc i) vs

-- One viewer's part of the amount by weight.
abbrev pub weigh : ℤ → ℤ → AirdropViewer → AirdropViewer
weigh amount total v =
    let weighted = mul64 amount v.accumulated_seconds in
    record v { share = div64 weighted total; remainder = rem64 weighted total }

-- What is left of the amount after the parts by weight.
unfoldable pub left_over : ℤ → List AirdropViewer → ℤ
left_over remaining [] = remaining
left_over remaining (v ∷ vs) = left_over (sub64 remaining v.share) vs

-- The `less` of the stable sort.
abbrev pub less : AirdropViewer → AirdropViewer → Bool
less v u =
    if eq_ℤ v.remainder u.remainder
    then (if eq_ℤ v.accumulated_seconds u.accumulated_seconds
        then ltb v.user_id u.user_id
        else ltb_ℤ u.accumulated_seconds v.accumulated_seconds)
    else ltb_ℤ u.remainder v.remainder

abbrev pub prepend : AirdropViewer → Result (List AirdropViewer) → Result (List AirdropViewer)
prepend v (ok vs) = ok (v ∷ vs)
prepend v (err e) = err e

-- A stable sort leaves a viewer before those who are not less.
abbrev pub stays_before : AirdropViewer → AirdropViewer → Bool
stays_before v u = not (less u v)

-- `for i := 0; i < int(remaining); i++ { viewers[i].Share++ }`: past the end of the slice the code
-- panics.
unfoldable pub bump : ℕ → List AirdropViewer → Result (List AirdropViewer)
bump zero vs = ok vs
bump (suc n) [] = err index_out_of_range
bump (suc n) (v ∷ vs) = prepend (with_share (add64 v.share (pos 1)) v) (bump n vs)

abbrev pub by_weight : ℤ → ℤ → List AirdropViewer → Result (List AirdropViewer)
by_weight amount total vs =
    let weighed = map (weigh amount total) vs in
    bump (pos_part (left_over amount weighed)) (sort_by stays_before weighed)

unfoldable pub distribute_airdrop : List AirdropViewer → ℤ → Result (List AirdropViewer)
distribute_airdrop vs amount =
    let total = total_accumulated (pos 0) vs in
    if leb_ℤ amount (pos 0) || length vs == 0
    then ok vs
    else (if eq_ℤ total (pos 0)
        then ok
            (share_equally (div64 amount (pos (length vs))) (rem64 amount (pos (length vs))) 0 vs)
        else by_weight amount total vs)

abbrev pub no_result : AirdropResult
no_result = record { affected_count = pos 0; distribution = [] }

abbrev pub with_recipient : AirdropViewer → AirdropResult → AirdropResult
with_recipient v r = record {
  affected_count = add64 (pos 1) r.affected_count;
  distribution = (record { user_id = v.user_id; allocated_points = v.share }) ∷ r.distribution;
}

-- The loop of credits: a viewer without a share is passed over.
unfoldable pub credit_viewers :
    Name → PointsCreditMeta → Time → List AirdropViewer → M AirdropResult
credit_viewers channel meta at [] = pure no_result
credit_viewers channel meta at (v ∷ vs) =
    if leb_ℤ v.share (pos 0)
    then credit_viewers channel meta at vs
    else (add_points_with_meta_at at v.user_id channel TxSource.airdrop v.share meta >>= λ _.
        credit_viewers channel meta at vs >>= λ r. pure (with_recipient v r))

-- `todayTotal > limit || req.Amount > limit-todayTotal` is refused.
abbrev pub is_over : ℤ → ℤ → ℤ → Bool
is_over limit total amount = ltb_ℤ limit total || ltb_ℤ (sub64 limit total) amount

abbrev pub not_negative : ℤ → ℤ
not_negative n = if ltb_ℤ n (pos 0) then pos 0 else n

-- The limit is read and tested, and the shares are credited.
pub airdrop_within :
    AirdropRequest → PointsCreditMeta → Time → List AirdropViewer → ℤ → M AirdropResult
unfolding today_total
airdrop_within req meta at viewers limit = do
  total ← today_total req.channel_id at
  guard (not (is_over limit total req.amount))
      (daily_airdrop_exceeded limit total req.amount (not_negative (sub64 limit total)))
  shared ← lift (distribute_airdrop viewers req.amount)
  credit_viewers req.channel_id meta at shared

pub airdrop_among : AirdropRequest → PointsCreditMeta → Time → List AirdropViewer → M AirdropResult
unfolding daily_limit_in_tx airdrop_within
airdrop_among req meta at viewers = do
  guard (not (length viewers == 0)) no_active_viewers
  limit ← daily_limit_in_tx req.channel_id
  airdrop_within req meta at viewers limit

-- The body of the transaction of one attempt, anchored at `at`.
pub airdrop_in_tx : AirdropRequest → PointsCreditMeta → Time → M AirdropResult
unfolding active_viewers_in_tx airdrop_among
airdrop_in_tx req meta at = active_viewers_in_tx req.channel_id >>= airdrop_among req meta at

-- `isRetryableAirdropTxError`: PostgreSQL's serialization failure and deadlock, and SQLite's locks,
-- are one error of the model, seen through those that wrap it.
unfoldable pub is_retryable_airdrop_tx_error : Error → Bool
is_retryable_airdrop_tx_error serialization_failure = true
is_retryable_airdrop_tx_error (wrapped e f) = is_retryable_airdrop_tx_error e
is_retryable_airdrop_tx_error _ = false

abbrev pub meta_of : String → PointsCreditMeta
meta_of note = if count note == 0 then no_meta else record no_meta { note = some note }

-- A retryable failure leads to the next attempt, any other is returned.
abbrev pub after_attempt : (Error → M AirdropResult) → Result AirdropResult → M AirdropResult
after_attempt again (ok r) = pure r
after_attempt again (err e) = if is_retryable_airdrop_tx_error e then again e else raise e

-- An attempt, anchored at a fresh reading of the clock.
pub attempt_once : AirdropRequest → PointsCreditMeta → (Error → M AirdropResult) → M AirdropResult
unfolding airdrop_in_tx
attempt_once req meta again = do
  at ← now
  catch (transaction (airdrop_in_tx req meta at)) (after_attempt again)

-- An attempt that may be followed by `n` more; the last error is returned.
unfoldable pub attempt_airdrop : AirdropRequest → PointsCreditMeta → ℕ → M AirdropResult
unfolding attempt_once
attempt_airdrop req meta zero = attempt_once req meta raise
attempt_airdrop req meta (suc n) = attempt_once req meta (λ _. attempt_airdrop req meta n)

pub execute : AirdropRequest → M AirdropResult
unfolding attempt_airdrop
execute req = do
  guard (not (leb_ℤ req.amount (pos 0))) invalid_points_amount
  attempt_airdrop req (meta_of req.note) (max_airdrop_tx_retries - 1)
