-- ===== src/Airdrop/Viewers.antt =====
-- The viewers among whom an amount is shared, as the sessions of a channel give them.
use tachigo.Base.{
  ℕ, ◌≡◌, refl, ap, ◌+◌, ◌*◌, ◌≤◌, ◌<◌, ◌==◌, ◌&&◌, Bool, List, [], ◌∷◌, map, arith, All, select,
  select-All, sort_by, sort-All, sum_by, sort-sum, sort-count, count_where, if◌then◌else◌,
}
use tachigo.Int.{ℤ, pos_part, neg_part, int64_half}
use tachigo.Models.{Uuid, Time, Name, WatchSession}
use tachigo.Airdrop.Reading.{is_fresh, watched_before, viewer_of, viewers_of}
use tachigo.Airdrop.Shares.{seconds, HasWatched}
use tachigo.Airdrop.Parts.{is_user}

-- Sessions in a channel that an amount can be shared among: no time is negative, and the weighted
-- amounts fit an int64.
abbrev pub channel_seconds : Name → WatchSession → ℕ
channel_seconds channel s = if s.channel_id == channel then pos_part s.accumulated_seconds else 0

pub record CanShare (channel : Name) (amount : ℤ) (ss : List WatchSession) : Type 0 where
  pub watched : All (λ s. neg_part s.accumulated_seconds ≡ 0) ss
  pub amount_fits : pos_part amount + 1 < int64_half
  pub products_fit : pos_part amount * sum_by (channel_seconds channel) ss < int64_half

-- The sessions of a user in a channel that are active.
abbrev pub watches : Uuid → Name → WatchSession → Bool
watches u channel s = s.user_id == u && s.channel_id == channel && s.is_active

module _ (channel : Name) (at : Time) where
  select-seconds :
      (ss : List WatchSession)
      → sum_by (λ s. pos_part s.accumulated_seconds) (select (is_fresh channel at) ss)
        ≤ sum_by (channel_seconds channel) ss
  select-seconds [] = omega arith
  select-seconds (s ∷ ss) = ground (arith, select-seconds ss)

  map-seconds :
      (ss : List WatchSession)
      → sum_by seconds (map viewer_of ss) ≡ sum_by (λ s. pos_part s.accumulated_seconds) ss
  map-seconds [] = refl
  map-seconds (s ∷ ss) = ap (λ n. pos_part s.accumulated_seconds + n) (map-seconds ss)

  pub viewers_of-seconds :
      (ss : List WatchSession)
      → sum_by seconds (viewers_of channel at ss) ≤ sum_by (channel_seconds channel) ss
  viewers_of-seconds ss = omega (
    arith,
    map-seconds (sort_by watched_before (select (is_fresh channel at) ss)),
    sort-sum (λ s. pos_part s.accumulated_seconds) watched_before (select (is_fresh channel at) ss),
    select-seconds ss,
  )

  map-HasWatched :
      (ss : List WatchSession)
      → All (λ s. neg_part s.accumulated_seconds ≡ 0) ss
      → All HasWatched (map viewer_of ss)
  map-HasWatched [] h = tt
  map-HasWatched (s ∷ ss) h = (h.0, map-HasWatched ss h.1)

  pub viewers_of-HasWatched :
      (ss : List WatchSession)
      → All (λ s. neg_part s.accumulated_seconds ≡ 0) ss
      → All HasWatched (viewers_of channel at ss)
  viewers_of-HasWatched ss h = map-HasWatched _ (
      sort-All (λ s. neg_part s.accumulated_seconds ≡ 0) watched_before _
        (select-All (λ s. neg_part s.accumulated_seconds ≡ 0) (is_fresh channel at) ss h))

  select-count :
      (u : Uuid) (ss : List WatchSession)
      → count_where (λ s. s.user_id == u) (select (is_fresh channel at) ss)
        ≤ count_where (watches u channel) ss
  select-count u [] = omega arith
  select-count u (s ∷ ss) = ground (arith, select-count u ss)

  map-count :
      (u : Uuid) (ss : List WatchSession)
      → count_where (is_user u) (map viewer_of ss) ≡ count_where (λ s. s.user_id == u) ss
  map-count u [] = refl
  map-count u (s ∷ ss) = ap (λ n. (if s.user_id == u then 1 else 0) + n) (map-count u ss)

  pub viewers_of-count :
      (u : Uuid) (ss : List WatchSession)
      → count_where (is_user u) (viewers_of channel at ss) ≤ count_where (watches u channel) ss
  viewers_of-count u ss = omega (
    arith,
    map-count u (sort_by watched_before (select (is_fresh channel at) ss)),
    sort-count (λ s. s.user_id == u) watched_before (select (is_fresh channel at) ss),
    select-count u ss,
  )
