-- ===== src/Watch/Rewards.antt =====
-- The settings that a heartbeat uses, the seconds that it counts, and its reward on a session.
use tachigo.Base.{
  ℕ, zero, suc, ◌+◌, ◌*◌, ◌/◌, ◌≤◌, ◌<◌, ◌≡◌, refl, sym, subst, ◌∙◌, true, false, arith, Bool-cases,
  inl, inr, ◌&&◌, ltb, if◌then◌else◌, Option, none, some, List, [], ◌∷◌, All, update_where,
}
use tachigo.Int.{
  ℤ, pos, negsuc, int64_half, ltb_ℤ, leb_ℤ, ◌+ℤ◌, ◌≤ℤ◌, ◌<ℤ◌, IsInt64, div64_pos, int_laws,
}
use tachigo.Models.{Uuid, Time, WatchSession, ChannelConfig, ok, err}
use tachigo.Watch.Opening.{has_session_id}
use tachigo.Watch.{effective_config, Reward, reward, advanced, capped_seconds}
use tachigo.Watch.Arithmetic.{whole_points, earned, reward_outcome, reward_remainder}

-- Seconds are rewarded only after they are watched.
pub record IsWatched (s : WatchSession) : Type 0 where
  pub started : pos 0 ≤ℤ s.rewarded_seconds
  pub owed : s.rewarded_seconds ≤ℤ s.accumulated_seconds
  pub fits : IsInt64 s.accumulated_seconds

-- Settings are bigint columns.
pub record IsTyped (c : ChannelConfig) : Type 0 where
  pub seconds_fit : IsInt64 c.seconds_per_point
  pub multiplier_fits : IsInt64 c.multiplier

-- Whatever the row says, the settings in force are positive int64s.
pub record InForce (c : ℤ × ℤ) : Type 0 where
  pub seconds : ℕ
  pub multiplier : ℕ
  pub eq : c ≡ (pos seconds, pos multiplier)
  pub seconds_pos : 0 < seconds
  pub multiplier_pos : 0 < multiplier
  pub seconds_fit : seconds < int64_half
  pub multiplier_fits : multiplier < int64_half

positive_setting :
    (d : ℤ) (k : ℕ)
    → d ≡ pos k
    → (0 < k) × (k < int64_half)
    → (n : ℤ) → IsInt64 n
    → (m : ℕ) × ((if leb_ℤ n (pos 0) then d else n) ≡ pos m) × (0 < m) × (m < int64_half)
positive_setting d k e b (pos zero) f = (k, e, b.0, b.1)
positive_setting d k e b (pos (suc n)) f = (suc n, ground arith, omega arith, f.0)
positive_setting d k e b (negsuc n) f = (k, ground arith, b.0, b.1)

-- For a row whose settings are int64s, or for none, the settings in force are positive int64s.
pub effective_config-InForce :
    (o : Option ChannelConfig)
    → ((c : ChannelConfig) → o ≡ some c → IsTyped c)
    → InForce (effective_config o)
effective_config-InForce none h = record {
  seconds = 60;
  multiplier = 1;
  eq = refl;
  seconds_pos = omega arith;
  multiplier_pos = omega arith;
  seconds_fit = omega arith;
  multiplier_fits = omega arith;
}
effective_config-InForce (some c) h =
    let typed = h c refl in
    let (s, es, ps, fs) =
      positive_setting (pos 60) 60 refl (omega arith) c.seconds_per_point typed.seconds_fit in
    let (m, em, pm, fm) =
      positive_setting (pos 1) 1 refl (omega arith) c.multiplier typed.multiplier_fits in
    record {
      seconds = s;
      multiplier = m;
      eq = λ i. (es i, em i);
      seconds_pos = ps;
      multiplier_pos = pm;
      seconds_fit = fs;
      multiplier_fits = fm;
    }

-- The seconds that a heartbeat may count.
pub capped_seconds_bounds :
    (delta : ℤ)
    → ltb_ℤ delta (pos 20000000000) ≡ false
    → (d : ℕ) × (capped_seconds delta ≡ pos d) × (20 ≤ d) × (d ≤ 30)
capped_seconds_bounds (pos n) h = elim (Bool-cases (ltb 30000000000 (n + 0))) [
  | inl long ↦
      (30, rw long (div64_pos 30000000000 1000000000 (omega arith)), omega arith, omega arith)
  | inr short ↦
      let small : n ≤ 30000000000 = ground arith in
      let large : 20000000000 ≤ n = ground arith in
      (n / 1000000000, rw short (div64_pos n 1000000000 (omega arith)), omega arith, omega arith)
]
capped_seconds_bounds (negsuc n) h = absurd (ground arith)

-- The rows that take the outcome of a heartbeat keep their seconds in order.
pub advance-IsWatched :
    (id : Uuid) (r : Reward) (at : Time) (ss : List WatchSession)
    → ((s : WatchSession) → IsWatched (advanced r at s))
    → All IsWatched ss
    → All IsWatched (update_where (has_session_id id) (advanced r at) ss)
advance-IsWatched id r at [] f h = tt
advance-IsWatched id r at (s ∷ ss) f h = elim (Bool-cases (has_session_id id s)) [
  | inl same ↦ rw same (f s, advance-IsWatched id r at ss f h.1)
  | inr other ↦ rw other (h.0, advance-IsWatched id r at ss f h.1)
]

-- The reward of a session in order: no point is lost, and what is left is short of one point.
pub record Rewarded (accumulated rewarded : ℤ) (delta seconds multiplier : ℕ) (r : Reward)
    : Type 0 where
  pub whole : ℕ
  pub points : r.points ≡ pos (whole * multiplier)
  pub watched : r.accumulated ≡ accumulated +ℤ pos delta
  pub paid : r.rewarded ≡ rewarded +ℤ pos (whole * seconds)
  pub started : pos 0 ≤ℤ r.rewarded
  pub owed : r.rewarded ≤ℤ r.accumulated
  pub short : r.accumulated <ℤ r.rewarded +ℤ pos seconds
  pub points_fit : IsInt64 r.points
  pub accumulated_fits : IsInt64 r.accumulated

-- If the arithmetic succeeds on a session in order, with positive settings and all numbers int64s:
-- the points are the multiplier for each whole point, the seconds paid for are those of the whole
-- points, no second is paid before it is watched, and fewer than one point's seconds stay unpaid.
pub reward-Rewarded :
    (accumulated rewarded : ℤ) (delta seconds multiplier : ℕ) (r : Reward)
    → pos 0 ≤ℤ rewarded
    → rewarded ≤ℤ accumulated
    → IsInt64 accumulated
    → delta < int64_half
    → 0 < seconds
    → seconds < int64_half
    → multiplier < int64_half
    → reward accumulated rewarded (pos delta) (pos seconds) (pos multiplier) ≡ ok r
    → Rewarded accumulated rewarded delta seconds multiplier r
reward-Rewarded (negsuc a) b delta seconds multiplier r st ow fa fd ps fs fm e =
    absurd (omega arith)
reward-Rewarded (pos a) (negsuc b) delta seconds multiplier r st ow fa fd ps fs fm e =
    absurd (omega arith)
reward-Rewarded (pos a) (pos b) delta seconds multiplier r st ow fa fd ps fs fm e =
    elim (Bool-cases (ltb (a + delta) int64_half && ltb (n * multiplier) int64_half)) [
      | inl counts ↦
          let same : ok (earned a b delta seconds multiplier) ≡ ok r =
            sym (rw counts at outcome) ∙ e in
          let exact : earned a b delta seconds multiplier ≡ r = ground (arith, same) in
          subst (Rewarded (pos a) (pos b) delta seconds multiplier) exact (in_range counts)
      | inr over ↦ cc (sym (rw over at outcome) ∙ e)
    ]
  where
    n : ℕ
    n = whole_points a b delta seconds

    outcome : reward (pos a) (pos b) (pos delta) (pos seconds) (pos multiplier) ≡ (
        if ltb (a + delta) int64_half && ltb (n * multiplier) int64_half
        then ok (earned a b delta seconds multiplier)
        else err tachigo.Models.points_delta_overflow)
    outcome = reward_outcome a b delta seconds multiplier (omega arith) fa.0 fd ps fs fm

    rest : (b + n * seconds ≤ a + delta) × (a + delta < b + n * seconds + seconds)
    rest = reward_remainder a b delta seconds multiplier (omega arith) fa.0 fd ps fs fm

    in_range :
        (ltb (a + delta) int64_half && ltb (n * multiplier) int64_half) ≡ true
        → Rewarded (pos a) (pos b) delta seconds multiplier (earned a b delta seconds multiplier)
    in_range counts = record {
      whole = n;
      points = refl;
      watched = omega int_laws;
      paid = omega int_laws;
      started = omega arith;
      owed = omega (arith, rest);
      short = omega (int_laws, rest);
      points_fit = (ground (arith, counts), omega arith);
      accumulated_fits = (ground (arith, counts), omega arith);
    }
