-- ===== src/Watch/Arithmetic.antt =====
-- The arithmetic of a heartbeat: what is earned, and what is left for the next one.
use tachigo.Base.{
  ℕ, zero, suc, ◌+◌, ◌-◌, ◌*◌, ◌/◌, ◌≤◌, ◌<◌, ◌≡◌, ◌∙◌, true, false, arith, Bool-cases, inl, inr,
  ◌&&◌, ltb, if◌then◌else◌,
}
use tachigo.Int.{pos, int64_half, add64_pos, sub64_pos, mul64_pos, div64_pos, mul64}
use tachigo.Models.{ok, err, points_delta_overflow}
use tachigo.Watch.{Reward, reward}
use native.Mathlib.Nat.{div-mul-le_self, lt-div-mul-add, le-div_iff_mul-le, mul_comm}

-- The test `n > 0 && m > math.MaxInt64/n` tells whether the product passes the last int64.
overflow_test :
    (n m : ℕ)
    → (ltb 0 n && ltb (9223372036854775807 / n) m)
      ≡ (if ltb (n * m) int64_half then false else true)
overflow_test zero m = ground arith
overflow_test (suc n) m =
    let fits_iff = le-div_iff_mul-le {k = suc n} {x = m} {y = 9223372036854775807} (omega arith) in
    let swapped = mul_comm m (suc n) in ground (arith, fits_iff.0, fits_iff.1, swapped)

-- The whole points in the seconds that are not yet rewarded.
abbrev pub whole_points : ℕ → ℕ → ℕ → ℕ → ℕ
whole_points accumulated rewarded delta seconds = (accumulated + delta - rewarded) / seconds

abbrev pub earned : ℕ → ℕ → ℕ → ℕ → ℕ → Reward
earned accumulated rewarded delta seconds multiplier =
    let base = whole_points accumulated rewarded delta seconds in
    record {
      accumulated = pos (accumulated + delta);
      rewarded = pos (rewarded + base * seconds);
      points = pos (base * multiplier);
    }

module _ (accumulated rewarded delta seconds multiplier : ℕ) (owed : rewarded ≤ accumulated)
    (a_fits : accumulated < int64_half) (d_fits : delta < int64_half) (s_pos : 0 < seconds)
    (s_fits : seconds < int64_half) (m_fits : multiplier < int64_half) where
  abbrev base : ℕ
  base = whole_points accumulated rewarded delta seconds

  abbrev all_earned : Reward
  all_earned = earned accumulated rewarded delta seconds multiplier

  reward_runs :
      accumulated + delta < int64_half
      → reward (pos accumulated) (pos rewarded) (pos delta) (pos seconds) (pos multiplier) ≡ (
          if ltb (base * multiplier) int64_half
          then ok (record {
            accumulated = pos (accumulated + delta);
            rewarded = pos (rewarded + base * seconds);
            points = mul64 (pos base) (pos multiplier);
          })
          else err points_delta_overflow)
  unfolding reward
  reward_runs fits =
      let whole = div-mul-le_self (accumulated + delta - rewarded) seconds in
      rw
        (
          add64_pos accumulated delta fits,
          sub64_pos 9223372036854775807 delta (omega arith) (omega arith),
          sub64_pos (accumulated + delta) rewarded (omega arith) fits,
          div64_pos (accumulated + delta - rewarded) seconds (omega arith),
          div64_pos 9223372036854775807 base (omega arith),
          mul64_pos base seconds (omega (arith, whole)),
          add64_pos rewarded (base * seconds) (omega (arith, whole)),
        )
        (ground (arith, overflow_test base multiplier))

  reward_overflows :
      int64_half ≤ accumulated + delta
      → reward (pos accumulated) (pos rewarded) (pos delta) (pos seconds) (pos multiplier)
        ≡ err points_delta_overflow
  unfolding reward
  reward_overflows past =
      rw (sub64_pos 9223372036854775807 delta (omega arith) (omega arith)) (ground arith)

  -- For a session whose rewarded seconds are at most its accumulated ones, and settings that are
  -- positive: the heartbeat earns the multiplier for each whole `seconds` in the seconds not yet
  -- rewarded, exactly, if the seconds and the points fit an int64, and overflows otherwise.
  pub reward_outcome :
      reward (pos accumulated) (pos rewarded) (pos delta) (pos seconds) (pos multiplier) ≡ (
        if ltb (accumulated + delta) int64_half && ltb (base * multiplier) int64_half
        then ok (earned accumulated rewarded delta seconds multiplier)
        else err points_delta_overflow)
  reward_outcome = elim (Bool-cases (ltb (accumulated + delta) int64_half)) [
    | inl fits ↦ rw fits (reward_runs (ground arith) ∙ points_exact)
    | inr past ↦ rw past (reward_overflows (ground arith))
  ]
    where
      points_exact :
          (if ltb (base * multiplier) int64_half
            then ok (record all_earned { points = mul64 (pos base) (pos multiplier) })
            else err points_delta_overflow)
          ≡ (if ltb (base * multiplier) int64_half
              then ok all_earned
              else err points_delta_overflow)
      points_exact = elim (Bool-cases (ltb (base * multiplier) int64_half)) [
        | inl small ↦ rw (small, mul64_pos base multiplier (ground arith))
        | inr large ↦ rw large
      ]

  -- Fewer seconds than one point takes stay unrewarded, and none is rewarded before it is watched.
  pub reward_remainder :
      (rewarded + base * seconds ≤ accumulated + delta)
      × (accumulated + delta < rewarded + base * seconds + seconds)
  reward_remainder =
      let whole = div-mul-le_self (accumulated + delta - rewarded) seconds in
      let rest = lt-div-mul-add {a = accumulated + delta - rewarded} s_pos in
      omega (arith, whole, rest)
