-- ===== src/Airdrop/Shares.antt =====
-- The parts by weight: what they sum to, and how far each is from the exact one.
use tachigo.Base.{
  ℕ, ◌≡◌, ◌∙◌, ap, ◌+◌, ◌-◌, ◌*◌, ◌/◌, ◌%◌, ◌≤◌, ◌<◌, List, [], ◌∷◌, map, arith, All, sum_by,
  if◌then◌else◌,
}
use tachigo.Int.{
  ℤ, pos, negsuc, pos_part, neg_part, ltb_ℤ, int64_half, add64, add64_pos, sub64_pos, mul64_pos,
  div64_pos, rem64_pos,
}
use tachigo.Airdrop.Reading.{AirdropViewer}
use tachigo.Airdrop.{total_accumulated, weigh, left_over}
use native.Mathlib.Nat.{mul-div-le}

-- Seconds and shares as natural numbers.
abbrev pub seconds : AirdropViewer → ℕ
seconds v = pos_part v.accumulated_seconds

abbrev pub points : AirdropViewer → ℕ
points v = pos_part v.share

-- Nobody has watched for a negative time.
abbrev pub HasWatched : AirdropViewer → Type 0
HasWatched v = neg_part v.accumulated_seconds ≡ 0

abbrev pub IsNatural : AirdropViewer → Type 0
IsNatural v = neg_part v.share ≡ 0

pub pos_of_part : (a : ℤ) → neg_part a ≡ 0 → a ≡ pos (pos_part a)
pos_of_part a h = ground arith

counted :
    (t : ℕ) (w : ℤ)
    → neg_part w ≡ 0
    → t + pos_part w < int64_half
    → (if ltb_ℤ (pos 0) w then add64 (pos t) w else pos t) ≡ pos (t + pos_part w)
counted t (pos n) h fits = ground (arith, add64_pos t n fits)
counted t (negsuc n) h fits = ground arith

pub total_accumulated-sum :
    (t : ℕ) (vs : List AirdropViewer)
    → All HasWatched vs
    → t + sum_by seconds vs < int64_half
    → total_accumulated (pos t) vs ≡ pos (t + sum_by seconds vs)
unfolding total_accumulated
total_accumulated-sum t [] h fits = ap pos (omega arith)
total_accumulated-sum t (v ∷ vs) h fits =
    rw (counted t v.accumulated_seconds h.0 (omega (arith, fits)))
      (total_accumulated-sum (t + seconds v) vs h.1 (omega (arith, fits)) ∙ ap pos (omega arith))

pub weigh-remainder :
    (a t : ℕ) (v : AirdropViewer)
    → HasWatched v
    → a * seconds v < int64_half
    → (weigh (pos a) (pos t) v).remainder ≡ pos (a * seconds v % t)
weigh-remainder a t v h fits =
    rw (pos_of_part v.accumulated_seconds h, mul64_pos a (seconds v) fits)
      (rem64_pos (a * seconds v) t)

module _ (a t : ℕ) (above : 0 < t) where
  -- One part: its share and what it falls short of the exact one.
  pub weigh-share :
      (v : AirdropViewer)
      → HasWatched v
      → a * seconds v < int64_half
      → (weigh (pos a) (pos t) v).share ≡ pos (a * seconds v / t)
  weigh-share v h fits =
      rw (pos_of_part v.accumulated_seconds h, mul64_pos a (seconds v) fits)
        (div64_pos (a * seconds v) t fits)

  pub weighed-least :
      (vs : List AirdropViewer)
      → All HasWatched vs
      → a * sum_by seconds vs < int64_half
      → t * sum_by points (map (weigh (pos a) (pos t)) vs) ≤ a * sum_by seconds vs
  weighed-least [] h fits = omega arith
  weighed-least (v ∷ vs) h fits =
      rw (weigh-share v h.0 (omega (arith, fits)))
        (omega (arith, mul-div-le (a * seconds v) t, weighed-least vs h.1 (omega (arith, fits))))

pub left_over-sum :
    (r : ℕ) (vs : List AirdropViewer)
    → All IsNatural vs
    → sum_by points vs ≤ r
    → r < int64_half
    → left_over (pos r) vs ≡ pos (r - sum_by points vs)
unfolding left_over
left_over-sum r [] h le fits = ap pos (omega arith)
left_over-sum r (v ∷ vs) h le fits =
    rw (pos_of_part v.share h.0, sub64_pos r (points v) (omega (arith, le)) fits)
      (left_over-sum (r - points v) vs h.1 (omega (arith, le)) (omega (arith, fits))
        ∙ ap pos (omega arith))
