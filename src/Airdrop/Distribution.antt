-- ===== src/Airdrop/Distribution.antt =====
-- How `distribute_airdrop` shares an amount out.
use tachigo.Base.{
  ℕ, zero, suc, ◌≡◌, refl, ◌∙◌, ap, ◌+◌, ◌-◌, ◌*◌, ◌/◌, ◌%◌, ◌≤◌, ◌<◌, ◌==◌, Bool, true, false,
  List, [], ◌∷◌, map, length, arith, All, All-map, sum_by, sort_by, sort-sum, sort-count, sort-All,
  count_where, if◌then◌else◌, Bool-cases, inl, inr,
}
use tachigo.Int.{pos, eq_ℤ, ltb_ℤ, leb_ℤ, int64_half, add64, add64_pos, div64_pos, rem64_pos}
use tachigo.Models.{Uuid, Result, ok}
use tachigo.Airdrop.Reading.{AirdropViewer}
use tachigo.Airdrop.{
  with_share, share_equally, bump, weigh, stays_before, by_weight, distribute_airdrop,
  total_accumulated,
}
use tachigo.Airdrop.Parts.{is_user, Part, parts, rests-most, weigh-count, weigh-seconds}
use tachigo.Airdrop.Ranks.{has_rest, IsRanked, sort-IsRanked, rest_first}
use tachigo.Airdrop.Shares.{
  seconds, points, HasWatched, IsNatural, pos_of_part, total_accumulated-sum, weighed-least,
  left_over-sum,
}
use native.Mathlib.Nat.{
  div-add-mod, mod-lt, mul-div-le, div-le_self, le-mul_of_pos_right, mul_comm,
  le_of_mul-le-mul_left,
}

-- The exact share is amount * weight / total; the share given is that, rounded down or up: less than one
-- point from it, on either side.
pub record Fair (amount total : ℕ) (weight : AirdropViewer → ℕ) (v : AirdropViewer) : Type 0 where
  pub natural : IsNatural v
  pub least : amount * weight v < (points v + 1) * total
  pub most : points v * total < amount * weight v + total

-- Weights are the seconds watched, or equal if nobody has watched.
abbrev pub weight_in : List AirdropViewer → AirdropViewer → ℕ
weight_in vs v = if sum_by seconds vs == 0 then 1 else seconds v

abbrev pub total_in : List AirdropViewer → ℕ
total_in vs = if sum_by seconds vs == 0 then length vs else sum_by seconds vs

-- The whole amount is given away, fairly, to the same viewers.
pub record Shared (amount : ℕ) (vs out : List AirdropViewer) : Type 0 where
  pub whole : sum_by points out ≡ amount
  pub fair : All (Fair amount (total_in vs) (weight_in vs)) out
  pub kept : (u : Uuid) → count_where (is_user u) out ≡ count_where (is_user u) vs

-- What a bump of the first `n` viewers gives.
record Bumped (n : ℕ) (R : AirdropViewer → Type 0) (vs out : List AirdropViewer) : Type 0 where
  sum : sum_by points out ≡ sum_by points vs + n
  each : All R out
  same : (u : Uuid) → count_where (is_user u) out ≡ count_where (is_user u) vs

module _ (P R : AirdropViewer → Type 0) (natural : (v : AirdropViewer) → P v → IsNatural v)
    (stays : (v : AirdropViewer) → P v → R v)
    (rises : (v : AirdropViewer)
      → P v
      → has_rest v ≡ true
      → R (with_share (pos (points v + 1)) v)) where
  bump-Bumped :
      (n : ℕ) (vs : List AirdropViewer)
      → n ≤ count_where has_rest vs
      → IsRanked vs
      → All P vs
      → sum_by points vs + n < int64_half
      → (out : List AirdropViewer) × (bump n vs ≡ ok out) × Bumped n R vs out
  unfolding bump
  bump-Bumped zero vs le ranked h fits =
      (vs, refl, record { sum = omega arith; each = All-map vs stays h; same = λ u. refl })
  bump-Bumped (suc n) [] le ranked h fits = absurd (omega (arith, le))
  bump-Bumped (suc n) (v ∷ vs) le ranked h fits =
      let rest : has_rest v ≡ true = rest_first n v vs ranked.0 le in
      let (out, e, b) =
        bump-Bumped n vs (omega (arith, rw rest at le)) ranked.1 h.1 (omega (arith, fits)) in
      let risen : add64 v.share (pos 1) ≡ pos (points v + 1) =
        rw (pos_of_part v.share (natural v h.0)) (add64_pos (points v) 1 (omega (arith, fits))) in
      (
        with_share (pos (points v + 1)) v ∷ out,
        rw (risen, e) refl,
        record {
          sum = omega (arith, b.sum);
          each = (rises v h.0 rest, b.each);
          same = λ u. ap (λ k. (if is_user u v then 1 else 0) + k) (b.same u);
        },
      )

module _ (amount base m : ℕ) (fits : base + 1 < int64_half) where
  share_equally-sum :
      (i : ℕ) (vs : List AirdropViewer)
      → m - i ≤ length vs
      → sum_by points (share_equally (pos base) (pos m) i vs) ≡ length vs * base + (m - i)
  unfolding share_equally
  share_equally-sum i [] le = omega (arith, le)
  share_equally-sum i (v ∷ vs) le =
      let rest = share_equally-sum (suc i) vs (omega (arith, le)) in
      elim (Bool-cases (ltb_ℤ (pos i) (pos m))) [
        | inl before ↦ rw (before, add64_pos base 1 fits, rest) (ground (arith, before))
        | inr after ↦ rw (after, rest) (ground (arith, after))
      ]

  share_equally-count :
      (u : Uuid) (i : ℕ) (vs : List AirdropViewer)
      → count_where (is_user u) (share_equally (pos base) (pos m) i vs) ≡ count_where (is_user u) vs
  unfolding share_equally
  share_equally-count u i [] = refl
  share_equally-count u i (v ∷ vs) =
      ap (λ k. (if is_user u v then 1 else 0) + k) (share_equally-count u (suc i) vs)

  share_equally-All :
      (R : AirdropViewer → Type 0)
      → ((v : AirdropViewer) → R (with_share (pos base) v))
      → (0 < m → (v : AirdropViewer) → R (with_share (pos (base + 1)) v))
      → (i : ℕ) (vs : List AirdropViewer) → All R (share_equally (pos base) (pos m) i vs)
  unfolding share_equally
  share_equally-All R low high i [] = tt
  share_equally-All R low high i (v ∷ vs) = (
    one (ltb_ℤ (pos i) (pos m)) (λ before. ground (arith, before)),
    share_equally-All R low high (suc i) vs,
  )
    where
      one :
          (b : Bool)
          → (b ≡ true → 0 < m)
          → R (with_share (if b then add64 (pos base) (pos 1) else pos base) v)
      one true h = rw (add64_pos base 1 fits) (high (h refl) v)
      one false h = low v

module _ (a : ℕ) (vs : List AirdropViewer) (there : 0 < length vs) (watched : All HasWatched vs)
    (fits : a + 1 < int64_half) (product_fits : a * sum_by seconds vs < int64_half) where
  abbrev Given : Result (List AirdropViewer) → Type 0
  Given r = (out : List AirdropViewer) × (r ≡ ok out) × Shared a vs out

  abbrev t : ℕ
  t = sum_by seconds vs

  -- Somebody has watched.
  by_weight-Shared : 0 < t → Given (by_weight (pos a) (pos t) vs)
  by_weight-Shared above =
      let nz : (t == 0) ≡ false = ground arith in
      let ws = map (weigh (pos a) (pos t)) vs in
      let ps = parts a t above vs watched product_fits in
      let low : sum_by points ws ≤ a =
        le_of_mul-le-mul_left (omega (arith, weighed-least a t above vs watched product_fits))
          above in
      let left = left_over-sum a ws (All-map ws (λ v p. p.natural) ps) low (omega (arith, fits)) in
      let sorted = sort_by stays_before ws in
      let sorted_parts = sort-All (Part a t above) stays_before ws ps in
      let all_seconds : sum_by seconds sorted ≡ t =
        sort-sum seconds stays_before ws ∙ weigh-seconds a t above vs in
      let high : a ≤ sum_by points sorted + count_where has_rest sorted =
        le_of_mul-le-mul_left
          (omega (arith, rw all_seconds at (rests-most a t above sorted sorted_parts))) above in
      let (out, e, b) =
        bump-Bumped (Part a t above) (Fair a (total_in vs) (weight_in vs)) (λ v p. p.natural)
          (λ v p. record {
            natural = p.natural;
            least = rw nz p.least;
            most = rw nz (omega (arith, p.most, above));
          })
          (λ v p rest. record {
            natural = refl;
            least = rw nz (omega (arith, p.least));
            most = rw nz (omega (arith, p.short rest));
          })
          (a - sum_by points ws) sorted (omega (arith, high, low, sort-sum points stays_before ws))
          (sort-IsRanked ws) sorted_parts
          (omega (arith, low, fits, sort-sum points stays_before ws)) in
      (
        out,
        rw left e,
        record {
          whole = omega (arith, b.sum, low, sort-sum points stays_before ws);
          fair = b.each;
          kept =
              λ u. b.same u ∙ sort-count (is_user u) stays_before ws ∙ weigh-count a t above u vs;
        },
      )

  -- Nobody has.
  equally-Shared :
      sum_by seconds vs ≡ 0
      → Shared a vs (share_equally (pos (a / length vs)) (pos (a % length vs)) 0 vs)
  equally-Shared e =
      let nz : (t == 0) ≡ true = ground (arith, e) in
      let room : a / length vs + 1 < int64_half =
        omega (arith, fits, div-le_self a (length vs), there) in
      record {
        whole = omega (
          arith,
          share_equally-sum a (a / length vs) (a % length vs) room 0 vs
              (omega (arith, mod-lt a there)),
          div-add-mod a (length vs),
        );
        fair =
            share_equally-All a (a / length vs) (a % length vs) room
              (Fair a (total_in vs) (weight_in vs))
              (λ v. record {
                natural = refl;
                least = rw nz (omega (arith, div-add-mod a (length vs), mod-lt a there));
                most = rw nz (omega (arith, mul-div-le a (length vs), there));
              })
              (λ rest v. record {
                natural = refl;
                least = rw nz (omega (arith, div-add-mod a (length vs), mod-lt a there));
                most = rw nz (omega (arith, div-add-mod a (length vs), rest));
              })
              0 vs;
        kept = λ u. share_equally-count a (a / length vs) (a % length vs) room u 0 vs;
      }

  -- Any amount above zero, among viewers of whom none has watched for a negative time, while the
  -- products fit an int64: the distribution does not panic, gives away exactly the amount, to the
  -- same viewers, and each gets the exact share by seconds watched (equal shares if nobody has
  -- watched), rounded down or up to a whole point.
  pub distribute_airdrop-Shared :
      0 < a
      → (out : List AirdropViewer) × (distribute_airdrop vs (pos a) ≡ ok out) × Shared a vs out
  unfolding distribute_airdrop
  distribute_airdrop-Shared above =
      let total_fits : t < int64_half =
        omega (arith, product_fits, mul_comm a t, le-mul_of_pos_right t above) in
      let total : total_accumulated (pos 0) vs ≡ pos t =
        total_accumulated-sum 0 vs watched (omega (arith, total_fits)) ∙ ap pos (omega arith) in
      let some_amount : leb_ℤ (pos a) (pos 0) ≡ false = ground arith in
      let some_viewer : (length vs == 0) ≡ false = ground arith in
      elim (Bool-cases (eq_ℤ (pos t) (pos 0))) [
        | inl z ↦
            rw
              (
                some_amount,
                some_viewer,
                total,
                z,
                div64_pos a (length vs) (omega (arith, fits)),
                rem64_pos a (length vs),
              )
              (_, refl, equally-Shared (ground (arith, z)))
        | inr nz ↦ rw (some_amount, some_viewer, total, nz) (by_weight-Shared (ground (arith, nz)))
      ]
