-- ===== src/Airdrop/Parts.antt =====
-- Each viewer's part by weight, before the remaining points are given.
use tachigo.Base.{
  ℕ, sym, ◌≡◌, refl, ◌∙◌, ap, ◌+◌, ◌*◌, ◌%◌, ◌≤◌, ◌<◌, ◌==◌, Bool, true, false, List, [], ◌∷◌, map,
  arith, All, sum_by, count_where, if◌then◌else◌, Bool-cases, inl, inr,
}
use tachigo.Int.{pos, neg_part, ltb_ℤ, int64_half}
use tachigo.Models.{Uuid}
use tachigo.Airdrop.Reading.{AirdropViewer}
use tachigo.Airdrop.{weigh}
use tachigo.Airdrop.Ranks.{has_rest}
use tachigo.Airdrop.Shares.{weigh-remainder, seconds, points, HasWatched, IsNatural, weigh-share}
use native.Mathlib.Nat.{div-add-mod, mod-lt, mul-div-le}

abbrev pub is_user : Uuid → AirdropViewer → Bool
is_user u v = v.user_id == u

-- The parts by weight, before the remaining points are given.
module _ (a t : ℕ) (above : 0 < t) where
  abbrev pub w : AirdropViewer → AirdropViewer
  w = weigh (pos a) (pos t)

  pub record Part (v : AirdropViewer) : Type 0 where
    pub natural : IsNatural v
    pub least : a * seconds v < (points v + 1) * t
    pub most : points v * t ≤ a * seconds v
    pub short : has_rest v ≡ true → points v * t < a * seconds v
    pub exact : has_rest v ≡ false → a * seconds v ≡ points v * t

  pub part : (v : AirdropViewer) → HasWatched v → a * seconds v < int64_half → Part (w v)
  part v h fits =
      let e = weigh-share a t above v h fits in
      let r = weigh-remainder a t v h fits in
      let whole = div-add-mod (a * seconds v) t in
      record {
        natural = ap neg_part e;
        least = rw e (omega (arith, whole, mod-lt (a * seconds v) above));
        most = rw e (omega (arith, mul-div-le (a * seconds v) t));
        short = λ rest. rw e (
            omega (arith, whole, positive (a * seconds v % t) (ap (ltb_ℤ (pos 0)) (sym r) ∙ rest)));
        exact = λ none_left. rw e (
            omega (
              arith,
              whole,
              zero_rest (a * seconds v % t) (ap (ltb_ℤ (pos 0)) (sym r) ∙ none_left),
            ));
      }
    where
      positive : (n : ℕ) → ltb_ℤ (pos 0) (pos n) ≡ true → 0 < n
      positive n e = ground (arith, e)

      zero_rest : (n : ℕ) → ltb_ℤ (pos 0) (pos n) ≡ false → n ≡ 0
      zero_rest n e = ground (arith, e)

  pub parts :
      (vs : List AirdropViewer)
      → All HasWatched vs
      → a * sum_by seconds vs < int64_half
      → All Part (map w vs)
  parts [] h fits = tt
  parts (v ∷ vs) h fits = (part v h.0 (omega (arith, fits)), parts vs h.1 (omega (arith, fits)))

  -- What the parts fall short of the exact ones is less than a point for each viewer with a rest.
  pub rests-most :
      (vs : List AirdropViewer)
      → All Part vs
      → a * sum_by seconds vs ≤ t * (sum_by points vs + count_where has_rest vs)
  rests-most [] h = omega arith
  rests-most (v ∷ vs) h = elim (Bool-cases (has_rest v)) [
    | inl rest ↦ rw rest (omega (arith, h.0.least, rests-most vs h.1))
    | inr whole ↦ rw whole (omega (arith, h.0.exact whole, rests-most vs h.1))
  ]

  pub weigh-count :
      (u : Uuid) (vs : List AirdropViewer)
      → count_where (is_user u) (map w vs) ≡ count_where (is_user u) vs
  weigh-count u [] = refl
  weigh-count u (v ∷ vs) = ap (λ k. (if is_user u v then 1 else 0) + k) (weigh-count u vs)

  pub weigh-seconds : (vs : List AirdropViewer) → sum_by seconds (map w vs) ≡ sum_by seconds vs
  weigh-seconds [] = refl
  weigh-seconds (v ∷ vs) = ap (λ k. seconds v + k) (weigh-seconds vs)
