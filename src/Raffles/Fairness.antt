-- ===== src/Raffles/Fairness.antt =====
-- What fair draws are: nobody is drawn twice in a raffle, every draw is of an entry of its raffle, and
-- each tier counts its draws and has no more than its number of winners.
use tachigo.Base.{
  ℕ, ◌≡◌, ◌≢◌, refl, ◌∙◌, ap, Bool, true, false, Option, none, some, List, [], ◌∷◌, ◌==◌, not,
  arith, All, All-map, find_first, find_first-none, count_where, update_where, is_some_of,
  Bool-cases, inl, inr, &&_split,
}
use tachigo.Int.{pos, ◌≤ℤ◌, ◌<ℤ◌, ltb_ℤ, int_laws}
use tachigo.Models.{Uuid, RaffleEntry, RaffleDraw, RafflePrizeTier}
use tachigo.Effect.{Db}
use tachigo.Raffles.Tiers.{has_tier_id}
use tachigo.Raffles.Draws.{
  draws_entry, has_entry_id, draw_clashes, has_room, has_tier, is_none, one_more,
}

-- The unique indexes on draws.
abbrev pub IsDistinct : List RaffleDraw → Type 0
IsDistinct [] = Unit
IsDistinct (d ∷ ds) = (find_first (draw_clashes d) ds ≡ none) × IsDistinct ds

abbrev pub IsEntered : List RaffleEntry → RaffleDraw → Type 0
IsEntered es d = find_first (has_entry_id d.raffle_id d.entry_id) es ≢ none

-- A draw for a prize names a tier that is there.
abbrev pub IsTiered : List RafflePrizeTier → RaffleDraw → Type 0
IsTiered ts d = has_tier d.prize_tier_id ts ≡ true

-- The primary key of tiers.
abbrev pub HasTierKeys : List RafflePrizeTier → Type 0
HasTierKeys [] = Unit
HasTierKeys (t ∷ ts) = (find_first (has_tier_id t.id) ts ≡ none) × HasTierKeys ts

-- The draws of a tier.
abbrev pub drawn_in : Uuid → List RaffleDraw → ℕ
drawn_in id ds = count_where (λ d. is_some_of d.prize_tier_id id) ds

pub record IsCounted (ds : List RaffleDraw) (t : RafflePrizeTier) : Type 0 where
  pub counted : t.drawn_count ≡ pos (drawn_in t.id ds)
  pub within : t.drawn_count ≤ℤ t.winner_count

pub record IsFair (db : Db) : Type 0 where
  pub distinct : IsDistinct db.raffle_draws
  pub entered : All (IsEntered db.raffle_entries) db.raffle_draws
  pub tiered : All (IsTiered db.raffle_prize_tiers) db.raffle_draws
  pub keyed : HasTierKeys db.raffle_prize_tiers
  pub tiers : All (IsCounted db.raffle_draws) db.raffle_prize_tiers

-- The raffles, the entries and the claims are as they were.
pub record OnlyPrizes (db db' : Db) : Type 0 where
  pub same_raffles : db'.raffles ≡ db.raffles
  pub same_entries : db'.raffle_entries ≡ db.raffle_entries
  pub same_claims : db'.raffle_claims ≡ db.raffle_claims

-- A draw outside every tier leaves the counters right.
pub untiered-IsCounted :
    (d : RaffleDraw) (ds : List RaffleDraw) (t : RafflePrizeTier)
    → d.prize_tier_id ≡ none
    → IsCounted ds t
    → IsCounted (d ∷ ds) t
untiered-IsCounted d ds t e h = record {
  counted = rw e (h.counted ∙ ap pos (omega arith));
  within = h.within;
}

module _ (id : Uuid) (d : RaffleDraw) (ds : List RaffleDraw) (e : d.prize_tier_id ≡ some id) where
  -- The tier of the draw counts one more.
  drawn-IsCounted :
      (t : RafflePrizeTier)
      → has_room id t ≡ true
      → IsCounted ds t
      → IsCounted (d ∷ ds) (one_more t)
  drawn-IsCounted t room h =
      let both = &&_split (has_tier_id id t) (ltb_ℤ t.drawn_count t.winner_count) room in
      let same : (id == t.id) ≡ true = ground (arith, both.0) in
      let below : t.drawn_count <ℤ t.winner_count = ground (arith, both.1) in
      record {
        counted = rw (e, same, h.counted) (omega int_laws);
        within = omega (int_laws, below);
      }

  -- A tier with another id does not.
  other-IsCounted :
      (t : RafflePrizeTier) → has_tier_id id t ≡ false → IsCounted ds t → IsCounted (d ∷ ds) t
  other-IsCounted t other h =
      let apart : (id == t.id) ≡ false = ground (arith, other) in
      record { counted = rw (e, apart) (h.counted ∙ ap pos (omega arith)); within = h.within }

  untouched :
      (ts : List RafflePrizeTier)
      → All (λ t. has_tier_id id t ≡ false) ts
      → All (IsCounted ds) ts
      → All (IsCounted (d ∷ ds)) (update_where (has_room id) one_more ts)
  untouched [] h c = tt
  untouched (t ∷ ts) h c = (rw h.0 (other-IsCounted t h.0 c.0), untouched ts h.1 c.1)

  roomless :
      (ts : List RafflePrizeTier)
      → All (λ t. has_tier_id id t ≡ false) ts
      → count_where (has_room id) ts ≡ 0
  roomless [] h = refl
  roomless (t ∷ ts) h = rw (h.0, roomless ts h.1) refl

  -- The statement that counts a draw, when it affects a row.
  pub count-IsCounted :
      (ts : List RafflePrizeTier)
      → HasTierKeys ts
      → All (IsCounted ds) ts
      → (count_where (has_room id) ts == 0) ≡ false
      → All (IsCounted (d ∷ ds)) (update_where (has_room id) one_more ts)
  count-IsCounted [] k c e = cc
  count-IsCounted (t ∷ ts) k c affected = elim (Bool-cases (has_tier_id id t)) [
    | inl same ↦
        let others : All (λ r. has_tier_id id r ≡ false) ts =
          All-map ts (λ r x. ground (arith, x, same)) (find_first-none (has_tier_id t.id) ts k.0) in
        elim (Bool-cases (has_room id t)) [
          | inl room ↦ rw room (drawn-IsCounted t room c.0, untouched ts others c.1)
          | inr full ↦ absurd (ground (arith, affected, full, roomless ts others))
        ]
    | inr other ↦
        rw other (
          other-IsCounted t other c.0,
          count-IsCounted ts k.1 c.1 (ground (arith, affected, other)),
        )
  ]

-- An update of a tier that keeps its id keeps the primary keys.
pub update-HasTierKeys :
    (p : RafflePrizeTier → Bool) (f : RafflePrizeTier → RafflePrizeTier)
    → ((t : RafflePrizeTier) → p t ≡ true → (f t).id ≡ t.id)
    → (ts : List RafflePrizeTier) → HasTierKeys ts
    → HasTierKeys (update_where p f ts)
update-HasTierKeys p f keeps [] k = tt
update-HasTierKeys p f keeps (t ∷ ts) k =
    (ground (arith, keeps t, absent t.id ts k.0), update-HasTierKeys p f keeps ts k.1)
  where
    absent :
        (id : Uuid) (us : List RafflePrizeTier)
        → find_first (has_tier_id id) us ≡ none
        → find_first (has_tier_id id) (update_where p f us) ≡ none
    absent id [] e = refl
    absent id (u ∷ us) e = ground (arith, e, keeps u, absent id us)

-- and the tiers that draws name.
pub update-IsTiered :
    (p : RafflePrizeTier → Bool) (f : RafflePrizeTier → RafflePrizeTier)
    → ((t : RafflePrizeTier) → p t ≡ true → (f t).id ≡ t.id)
    → (ts : List RafflePrizeTier) (ds : List RaffleDraw) → All (IsTiered ts) ds
    → All (IsTiered (update_where p f ts)) ds
update-IsTiered p f keeps ts ds h = All-map ds (λ d x. present d.prize_tier_id ts ∙ x) h
  where
    found :
        (id : Uuid) (us : List RafflePrizeTier)
        → is_none (find_first (has_tier_id id) (update_where p f us))
          ≡ is_none (find_first (has_tier_id id) us)
    found id [] = refl
    found id (u ∷ us) = ground (arith, keeps u, found id us)

    present :
        (o : Option Uuid) (us : List RafflePrizeTier)
        → has_tier o (update_where p f us) ≡ has_tier o us
    present none us = refl
    present (some id) us = ap not (found id us)

-- What clashes with no draw draws an entry that no draw has drawn.
pub unclashed :
    (d : RaffleDraw) (ds : List RaffleDraw)
    → find_first (draw_clashes d) ds ≡ none
    → find_first (draws_entry d.raffle_id d.entry_id) ds ≡ none
unclashed d [] e = refl
unclashed d (c ∷ ds) e = ground (arith, e, unclashed d ds)
