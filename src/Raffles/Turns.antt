-- ===== src/Raffles/Turns.antt =====
-- What calls of the raffle service do to the tables, and what each such change keeps.
use tachigo.Base.{
  sym, All-map, ◌≡◌, refl, ◌∙◌, ap, subst, ◌≤◌, Bool, true, false, none, some, List, [], ◌∷◌, ◌++◌,
  arith, find_first, update_where, Bool-cases, inl, inr, ==_iff,
}
use tachigo.Models.{Uuid, Raffle, RaffleClaim, RaffleEntry, RaffleDraw}
use tachigo.Effect.{Db}
use tachigo.Raffles.{has_raffle_id}
use tachigo.Raffles.Draws.{has_entry_id}
use tachigo.Raffles.Joining.{OnlyLogins}
use tachigo.Raffles.Importing.{AreFirst, grown}
use tachigo.Raffles.Fairness.{IsEntered, IsFair, OnlyPrizes}
use tachigo.Raffles.Delivery.{HasSingleClaims}
use tachigo.Raffles.Edits.{rank, Rises, Edit, unchanged, opened, updated}
use mathlib.Core.List.{append-nil}

-- Draws are fair, a draw is claimed once at most, and a login has one entry in a raffle at most.
pub record IsSound (db : Db) : Type 0 where
  pub fair : IsFair db
  pub once : AreFirst db.raffle_entries []
  pub single : HasSingleClaims db.raffle_claims

-- The raffle is there still, is its owner's, and its status has not moved back.
pub record Later (id : Uuid) (r : Raffle) (rs : List Raffle) : Type 0 where
  pub found : Raffle
  pub there : find_first (has_raffle_id id) rs ≡ some found
  pub onward : rank r.status ≤ rank found.status
  pub same_owner : found.user_id ≡ r.user_id

-- What one call does to the tables.
pub data Turn (db : Db) : Db → Type 0 where
  edits : {db' : Db} → Edit db db' → Turn db db'
  fairly : {db' : Db} → IsFair db' → OnlyPrizes db db' → Turn db db'
  claims :
      (c : RaffleClaim)
      → HasSingleClaims (c ∷ db.raffle_claims)
      → Turn db (record db { raffle_claims = c ∷ db.raffle_claims })
  importing :
      {db' : Db} (new : List RaffleEntry)
      → AreFirst new db.raffle_entries
      → OnlyLogins (grown db new) db'
      → Turn db db'

-- What some calls do, one after another.
pub data Turns (before : Db) : Db → Type 0 where
  still : Turns before before
  more : {db db' : Db} → Turns before db → Turn db db' → Turns before db'

-- New entries are the first of their logins among themselves too.
AreFirst-append :
    (new old : List RaffleEntry) → AreFirst new old → AreFirst old [] → AreFirst (new ++ old) []
AreFirst-append [] old h o = o
AreFirst-append (e ∷ new) old h o =
    (rw (append-nil (new ++ old)) h.0, AreFirst-append new old h.1 o)

-- More entries leave the draws entered.
longer : (new es : List RaffleEntry) (d : RaffleDraw) → IsEntered es d → IsEntered (new ++ es) d
longer [] es d h = h
longer (e ∷ new) es d h = elim (Bool-cases (has_entry_id d.raffle_id d.entry_id e)) [
  | inl hit ↦ rw hit (λ q. cc)
  | inr miss ↦ rw miss (longer new es d h)
]

module _ (db : Db) (sound : IsSound db) where
  -- Raffles and claims have no part in the fairness of draws.
  fairness_beside :
      (rs : List Raffle) (cs : List RaffleClaim)
      → IsFair (record db { raffles = rs; raffle_claims = cs })
  fairness_beside rs cs = record {
    distinct = sound.fair.distinct;
    entered = sound.fair.entered;
    tiered = sound.fair.tiered;
    keyed = sound.fair.keyed;
    tiers = sound.fair.tiers;
  }

  Edit-IsSound : {db' : Db} → Edit db db' → IsSound db'
  Edit-IsSound unchanged = sound
  Edit-IsSound (opened r e) = record {
    fair = fairness_beside _ db.raffle_claims;
    once = sound.once;
    single = sound.single;
  }
  Edit-IsSound (updated p f rises) = record {
    fair = fairness_beside _ db.raffle_claims;
    once = sound.once;
    single = sound.single;
  }

  pub Turn-IsSound : {db' : Db} → Turn db db' → IsSound db'
  Turn-IsSound (edits e) = Edit-IsSound e
  Turn-IsSound (fairly f o) = record {
    fair = f;
    once = rw o.same_entries sound.once;
    single = rw o.same_claims sound.single;
  }
  Turn-IsSound (claims c h) = record {
    fair = fairness_beside db.raffles _;
    once = sound.once;
    single = h;
  }
  Turn-IsSound (importing new f o) = subst IsSound (sym o) (record {
    fair = record {
      distinct = sound.fair.distinct;
      entered =
          All-map db.raffle_draws (λ d h. longer new db.raffle_entries d h) sound.fair.entered;
      tiered = sound.fair.tiered;
      keyed = sound.fair.keyed;
      tiers = sound.fair.tiers;
    };
    once = AreFirst-append new db.raffle_entries f sound.once;
    single = sound.single;
  })

pub Turns-IsSound : (before : Db) {db : Db} → IsSound before → Turns before db → IsSound db
Turns-IsSound before sound still = sound
Turns-IsSound before sound (more {db} {db'} ts t) =
    Turn-IsSound db (Turns-IsSound before sound ts) t

module _ (id : Uuid) (r : Raffle) where
  at_head :
      (y : Raffle) (rs : List Raffle)
      → has_raffle_id id y ≡ true
      → rank r.status ≤ rank y.status
      → y.user_id ≡ r.user_id
      → Later id r (y ∷ rs)
  at_head y rs hit up own = record { found = y; there = rw hit refl; onward = up; same_owner = own }

  in_tail :
      (y : Raffle) (rs : List Raffle)
      → has_raffle_id id y ≡ false
      → Later id r rs
      → Later id r (y ∷ rs)
  in_tail y rs miss l = record {
    found = l.found;
    there = rw miss l.there;
    onward = l.onward;
    same_owner = l.same_owner;
  }

  updated-Later :
      (p : Raffle → Bool) (f : Raffle → Raffle)
      → Rises p f
      → (rs : List Raffle) → find_first (has_raffle_id id) rs ≡ some r
      → Later id r (update_where p f rs)
  updated-Later p f rises [] e = cc
  updated-Later p f rises (x ∷ rs) e = elim (Bool-cases (has_raffle_id id x)) [
    | inl hit ↦
        let same : x ≡ r = cc (e, hit) in
        elim (Bool-cases (p x)) [
          | inl px ↦ rw px (
              at_head (f x) (update_where p f rs) (rw (rises.same_id x) hit)
                (rw (← same) (rises.onward x px)) (rises.same_owner x ∙ ap (λ y. y.user_id) same))
          | inr np ↦ rw np (
              at_head x (update_where p f rs) hit (rw same (omega arith))
                (ap (λ y. y.user_id) same))
        ]
    | inr miss ↦
        let rest = updated-Later p f rises rs (cc (e, miss)) in
        elim (Bool-cases (p x)) [
          | inl px ↦ rw px (in_tail (f x) (update_where p f rs) (rw (rises.same_id x) miss) rest)
          | inr np ↦ rw np (in_tail x (update_where p f rs) miss rest)
        ]
  ]

  Edit-Later :
      {db db' : Db}
      → Edit db db'
      → find_first (has_raffle_id id) db.raffles ≡ some r
      → Later id r db'.raffles
  Edit-Later unchanged e = record { found = r; there = e; onward = omega arith; same_owner = refl }
  Edit-Later {db} (opened n new) e = elim (Bool-cases (has_raffle_id id n)) [
    | inl hit ↦ absurd (taken ((==_iff n.id id).0 hit) new e)
    | inr miss ↦
        in_tail n db.raffles miss
          (record { found = r; there = e; onward = omega arith; same_owner = refl })
  ]
    where
      taken :
          {i : Uuid}
          → i ≡ id
          → find_first (has_raffle_id i) db.raffles ≡ none
          → find_first (has_raffle_id id) db.raffles ≡ some r
          → ⊥
      taken {i} same none_there there = cc
  Edit-Later {db} (updated p f rises) e = updated-Later p f rises db.raffles e

  pub Turn-Later :
      {db db' : Db}
      → Turn db db'
      → find_first (has_raffle_id id) db.raffles ≡ some r
      → Later id r db'.raffles
  Turn-Later (edits t) e = Edit-Later t e
  Turn-Later (fairly f o) e = record {
    found = r;
    there = rw o.same_raffles e;
    onward = omega arith;
    same_owner = refl;
  }
  Turn-Later (claims c h) e = record {
    found = r;
    there = e;
    onward = omega arith;
    same_owner = refl;
  }
  Turn-Later (importing new f o) e = record {
    found = r;
    there = ap (λ d. find_first (has_raffle_id id) d.raffles) o ∙ e;
    onward = omega arith;
    same_owner = refl;
  }

pub Turns-Later :
    (id : Uuid) (r : Raffle) {before db : Db}
    → Turns before db
    → find_first (has_raffle_id id) before.raffles ≡ some r
    → Later id r db.raffles
Turns-Later id r still e = record { found = r; there = e; onward = omega arith; same_owner = refl }
Turns-Later id r (more ts t) e =
    let l = Turns-Later id r ts e in
    let step = Turn-Later id l.found t l.there in
    record {
      found = step.found;
      there = step.there;
      onward = omega (arith, l.onward, step.onward);
      same_owner = step.same_owner ∙ l.same_owner;
    }
