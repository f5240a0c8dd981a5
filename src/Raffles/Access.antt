-- ===== src/Raffles/Access.antt =====
-- Reading a raffle as its owner.
use tachigo.Base.{◌≡◌, refl, true, Option, none, some, ◌==◌, find_first}
use tachigo.Models.{Uuid, Raffle, raffle_not_found, raffle_forbidden}
use tachigo.Effect.{Db}
use tachigo.Effect.Ensures.{Gives}
use tachigo.Effect.Safe.{Safe, Safe-pure, Safe-bind, Safe-guard, Safe-sql, Safe-found}
use tachigo.Ledger.{row_or_missing}
use tachigo.Raffles.{has_raffle_id, first_raffle, get_by_id}

-- The raffle is stored, and belongs to the user.
pub record Owned (id user : Uuid) (db : Db) (r : Raffle) : Type 0 where
  pub stored : find_first (has_raffle_id id) db.raffles ≡ some r
  pub owner : (r.user_id == user) ≡ true

-- What a lookup of one row gives.
pub row-Gives :
    {A : Type 0} (db : Db) (o : Option A)
    → Gives (row_or_missing o db) (λ a db'. (o ≡ some a) × (db' ≡ db))
row-Gives db none = tt
row-Gives db (some a) = (refl, refl)

pub get_by_id-Owned :
    (id user : Uuid) (db : Db)
    → Safe (λ db'. db' ≡ db) db (get_by_id id user) (λ r db'. Owned id user db r × (db' ≡ db))
unfolding get_by_id
get_by_id-Owned id user db =
    Safe-bind (λ r db'. (find_first (has_raffle_id id) db.raffles ≡ some r) × (db' ≡ db)) _ _
      (Safe-found raffle_not_found _ (Safe-sql (first_raffle id) refl (row-Gives db _)))
      λ r db' h.
        Safe-guard _ raffle_forbidden _ h.1
          λ own. Safe-pure r (record { stored = h.0; owner = own }, h.1)
