-- ===== src/Raffles/Batches.antt =====
-- What a scheduled run keeps: a statement on the tables that what a synchronisation brings in and the
-- activation of a raffle that is due keep.
use tachigo.Base.{
  ℕ, zero, suc, ◌+◌, ◌≡◌, refl, Bool, true, false, ◌&&◌, Option, none, some, List, [], ◌∷◌, ◌==◌,
  All, select, take, count_where, update_where, sort-All, All-map, Bool-cases, ==_refl, inl, inr,
  arith,
}
use tachigo.Models.{Uuid, Time, Raffle, RaffleSource, csv, twitch_api, extension_button, active}
use tachigo.Effect.{Db}
use tachigo.Effect.Safe.{
  Safe, Safe-pure, Safe-raise, Safe-if, Safe-bind, Safe-catch, Safe-sql, Safe-outcome,
}
use tachigo.Raffles.{is_draft_of, with_status}
use tachigo.Raffles.Imports.{ImportResult, is_twitch_api}
use tachigo.Raffles.Importing.{Stopped, stop}
use tachigo.Raffles.Syncing.{IsLinked, Synced, sync_from_twitch_api-Synced}
use tachigo.Raffles.Snapshots.{
  is_due, due_before, due_raffles, scheduled_snapshot_batch_limit, snapshot_window, promote,
  snapshot_of, snapshot_one, snapshot_all, run_scheduled_snapshots,
}

-- Some raffle of this id is due by the end of the window, and comes from Twitch.
abbrev pub is_due_as : Time → Uuid → Raffle → Bool
is_due_as window id r = is_due window r && (r.id == id && is_twitch_api r.source)

abbrev pub IsDue : Time → List Raffle → Uuid → Type 0
IsDue window rs id = (count_where (is_due_as window id) rs == 0) ≡ false

-- A raffle of the batch that comes from Twitch.
abbrev Due : Time → List Raffle → Raffle → Type 0
Due window rs r = is_twitch_api r.source ≡ true → IsDue window rs r.id

-- A raffle that is due in a list is due in a longer one.
Due-longer :
    (window : Time) (r : Raffle) (rs : List Raffle) (s : Raffle)
    → Due window rs s
    → Due window (r ∷ rs) s
Due-longer window r rs s h e = ground (arith, h e)

select-Due : (window : Time) (rs : List Raffle) → All (Due window rs) (select (is_due window) rs)
select-Due window [] = tt
select-Due window (r ∷ rs) =
    let later : All (Due window (r ∷ rs)) (select (is_due window) rs) =
      All-map _ (Due-longer window r rs) (select-Due window rs) in
    elim (Bool-cases (is_due window r)) [
      | inl hit ↦ rw hit ((λ e. ground (arith, hit, e, ==_refl r.id)), later)
      | inr miss ↦ rw miss later
    ]

take-All : (P : Raffle → Type 0) (n : ℕ) (rs : List Raffle) → All P rs → All P (take n rs)
take-All P zero rs h = tt
take-All P (suc n) [] h = tt
take-All P (suc n) (r ∷ rs) h = (h.0, take-All P n rs h.1)

module _ (before : Db) (window : Time) (K : Db → Type 0) where
  -- The two ways in which a snapshot changes the tables.
  pub record Keeps : Type 0 where
    pub synced : (raffle : Uuid) (db db' : Db) → K db → Stopped raffle (IsLinked db) db db' → K db'
    pub promoted :
        (id : Uuid) (db : Db)
        → IsDue window before.raffles id
        → K db
        → K (record db { raffles = update_where (is_draft_of id) (with_status active) db.raffles })

  module _ (keeps : Keeps) where
    one-keeps :
        (fuel : ℕ) (r : Raffle) (db : Db)
        → Due window before.raffles r
        → K db
        → Safe K db (snapshot_one fuel r) (λ _ db'. K db')
    unfolding snapshot_one
    one-keeps fuel r db due k = go r.source due
      where
        promotes :
            (o : Option ImportResult) (db' : Db)
            → IsDue window before.raffles r.id
            → Synced r.id db o db'
            → Safe K db' (promote r.id o) (λ _ db''. K db'')
        promotes none db' d s = Safe-pure false (keeps.synced r.id db db' k s)
        promotes (some i) db' d s =
            let k' = keeps.synced r.id db db' k (stop s) in
            Safe-bind (λ _ db''. K db'') _ _ (Safe-sql _ k' (keeps.promoted r.id db' d k'))
              λ _ db'' k''. Safe-pure true k''

        go :
            (s : RaffleSource)
            → (is_twitch_api s ≡ true → IsDue window before.raffles r.id)
            → Safe K db (snapshot_of fuel r s) (λ _ db'. K db')
        go twitch_api d =
            Safe-bind (λ o db'. Synced r.id db o db') _ _
              (Safe-outcome (Stopped r.id (IsLinked db) db) _
                (sync_from_twitch_api-Synced r.id db fuel r.user_id)
                (λ db' s. keeps.synced r.id db db' k s) (λ _ _ h. h.1))
              λ o db' s. promotes o db' (d refl) s
        go csv d = Safe-raise _ k
        go extension_button d = Safe-raise _ k

    all-keeps :
        (fuel : ℕ) (due : List Raffle) (failed : ℕ) (db : Db)
        → All (Due window before.raffles) due
        → K db
        → Safe K db (snapshot_all fuel due failed) (λ _ db'. K db')
    unfolding snapshot_all
    all-keeps fuel [] failed db ds k = Safe-pure _ k
    all-keeps fuel (r ∷ rest) failed db ds k =
        Safe-catch K (λ _ db'. K db') _ _ (one-keeps fuel r db ds.0 k)
          (λ b db' k'.
            Safe-if b _ _ (λ _. all-keeps fuel rest failed db' ds.1 k') (λ _. Safe-pure none k'))
          (λ e db' k'. all-keeps fuel rest (suc failed) db' ds.1 k')

pub run-keeps :
    (before : Db) (fuel : ℕ) (at : Time) (K : Db → Type 0)
    → Keeps before (at + snapshot_window) K
    → K before
    → Safe K before (run_scheduled_snapshots fuel at) (λ _ db'. K db')
unfolding run_scheduled_snapshots due_raffles
run-keeps before fuel at K keeps k =
    let window = at + snapshot_window in
    Safe-bind (λ due db'. All (Due window before.raffles) due × (db' ≡ before)) _ _
      (Safe-sql _ k (
        take-All (Due window before.raffles) scheduled_snapshot_batch_limit _
            (sort-All (Due window before.raffles) due_before _ (select-Due window before.raffles)),
        refl,
      ))
      λ due db' h. rw h.1 (
        Safe-bind (λ _ db'. K db') _ _ (all-keeps before window K keeps fuel due 0 before h.0 k)
          λ _ db' k'. Safe-pure _ k')
