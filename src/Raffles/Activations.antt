-- ===== src/Raffles/Activations.antt =====
-- What a scheduled run changes: entries come in, and raffles that are due become active.
use tachigo.Base.{
  ℕ, ◌+◌, ◌≡◌, refl, sym, ◌∙◌, ap, true, ◌⊎◌, inl, inr, List, [], ◌∷◌, ◌++◌, update_where,
  Bool-cases, ==_iff, &&_split, subst,
}
use tachigo.Models.{Uuid, Time, Raffle, RaffleEntry, active}
use tachigo.Effect.{Db}
use tachigo.Effect.Safe.{Safe}
use tachigo.Raffles.{is_draft, has_raffle_id, is_draft_of, with_status}
use tachigo.Raffles.Importing.{Stopped}
use tachigo.Raffles.Syncing.{IsLinked}
use tachigo.Raffles.Snapshots.{snapshot_window, run_scheduled_snapshots}
use tachigo.Raffles.Batches.{IsDue, Keeps, run-keeps}
use mathlib.Core.List.{append_assoc}

-- A row as it was, or a draft that was due and has become active.
abbrev pub IsActivation : (Uuid → Type 0) → Raffle → Raffle → Type 0
IsActivation D r r' = (r' ≡ r) ⊎ ((is_draft r ≡ true) × D r.id × (r' ≡ with_status active r))

abbrev pub AreActivations : (Uuid → Type 0) → List Raffle → List Raffle → Type 0
AreActivations D [] [] = Unit
AreActivations D (r ∷ rs) (r' ∷ rs') = IsActivation D r r' × AreActivations D rs rs'
AreActivations D _ _ = ⊥

pub record Activated (D : Uuid → Type 0) (before db : Db) : Type 0 where
  pub activations : AreActivations D before.raffles db.raffles
  pub new : List RaffleEntry
  pub entries : db.raffle_entries ≡ new ++ before.raffle_entries
  pub same_draws : db.raffle_draws ≡ before.raffle_draws
  pub same_tiers : db.raffle_prize_tiers ≡ before.raffle_prize_tiers
  pub same_claims : db.raffle_claims ≡ before.raffle_claims

module _ (D : Uuid → Type 0) where
  as_they_were : (rs : List Raffle) → AreActivations D rs rs
  as_they_were [] = tt
  as_they_were (r ∷ rs) = (inl refl, as_they_were rs)

  -- A draft of an id that is due, in a row that may have been activated before.
  activate_row :
      (id : Uuid) (r r' : Raffle)
      → D id
      → IsActivation D r r'
      → is_draft_of id r' ≡ true
      → IsActivation D r (with_status active r')
  activate_row id r r' d (inl same) hit =
      let both = &&_split (has_raffle_id id r') (is_draft r') hit in
      let same_id : r.id ≡ id = ap (λ x. x.id) (sym same) ∙ (==_iff r'.id id).0 both.0 in
      inr (ap is_draft (sym same) ∙ both.1, subst D (sym same_id) d, ap (with_status active) same)
  activate_row id r r' d (inr (draft, due, become)) hit =
      inr (draft, due, ap (with_status active) become)

  activate_rows :
      (id : Uuid) (rs rs' : List Raffle)
      → D id
      → AreActivations D rs rs'
      → AreActivations D rs (update_where (is_draft_of id) (with_status active) rs')
  activate_rows id [] [] d h = tt
  activate_rows id [] (_ ∷ _) d h = absurd h
  activate_rows id (_ ∷ _) [] d h = absurd h
  activate_rows id (r ∷ rs) (r' ∷ rs') d h = elim (Bool-cases (is_draft_of id r')) [
    | inl hit ↦ rw hit (activate_row id r r' d h.0 hit, activate_rows id rs rs' d h.1)
    | inr miss ↦ rw miss (h.0, activate_rows id rs rs' d h.1)
  ]

-- `RunScheduledSnapshots`, however Twitch and the database behave, and also where it fails: each
-- raffle's row is as it was, or was a draft, is due by the end of the window, comes from Twitch, and is
-- now active; entries have only come in before those that were there; draws, prize tiers and claims
-- are as they were.
pub run_scheduled_snapshots-Activated :
    (fuel : ℕ) (at : Time) (before : Db)
    → let activated = Activated (IsDue (at + snapshot_window) before.raffles) before in
      Safe activated before (run_scheduled_snapshots fuel at) (λ _ db. activated db)
run_scheduled_snapshots-Activated fuel at before =
    run-keeps before fuel at (Activated D before) keeps (record {
      activations = as_they_were D before.raffles;
      new = [];
      entries = refl;
      same_draws = refl;
      same_tiers = refl;
      same_claims = refl;
    })
  where
    D : Uuid → Type 0
    D = IsDue (at + snapshot_window) before.raffles

    grows :
        (raffle : Uuid) (db db' : Db)
        → Activated D before db
        → Stopped raffle (IsLinked db) db db'
        → Activated D before db'
    grows raffle db db' k s =
        let reached = s.entered.stored in
        record {
          activations = rw (s.logins, reached) k.activations;
          new = s.entered.new ++ k.new;
          entries =
              ap (λ d. d.raffle_entries) s.logins
              ∙ ap (λ d. d.raffle_entries) reached
              ∙ ap (λ es. s.entered.new ++ es) k.entries
              ∙ sym (append_assoc s.entered.new k.new before.raffle_entries);
          same_draws =
              ap (λ d. d.raffle_draws) s.logins ∙ ap (λ d. d.raffle_draws) reached ∙ k.same_draws;
          same_tiers =
              ap (λ d. d.raffle_prize_tiers) s.logins
              ∙ ap (λ d. d.raffle_prize_tiers) reached
              ∙ k.same_tiers;
          same_claims =
              ap (λ d. d.raffle_claims) s.logins
              ∙ ap (λ d. d.raffle_claims) reached
              ∙ k.same_claims;
        }

    keeps : Keeps before (at + snapshot_window) (Activated D before)
    keeps = record {
      synced = grows;
      promoted = λ id db due k. record {
        activations = activate_rows D id before.raffles db.raffles due k.activations;
        new = k.new;
        entries = k.entries;
        same_draws = k.same_draws;
        same_tiers = k.same_tiers;
        same_claims = k.same_claims;
      };
    }
