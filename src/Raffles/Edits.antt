-- ===== src/Raffles/Edits.antt =====
-- What the operations on a raffle itself change: its row.
use tachigo.Base.{
  ℕ, ◌≡◌, refl, ◌≤◌, Bool, true, false, not, Option, none, some, ◌∷◌, ◌==◌, arith, find_first,
  update_where, String,
}
use tachigo.Models.{
  Uuid, Name, RaffleStatus, draft, active, completed, RaffleMode, Raffle, Error, raffle_not_draft,
  raffle_not_active,
}
use tachigo.Effect.{Db, M, sql, guard, pure, ◌>>=◌}
use tachigo.Effect.Ensures.{Gives}
use tachigo.Effect.Safe.{
  Safe, Safe-pure, Safe-if, Safe-bind, Safe-guard, Safe-sql, Safe-bind-now, Safe-bind-new_uuid,
  Safe-outcome,
}
use tachigo.Raffles.{
  has_raffle_id, is_draft, is_draft_of, is_active_of, is_completed, new_raffle, insert_raffle_row,
  create, get_by_id, update_raffles, with_status, activate, complete, with_mode, set_mode,
  with_entry_open, set_entry_open, webhook_of, with_webhook, set_discord_webhook,
}
use tachigo.Raffles.Access.{Owned, get_by_id-Owned}

-- Draft comes before active, and active before completed.
abbrev pub rank : RaffleStatus → ℕ
rank draft = 0
rank active = 1
rank completed = 2

-- An update of rows that keeps their keys and owners, and never moves a status back.
pub record Rises (p : Raffle → Bool) (f : Raffle → Raffle) : Type 0 where
  pub same_id : (r : Raffle) → (f r).id ≡ r.id
  pub same_owner : (r : Raffle) → (f r).user_id ≡ r.user_id
  pub onward : (r : Raffle) → p r ≡ true → rank r.status ≤ rank (f r).status

draft_first : (r : Raffle) → is_draft r ≡ true → rank r.status ≤ 1
draft_first r h = go r.status h
  where
    go : (s : RaffleStatus) → elim s as (λ _. Bool) [ draft ↦ true | _ ↦ false ] ≡ true → rank s ≤ 1
    go draft e = omega arith
    go active e = omega arith
    go completed e = cc

-- A draft becomes active.
pub activation-Rises : (id : Uuid) → Rises (is_draft_of id) (with_status active)
activation-Rises id = record {
  same_id = λ r. refl;
  same_owner = λ r. refl;
  onward = λ r hit. draft_first r (ground (arith, hit));
}

last_rank : (s : RaffleStatus) → rank s ≤ 2
last_rank draft = omega arith
last_rank active = omega arith
last_rank completed = omega arith

-- The changes of the table of raffles.
pub data Edit (db : Db) : Db → Type 0 where
  unchanged : Edit db db
  opened :
      (r : Raffle)
      → find_first (has_raffle_id r.id) db.raffles ≡ none
      → Edit db (record db { raffles = r ∷ db.raffles })
  updated :
      (p : Raffle → Bool) (f : Raffle → Raffle)
      → Rises p f
      → Edit db (record db { raffles = update_where p f db.raffles })

module _ (db : Db) where
  abbrev Edits : {A : Type 0} → M A → Type 0
  Edits m = Safe (Edit db) db m (λ _ db'. Edit db db')

  pub create-Edit : (user : Uuid) (title : Name) → Edits (create user title)
  unfolding create
  create-Edit user title = Safe-bind-new_uuid _ λ id. Safe-bind-now _ λ at.
      Safe-sql _ unchanged
        (go (new_raffle id user title at) (find_first (has_raffle_id id) db.raffles) refl)
    where
      go :
          (r : Raffle) (o : Option Raffle)
          → find_first (has_raffle_id r.id) db.raffles ≡ o
          → Gives (insert_raffle_row r o db) (λ _ db'. Edit db db')
      go r (some _) e = tt
      go r none e = opened r e

  -- The raffle is read, and its row updated.
  module _ (id user : Uuid) where
    owned_first :
        {A : Type 0} (k : Raffle → M A)
        → ((r : Raffle) → Owned id user db r → Edits (k r))
        → Edits (get_by_id id user >>= k)
    owned_first k h =
        Safe-bind (λ r db'. Owned id user db r × (db' ≡ db)) _ _
          (Safe-outcome (λ db'. db' ≡ db) _ (get_by_id-Owned id user db) (λ db' e. rw e unchanged)
            (λ _ _ q. q))
          λ r db' own. rw own.1 (h r own.0)

    guarded_update :
        {A : Type 0} (p : Raffle → Bool) (f : Raffle → Raffle) (a : A) (e : Error)
        → Rises p f
        → Edits (sql (update_raffles p f) >>= λ n. guard (not (n == 0)) e >>= λ _. pure a)
    guarded_update p f a e rises =
        Safe-bind (λ _ db'. Edit db db') _ _
          (Safe-sql (update_raffles p f) unchanged (updated p f rises))
          λ n db' edit. Safe-guard _ e _ edit λ _. Safe-pure a edit

    pub activate-Edit : Edits (activate id user)
    unfolding activate
    activate-Edit = owned_first _ λ r own. guarded_update _ _ _ _ (activation-Rises r.id)

    pub complete-Edit : Edits (complete id user)
    unfolding complete
    complete-Edit = owned_first _ λ r own.
        Safe-if (is_completed r) _ _ (λ _. Safe-pure r unchanged)
          λ _.
            Safe-bind (λ _ db'. Edit db db') _ _
              (Safe-sql (update_raffles (has_raffle_id r.id) (with_status completed)) unchanged (
                updated (has_raffle_id r.id) (with_status completed) (record {
                  same_id = λ r. refl;
                  same_owner = λ r. refl;
                  onward = λ r _. last_rank r.status;
                })))
              λ n db' edit. Safe-pure _ edit

    -- The status is not written.
    steady :
        (p : Raffle → Bool) (f : Raffle → Raffle)
        → ((r : Raffle) → (f r).id ≡ r.id)
        → ((r : Raffle) → (f r).user_id ≡ r.user_id)
        → ((r : Raffle) → (f r).status ≡ r.status)
        → Rises p f
    steady p f i u s = record {
      same_id = i;
      same_owner = u;
      onward = λ r _. rw (s r) (omega arith);
    }

    pub set_mode-Edit : (m : RaffleMode) → Edits (set_mode id user m)
    unfolding set_mode
    set_mode-Edit m = owned_first _ λ r own.
        guarded_update (is_draft_of r.id) (with_mode m) (with_mode m r) raffle_not_draft
          (steady _ _ (λ r. refl) (λ r. refl) (λ r. refl))

    pub set_entry_open-Edit : (b : Bool) → Edits (set_entry_open id user b)
    unfolding set_entry_open
    set_entry_open-Edit b = owned_first _ λ r own.
        guarded_update (is_active_of r.id) (with_entry_open b) (with_entry_open b r)
          raffle_not_active (steady _ _ (λ r. refl) (λ r. refl) (λ r. refl))

    pub set_discord_webhook-Edit : (url : String) → Edits (set_discord_webhook id user url)
    unfolding set_discord_webhook
    set_discord_webhook-Edit url = owned_first _ λ r own. Safe-guard _ _ _ unchanged λ _.
        Safe-bind (λ _ db'. Edit db db') _ _
          (Safe-sql (update_raffles (has_raffle_id r.id) (with_webhook (webhook_of url))) unchanged
            (updated (has_raffle_id r.id) (with_webhook (webhook_of url))
              (steady _ _ (λ r. refl) (λ r. refl) (λ r. refl))))
          λ n db' edit. Safe-pure _ edit
