-- ===== src/Raffles.antt =====
-- services/api/internal/services/raffle_service.go: raffles and their status. The pairs of a method
-- and its `…Context` form are one definition. The children follow the rest of the service: prize
-- tiers, draws, and the claims of winners.
pub mod Recording
pub mod Tiers
pub mod Draws
pub mod Winners
pub mod Access
pub mod Fairness
pub mod Drawing
pub mod Deletions
pub mod Quotas
pub mod Pools
pub mod Delivery
pub mod Entries
pub mod Joining
pub mod Edits
pub mod Imports
pub mod Statistics
pub mod Importing
pub mod Syncing
pub mod Snapshots
pub mod Pages
pub mod Calls
pub mod Turns
pub mod Batches
pub mod Serving
pub mod Activations
pub mod Counting
pub mod Lifecycle
use tachigo.Base.{
  ℕ, String, Bool, true, false, not, ◌&&◌, ◌||◌, Option, none, some, List, [], ◌∷◌, ◌==◌, leb,
  if◌then◌else◌, find_first, select, sort_by, update_where, count_where,
}
use tachigo.Int.{pos}
use tachigo.Models.{
  Uuid, Time, Name, RaffleStatus, draft, active, completed, RaffleSource, csv, RaffleMode, public,
  Raffle, Result, ok, err, duplicated_key, raffle_not_found, raffle_forbidden, raffle_not_draft,
  raffle_not_active, invalid_discord_webhook_url,
}
use tachigo.Effect.{Db, M, sql, now, new_uuid, guard, raise, not_found_as, ◌>>=◌, ◌>>◌, pure}
use tachigo.Ledger.{row_or_missing}
use text.Mathlib.Text.{starts_with, ◌==◌ as str_eq}

abbrev pub has_raffle_id : Uuid → Raffle → Bool
has_raffle_id id r = r.id == id

abbrev pub first_raffle : Uuid → Db → Result (Raffle × Db)
first_raffle id db = row_or_missing (find_first (has_raffle_id id) db.raffles) db

abbrev pub is_draft : Raffle → Bool
is_draft r = elim r.status [ draft ↦ true | _ ↦ false ]

abbrev pub is_active : Raffle → Bool
is_active r = elim r.status [ active ↦ true | _ ↦ false ]

abbrev pub is_completed : Raffle → Bool
is_completed r = elim r.status [ completed ↦ true | _ ↦ false ]

abbrev pub new_raffle : Uuid → Uuid → Name → Time → Raffle
new_raffle id user title at = record {
  id = id;
  user_id = user;
  title = title;
  status = draft;
  source = csv;
  mode = public;
  winner_count = pos 1;
  entry_open = false;
  scheduled_at = none;
  discord_webhook_url = none;
  created_at = at;
}

abbrev pub insert_raffle_row : Raffle → Option Raffle → Db → Result (Raffle × Db)
insert_raffle_row r (some _) db = err duplicated_key
insert_raffle_row r none db = ok (r, record db { raffles = r ∷ db.raffles })

abbrev pub insert_raffle : Raffle → Db → Result (Raffle × Db)
insert_raffle r db = insert_raffle_row r (find_first (has_raffle_id r.id) db.raffles) db

pub create : Uuid → Name → M Raffle
create user title = do id ← new_uuid; at ← now; sql (insert_raffle (new_raffle id user title at))

pub get_by_id : Uuid → Uuid → M Raffle
get_by_id id user = do
  r ← not_found_as raffle_not_found (sql (first_raffle id))
  guard (r.user_id == user) raffle_forbidden
  pure r

-- `ORDER BY created_at DESC`
abbrev pub created_later : Raffle → Raffle → Bool
created_later r s = leb s.created_at r.created_at

pub list_by_streamer : Uuid → M (List Raffle)
list_by_streamer user =
    sql λ db. ok (sort_by created_later (select (λ r. r.user_id == user) db.raffles), db)

-- `Where(…).Update(…)`: the number of rows affected.
abbrev pub update_raffles : (Raffle → Bool) → (Raffle → Raffle) → Db → Result (ℕ × Db)
update_raffles p f db =
    ok (count_where p db.raffles, record db { raffles = update_where p f db.raffles })

abbrev pub with_status : RaffleStatus → Raffle → Raffle
with_status s r = record r { status = s }

-- `id = ? AND status = 'draft'`
abbrev pub is_draft_of : Uuid → Raffle → Bool
is_draft_of id r = has_raffle_id id r && is_draft r

abbrev pub is_active_of : Uuid → Raffle → Bool
is_active_of id r = has_raffle_id id r && is_active r

pub activate : Uuid → Uuid → M Raffle
unfolding get_by_id
activate id user = do
  r ← get_by_id id user
  affected ← sql (update_raffles (is_draft_of r.id) (with_status active))
  guard (not (affected == 0)) raffle_not_draft
  pure (with_status active r)

pub complete : Uuid → Uuid → M Raffle
unfolding get_by_id
complete id user = do
  r ← get_by_id id user
  if is_completed r then pure r else do
    sql (update_raffles (has_raffle_id r.id) (with_status completed))
    pure (with_status completed r)

abbrev pub with_mode : RaffleMode → Raffle → Raffle
with_mode m r = record r { mode = m }

pub set_mode : Uuid → Uuid → RaffleMode → M Raffle
unfolding get_by_id
set_mode id user m = do
  r ← get_by_id id user
  affected ← sql (update_raffles (is_draft_of r.id) (with_mode m))
  guard (not (affected == 0)) raffle_not_draft
  pure (with_mode m r)

abbrev pub with_entry_open : Bool → Raffle → Raffle
with_entry_open b r = record r { entry_open = b }

pub set_entry_open : Uuid → Uuid → Bool → M Raffle
unfolding get_by_id
set_entry_open id user b = do
  r ← get_by_id id user
  affected ← sql (update_raffles (is_active_of r.id) (with_entry_open b))
  guard (not (affected == 0)) raffle_not_active
  pure (with_entry_open b r)

abbrev pub is_webhook_url : String → Bool
is_webhook_url url =
    starts_with url "https://discord.com/api/webhooks/"
    || starts_with url "https://discordapp.com/api/webhooks/"

abbrev pub with_webhook : Option String → Raffle → Raffle
with_webhook url r = record r { discord_webhook_url = url }

abbrev pub webhook_of : String → Option String
webhook_of url = if str_eq url "" then none else some url

pub set_discord_webhook : Uuid → Uuid → String → M Raffle
unfolding get_by_id
set_discord_webhook id user url = do
  r ← get_by_id id user
  guard (str_eq url "" || is_webhook_url url) invalid_discord_webhook_url
  sql (update_raffles (has_raffle_id r.id) (with_webhook (webhook_of url)))
  pure (with_webhook (webhook_of url) r)
