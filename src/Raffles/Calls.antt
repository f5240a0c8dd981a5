-- ===== src/Raffles/Calls.antt =====
-- The calls of the raffle service that may change a table, and what each runs.
use tachigo.Base.{ℕ, Bool, String, List}
use tachigo.Models.{Uuid, Time, Name, RaffleMode, Result}
use tachigo.Effect.{M, pure, ◌>>=◌}
use tachigo.Raffles.{create, activate, complete, set_mode, set_entry_open, set_discord_webhook}
use tachigo.Raffles.Tiers.{
  CreatePrizeTierInput, UpdatePrizeTierInput, create_prize_tier, update_prize_tier,
  delete_prize_tier,
}
use tachigo.Raffles.Draws.{draw_next, draw_from_tier}
use tachigo.Raffles.Winners.{ClaimInput, submit_claim}
use tachigo.Raffles.Entries.{join_raffle}
use tachigo.Raffles.Imports.{import_csv, sync_from_twitch_api}
use tachigo.Raffles.Snapshots.{run_scheduled_snapshots}

-- A call of the service that may change a table.
pub data Call : Type 0 where
  creates : Uuid → Name → Call
  activates : Uuid → Uuid → Call
  completes : Uuid → Uuid → Call
  sets_mode : Uuid → Uuid → RaffleMode → Call
  sets_entry_open : Uuid → Uuid → Bool → Call
  sets_webhook : Uuid → Uuid → String → Call
  creates_tier : Uuid → Uuid → CreatePrizeTierInput → Call
  updates_tier : Uuid → Uuid → Uuid → UpdatePrizeTierInput → Call
  deletes_tier : Uuid → Uuid → Uuid → Call
  draws_next : Uuid → Uuid → Call
  draws_from_tier : Uuid → Uuid → Uuid → Call
  submits_claim : Name → Uuid → ClaimInput → Call
  joins : Uuid → Name → Call
  imports : Uuid → Uuid → List (Result (List Name)) → Call
  syncs : ℕ → Uuid → Uuid → Call
  runs_snapshots : ℕ → Time → Call

-- The answer is left out.
abbrev pub silent : {A : Type 0} → M A → M (Unit {0})
silent m = m >>= λ _. pure tt

unfoldable pub serve : Call → M (Unit {0})
serve (creates user title) = silent (create user title)
serve (activates id user) = silent (activate id user)
serve (completes id user) = silent (complete id user)
serve (sets_mode id user m) = silent (set_mode id user m)
serve (sets_entry_open id user b) = silent (set_entry_open id user b)
serve (sets_webhook id user url) = silent (set_discord_webhook id user url)
serve (creates_tier raffle user input) = silent (create_prize_tier raffle user input)
serve (updates_tier raffle id user input) = silent (update_prize_tier raffle id user input)
serve (deletes_tier raffle id user) = delete_prize_tier raffle id user
serve (draws_next raffle user) = silent (draw_next raffle user)
serve (draws_from_tier raffle tier user) = silent (draw_from_tier raffle tier user)
serve (submits_claim raw user input) = silent (submit_claim raw user input)
serve (joins raffle login) = silent (join_raffle raffle login)
serve (imports raffle user records) = silent (import_csv raffle user records)
serve (syncs fuel raffle user) = silent (sync_from_twitch_api fuel raffle user)
serve (runs_snapshots fuel at) = silent (run_scheduled_snapshots fuel at)
