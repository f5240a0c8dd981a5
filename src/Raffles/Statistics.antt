-- ===== src/Raffles/Statistics.antt =====
-- The statistics of a raffle's entries (GetEntryStats), read in three statements.
use tachigo.Base.{ℕ, Bool, not, ◌&&◌, ◌||◌, Option, none, some, ◌==◌, if◌then◌else◌, count_where}
use tachigo.Int.{ℤ, pos, ◌-ℤ◌}
use tachigo.Models.{Uuid, Name, RaffleEntry, ok}
use tachigo.Effect.{M, sql, ◌>>=◌, ◌>>◌, pure}
use tachigo.Raffles.{get_by_id}

-- The reasons are a map: a reason that no entry has is not in it.
pub record EntryStats : Type 0 where
  pub eligible_count : ℤ
  pub ineligible_count : ℤ
  pub ineligible_reasons : Name → Option ℤ
  pub total_joined : ℤ

abbrev pub is_entry_of : Uuid → RaffleEntry → Bool
is_entry_of raffle e = e.raffle_id == raffle

abbrev pub is_eligible_in : Uuid → RaffleEntry → Bool
is_eligible_in raffle e = is_entry_of raffle e && e.eligible

abbrev pub is_ineligible_in : Uuid → RaffleEntry → Bool
is_ineligible_in raffle e = is_entry_of raffle e && not e.eligible

abbrev pub is_ineligible_for : Uuid → Name → RaffleEntry → Bool
is_ineligible_for raffle reason e = is_ineligible_in raffle e && e.ineligible_reason == reason

abbrev pub count_entries : (RaffleEntry → Bool) → M ℕ
count_entries p = sql λ db. ok (count_where p db.raffle_entries, db)

-- `GROUP BY ineligible_reason`, less the group of the empty reason.
abbrev pub grouped : ℕ → Name → Option ℤ
grouped n reason = if n == 0 || reason == 0 then none else some (pos n)

unfoldable pub get_entry_stats : Uuid → Uuid → M EntryStats
unfolding get_by_id
get_entry_stats raffle user = do
  get_by_id raffle user
  total ← count_entries (is_entry_of raffle)
  eligible ← count_entries (is_eligible_in raffle)
  reasons ← sql λ db. ok (
    (λ reason. grouped (count_where (is_ineligible_for raffle reason) db.raffle_entries) reason),
    db,
  )
  pure (record {
    eligible_count = pos eligible;
    ineligible_count = pos total -ℤ pos eligible;
    ineligible_reasons = reasons;
    total_joined = pos total;
  })
