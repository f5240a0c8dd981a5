-- ===== src/Raffles/Counting.antt =====
-- The statistics of a raffle: GetEntryStats of services/raffle_service.go.
use tachigo.Base.{◌≡◌, false, some, List, ◌==◌, count_where}
use tachigo.Int.{ℤ, pos}
use tachigo.Models.{Uuid, Name, RaffleEntry}
use tachigo.Effect.Safe.{Safe}
use tachigo.Raffles.Statistics.{
  EntryStats, is_entry_of, is_eligible_in, is_ineligible_in, is_ineligible_for,
}

-- What the numbers stand for.
pub record Tallied (raffle : Uuid) (es : List RaffleEntry) (s : EntryStats) : Type 0 where
  pub eligible : s.eligible_count ≡ pos (count_where (is_eligible_in raffle) es)
  pub ineligible : s.ineligible_count ≡ pos (count_where (is_ineligible_in raffle) es)
  pub total : s.total_joined ≡ pos (count_where (is_entry_of raffle) es)
  pub reasons :
      (reason : Name) (n : ℤ)
      → s.ineligible_reasons reason ≡ some n
      → ((reason == 0) ≡ false) × (n ≡ pos (count_where (is_ineligible_for raffle reason) es))
