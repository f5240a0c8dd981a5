-- ===== src/Ledger/Audit.antt =====
-- What audited books are: every balance is the sum of its transactions.
use tachigo.Base.{
  ◌≡◌, Bool, true, false, none, List, [], ◌∷◌, ◌==◌, if◌then◌else◌, find_first, All, inl, inr,
  Bool-cases,
}
use tachigo.Int.{ℤ, pos, ◌+ℤ◌, ◌≤ℤ◌, IsInt64, +ℤ_comm, +ℤ_zero_left}
use tachigo.Models.{Uuid, TxSource, spend, claim, PointsLedger, PointsTransaction}
use tachigo.Effect.{Db}
use tachigo.Ledger.{owned, has_id, has_tx_id}

-- What the transactions have moved on a ledger.
unfoldable pub deltas : Uuid → List PointsTransaction → ℤ
deltas id [] = pos 0
deltas id (t ∷ ts) = (if t.ledger_id == id then t.delta else pos 0) +ℤ deltas id ts

-- Earnings count towards the cumulative total; spending and claiming do not.
abbrev pub is_earning : TxSource → Bool
is_earning spend = false
is_earning claim = false
is_earning _ = true

abbrev pub earned_by : PointsTransaction → ℤ
earned_by t = if is_earning t.source then t.delta else pos 0

unfoldable pub earnings : Uuid → List PointsTransaction → ℤ
earnings id [] = pos 0
earnings id (t ∷ ts) = (if t.ledger_id == id then earned_by t else pos 0) +ℤ earnings id ts

-- A posting moves the sums of its own ledger, and of no other.
module _ (t : PointsTransaction) (ts : List PointsTransaction) where
  pub deltas_other : (id : Uuid) → (t.ledger_id == id) ≡ false → deltas id (t ∷ ts) ≡ deltas id ts
  unfolding deltas
  deltas_other id e = rw (e, deltas) (+ℤ_zero_left _)

  pub earnings_other :
      (id : Uuid) → (t.ledger_id == id) ≡ false → earnings id (t ∷ ts) ≡ earnings id ts
  unfolding earnings
  earnings_other id e = rw (e, earnings) (+ℤ_zero_left _)

  pub deltas_same :
      (id : Uuid) → (t.ledger_id == id) ≡ true → deltas id (t ∷ ts) ≡ deltas id ts +ℤ t.delta
  unfolding deltas
  deltas_same id e = rw (e, deltas) (+ℤ_comm _ _)

  pub earnings_idle :
      (id : Uuid) → is_earning t.source ≡ false → earnings id (t ∷ ts) ≡ earnings id ts
  unfolding earnings
  earnings_idle id e = elim (Bool-cases (t.ledger_id == id)) [
    | inl same ↦ rw (same, e, earnings) (+ℤ_zero_left _)
    | inr other ↦ rw (other, earnings) (+ℤ_zero_left _)
  ]

  pub earnings_same :
      (id : Uuid)
      → (t.ledger_id == id) ≡ true
      → is_earning t.source ≡ true
      → earnings id (t ∷ ts) ≡ earnings id ts +ℤ t.delta
  unfolding earnings
  earnings_same id e s = rw (e, s, earnings) (+ℤ_comm _ _)

-- One row agrees with the log, and its balance is an int64 that is not negative.
pub record IsBalanced (ts : List PointsTransaction) (l : PointsLedger) : Type 0 where
  pub spendable : l.spendable_balance ≡ deltas l.id ts
  pub cumulative : l.cumulative_total ≡ earnings l.id ts
  pub nonneg : pos 0 ≤ℤ l.spendable_balance
  pub spendable_fits : IsInt64 l.spendable_balance

-- No two rows share an id or an owner and channel.
pub record Apart (l r : PointsLedger) : Type 0 where
  pub other_id : has_id l.id r ≡ false
  pub other_owner : owned l.user_id l.channel_id r ≡ false

abbrev pub IsKeyed : List PointsLedger → Type 0
IsKeyed [] = Unit
IsKeyed (l ∷ ls) = All (Apart l) ls × IsKeyed ls

-- Every transaction names a ledger that is there.
abbrev pub IsPosted : List PointsLedger → PointsTransaction → Type 0
IsPosted ls t = ¬ (find_first (has_id t.ledger_id) ls ≡ none)

-- No two transactions share an id.
abbrev pub HasDistinctIds : List PointsTransaction → Type 0
HasDistinctIds [] = Unit
HasDistinctIds (t ∷ ts) = (find_first (has_tx_id t.id) ts ≡ none) × HasDistinctIds ts

pub record IsAudited (db : Db) : Type 0 where
  pub balanced : All (IsBalanced db.points_transactions) db.points_ledgers
  pub keyed : IsKeyed db.points_ledgers
  pub posted : All (IsPosted db.points_ledgers) db.points_transactions
  pub distinct : HasDistinctIds db.points_transactions
