-- ===== src/Models/Points.antt =====
-- Ledgers and their transactions (models/points.go).
use tachigo.Base.{String, Option}
use tachigo.Int.{ℤ}
use tachigo.Models.Status.{Uuid, Time, Name, TxSource}

pub record PointsLedger : Type 0 where
  pub id : Uuid
  pub user_id : Uuid
  pub channel_id : Name
  pub cumulative_total : ℤ
  pub spendable_balance : ℤ
  pub created_at : Time
  pub updated_at : Time

-- What a note says: a text of the caller, or the text of a compensation, which names its claim.
pub data Note : Type 0 where
  text : String → Note
  compensation_for : Uuid → Note

pub record PointsTransaction : Type 0 where
  pub id : Uuid
  pub ledger_id : Uuid
  pub watch_session_id : Option Uuid
  pub source : TxSource
  pub delta : ℤ
  pub balance_after : ℤ
  pub sku : Option String
  pub note : Option Note
  pub external_transaction_id : Option String
  pub created_at : Time
