-- ===== src/Points/Credit.antt =====
-- Awards of points: AddPoints and AddPointsWithMeta of services/points_service.go.
use tachigo.Base.{◌≡◌, refl, true, not, arith}
use tachigo.Int.{ℤ, pos, ◌≤ℤ◌, IsInt64, leb_ℤ}
use tachigo.Models.{Uuid, Time, Name, TxSource}
use tachigo.Effect.{Db}
use tachigo.Effect.Ensures.{Ensures, Ensures-bind-now}
use tachigo.Effect.Safe.{Safe, Safe-guard, Safe-transaction}
use tachigo.Ledger.Audit.{is_earning, IsAudited}
use tachigo.Ledger.Awards.{Awards, Credited, Logged}
use tachigo.Ledger.Credit.{credit-Ensures, credit-Logged}
use tachigo.Points.{
  PointsCreditMeta, validate_positive_points_amount, credit_row, add_points_with_meta_at,
  add_points_with_meta,
}

credit_row-Awards :
    (source : TxSource) (amount : ℤ) (meta : PointsCreditMeta) (at : Time)
    → is_earning source ≡ true
    → Awards amount (credit_row source amount meta at)
credit_row-Awards source amount meta at e = record {
  owner = λ l. refl;
  moved = λ l. refl;
  earning = λ l. e;
}

-- One credit at a given time.
pub add_points_with_meta_at-Logged :
    (at : Time) (user : Uuid) (channel : Name) (source : TxSource) (amount : ℤ)
    (meta : PointsCreditMeta) (db : Db)
    → is_earning source ≡ true
    → pos 0 ≤ℤ amount
    → IsInt64 amount
    → IsAudited db
    → Ensures db (add_points_with_meta_at at user channel source amount meta) (λ l db'.
      Credited user channel amount db l db'
      × Logged user channel (credit_row source amount meta at l) db db')
unfolding add_points_with_meta_at
add_points_with_meta_at-Logged at user channel source amount meta db earned above fits audit =
    credit-Logged user channel amount at (credit_row source amount meta at) db audit
      (credit_row-Awards source amount meta at earned) above fits

positive : (amount : ℤ) → not (leb_ℤ amount (pos 0)) ≡ true → pos 0 ≤ℤ amount
positive amount h = ground arith

-- A credit of an earning source, from audited books: if it returns, they are audited still, the
-- ledger returned is the stored one, and both of its balances have risen by the amount; if it
-- fails, at whatever statement, the tables are what they were.
pub add_points_with_meta-Credited :
    (user : Uuid) (channel : Name) (source : TxSource) (amount : ℤ) (meta : PointsCreditMeta)
    (db : Db)
    → is_earning source ≡ true
    → IsInt64 amount
    → IsAudited db
    → Safe
        (λ db'. db' ≡ db)
        db
        (add_points_with_meta user channel source amount meta)
        (λ l db'. Credited user channel amount db l db')
unfolding add_points_with_meta validate_positive_points_amount add_points_with_meta_at
add_points_with_meta-Credited user channel source amount meta db earned fits audit =
    Safe-guard _ _ _ refl λ above_zero. Safe-guard _ _ _ refl λ _. Safe-guard _ _ _ refl λ _.
      Safe-transaction _ refl (
        Ensures-bind-now _ λ at.
          credit-Ensures user channel amount at (credit_row source amount meta at) db audit
            (credit_row-Awards source amount meta at earned) (positive amount above_zero) fits)
