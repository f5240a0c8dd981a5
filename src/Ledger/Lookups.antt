-- ===== src/Ledger/Lookups.antt =====
-- Lookups of one row, whose missing row the caller looks at.
use tachigo.Base.{ℕ, ◌≡◌, Option, none, some}
use tachigo.Models.{Result, Error, ok, record_not_found}
use tachigo.Effect.{Db, Env, M, world, sql, attempt, continue, defaulted, pure, ◌>>=◌, not_found_to}
use tachigo.Effect.Ensures.{Ensures}
use tachigo.Effect.Safe.{Safe, Outcome}
use tachigo.Effect.Handled.{Ensures-bind-optional, Safe-bind-optional}
use tachigo.Ledger.{row_or_missing}

module _ {A B : Type 0} {R : B → Db → Type 0} {db : Db} where
  -- The lookup answers with the row that the tables hold, or with `none` if they hold none.
  pub Ensures-bind-lookup :
      (o : Option A) (f : Db → Result (A × Db)) (k : Option A → M B)
      → f db ≡ row_or_missing o db
      → Ensures db (k o) R
      → Ensures db (not_found_to none (sql f >>= λ a. pure (some a)) >>= k) R
  Ensures-bind-lookup (some a) f k e h = Ensures-bind-optional f k (rw e h) (λ q. cc (e, q))
  Ensures-bind-lookup none f k e h = Ensures-bind-optional f k (rw e tt) (λ _. h)

module _ {A B : Type 0} {E : Db → Type 0} {R : B → Db → Type 0} {db : Db} where
  -- The same, for code outside transactions.
  pub Safe-bind-lookup :
      (o : Option A) (f : Db → Result (A × Db)) (k : Option A → M B)
      → f db ≡ row_or_missing o db
      → E db
      → Safe E db (k o) R
      → Safe E db (not_found_to none (sql f >>= λ a. pure (some a)) >>= k) R
  Safe-bind-lookup (some a) f k e x h = Safe-bind-optional f k x (rw e h) (λ q. cc (e, q))
  Safe-bind-lookup none f k e x h = Safe-bind-optional f k x (rw e tt) (λ _. h)

attempt-lookup :
    {A : Type 0} (E : Db → Type 0) (Q : Option A → Db → Type 0) (x : Option Error) (o : Option A)
    (env : Env) (tick : ℕ) (db : Db)
    → E db
    → Q o db
    → let (s, w) =
        continue (attempt x (row_or_missing o db) (world env tick db)) (λ a w. (ok (some a), w)) in
      Outcome E (defaulted none s, w) Q
attempt-lookup E Q none none env tick db y q = q
attempt-lookup E Q none (some a) env tick db y q = q
attempt-lookup E Q (some record_not_found) o env tick db y q = y
attempt-lookup E Q (some e) o env tick db y q = y

-- A lookup that ends a run.
pub Safe-lookup :
    {A : Type 0} {E : Db → Type 0} {Q : Option A → Db → Type 0} {db : Db} (o : Option A)
    (f : Db → Result (A × Db))
    → f db ≡ row_or_missing o db
    → E db
    → Q o db
    → Safe E db (not_found_to none (sql f >>= λ a. pure (some a))) Q
unfolding not_found_to sql pure ◌>>=◌
Safe-lookup {A} {E} {Q} {db} o f e y q = record {
  at = λ env tick. rw e (attempt-lookup E Q (env.fault tick) o env (ℕ.suc tick) db y q);
}
