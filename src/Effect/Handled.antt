-- ===== src/Effect/Handled.antt =====
-- Rules for code in a transaction that looks at an error itself: a statement that failed has
-- changed nothing.
use tachigo.Base.{ℕ, ◌≡◌, refl, ap, Option, none, some}
use tachigo.Models.{Error, Result, ok, err, record_not_found}
use tachigo.Effect.{
  Db, Env, M, world, pure, attempt, faulted, sql, continue, defaulted, not_found_to, catch, ◌>>=◌,
}
use tachigo.Effect.Ensures.{Post, Ensures, Gives}
use tachigo.Effect.Safe.{Safe, Outcome}

module _ {A B : Type 0} (R : B → Db → Type 0) (g : Result A → M B) where
  attempt-catch-Post :
      (x : Option Error) (r : Result (A × Db)) (env : Env) (tick : ℕ) (db : Db)
      → Gives r (λ a db'. Ensures db' (g (ok a)) R)
      → ((e : Error) → Ensures db (g (err e)) R)
      → let (s, w) = attempt x r (world env tick db) in Post (g s w) R
  attempt-catch-Post none (ok (a, db')) env tick db h k = h.at env tick
  attempt-catch-Post none (err e) env tick db h k = (k e).at env tick
  attempt-catch-Post (some e) r env tick db h k = (k (faulted e)).at env tick

module _ {A B : Type 0} {R : B → Db → Type 0} {db : Db} where
  pub Ensures-catch-sql :
      (f : Db → Result (A × Db)) (g : Result A → M B)
      → Gives (f db) (λ a db'. Ensures db' (g (ok a)) R)
      → ((e : Error) → Ensures db (g (err e)) R)
      → Ensures db (catch (sql f) g) R
  unfolding catch sql
  Ensures-catch-sql f g h k = record {
    at = λ env tick. attempt-catch-Post R g (env.fault tick) (f db) env (ℕ.suc tick) db h k;
  }

module _ {A B : Type 0} (R : B → Db → Type 0) (k : Option A → M B) where
  abbrev Passed : Result (Option A) → Env → ℕ → Db → Type 0
  Passed r env tick db = Post (continue (defaulted none r, world env tick db) k) R

  error-Post :
      (e : Error) (env : Env) (tick : ℕ) (db : Db)
      → (e ≡ record_not_found → Ensures db (k none) R)
      → Passed (err e) env tick db
  error-Post record_not_found env tick db n = (n refl).at env tick
  error-Post e env tick db n = tt

  attempt-optional-Post :
      (x : Option Error) (r : Result (A × Db)) (env : Env) (tick : ℕ) (db : Db)
      → Gives r (λ a db'. Ensures db' (k (some a)) R)
      → (r ≡ err record_not_found → Ensures db (k none) R)
      → let (s, w) = continue (attempt x r (world env tick db)) (λ a w. (ok (some a), w)) in
        Post (continue (defaulted none s, w) k) R
  attempt-optional-Post none (ok (a, db')) env tick db h n = h.at env tick
  attempt-optional-Post none (err e) env tick db h n = error-Post e env tick db λ q. n (ap err q)
  attempt-optional-Post (some record_not_found) r env tick db h n = tt
  attempt-optional-Post (some e) r env tick db h n = tt

module _ {A B : Type 0} {R : B → Db → Type 0} {db : Db} where
  -- A lookup whose missing row is `none`.
  pub Ensures-bind-optional :
      (f : Db → Result (A × Db)) (k : Option A → M B)
      → Gives (f db) (λ a db'. Ensures db' (k (some a)) R)
      → (f db ≡ err record_not_found → Ensures db (k none) R)
      → Ensures db (not_found_to none (sql f >>= λ a. pure (some a)) >>= k) R
  unfolding not_found_to sql pure ◌>>=◌
  Ensures-bind-optional f k h n = record {
    at = λ env tick. attempt-optional-Post R k (env.fault tick) (f db) env (ℕ.suc tick) db h n;
  }

module _ {A B : Type 0} (E : Db → Type 0) (R : B → Db → Type 0) (k : Option A → M B) where
  abbrev Reached : Result (Option A) → Env → ℕ → Db → Type 0
  Reached r env tick db = Outcome E (continue (defaulted none r, world env tick db) k) R

  error-Outcome :
      (e : Error) (env : Env) (tick : ℕ) (db : Db)
      → E db
      → (e ≡ record_not_found → Safe E db (k none) R)
      → Reached (err e) env tick db
  error-Outcome record_not_found env tick db x n = (n refl).at env tick
  error-Outcome e env tick db x n = x

  attempt-optional-Outcome :
      (x : Option Error) (r : Result (A × Db)) (env : Env) (tick : ℕ) (db : Db)
      → E db
      → Gives r (λ a db'. Safe E db' (k (some a)) R)
      → (r ≡ err record_not_found → Safe E db (k none) R)
      → let (s, w) = continue (attempt x r (world env tick db)) (λ a w. (ok (some a), w)) in
        Outcome E (continue (defaulted none s, w) k) R
  attempt-optional-Outcome none (ok (a, db')) env tick db y h n = h.at env tick
  attempt-optional-Outcome none (err e) env tick db y h n =
      error-Outcome e env tick db y λ q. n (ap err q)
  attempt-optional-Outcome (some record_not_found) r env tick db y h n = y
  attempt-optional-Outcome (some e) r env tick db y h n = y

module _ {A B : Type 0} {E : Db → Type 0} {R : B → Db → Type 0} {db : Db} where
  -- The same, for code outside transactions.
  pub Safe-bind-optional :
      (f : Db → Result (A × Db)) (k : Option A → M B)
      → E db
      → Gives (f db) (λ a db'. Safe E db' (k (some a)) R)
      → (f db ≡ err record_not_found → Safe E db (k none) R)
      → Safe E db (not_found_to none (sql f >>= λ a. pure (some a)) >>= k) R
  unfolding not_found_to sql pure ◌>>=◌
  Safe-bind-optional f k x h n = record {
    at = λ env tick.
        attempt-optional-Outcome E R k (env.fault tick) (f db) env (ℕ.suc tick) db x h n;
  }
