-- ===== src/Effect/Safe.antt =====
-- Total postconditions: what holds of the result and the tables if a run returns, and what holds of
-- the tables if it fails. These are the rules for code outside transactions.
use tachigo.Base.{ℕ, ◌==◌, ◌≡◌, refl, Option, none, some, Bool, true, false, if◌then◌else◌}
use tachigo.Models.{Uuid, Time, Error, Result, ok, err, record_not_found}
use tachigo.Effect.{
  Db, Env, World, M, world, ticked, pure, raise, attempt, sql, commit, close_tx, transaction, now,
  guard, continue, ◌>>=◌, renamed, not_found_as, catch, ask, new_uuid, lift,
}
use tachigo.Effect.Ensures.{Post, Ensures, Gives}

abbrev pub Outcome : {A : Type 0} → (Db → Type 0) → Result A × World → (A → Db → Type 0) → Type 0
Outcome E (ok a, w) Q = Q a w.db
Outcome E (err e, w) Q = E w.db

-- From the tables `db`, whatever the environment: if `m` returns, `Q` holds, and if not, `E` does.
pub record Safe {A : Type 0} (E : Db → Type 0) (db : Db) (m : M A) (Q : A → Db → Type 0)
    : Type 0 where
  pub at : (env : Env) (tick : ℕ) → Outcome E (m (world env tick db)) Q

-- What a run leaves satisfies what both of its outcomes promise.
pub Safe-keeps :
    {A : Type 0} (P : Db → Type 0) (m : M A) (w : World)
    → Safe P w.db m (λ _ db. P db)
    → P (m w).1.db
Safe-keeps {A} P m w s = go (m w) (s.at w.env w.tick)
  where
    go : (r : Result A × World) → Outcome P r (λ _ db. P db) → P r.1.db
    go (ok a, w') h = h
    go (err e, w') h = h

module _ {A : Type 0} (E : Db → Type 0) (Q : A → Db → Type 0) where
  commit-Outcome :
      (x : Option Error) (before : Db) (a : A) (w : World)
      → E before
      → Q a w.db
      → Outcome E (commit x before a w) Q
  commit-Outcome none before a w h g = g
  commit-Outcome (some e) before a w h g = h

  close_tx-Outcome :
      (before : Db) (r : Result A × World) → E before → Post r Q → Outcome E (close_tx before r) Q
  close_tx-Outcome before (ok a, w) h g =
      commit-Outcome (w.env.fault w.tick) before a (ticked w) h g
  close_tx-Outcome before (err e, w) h g = h

  attempt-Outcome :
      (x : Option Error) (r : Result (A × Db)) (w : World)
      → E w.db
      → Gives r Q
      → Outcome E (attempt x r w) Q
  attempt-Outcome none (ok (a, db)) w h g = g
  attempt-Outcome none (err e) w h g = h
  attempt-Outcome (some e) r w h g = h

module _ {A : Type 0} {E : Db → Type 0} {Q : A → Db → Type 0} {db : Db} where
  pub Safe-pure : (a : A) → Q a db → Safe E db (pure a) Q
  unfolding pure
  Safe-pure a q = record { at = λ env tick. q }

  pub Safe-raise : (e : Error) → E db → Safe E db (raise e) Q
  unfolding raise
  Safe-raise e h = record { at = λ env tick. h }

  pub Safe-if :
      (b : Bool) (m n : M A)
      → (b ≡ true → Safe E db m Q)
      → (b ≡ false → Safe E db n Q)
      → Safe E db (if b then m else n) Q
  Safe-if true m n hm hn = hm refl
  Safe-if false m n hm hn = hn refl

  pub Safe-sql : (f : Db → Result (A × Db)) → E db → Gives (f db) Q → Safe E db (sql f) Q
  unfolding sql
  Safe-sql f h g = record {
    at = λ env tick. attempt-Outcome E Q (env.fault tick) (f db) (ticked (world env tick db)) h g;
  }

  -- A transaction whose body fails, or that does not commit, leaves the tables it began with.
  pub Safe-transaction : (m : M A) → E db → Ensures db m Q → Safe E db (transaction m) Q
  unfolding transaction
  Safe-transaction m h g = record {
    at = λ env tick. close_tx-Outcome E Q db (m (world env tick db)) h (g.at env tick);
  }

module _ {A B : Type 0} (E E' : Db → Type 0) (Q : A → Db → Type 0) (R : B → Db → Type 0) where
  continue-Outcome :
      (k : A → M B) (r : Result A × World)
      → Outcome E r Q
      → ((a : A) (db : Db) → Q a db → Safe E db (k a) R)
      → Outcome E (continue r k) R
  continue-Outcome k (ok a, w) h g = (g a w.db h).at w.env w.tick
  continue-Outcome k (err e, w) h g = h

  catch-Outcome :
      (f : Result A → M B) (r : Result A × World)
      → Outcome E' r Q
      → ((a : A) (db : Db) → Q a db → Safe E db (f (ok a)) R)
      → ((e : Error) (db : Db) → E' db → Safe E db (f (err e)) R)
      → Outcome E (f r.0 r.1) R
  catch-Outcome f (ok a, w) h g x = (g a w.db h).at w.env w.tick
  catch-Outcome f (err e, w) h g x = (x e w.db h).at w.env w.tick

module _ {A B : Type 0} {E : Db → Type 0} {R : B → Db → Type 0} {db : Db} where
  -- The caller takes either outcome.
  pub Safe-catch :
      (E' : Db → Type 0) (Q : A → Db → Type 0) (m : M A) (f : Result A → M B)
      → Safe E' db m Q
      → ((a : A) (db' : Db) → Q a db' → Safe E db' (f (ok a)) R)
      → ((e : Error) (db' : Db) → E' db' → Safe E db' (f (err e)) R)
      → Safe E db (catch m f) R
  unfolding catch
  Safe-catch E' Q m f h g x = record {
    at = λ env tick. catch-Outcome E E' Q R f (m (world env tick db)) (h.at env tick) g x;
  }

  pub Safe-bind :
      (Q : A → Db → Type 0) (m : M A) (k : A → M B)
      → Safe E db m Q
      → ((a : A) (db' : Db) → Q a db' → Safe E db' (k a) R)
      → Safe E db (m >>= k) R
  unfolding ◌>>=◌
  Safe-bind Q m k h g = record {
    at = λ env tick. continue-Outcome E E Q R k (m (world env tick db)) (h.at env tick) g;
  }

pub Safe-lift :
    {A : Type 0} {E : Db → Type 0} {Q : A → Db → Type 0} {db : Db} (r : Result A)
    → E db
    → ((a : A) → Q a db)
    → Safe E db (lift r) Q
unfolding lift
Safe-lift (ok a) h g = record { at = λ env tick. g a }
Safe-lift (err e) h g = record { at = λ env tick. h }

-- A guard that ends a run.
pub Safe-check :
    {E : Db → Type 0} {db : Db} {Q : Unit {0} → Db → Type 0} (b : Bool) (e : Error)
    → E db
    → Q tt db
    → Safe E db (guard b e) Q
unfolding guard
Safe-check true e h q = record { at = λ env tick. q }
Safe-check false e h q = record { at = λ env tick. h }

module _ {B : Type 0} {E : Db → Type 0} {R : B → Db → Type 0} {db : Db} where
  pub Safe-guard :
      (b : Bool) (e : Error) (k : Unit {0} → M B)
      → E db
      → (b ≡ true → Safe E db (k tt) R)
      → Safe E db (guard b e >>= k) R
  unfolding guard ◌>>=◌
  Safe-guard true e k h g = g refl
  Safe-guard false e k h g = record { at = λ env tick. h }

  -- A guard whose failure says that its test failed.
  pub Safe-guard_else :
      (b : Bool) (e : Error) (k : Unit {0} → M B)
      → (b ≡ false → E db)
      → (b ≡ true → Safe E db (k tt) R)
      → Safe E db (guard b e >>= k) R
  unfolding guard ◌>>=◌
  Safe-guard_else true e k h g = g refl
  Safe-guard_else false e k h g = record { at = λ env tick. h refl }

  pub Safe-bind-now : (k : Time → M B) → ((t : Time) → Safe E db (k t) R) → Safe E db (now >>= k) R
  unfolding now ◌>>=◌
  Safe-bind-now k g = record { at = λ env tick. (g (env.clock tick)).at env (ℕ.suc tick) }

  pub Safe-bind-clock :
      (k : Time → M B)
      → ((t : Time) → (t == 0) ≡ false → Safe E db (k t) R)
      → Safe E db (now >>= k) R
  unfolding now ◌>>=◌
  Safe-bind-clock k g = record {
    at = λ env tick. (g (env.clock tick) (env.clock_set tick)).at env (ℕ.suc tick);
  }

  pub Safe-bind-new_uuid :
      (k : Uuid → M B) → ((i : Uuid) → Safe E db (k i) R) → Safe E db (new_uuid >>= k) R
  unfolding new_uuid ◌>>=◌
  Safe-bind-new_uuid k g = record { at = λ env tick. (g (env.uuid tick)).at env (ℕ.suc tick) }

  pub Safe-ask : (f : Env → ℕ → B) → ((b : B) → R b db) → Safe E db (ask f) R
  unfolding ask
  Safe-ask f g = record { at = λ env tick. g (f env tick) }

  pub Safe-bind-ask :
      {A : Type 0} (f : Env → ℕ → A) (k : A → M B)
      → ((a : A) → Safe E db (k a) R)
      → Safe E db (ask f >>= k) R
  unfolding ask ◌>>=◌
  Safe-bind-ask f k g = record { at = λ env tick. (g (f env tick)).at env (ℕ.suc tick) }

renamed-Outcome :
    {A : Type 0} (E : Db → Type 0) (Q : A → Db → Type 0) (e : Error) (r : Result A × World)
    → Outcome E r Q
    → Outcome E (renamed e r.0, r.1) Q
renamed-Outcome E Q e (ok a, w) h = h
renamed-Outcome E Q e (err record_not_found, w) h = h
renamed-Outcome E Q e (err f, w) h = h

-- The error of a missing row is renamed.
pub Safe-found :
    {A : Type 0} {E : Db → Type 0} {Q : A → Db → Type 0} {db : Db} (e : Error) (m : M A)
    → Safe E db m Q
    → Safe E db (not_found_as e m) Q
unfolding not_found_as
Safe-found {A} {E} {Q} {db} e m h = record {
  at = λ env tick. renamed-Outcome E Q e (m (world env tick db)) (h.at env tick);
}

outcome-weaken :
    {A : Type 0} (E E' : Db → Type 0) (Q Q' : A → Db → Type 0) (r : Result A × World)
    → ((db : Db) → E db → E' db)
    → ((a : A) (db : Db) → Q a db → Q' a db)
    → Outcome E r Q
    → Outcome E' r Q'
outcome-weaken E E' Q Q' (ok a, w) f g h = g a w.db h
outcome-weaken E E' Q Q' (err e, w) f g h = f w.db h

-- Weaker promises for either outcome.
pub Safe-outcome :
    {A : Type 0} {m : M A} {db : Db} {E' : Db → Type 0} {Q' : A → Db → Type 0} (E : Db → Type 0)
    (Q : A → Db → Type 0)
    → Safe E db m Q
    → ((db' : Db) → E db' → E' db')
    → ((a : A) (db' : Db) → Q a db' → Q' a db')
    → Safe E' db m Q'
Safe-outcome {A} {m} {db} {E'} {Q'} E Q s f g = record {
  at = λ env tick. outcome-weaken E E' Q Q' (m (world env tick db)) f g (s.at env tick);
}

-- A body of a transaction, whose failure promises nothing.
pub Safe-Ensures :
    {A : Type 0} {E : Db → Type 0} {Q : A → Db → Type 0} {db : Db} {m : M A}
    → Safe E db m Q
    → Ensures db m Q
Safe-Ensures {A} {E} {Q} {db} {m} s = record {
  at = λ env tick. go (m (world env tick db)) (s.at env tick);
}
  where
    go : (r : Result A × World) → Outcome E r Q → Post r Q
    go (ok a, w) h = h
    go (err e, w) h = tt
