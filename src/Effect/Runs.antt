-- ===== src/Effect/Runs.antt =====
-- The same postconditions for one run, from a world that is given: they may speak of its clock and its
-- surroundings.
use tachigo.Base.{ℕ, suc, ◌≤◌, ◌≡◌, refl, Option, none, some, Bool, true, false}
use tachigo.Models.{Time, Error, Result, ok, err, record_not_found}
use tachigo.Effect.{
  Db, Env, World, M, world, ticked, pure, attempt, sql, close_tx, transaction, now, ask, guard,
  continue, ◌>>=◌, renamed, not_found_as, catch, lift, faulted, commit,
}
use tachigo.Effect.Ensures.{Post, Ensures, Gives}
use tachigo.Effect.Safe.{Outcome, Safe}

-- The clock has shown the time at some moment from that of the world on.
abbrev pub IsRead : World → Time → Type 0
IsRead w t = (k : ℕ) × (w.tick ≤ k) × (t ≡ w.env.clock k)

pub record Runs {A : Type 0} (E : Db → Type 0) (w : World) (m : M A) (Q : A → Db → Type 0)
    : Type 0 where
  pub outcome : Outcome E (m w) Q

module _ {A : Type 0} {Q : A → Db → Type 0} {env : Env} {tick : ℕ} {db : Db} where
  pub Runs-Ensures : {m : M A} → Ensures db m Q → Runs (λ _. Unit) (world env tick db) m Q
  Runs-Ensures {m} s = record { outcome = go (m (world env tick db)) (s.at env tick) }
    where
      go : (r : Result A × World) → Post r Q → Outcome (λ _. Unit) r Q
      go (ok a, w) h = h
      go (err e, w) h = tt

module _ {A : Type 0} {E : Db → Type 0} {Q : A → Db → Type 0} {env : Env} {tick : ℕ} {db : Db} where
  pub Runs-Safe : {m : M A} → Safe E db m Q → Runs E (world env tick db) m Q
  Runs-Safe s = record { outcome = s.at env tick }

module _ {A B : Type 0} {E : Db → Type 0} {R : B → Db → Type 0} where
  continue-Runs :
      (Q : A → Db → Type 0) (r : Result A × World) (k : A → M B)
      → Outcome E r Q
      → ((a : A) (db : Db) → Q a db → Safe E db (k a) R)
      → Outcome E (continue r k) R
  continue-Runs Q (ok a, w) k h g = (g a w.db h).at w.env w.tick
  continue-Runs Q (err e, w) k h g = h

  -- The caller takes either outcome.
  pub Runs-catch :
      {w : World} (E' : Db → Type 0) (Q : A → Db → Type 0) (m : M A) (f : Result A → M B)
      → Runs E' w m Q
      → ((a : A) (db : Db) → Q a db → Safe E db (f (ok a)) R)
      → ((e : Error) (db : Db) → E' db → Safe E db (f (err e)) R)
      → Runs E w (catch m f) R
  unfolding catch
  Runs-catch {w} E' Q m f h g x = record { outcome = go (m w) h.outcome }
    where
      go : (r : Result A × World) → Outcome E' r Q → Outcome E (f r.0 r.1) R
      go (ok a, w') q = (g a w'.db q).at w'.env w'.tick
      go (err e, w') q = (x e w'.db q).at w'.env w'.tick

  -- What follows may no longer speak of the world.
  pub Runs-bind :
      {w : World} (Q : A → Db → Type 0) (m : M A) (k : A → M B)
      → Runs E w m Q
      → ((a : A) (db : Db) → Q a db → Safe E db (k a) R)
      → Runs E w (m >>= k) R
  unfolding ◌>>=◌
  Runs-bind {w} Q m k h g = record { outcome = continue-Runs Q (m w) k h.outcome g }

module _ {A B : Type 0} {E : Db → Type 0} {R : B → Db → Type 0} {env : Env} {tick : ℕ}
    {db : Db} where
  pub Runs-bind-sql :
      (f : Db → Result (A × Db)) (k : A → M B)
      → E db
      → Gives (f db) (λ a db'. Runs E (world env (suc tick) db') (k a) R)
      → Runs E (world env tick db) (sql f >>= k) R
  unfolding sql ◌>>=◌
  Runs-bind-sql f k h g = record { outcome = go (env.fault tick) (f db) g }
    where
      go :
          (x : Option Error) (r : Result (A × Db))
          → Gives r (λ a db'. Runs E (world env (suc tick) db') (k a) R)
          → Outcome E (continue (attempt x r (world env (suc tick) db)) k) R
      go none (ok (a, db')) g = g.outcome
      go none (err e) g = h
      go (some e) r g = h

  -- The error of a missing row is renamed.
  pub Runs-bind-found :
      (e : Error) (f : Db → Result (A × Db)) (k : A → M B)
      → E db
      → Gives (f db) (λ a db'. Runs E (world env (suc tick) db') (k a) R)
      → Runs E (world env tick db) (not_found_as e (sql f) >>= k) R
  unfolding sql not_found_as ◌>>=◌
  Runs-bind-found e f k h g = record { outcome = go (env.fault tick) (f db) g }
    where
      again :
          (x : Error) (w : World) → E w.db → Outcome E (continue (renamed {A = A} e (err x), w) k) R
      again record_not_found w h = h
      again x w h = h

      go :
          (x : Option Error) (r : Result (A × Db))
          → Gives r (λ a db'. Runs E (world env (suc tick) db') (k a) R)
          → Outcome E
              (let (r', w') = attempt x r (world env (suc tick) db) in
                continue (renamed e r', w') k)
              R
      go none (ok (a, db')) g = g.outcome
      go none (err x) g = again x (world env (suc tick) db) h
      go (some x) r g = again (faulted x) (world env (suc tick) db) h

  pub Runs-bind-pure :
      (a : A) (k : A → M B)
      → Runs E (world env tick db) (k a) R
      → Runs E (world env tick db) (pure a >>= k) R
  unfolding pure ◌>>=◌
  Runs-bind-pure a k g = record { outcome = g.outcome }

  pub Runs-bind-ask :
      (f : Env → ℕ → A) (k : A → M B)
      → Runs E (world env (suc tick) db) (k (f env tick)) R
      → Runs E (world env tick db) (ask f >>= k) R
  unfolding ask ◌>>=◌
  Runs-bind-ask f k g = record { outcome = g.outcome }

  pub Runs-bind-lift :
      (r : Result A) (k : A → M B)
      → E db
      → ((a : A) → r ≡ ok a → Runs E (world env tick db) (k a) R)
      → Runs E (world env tick db) (lift r >>= k) R
  unfolding lift ◌>>=◌
  Runs-bind-lift (ok a) k h g = record { outcome = (g a refl).outcome }
  Runs-bind-lift (err e) k h g = record { outcome = h }

module _ {B : Type 0} {E : Db → Type 0} {R : B → Db → Type 0} {env : Env} {tick : ℕ} {db : Db} where
  pub Runs-bind-now :
      (k : Time → M B)
      → Runs E (world env (suc tick) db) (k (env.clock tick)) R
      → Runs E (world env tick db) (now >>= k) R
  unfolding now ◌>>=◌
  Runs-bind-now k g = record { outcome = g.outcome }

  pub Runs-guard :
      (b : Bool) (e : Error) (k : Unit {0} → M B)
      → E db
      → (b ≡ true → Runs E (world env tick db) (k tt) R)
      → Runs E (world env tick db) (guard b e >>= k) R
  unfolding guard ◌>>=◌
  Runs-guard true e k h g = record { outcome = (g refl).outcome }
  Runs-guard false e k h g = record { outcome = h }

close_tx-Runs :
    {A : Type 0} (E : Db → Type 0) (Q : A → Db → Type 0) (before : Db) (r : Result A × World)
    → E before
    → Outcome (λ _. Unit) r Q
    → Outcome E (close_tx before r) Q
close_tx-Runs E Q before (err e, w) h g = h
close_tx-Runs {A} E Q before (ok a, w) h g = go (w.env.fault w.tick)
  where
    go : (x : Option Error) → Outcome E (commit x before a (ticked w)) Q
    go none = g
    go (some e) = h

-- A transaction whose body fails, or that does not commit, leaves the tables it began with.
pub Runs-transaction :
    {A : Type 0} {E : Db → Type 0} {w : World} {Q : A → Db → Type 0} (m : M A)
    → E w.db
    → Runs (λ _. Unit) w m Q
    → Runs E w (transaction m) Q
unfolding transaction
Runs-transaction {A} {E} {w} {Q} m h g = record {
  outcome = close_tx-Runs E Q w.db (m w) h g.outcome;
}

-- What every run keeps.
pub Safe-Runs :
    {A : Type 0} {E E' : Db → Type 0} {Q : A → Db → Type 0} {db : Db} {m : M A}
    (R : World → A → Db → Type 0)
    → ((env : Env) (tick : ℕ) → Runs E (world env tick db) m (R (world env tick db)))
    → ((db' : Db) → E db' → E' db')
    → ((env : Env) (tick : ℕ) (a : A) (db' : Db) → R (world env tick db) a db' → Q a db')
    → Safe E' db m Q
Safe-Runs {A} {E} {E'} {Q} {db} {m} R s f g = record {
  at = λ env tick. go env tick (m (world env tick db)) (s env tick).outcome;
}
  where
    go :
        (env : Env) (tick : ℕ) (r : Result A × World)
        → Outcome E r (R (world env tick db))
        → Outcome E' r Q
    go env tick (ok a, w) h = g env tick a w.db h
    go env tick (err x, w) h = f w.db h
