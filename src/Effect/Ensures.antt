-- ===== src/Effect/Ensures.antt =====
-- Postconditions of effects that begin at given tables, one rule for each way to build an effect.
-- A body that fails promises nothing: the transaction around it puts the tables back.
use tachigo.Base.{ℕ, ◌==◌, ◌≡◌, refl, Option, none, some, Bool, true, false, if◌then◌else◌}
use tachigo.Models.{Uuid, Time, Error, Result, ok, err, record_not_found}
use tachigo.Effect.{
  Db, Env, World, M, world, ticked, pure, raise, attempt, sql, commit, close_tx, transaction, now,
  ask, new_uuid, guard, continue, ◌>>=◌, renamed, not_found_as, lift,
}

-- What the tables satisfy if the run has returned.
abbrev pub Post : {A : Type 0} → Result A × World → (A → Db → Type 0) → Type 0
Post (ok a, w) Q = Q a w.db
Post (err e, w) Q = Unit

-- From the tables `db`, whatever the environment: if `m` returns, `Q` holds of its result.
pub record Ensures {A : Type 0} (db : Db) (m : M A) (Q : A → Db → Type 0) : Type 0 where
  pub at : (env : Env) (tick : ℕ) → Post (m (world env tick db)) Q

-- What a statement that goes through returns and leaves.
abbrev pub Gives : {A : Type 0} → Result (A × Db) → (A → Db → Type 0) → Type 0
Gives (ok (a, db)) Q = Q a db
Gives (err e) Q = Unit

module _ {A : Type 0} (Q : A → Db → Type 0) where
  pub Gives-if :
      (b : Bool) (r s : Result (A × Db))
      → (b ≡ true → Gives r Q)
      → (b ≡ false → Gives s Q)
      → Gives (if b then r else s) Q
  Gives-if true r s hr hs = hr refl
  Gives-if false r s hr hs = hs refl

  pub Gives-weaken :
      (R : A → Db → Type 0) (r : Result (A × Db))
      → ((a : A) (db : Db) → Q a db → R a db)
      → Gives r Q
      → Gives r R
  Gives-weaken R (ok (a, db)) f h = f a db h
  Gives-weaken R (err e) f h = tt

  attempt-Post :
      (x : Option Error) (r : Result (A × Db)) (w : World) → Gives r Q → Post (attempt x r w) Q
  attempt-Post none (ok (a, db)) w g = g
  attempt-Post none (err e) w g = tt
  attempt-Post (some e) r w g = tt

module _ {A B : Type 0} (R : B → Db → Type 0) (k : A → M B) where
  attempt-continue-Post :
      (x : Option Error) (r : Result (A × Db)) (env : Env) (tick : ℕ) (db : Db)
      → Gives r (λ a db'. Ensures db' (k a) R)
      → Post (continue (attempt x r (world env tick db)) k) R
  attempt-continue-Post none (ok (a, db')) env tick db g = g.at env tick
  attempt-continue-Post none (err e) env tick db g = tt
  attempt-continue-Post (some e) r env tick db g = tt

  continue-Post :
      (Q : A → Db → Type 0) (r : Result A × World)
      → Post r Q
      → ((a : A) (db : Db) → Q a db → Ensures db (k a) R)
      → Post (continue r k) R
  continue-Post Q (ok a, w) h g = (g a w.db h).at w.env w.tick
  continue-Post Q (err e, w) h g = tt

module _ {A : Type 0} {Q : A → Db → Type 0} {db : Db} where
  pub Ensures-pure : (a : A) → Q a db → Ensures db (pure a) Q
  unfolding pure
  Ensures-pure a q = record { at = λ env tick. q }

  pub Ensures-raise : (e : Error) → Ensures db (raise e) Q
  unfolding raise
  Ensures-raise e = record { at = λ env tick. tt }

  pub Ensures-if :
      (b : Bool) (m n : M A)
      → (b ≡ true → Ensures db m Q)
      → (b ≡ false → Ensures db n Q)
      → Ensures db (if b then m else n) Q
  Ensures-if true m n hm hn = hm refl
  Ensures-if false m n hm hn = hn refl

  pub Ensures-sql : (f : Db → Result (A × Db)) → Gives (f db) Q → Ensures db (sql f) Q
  unfolding sql
  Ensures-sql f g = record {
    at = λ env tick. attempt-Post Q (env.fault tick) (f db) (ticked (world env tick db)) g;
  }

module _ {A B : Type 0} {R : B → Db → Type 0} {db : Db} where
  pub Ensures-bind-sql :
      (f : Db → Result (A × Db)) (k : A → M B)
      → Gives (f db) (λ a db'. Ensures db' (k a) R)
      → Ensures db (sql f >>= k) R
  unfolding sql ◌>>=◌
  Ensures-bind-sql f k g = record {
    at = λ env tick. attempt-continue-Post R k (env.fault tick) (f db) env (ℕ.suc tick) db g;
  }

  pub Ensures-bind :
      (Q : A → Db → Type 0) (m : M A) (k : A → M B)
      → Ensures db m Q
      → ((a : A) (db' : Db) → Q a db' → Ensures db' (k a) R)
      → Ensures db (m >>= k) R
  unfolding ◌>>=◌
  Ensures-bind Q m k h g = record {
    at = λ env tick. continue-Post R k Q (m (world env tick db)) (h.at env tick) g;
  }

renamed-continue-Post :
    {A B : Type 0} (R : B → Db → Type 0) (e : Error) (k : A → M B) (r : Result A × World)
    → Post (continue r k) R
    → Post (continue (renamed e r.0, r.1) k) R
renamed-continue-Post R e k (ok a, w) h = h
renamed-continue-Post R e k (err record_not_found, w) h = tt
renamed-continue-Post R e k (err f, w) h = tt

module _ {A B : Type 0} {R : B → Db → Type 0} {db : Db} where
  pub Ensures-bind-found :
      (e : Error) (m : M A) (k : A → M B)
      → Ensures db (m >>= k) R
      → Ensures db (not_found_as e m >>= k) R
  unfolding not_found_as ◌>>=◌
  Ensures-bind-found e m k h = record {
    at = λ env tick. renamed-continue-Post R e k (m (world env tick db)) (h.at env tick);
  }

module _ {B : Type 0} {R : B → Db → Type 0} {db : Db} where
  pub Ensures-bind-now :
      (k : Time → M B) → ((t : Time) → Ensures db (k t) R) → Ensures db (now >>= k) R
  unfolding now ◌>>=◌
  Ensures-bind-now k g = record { at = λ env tick. (g (env.clock tick)).at env (ℕ.suc tick) }

  pub Ensures-bind-clock :
      (k : Time → M B)
      → ((t : Time) → (t == 0) ≡ false → Ensures db (k t) R)
      → Ensures db (now >>= k) R
  unfolding now ◌>>=◌
  Ensures-bind-clock k g = record {
    at = λ env tick. (g (env.clock tick) (env.clock_set tick)).at env (ℕ.suc tick);
  }

  pub Ensures-bind-new_uuid :
      (k : Uuid → M B) → ((i : Uuid) → Ensures db (k i) R) → Ensures db (new_uuid >>= k) R
  unfolding new_uuid ◌>>=◌
  Ensures-bind-new_uuid k g = record { at = λ env tick. (g (env.uuid tick)).at env (ℕ.suc tick) }

  pub Ensures-bind-ask :
      {A : Type 0} (f : Env → ℕ → A) (k : A → M B)
      → ((a : A) → Ensures db (k a) R)
      → Ensures db (ask f >>= k) R
  unfolding ask ◌>>=◌
  Ensures-bind-ask f k g = record { at = λ env tick. (g (f env tick)).at env (ℕ.suc tick) }

  pub Ensures-ask : (f : Env → ℕ → B) → ((b : B) → R b db) → Ensures db (ask f) R
  unfolding ask
  Ensures-ask f g = record { at = λ env tick. g (f env tick) }

  pub Ensures-guard :
      (b : Bool) (e : Error) (k : Unit {0} → M B)
      → (b ≡ true → Ensures db (k tt) R)
      → Ensures db (guard b e >>= k) R
  unfolding guard ◌>>=◌
  Ensures-guard true e k g = g refl
  Ensures-guard false e k g = record { at = λ env tick. tt }

pub Ensures-lift :
    {A : Type 0} {Q : A → Db → Type 0} {db : Db} (r : Result A)
    → ((a : A) → Q a db)
    → Ensures db (lift r) Q
unfolding lift
Ensures-lift (ok a) h = record { at = λ env tick. h a }
Ensures-lift (err e) h = record { at = λ env tick. tt }

module _ {A B : Type 0} {R : B → Db → Type 0} {db : Db} where
  pub Ensures-bind-lift :
      (r : Result A) (k : A → M B)
      → ((a : A) → r ≡ ok a → Ensures db (k a) R)
      → Ensures db (lift r >>= k) R
  unfolding lift ◌>>=◌
  Ensures-bind-lift (ok a) k h = record { at = (h a refl).at }
  Ensures-bind-lift (err e) k h = record { at = λ env tick. tt }

weaken-Post :
    {A : Type 0} (Q R : A → Db → Type 0) (r : Result A × World)
    → ((a : A) (db : Db) → Q a db → R a db)
    → Post r Q
    → Post r R
weaken-Post Q R (ok a, w) f h = f a w.db h
weaken-Post Q R (err e, w) f h = tt

pub Ensures-weaken :
    {A : Type 0} {m : M A} {db : Db} {R : A → Db → Type 0} (Q : A → Db → Type 0)
    → Ensures db m Q
    → ((a : A) (db' : Db) → Q a db' → R a db')
    → Ensures db m R
Ensures-weaken {A} {m} {db} {R} Q h f = record {
  at = λ env tick. weaken-Post Q R (m (world env tick db)) f (h.at env tick);
}

-- A transaction keeps what its body ensures whenever the body returns.
module _ {A : Type 0} (P : Db → Type 0) where
  commit-keeps :
      (x : Option Error) (before : Db) (a : A) (w : World)
      → P before
      → P w.db
      → P (commit x before a w).1.db
  commit-keeps none before a w h g = g
  commit-keeps (some e) before a w h g = h

  close_tx-keeps :
      (before : Db) (r : Result A × World)
      → P before
      → Post r (λ _ db. P db)
      → P (close_tx before r).1.db
  close_tx-keeps before (ok a, w) h g = commit-keeps (w.env.fault w.tick) before a (ticked w) h g
  close_tx-keeps before (err e, w) h g = h

  pub transaction-keeps :
      (m : M A) (w : World) → P w.db → Ensures w.db m (λ _ db. P db) → P (transaction m w).1.db
  unfolding transaction
  transaction-keeps m w h g = close_tx-keeps w.db (m w) h (g.at w.env w.tick)
