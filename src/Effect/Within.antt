-- ===== src/Effect/Within.antt =====
-- What a run returns in the surroundings that have a given property. The tables are not looked at.
use tachigo.Base.{ℕ, ◌≡◌, refl, Option, none, some, Bool, true, false, if◌then◌else◌}
use tachigo.Models.{Uuid, Time, Error, Result, ok, err, record_not_found}
use tachigo.Effect.{
  Db, Env, World, M, world, ticked, pure, raise, attempt, sql, now, ask, new_uuid, guard, continue,
  ◌>>=◌, renamed, defaulted, not_found_as, not_found_to, catch, lift,
}

-- The surroundings stay, and what is returned satisfies `Q`.
abbrev pub Answer : {A : Type 0} → (Env → Type 0) → Result A × World → (A → Type 0) → Type 0
Answer P (ok a, w) Q = P w.env × Q a
Answer P (err e, w) Q = P w.env

pub record Within {A : Type 0} (P : Env → Type 0) (m : M A) (Q : A → Type 0) : Type 0 where
  pub at : (env : Env) → P env → (tick : ℕ) (db : Db) → Answer P (m (world env tick db)) Q

-- Whatever is returned.
abbrev pub Any : {A : Type 0} → A → Type 0
Any _ = Unit

module _ {P : Env → Type 0} {A : Type 0} {Q : A → Type 0} where
  pub Within-pure : (a : A) → Q a → Within P (pure a) Q
  unfolding pure
  Within-pure a q = record { at = λ env p tick db. (p, q) }

  pub Within-raise : (e : Error) → Within P (raise e) Q
  unfolding raise
  Within-raise e = record { at = λ env p tick db. p }

  pub Within-if :
      (b : Bool) (m n : M A)
      → (b ≡ true → Within P m Q)
      → (b ≡ false → Within P n Q)
      → Within P (if b then m else n) Q
  Within-if true m n hm hn = hm refl
  Within-if false m n hm hn = hn refl

  -- The answer of the surroundings.
  pub Within-ask :
      (f : Env → ℕ → A) → ((env : Env) (t : ℕ) → P env → Q (f env t)) → Within P (ask f) Q
  unfolding ask
  Within-ask f g = record { at = λ env p tick db. (p, g env tick p) }

  pub Within-lift : (r : Result A) → ((a : A) → r ≡ ok a → Q a) → Within P (lift r) Q
  unfolding lift
  Within-lift (ok a) h = record { at = λ env p tick db. (p, h a refl) }
  Within-lift (err e) h = record { at = λ env p tick db. p }

module _ (P : Env → Type 0) {A : Type 0} where
  attempt-Answer :
      (x : Option Error) (r : Result (A × Db)) (w : World) → P w.env → Answer P (attempt x r w) Any
  attempt-Answer none (ok (a, db)) w p = (p, tt)
  attempt-Answer none (err e) w p = p
  attempt-Answer (some e) r w p = p

  renamed-Answer :
      (e : Error) (Q : A → Type 0) (r : Result A × World)
      → Answer P r Q
      → Answer P (renamed e r.0, r.1) Q
  renamed-Answer e Q (ok a, w) h = h
  renamed-Answer e Q (err record_not_found, w) h = h
  renamed-Answer e Q (err f, w) h = h

  defaulted-Answer :
      (a : A) (r : Result A × World) → Answer P r Any → Answer P (defaulted a r.0, r.1) Any
  defaulted-Answer a (ok b, w) h = h
  defaulted-Answer a (err record_not_found, w) h = (h, tt)
  defaulted-Answer a (err f, w) h = h

module _ {P : Env → Type 0} {A : Type 0} where
  pub Within-sql : (f : Db → Result (A × Db)) → Within P (sql f) Any
  unfolding sql
  Within-sql f = record {
    at = λ env p tick db. attempt-Answer P (env.fault tick) (f db) (ticked (world env tick db)) p;
  }

  pub Within-found :
      {Q : A → Type 0} (e : Error) (m : M A) → Within P m Q → Within P (not_found_as e m) Q
  unfolding not_found_as
  Within-found {Q} e m h = record {
    at = λ env p tick db. renamed-Answer P e Q (m (world env tick db)) (h.at env p tick db);
  }

  pub Within-optional : (a : A) (m : M A) → Within P m Any → Within P (not_found_to a m) Any
  unfolding not_found_to
  Within-optional a m h = record {
    at = λ env p tick db. defaulted-Answer P a (m (world env tick db)) (h.at env p tick db);
  }

module _ {P : Env → Type 0} {A B : Type 0} {R : B → Type 0} where
  continue-Answer :
      (Q : A → Type 0) (r : Result A × World) (k : A → M B)
      → Answer P r Q
      → ((a : A) → Q a → Within P (k a) R)
      → Answer P (continue r k) R
  continue-Answer Q (ok a, w) k h g = (g a h.1).at w.env h.0 w.tick w.db
  continue-Answer Q (err e, w) k h g = h

  pub Within-bind :
      (Q : A → Type 0) (m : M A) (k : A → M B)
      → Within P m Q
      → ((a : A) → Q a → Within P (k a) R)
      → Within P (m >>= k) R
  unfolding ◌>>=◌
  Within-bind Q m k h g = record {
    at = λ env p tick db. continue-Answer Q (m (world env tick db)) k (h.at env p tick db) g;
  }

  catch-Answer :
      (Q : A → Type 0) (f : Result A → M B) (r : Result A × World)
      → Answer P r Q
      → ((a : A) → Q a → Within P (f (ok a)) R)
      → ((e : Error) → Within P (f (err e)) R)
      → Answer P (f r.0 r.1) R
  catch-Answer Q f (ok a, w) h g x = (g a h.1).at w.env h.0 w.tick w.db
  catch-Answer Q f (err e, w) h g x = (x e).at w.env h w.tick w.db

  pub Within-catch :
      (Q : A → Type 0) (m : M A) (f : Result A → M B)
      → Within P m Q
      → ((a : A) → Q a → Within P (f (ok a)) R)
      → ((e : Error) → Within P (f (err e)) R)
      → Within P (catch m f) R
  unfolding catch
  Within-catch Q m f h g x = record {
    at = λ env p tick db. catch-Answer Q f (m (world env tick db)) (h.at env p tick db) g x;
  }

module _ {P : Env → Type 0} {B : Type 0} {R : B → Type 0} where
  pub Within-bind-now : (k : Time → M B) → ((t : Time) → Within P (k t) R) → Within P (now >>= k) R
  unfolding now ◌>>=◌
  Within-bind-now k g = record {
    at = λ env p tick db. (g (env.clock tick)).at env p (ℕ.suc tick) db;
  }

  pub Within-bind-new_uuid :
      (k : Uuid → M B) → ((i : Uuid) → Within P (k i) R) → Within P (new_uuid >>= k) R
  unfolding new_uuid ◌>>=◌
  Within-bind-new_uuid k g = record {
    at = λ env p tick db. (g (env.uuid tick)).at env p (ℕ.suc tick) db;
  }

  pub Within-guard :
      (b : Bool) (e : Error) (k : Unit {0} → M B) → Within P (k tt) R → Within P (guard b e >>= k) R
  unfolding guard ◌>>=◌
  Within-guard true e k g = g
  Within-guard false e k g = record { at = λ env p tick db. p }
