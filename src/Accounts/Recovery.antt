-- ===== src/Accounts/Recovery.antt =====
-- Signing in by a provider where another request interferes: the tables when it returns or fails, and
-- the number of calls.
use tachigo.Base.{
  ℕ, zero, suc, ◌≡◌, ◌≢◌, refl, Bool, true, false, not, ◌&&◌, Option, none, some, ◌==◌, arith,
}
use tachigo.Models.{Name, User, Result, Error, ok, err, email_exists, username_exists}
use tachigo.Effect.{Db, Env, World, M, world, transaction}
use tachigo.Effect.Safe.{
  Safe, Safe-pure, Safe-raise, Safe-if, Safe-bind, Safe-catch, Safe-sql, Safe-bind-ask,
  Safe-outcome,
}
use tachigo.Effect.Within.{
  Within, Answer, Any, Within-pure, Within-raise, Within-if, Within-bind, Within-catch,
}
use tachigo.Sessions.{TokenPair}
use tachigo.Accounts.Rows.{Identity}
use tachigo.Accounts.{
  upsert_oauth_user_tx, recover_oauth_provider_conflict, is_duplicated_key, is_duplicated_key_error,
  is_taken, map_oauth_user_unique_error, is_missing, is_username_exists, unnamed, after_recovery,
  upsert_oauth_user,
}
use tachigo.Accounts.Steps.{SignsIn}
use tachigo.Accounts.SigningIn.{transaction-SignsIn, recovery-SignsIn}

module _ (db : Db) where
  -- A run that changes nothing.
  abbrev Reads : {A : Type 0} → M A → Type 0
  Reads m = Safe (λ db'. db' ≡ db) db m (λ _ db'. db' ≡ db)

  taken-Reads : (text : Name) (p : User → Bool) → Reads (is_taken text p)
  taken-Reads text p =
      Safe-if (text == 0) _ _ (λ _. Safe-pure false refl)
        λ _.
          Safe-catch (λ db'. db' ≡ db) (λ _ db'. db' ≡ db) _ _ (Safe-sql _ refl refl)
            (λ n db' same. Safe-pure _ same) (λ _ db' same. Safe-pure false same)

  duplicated-Reads : (e : Error) → Reads (is_duplicated_key_error e)
  unfolding is_duplicated_key_error
  duplicated-Reads e =
      Safe-if (is_duplicated_key e) _ _ (λ _. Safe-pure true refl)
        λ _. Safe-bind-ask _ _ λ a. Safe-bind-ask _ _ λ b. Safe-bind-ask _ _ λ c. Safe-pure _ refl

  map-Reads : (i : Identity) (e : Error) → Reads (map_oauth_user_unique_error i e)
  unfolding map_oauth_user_unique_error
  map-Reads i e =
      Safe-bind (λ _ db'. db' ≡ db) _ _ (taken-Reads i.email _)
        λ t db' same. rw same (
          Safe-if t _ _ (λ _. Safe-pure email_exists refl)
            λ _.
              Safe-bind (λ _ db'. db' ≡ db) _ _ (taken-Reads i.username _)
                λ n db' same. rw same (
                  Safe-if n _ _ (λ _. Safe-pure username_exists refl)
                    λ _. Safe-bind-ask _ _ λ a. Safe-bind-ask _ _ λ b. Safe-pure _ refl))

  -- Who is signed in, if the calls do not run out.
  abbrev pub Signs : Identity → Option (User × TokenPair) → Db → Type 0
  Signs i none db' = db' ≡ db
  Signs i (some (u, pair)) db' = SignsIn i db u db'

  -- The second call looks for the same login and the same address.
  with_name :
      (i : Identity) (o : Option (User × TokenPair)) (db' : Db)
      → Signs (unnamed i) o db'
      → Signs i o db'
  with_name i none db' h = h
  with_name i (some (u, pair)) db' h = h

  upsert_again-Signs :
      (fuel : ℕ) (i : Identity)
      → Safe (λ db'. db' ≡ db) db (upsert_oauth_user fuel (unnamed i)) (Signs (unnamed i))
      → Safe (λ db'. db' ≡ db) db (upsert_oauth_user (suc fuel) i) (Signs i)
  unfolding upsert_oauth_user
  upsert_again-Signs fuel i again =
      Safe-catch (λ db'. db' ≡ db) (λ r db'. SignsIn i db r.0 db') _ _ (transaction-SignsIn i db)
        (λ r db' h. Safe-pure (some r) h)
        λ e db' same. rw same (
          Safe-bind (λ _ db'. db' ≡ db) _ _ (duplicated-Reads e)
            λ dup db' same. rw same (
              Safe-if (not dup) _ _ (λ _. Safe-raise e refl)
                λ _.
                  Safe-catch (λ db'. db' ≡ db) (λ r db'. SignsIn i db r.0 db') _ _
                    (recovery-SignsIn i db) (λ r db' h. Safe-pure (some r) h)
                    λ f db' same. rw same (recovered e f)))
    where
      recovered :
          (e f : Error)
          → Safe
              (λ db'. db' ≡ db)
              db
              (after_recovery i e (upsert_oauth_user fuel (unnamed i)) (err f))
              (Signs i)
      recovered e f =
          Safe-if (not (is_missing f)) _ _ (λ _. Safe-raise f refl)
            λ _.
              Safe-bind (λ _ db'. db' ≡ db) _ _ (map-Reads i e)
                λ mapped db' same. rw same (
                  Safe-if (not (i.username == 0) && is_username_exists mapped) _ _
                    (λ _.
                      Safe-outcome (λ db'. db' ≡ db) (Signs (unnamed i)) again (λ _ e. e)
                        (with_name i))
                    λ _. Safe-raise mapped refl)

  -- Signing in by a provider, whatever the database and the surroundings do. If it returns, either the
  -- login was known, of the user, who is not deleted, and at most its tokens have been replaced; or it
  -- was not, and its address, which the provider has verified, is that user's; or its address led to
  -- no user, and the user is a new viewer with that address. A new login is stored for the user in the
  -- last two cases, a refresh token for the user in all, and nothing else has changed. If it fails,
  -- nothing has changed.
  pub upsert_oauth_user-SignsIn :
      (fuel : ℕ) (i : Identity) → Safe (λ db'. db' ≡ db) db (upsert_oauth_user fuel i) (Signs i)
  unfolding upsert_oauth_user
  upsert_oauth_user-SignsIn zero i = Safe-pure none refl
  upsert_oauth_user-SignsIn (suc fuel) i =
      upsert_again-Signs fuel i (upsert_oauth_user-SignsIn fuel (unnamed i))

-- No surroundings are asked for anything.
abbrev Everywhere : Env → Type 0
Everywhere _ = Unit

abbrev Ends : {A : Type 0} → M (Option A) → Type 0
Ends m = Within Everywhere m (λ o. o ≢ none)

anywhere : {A : Type 0} (m : M A) → Within Everywhere m Any
anywhere {A} m = record { at = λ env p tick db. go (m (world env tick db)) }
  where
    go : (r : Result A × World) → Answer Everywhere r Any
    go (ok a, w) = (tt, tt)
    go (err e, w) = tt

step-Ends :
    (fuel : ℕ) (i : Identity)
    → ((i.username == 0) ≡ false → Ends (upsert_oauth_user fuel (unnamed i)))
    → Ends (upsert_oauth_user (suc fuel) i)
unfolding upsert_oauth_user
step-Ends fuel i again =
    Within-catch Any _ _ (anywhere (transaction (upsert_oauth_user_tx i)))
      (λ r _. Within-pure (some r) (λ q. cc))
      λ e. Within-bind Any _ _ (anywhere (is_duplicated_key_error e)) λ dup _.
        Within-if (not dup) _ _ (λ _. Within-raise e)
          λ _.
            Within-catch Any _ _ (anywhere (recover_oauth_provider_conflict i))
              (λ r _. Within-pure (some r) (λ q. cc)) (recovered e)
  where
    recovered :
        (e f : Error) → Ends (after_recovery i e (upsert_oauth_user fuel (unnamed i)) (err f))
    recovered e f =
        Within-if (not (is_missing f)) _ _ (λ _. Within-raise f)
          λ _. Within-bind Any _ _ (anywhere (map_oauth_user_unique_error i e)) λ mapped _.
            Within-if (not (i.username == 0) && is_username_exists mapped) _ _
              (λ named. again (ground (arith, named))) λ _. Within-raise mapped

two-Ends : (fuel : ℕ) (i : Identity) → Ends (upsert_oauth_user (suc (suc fuel)) i)
two-Ends fuel i = step-Ends (suc fuel) i λ _. step-Ends fuel (unnamed i) λ named. absurd (cc named)

-- Signing in by a provider ends: two calls of the function are enough, since the second has no
-- username to drop.
pub upsert_oauth_user-ends :
    (fuel : ℕ) (i : Identity) (w : World) → (upsert_oauth_user (suc (suc fuel)) i w).0 ≢ ok none
upsert_oauth_user-ends fuel i w =
    returned (upsert_oauth_user (suc (suc fuel)) i w) ((two-Ends fuel i).at w.env tt w.tick w.db)
  where
    returned :
        (r : Result (Option (User × TokenPair)) × World)
        → Answer Everywhere r (λ o. o ≢ none)
        → r.0 ≢ ok none
    returned (ok none, w) h q = h.1 refl
    returned (ok (some x), w) h q = cc
    returned (err e, w) h q = cc
