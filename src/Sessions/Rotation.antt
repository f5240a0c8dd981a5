-- ===== src/Sessions/Rotation.antt =====
-- What signing in, refreshing and signing out do to the stored tokens.
use tachigo.Base.{
  ℕ, suc, not, false, true, ltb, ◌==◌, arith, ◌≡◌, refl, Option, none, some, List, ◌∷◌, find_first,
  find_first-passes, delete_where, ==_iff, &&_split, subst,
}
use tachigo.Models.{
  Time, Result, ok, err, Uuid, Name, User, RefreshToken, Error, invalid_token, user_not_found,
  refresh_token_expired,
}
use tachigo.Effect.{
  Db, Env, World, M, world, attempt, continue, sql, catch, now, guard, pure, raise, ◌>>=◌,
}
use tachigo.Effect.Runs.{IsRead, Runs, Runs-Safe, Runs-bind-now, Runs-guard}
use tachigo.Ledger.{row_or_missing}
use tachigo.Effect.Ensures.{Gives}
use tachigo.Effect.Safe.{
  Outcome, Safe, Safe-pure, Safe-raise, Safe-bind, Safe-guard, Safe-catch, Safe-sql, Safe-bind-now,
  Safe-bind-new_uuid, Safe-bind-ask, Safe-lift, Safe-outcome,
}
use tachigo.Raffles.Access.{row-Gives}
use tachigo.Sessions.{
  has_user_id, first_user, has_hash, first_refresh_token, token_clashes, insert_token_row,
  insert_refresh_token, delete_tokens, new_refresh_token, issue_token_pair_tx, or_fail,
  has_token_id, rotate,
}

abbrev pub with_tokens : List RefreshToken → Db → Db
with_tokens ts db = record db { refresh_tokens = ts }

-- A new token of the user is stored, that clashes with none.
pub record Issued (user : Uuid) (db db' : Db) : Type 0 where
  pub token : RefreshToken
  pub of_user : token.user_id ≡ user
  pub unused : find_first (token_clashes token) db.refresh_tokens ≡ none
  pub stored : db' ≡ with_tokens (token ∷ db.refresh_tokens) db

insert-Gives :
    (t : RefreshToken) (db : Db)
    → Gives (insert_refresh_token t db) (λ _ db'. Issued t.user_id db db')
unfolding insert_refresh_token
insert-Gives t db = go (find_first (token_clashes t) db.refresh_tokens) refl
  where
    go :
        (o : Option RefreshToken)
        → find_first (token_clashes t) db.refresh_tokens ≡ o
        → Gives (insert_token_row t o db) (λ _ db'. Issued t.user_id db db')
    go none e = record { token = t; of_user = refl; unused = e; stored = refl }
    go (some _) e = tt

pub issue-Issued :
    (user : User) (db : Db)
    → Safe (λ db'. db' ≡ db) db (issue_token_pair_tx user) (λ _ db'. Issued user.id db db')
unfolding issue_token_pair_tx
issue-Issued user db = Safe-bind-ask _ _ λ ttl. Safe-bind-now _ λ from. Safe-bind-now _ λ at.
    Safe-bind-ask _ _ λ signed.
      Safe-bind (λ _ db'. db' ≡ db) _ _ (Safe-lift signed refl (λ _. refl))
        λ access db' same. rw same (
          Safe-bind-ask _ _ λ nonce.
            Safe-bind (λ _ db'. db' ≡ db) _ _ (Safe-lift nonce refl (λ _. refl))
              λ raw db' same. rw same (
                Safe-bind-ask _ _ λ hash. Safe-bind-ask _ _ λ ttl. Safe-bind-now _ λ start.
                  Safe-bind-new_uuid _ λ id. Safe-bind-now _ λ created.
                    Safe-bind (λ _ db'. Issued user.id db db') _ _
                      (Safe-sql _ refl
                        (insert-Gives (new_refresh_token id user.id hash _ created) db))
                      λ _ db' issued. Safe-pure _ issued))

-- An error that is replaced by another.
pub replaced :
    {A : Type 0} {E : Db → Type 0} {Q : A → Db → Type 0} {db : Db} (e : Error) (m : M A)
    → Safe E db m Q
    → Safe E db (catch m (or_fail e)) Q
replaced {A} {E} {Q} {db} e m s =
    Safe-catch E Q m _ s (λ a db' q. Safe-pure a q) (λ _ db' x. Safe-raise e x)

-- A statement whose error is replaced, at the head of a run.
pub Runs-bind-replaced :
    {A B : Type 0} {E : Db → Type 0} {R : B → Db → Type 0} {env : Env} {tick : ℕ} {db : Db}
    (e : Error) (f : Db → Result (A × Db)) (k : A → M B)
    → E db
    → Gives (f db) (λ a db'. Runs E (world env (suc tick) db') (k a) R)
    → Runs E (world env tick db) (catch (sql f) (or_fail e) >>= k) R
unfolding sql catch pure raise ◌>>=◌
Runs-bind-replaced {A} {B} {E} {R} {env} {tick} {db} e f k h g = record {
  outcome = go (env.fault tick) (f db) g;
}
  where
    go :
        (x : Option Error) (r : Result (A × Db))
        → Gives r (λ a db'. Runs E (world env (suc tick) db') (k a) R)
        → Outcome E
            (let (r', w') = attempt x r (world env (suc tick) db) in continue (or_fail e r' w') k)
            R
    go none (ok (a, db')) g = g.outcome
    go none (err x) g = h
    go (some x) r g = h

-- The token of the hash is used up: a reading of the clock was not past its end, its row is deleted, and
-- its user, who is not deleted, has a new one.
pub record Rotated (hash : Name) (w : World) (db' : Db) : Type 0 where
  pub used : RefreshToken
  pub found : find_first (has_hash hash) w.db.refresh_tokens ≡ some used
  pub at : Time
  pub read : IsRead w at
  pub in_time : ltb used.expires_at at ≡ false
  pub user : User
  pub alive : find_first (has_user_id used.user_id) w.db.users ≡ some user
  pub issued :
      Issued used.user_id
        (with_tokens (delete_where (has_token_id used.id) w.db.refresh_tokens) w.db)
        db'

-- Once the token is found to be in time.
used_up :
    (hash : Name) (w : World) (t : RefreshToken) (at : Time)
    → find_first (has_hash hash) w.db.refresh_tokens ≡ some t
    → IsRead w at
    → ltb t.expires_at at ≡ false
    → Safe
        (λ _. Unit)
        w.db
        (catch (sql (first_user t.user_id)) (or_fail user_not_found) >>= λ user.
          sql (delete_tokens (has_token_id t.id)) >>= λ affected.
          guard (not (affected == 0)) invalid_token >>= λ _. issue_token_pair_tx user)
        (λ _ db'. Rotated hash w db')
used_up hash w t at found read in_time =
    Safe-bind (λ u db'. (find_first (has_user_id t.user_id) w.db.users ≡ some u) × (db' ≡ w.db)) _ _
      (replaced user_not_found _ (Safe-sql (first_user t.user_id) tt (row-Gives w.db _)))
      λ u db' alive. rw alive.1 (
        Safe-bind
          (λ _ db'. db' ≡ with_tokens (delete_where (has_token_id t.id) w.db.refresh_tokens) w.db) _
          _ (Safe-sql (delete_tokens (has_token_id t.id)) tt refl)
          λ n db' gone. rw gone (
            Safe-guard _ invalid_token _ tt λ some_row.
              Safe-outcome _ _ (issue-Issued u _) (λ _ _. tt)
                (λ _ db' i. record {
                  used = t;
                  found = found;
                  at = at;
                  read = read;
                  in_time = in_time;
                  user = u;
                  alive = alive.0;
                  issued =
                      subst
                        (λ x.
                          Issued x
                            (with_tokens (delete_where (has_token_id t.id) w.db.refresh_tokens)
                              w.db)
                            db')
                        (same_user t.user_id u alive.0) i;
                })))
  where
    same_user : (id : Uuid) (u : User) → find_first (has_user_id id) w.db.users ≡ some u → u.id ≡ id
    same_user id u e =
        (==_iff u.id id).0 (&&_split _ _ (find_first-passes (has_user_id id) w.db.users e)).0

pub rotate-Rotated :
    (hash : Name) (env : Env) (tick : ℕ) (db : Db)
    → Runs
        (λ _. Unit)
        (world env tick db)
        (rotate hash)
        (λ _ db'. Rotated hash (world env tick db) db')
unfolding rotate
rotate-Rotated hash env tick db =
    Runs-bind-replaced invalid_token (first_refresh_token hash) _ tt
      (go (find_first (has_hash hash) db.refresh_tokens) refl)
  where
    late : (a b : ℕ) → not (ltb a b) ≡ true → ltb a b ≡ false
    late a b e = ground (arith, e)

    go :
        (o : Option RefreshToken)
        → find_first (has_hash hash) db.refresh_tokens ≡ o
        → Gives (row_or_missing o db) (λ t db'.
          Runs
            (λ _. Unit)
            (world env (suc tick) db')
            (now >>= λ at. guard (not (ltb t.expires_at at)) refresh_token_expired >>= λ _.
              catch (sql (first_user t.user_id)) (or_fail user_not_found) >>= λ user.
              sql (delete_tokens (has_token_id t.id)) >>= λ affected.
              guard (not (affected == 0)) invalid_token >>= λ _. issue_token_pair_tx user)
            (λ _ db''. Rotated hash (world env tick db) db''))
    go none found = tt
    go (some t) found = Runs-bind-now _ (
        Runs-guard _ refresh_token_expired _ tt λ in_time. Runs-Safe (
          used_up hash (world env tick db) t (env.clock (suc tick)) found (_, omega arith, refl)
            (late _ _ in_time)))
