-- ===== src/Sessions/Refinement.antt =====
-- The tables of tokens beside the abstract sessions.
use tachigo.Base.{
  ℕ, arith, find_first, suc, ◌≡◌, refl, ap, sym, ◌∙◌, Bool, false, Option, none, some, ◌==◌, inl,
  inr, ◌⊎◌, delete_where, if◌then◌else◌,
}
use tachigo.Models.{
  User, Uuid, Name, RefreshToken, Result, ok, err, invalid_token, invalid_credentials,
}
use tachigo.Effect.{
  guard, Db, Env, World, M, world, continue, transaction, sql, ask, ◌>>=◌, catch, pure,
}
use tachigo.Effect.Ensures.{Gives}
use tachigo.Effect.Runs.{
  Runs, Runs-Safe, Runs-bind-pure, Runs-bind-ask, Runs-bind-now, Runs-guard, Runs-catch,
  Runs-transaction,
}
use tachigo.Ledger.{row_or_missing}
use tachigo.Effect.Safe.{
  Outcome, Safe, Safe-pure, Safe-raise, Safe-if, Safe-bind, Safe-sql, Safe-outcome,
}
use tachigo.Sessions.{
  LoginInput, has_email, TokenPair, issue_token_pair_tx, by_email, password_matches, has_hash,
  has_token_id, expires_before, delete_tokens, is_expired_error, rotate, after_rotation, login,
  refresh, logout, delete_expired_refresh_tokens,
}
use tachigo.Sessions.Tokens.{
  Sessions, sessions, grant, revoke, Agree, IsKeyed, sessions-closed, sessions-insert,
  sessions-delete_hash, sessions-delete_id, sessions-expire, delete_where-IsKeyed,
}
use tachigo.Sessions.Rotation.{
  with_tokens, Issued, issue-Issued, Runs-bind-replaced, Rotated, rotate-Rotated,
}
use tachigo.Sessions.Calls.{
  Call, logs_in, refreshes, logs_out, purges, perform, Opens, Moves, Admits, Allows,
}

-- Only tokens have changed, their keys hold, and the change is an allowed one.
pub record Refines (A : Sessions → Sessions → Type 0) (db db' : Db) : Type 0 where
  pub keyed : IsKeyed db'.refresh_tokens
  pub allowed : A (sessions db.refresh_tokens) (sessions db'.refresh_tokens)
  pub frame : db' ≡ with_tokens db'.refresh_tokens db

module _ (db : Db) (keyed : IsKeyed db.refresh_tokens) where
  unchanged :
      {A : Sessions → Sessions → Type 0}
      → A (sessions db.refresh_tokens) (sessions db.refresh_tokens)
      → Refines A db db
  unchanged a = record { keyed = keyed; allowed = a; frame = refl }

  -- Deleting rows.
  deleted :
      {A : Sessions → Sessions → Type 0} (p : RefreshToken → Bool)
      → A (sessions db.refresh_tokens) (sessions (delete_where p db.refresh_tokens))
      → Refines A db (with_tokens (delete_where p db.refresh_tokens) db)
  deleted p a = record { keyed = delete_where-IsKeyed p _ keyed; allowed = a; frame = refl }

  issued :
      {A : Sessions → Sessions → Type 0} (user : Uuid) (db' : Db)
      → Issued user db db'
      → (Opens user (sessions db.refresh_tokens) (sessions db'.refresh_tokens)
          → A (sessions db.refresh_tokens) (sessions db'.refresh_tokens))
      → Refines A db db'
  issued {A} user db' i a = record {
    keyed = rw i.stored (i.unused, keyed);
    allowed = a (record {
      hash = i.token.token_hash;
      expires = i.token.expires_at;
      closed = sessions-closed i.token db.refresh_tokens i.unused;
      leaves = λ k.
          ap (λ d. sessions d.refresh_tokens k) i.stored
          ∙ sessions-insert i.token db.refresh_tokens k
          ∙ ap (λ u. grant (sessions db.refresh_tokens) i.token.token_hash u i.token.expires_at k)
              i.of_user;
    });
    frame = rw i.stored refl;
  }

  rotated :
      (hash : Name) (env : Env) (tick : ℕ) (db' : Db)
      → Rotated hash (world env (suc tick) db) db'
      → Refines (Moves hash (world env tick db)) db db'
  rotated hash env tick db' r =
      let ts = db.refresh_tokens in
      let gone = delete_where (has_token_id r.used.id) ts in
      let ends = sessions-delete_id hash r.used ts keyed r.found in
      let i = r.issued in
      record {
        keyed = rw i.stored (i.unused, delete_where-IsKeyed _ ts keyed);
        allowed = record {
          user = r.used.user_id;
          until = r.used.expires_at;
          was_open = rw r.found refl;
          at = r.at;
          read = (r.read.0, omega (arith, r.read.1), r.read.2);
          in_time = r.in_time;
          opens = record {
            hash = i.token.token_hash;
            expires = i.token.expires_at;
            closed = sym (ends i.token.token_hash) ∙ sessions-closed i.token gone i.unused;
            leaves = λ k.
                ap (λ d. sessions d.refresh_tokens k) i.stored
                ∙ sessions-insert i.token gone k
                ∙ ap (λ u. grant (sessions gone) i.token.token_hash u i.token.expires_at k)
                    i.of_user
                ∙ ap
                    (λ x.
                      if i.token.token_hash == k
                      then some (r.used.user_id, i.token.expires_at)
                      else x)
                    (ends k);
          };
        };
        frame = rw i.stored refl;
      }

  abbrev Keeps : {X : Type 0} → (Sessions → Sessions → Type 0) → M X → Type 0
  Keeps A m = Safe (Refines A db) db m (λ _ db'. Refines A db db')

  login-Refines :
      (input : LoginInput) (env : Env) (tick : ℕ)
      → Runs
          (Refines (Allows (logs_in input) (world env tick db)) db)
          (world env tick db)
          (login input)
          (λ _ db'. Refines (Allows (logs_in input) (world env tick db)) db db')
  unfolding login
  login-Refines input env tick =
      Runs-bind-replaced invalid_credentials (by_email input.email) _ same
        (found (find_first (has_email input.email) db.users) refl)
    where
      same : Refines (Allows (logs_in input) (world env tick db)) db db
      same = unchanged (inl (λ k. refl))

      signed :
          (u : User)
          → Admits input (world env tick db) u
          → Safe
              (Refines (Allows (logs_in input) (world env tick db)) db)
              db
              (issue_token_pair_tx u >>= λ pair. pure {A = User × TokenPair} (u, pair))
              (λ _ db'. Refines (Allows (logs_in input) (world env tick db)) db db')
      signed u admits =
          Safe-bind (λ _ db'. Refines (Allows (logs_in input) (world env tick db)) db db') _ _
            (Safe-outcome (λ db'. db' ≡ db) _ (issue-Issued u db) (λ db' e. rw e same)
              (λ _ db' i. issued u.id db' i (λ o. inr (u, admits, o))))
            λ pair db' r. Safe-pure _ r

      matched :
          (u : User)
          → find_first (has_email input.email) db.users ≡ some u
          → (hash : Option Name) → u.password_hash ≡ hash
          → Runs
              (Refines (Allows (logs_in input) (world env tick db)) db)
              (world env (suc tick) db)
              (password_matches hash input.password >>= λ matches.
                guard matches invalid_credentials >>= λ _.
                issue_token_pair_tx u >>= λ pair. pure {A = User × TokenPair} (u, pair))
              (λ _ db'. Refines (Allows (logs_in input) (world env tick db)) db db')
      matched u e none eh =
          Runs-bind-pure false _
            (Runs-guard _ invalid_credentials _ same λ no. absurd (ground (arith, no)))
      matched u e (some h) eh = Runs-bind-ask _ _ (
          Runs-guard _ invalid_credentials _ same
            λ matches. Runs-Safe (signed u (e, (h, eh, matches))))

      found :
          (o : Option User)
          → find_first (has_email input.email) db.users ≡ o
          → Gives (row_or_missing o db) (λ u db'.
            Runs
              (Refines (Allows (logs_in input) (world env tick db)) db)
              (world env (suc tick) db')
              (password_matches u.password_hash input.password >>= λ matches.
                guard matches invalid_credentials >>= λ _.
                issue_token_pair_tx u >>= λ pair. pure {A = User × TokenPair} (u, pair))
              (λ _ db''. Refines (Allows (logs_in input) (world env tick db)) db db''))
      found none e = tt
      found (some u) e = matched u e u.password_hash refl

  -- The rotation of a hash, with what follows when it fails.
  abbrev Turned : Name → World → Sessions → Sessions → Type 0
  Turned hash w s s' = Agree s s' ⊎ (Agree (revoke s hash) s' ⊎ Moves hash w s s')

  rotation-Refines :
      (hash : Name) (env : Env) (tick : ℕ)
      → Runs
          (Refines (Turned hash (world env tick db)) db)
          (world env (suc tick) db)
          (catch (transaction (rotate hash)) (after_rotation hash))
          (λ _ db'. Refines (Turned hash (world env tick db)) db db')
  rotation-Refines hash env tick =
      Runs-catch (λ db'. db' ≡ db) (λ _ db'. Rotated hash (world env (suc tick) db) db') _ _
        (Runs-transaction _ refl (rotate-Rotated hash env (suc tick) db))
        (λ pair db' r.
          let m = rotated hash env tick db' r in
          Safe-pure pair
            (record { keyed = m.keyed; allowed = inr (inr m.allowed); frame = m.frame }))
        (λ e db' same. rw same (
          Safe-if (is_expired_error e) _ _
            (λ _.
              Safe-bind (λ _ db'. Refines (Turned hash (world env tick db)) db db') _ _
                (Safe-sql _ (unchanged (inl (λ k. refl))) (
                  deleted (has_hash hash)
                    (inr (inl (sessions-delete_hash hash db.refresh_tokens)))))
                λ _ db' r. Safe-raise invalid_token r)
            (λ _. Safe-raise e (unchanged (inl (λ k. refl))))))

  logout-Refines :
      (hash : Name)
      → Safe
          (Refines (λ s s'. Agree s s' ⊎ Agree (revoke s hash) s') db)
          db
          (sql (delete_tokens (has_hash hash)) >>= λ _. pure tt)
          (λ _ db'. Refines (λ s s'. Agree s s' ⊎ Agree (revoke s hash) s') db db')
  logout-Refines hash =
      Safe-bind (λ _ db'. Refines (λ s s'. Agree s s' ⊎ Agree (revoke s hash) s') db db') _ _
        (Safe-sql _ (unchanged (inl (λ k. refl)))
          (deleted (has_hash hash) (inr (sessions-delete_hash hash db.refresh_tokens))))
        λ _ db' r. Safe-pure tt r

  purge-Refines :
      (env : Env) (tick : ℕ)
      → Runs
          (Refines (Allows purges (world env tick db)) db)
          (world env tick db)
          delete_expired_refresh_tokens
          (λ _ db'. Refines (Allows purges (world env tick db)) db db')
  unfolding delete_expired_refresh_tokens
  purge-Refines env tick = Runs-bind-now _ (
      let at = env.clock tick in
      Runs-Safe (
        Safe-sql _ (unchanged (inl (λ k. refl))) (
          deleted (expires_before at)
            (inr (at, (tick, omega arith, refl), sessions-expire at db.refresh_tokens keyed)))))

kept : {X : Type 0} (P : Db → Type 0) (r : Result X × World) → Outcome P r (λ _ db. P db) → P r.1.db
kept P (ok x, w) h = h
kept P (err e, w) h = h

-- The same when the answer is left out.
kept-silent :
    {X : Type 0} (P : Db → Type 0) (r : Result X × World)
    → Outcome P r (λ _ db. P db)
    → P (continue r (λ _. pure tt)).1.db
unfolding pure
kept-silent P (ok x, w) h = h
kept-silent P (err e, w) h = h

-- Every call of the sessions refines its specification, whatever the database and the surroundings do,
-- and whether it returns or fails: from tokens whose keys hold, only tokens change and their keys hold
-- still. Signing in changes nothing or opens one session, of the user who has the address and whose
-- password is the one given, under a hash that had none. Refreshing changes nothing; or ends the session
-- of the presented token; or ends it and opens one for the same user, where a reading of the clock was
-- not past the end of the old one. Signing out ends the session of its token or changes nothing, and the
-- purge ends the sessions whose end was before a reading of the clock, or changes nothing.
pub perform-Refines :
    (c : Call) (w : World)
    → IsKeyed w.db.refresh_tokens
    → Refines (Allows c w) w.db (perform c w).1.db
unfolding perform refresh logout ask ◌>>=◌
perform-Refines (logs_in input) w keyed =
    kept-silent (Refines (Allows (logs_in input) w) w.db) (login input w)
      (login-Refines w.db keyed input w.env w.tick).outcome
perform-Refines (refreshes raw) w keyed =
    kept-silent (Refines (Allows (refreshes raw) w) w.db) (refresh raw w)
      (rotation-Refines w.db keyed (w.env.outside.sha256_hex raw) w.env w.tick).outcome
perform-Refines (logs_out raw) w keyed =
    kept (Refines (Allows (logs_out raw) w) w.db) (logout raw w)
      ((logout-Refines w.db keyed (w.env.outside.sha256_hex raw)).at w.env (suc w.tick))
perform-Refines purges w keyed =
    kept-silent (Refines (Allows purges w) w.db) (delete_expired_refresh_tokens w)
      (purge-Refines w.db keyed w.env w.tick).outcome
