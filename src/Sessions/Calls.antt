-- ===== src/Sessions/Calls.antt =====
-- The calls that open and end sessions, and what each may do to the sessions that are open: the
-- abstract specification.
use tachigo.Base.{◌≡◌, true, false, some, none, ◌⊎◌, ltb, find_first}
use tachigo.Models.{Uuid, Time, Name, User}
use tachigo.Effect.{World, M, pure, ◌>>=◌}
use tachigo.Effect.Runs.{IsRead}
use tachigo.Sessions.{LoginInput, has_email, login, refresh, logout, delete_expired_refresh_tokens}
use tachigo.Sessions.Tokens.{Sessions, grant, revoke, expire, Agree}

pub data Call : Type 0 where
  logs_in : LoginInput → Call
  refreshes : Name → Call
  logs_out : Name → Call
  purges : Call

abbrev silent : {A : Type 0} → M A → M (Unit {0})
silent m = m >>= λ _. pure tt

unfoldable pub perform : Call → M (Unit {0})
perform (logs_in input) = silent (login input)
perform (refreshes raw) = silent (refresh raw)
perform (logs_out raw) = logout raw
perform purges = silent delete_expired_refresh_tokens

-- A session is opened under a hash that had none.
pub record Opens (user : Uuid) (s s' : Sessions) : Type 0 where
  pub hash : Name
  pub expires : Time
  pub closed : s hash ≡ none
  pub leaves : Agree (grant s hash user expires) s'

-- The session of a hash, whose end a reading of the clock had not passed, is moved on: it ends, and one
-- of the same user is opened.
pub record Moves (hash : Name) (w : World) (s s' : Sessions) : Type 0 where
  pub user : Uuid
  pub until : Time
  pub was_open : s hash ≡ some (user, until)
  pub at : Time
  pub read : IsRead w at
  pub in_time : ltb until at ≡ false
  pub opens : Opens user (revoke s hash) s'

-- The user of the address, whose password is the one given.
abbrev pub Admits : LoginInput → World → User → Type 0
Admits input w user =
    (find_first (has_email input.email) w.db.users ≡ some user)
    × ((hash : Name) × (user.password_hash ≡ some hash)
        × (w.env.outside.identity.matches_password hash input.password ≡ true))

-- What a call may do, whether it returns or fails: nothing, or one of its own changes. The hash of a
-- token is its SHA-256 digest.
abbrev pub Allows : Call → World → Sessions → Sessions → Type 0
Allows (logs_in input) w s s' =
    Agree s s' ⊎ ((user : User) × Admits input w user × Opens user.id s s')
Allows (refreshes raw) w s s' =
    let hash = w.env.outside.sha256_hex raw in
    Agree s s' ⊎ (Agree (revoke s hash) s' ⊎ Moves hash w s s')
Allows (logs_out raw) w s s' = Agree s s' ⊎ Agree (revoke s (w.env.outside.sha256_hex raw)) s'
Allows purges w s s' = Agree s s' ⊎ ((at : Time) × IsRead w at × Agree (expire s at) s')
