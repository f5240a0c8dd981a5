-- ===== src/Tests/SignedIn.antt =====
-- A user who is signed in with a token, and the theorems on sessions applied to it.
use tachigo.Base.{◌≡◌, refl, [], ◌∷◌}
use tachigo.Models.{RefreshToken}
use tachigo.Effect.{World, world, calm}
use tachigo.Sessions.{insert_refresh_token, refresh}
use tachigo.Sessions.Tokens.{IsKeyed}
use tachigo.Sessions.Calls.{Call, Allows, perform}
use tachigo.Sessions.Refinement.{Refines, perform-Refines}
use tachigo.Tests.Books.{env}
use tachigo.Tests.Subscribers.{subscribed}

abbrev token : RefreshToken
token = record { id = 81; user_id = 2; token_hash = 44; expires_at = 3000; created_at = 100 }

abbrev signed_in : World
signed_in = world env 0 (record subscribed { refresh_tokens = token ∷ [] })

signed_in-IsKeyed : IsKeyed signed_in.db.refresh_tokens
signed_in-IsKeyed = (refl, tt)

perform-Refines_example :
    Refines
      (Allows (Call.refreshes 44) signed_in)
      signed_in.db
      (perform (Call.refreshes 44) signed_in).1.db
perform-Refines_example = perform-Refines (Call.refreshes 44) signed_in signed_in-IsKeyed

-- The token is replaced by the one of the answer.
rotated_token :
    (refresh 44 signed_in).1.db.refresh_tokens
    ≡ record { id = 1013; user_id = 2; token_hash = 2009; expires_at = 5013; created_at = 15 } ∷ []
unfolding refresh calm insert_refresh_token
rotated_token = refl
