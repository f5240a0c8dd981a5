-- ===== src/Tests/Newcomers.antt =====
-- Users who sign in by a provider, and the theorems on accounts applied to them.
use tachigo.Base.{◌≡◌, ◌≢◌, refl, true, none, length, arith, [], ◌∷◌}
use tachigo.Models.{ok, ProviderType}
use tachigo.Effect.{Db, World, world, calm}
use tachigo.Effect.Runs.{Runs}
use tachigo.Effect.Safe.{Safe, Outcome}
use tachigo.Sessions.{insert_refresh_token}
use tachigo.Accounts.Rows.{Identity, insert_user, insert_login, assign_provider_tokens}
use tachigo.Accounts.{upsert_oauth_user}
use tachigo.Accounts.Recovery.{Signs, upsert_oauth_user-SignsIn, upsert_oauth_user-ends}
use tachigo.Accounts.Logins.{RegisterInput, register, unlink_provider, Web3VerifyInput, web3_verify}
use tachigo.Accounts.Registering.{Registered, register-Registered}
use tachigo.Accounts.Unlinking.{IsOnePerProvider, Unlinked, unlink_provider-Unlinked}
use tachigo.Accounts.Wallets.{Verified, Refused, web3_verify-Verified}
use tachigo.Tests.Books.{env}
use tachigo.Tests.Subscribers.{subscribed, linked}

abbrev newcomer : Identity
newcomer = record {
  provider = ProviderType.google;
  provider_id = 91;
  username = 5;
  email = 92;
  email_verified = true;
  avatar_url = none;
  token = none;
}

-- Her name is taken.
abbrev namesake : Identity
namesake = record newcomer { username = 2 }

upsert_oauth_user-SignsIn_example :
    Safe
      (λ db'. db' ≡ subscribed)
      subscribed
      (upsert_oauth_user 2 newcomer)
      (Signs subscribed newcomer)
upsert_oauth_user-SignsIn_example = upsert_oauth_user-SignsIn subscribed 2 newcomer

upsert_oauth_user-ends_example : (upsert_oauth_user 2 namesake (world env 0 subscribed)).0 ≢ ok none
upsert_oauth_user-ends_example = upsert_oauth_user-ends 0 namesake (world env 0 subscribed)

-- She is signed up without the name.
without_name : length (upsert_oauth_user 2 namesake (world env 0 subscribed)).1.db.users ≡ 4
unfolding upsert_oauth_user calm insert_user insert_login insert_refresh_token
    assign_provider_tokens
without_name = refl

abbrev registration : RegisterInput
registration = record { username = 6; email = 93; password = 12 }

register-Registered_example :
    Runs
      (λ db'. db' ≡ subscribed)
      (world env 0 subscribed)
      (register registration)
      (λ r db'. Registered registration (world env 0 subscribed) r.0 db')
register-Registered_example = register-Registered registration (world env 0 subscribed)

-- She has logins of two providers.
abbrev with_two : Db
with_two = record subscribed {
  auth_providers = record (linked 2) { id = 4; provider = ProviderType.google } ∷ linked 2 ∷ [];
}

with_two-IsOnePerProvider : IsOnePerProvider 2 with_two.auth_providers
with_two-IsOnePerProvider ProviderType.twitch = omega arith
with_two-IsOnePerProvider ProviderType.google = omega arith
with_two-IsOnePerProvider ProviderType.web3 = omega arith
with_two-IsOnePerProvider ProviderType.email = omega arith

unlink_provider-Unlinked_example :
    Safe
      (λ db'. db' ≡ with_two)
      with_two
      (unlink_provider 2 ProviderType.google)
      (λ _ db'. Unlinked 2 ProviderType.google with_two db')
unlink_provider-Unlinked_example =
    unlink_provider-Unlinked 2 ProviderType.google with_two with_two-IsOnePerProvider

abbrev asked : World
asked = world env 0 (record subscribed {
  web3_nonces =
      record { id = 95; nonce = 96; address = 97; expires_at = 900; created_at = 100 } ∷ [];
})

abbrev signed : Web3VerifyInput
signed = record { address = 97; signature = 98; nonce = 96 }

web3_verify-Verified_example :
    Outcome
      (Refused asked.env.outside signed asked.db)
      (web3_verify 2 signed asked)
      (Verified asked.env.outside signed asked.db)
web3_verify-Verified_example = web3_verify-Verified 2 signed asked
