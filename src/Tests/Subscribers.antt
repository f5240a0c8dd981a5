-- ===== src/Tests/Subscribers.antt =====
-- A raffle that is due, subscribers on two pages, and the theorems on imports applied to them.
use tachigo.Base.{ℕ, ◌≡◌, refl, ◌+◌, false, some, none, [], ◌∷◌, ◌==◌, if◌then◌else◌, length}
use tachigo.Models.{
  ok, Result, Name, Raffle, RaffleSource, User, UserRole, ProviderType, AuthProvider,
}
use tachigo.Effect.{
  Db, Env, TwitchQuery, TwitchAnswer, TwitchSubsPage, TwitchSubscription, world, calm,
}
use tachigo.Effect.Safe.{Safe}
use tachigo.Raffles.Snapshots.{run_scheduled_snapshots, snapshot_window}
use tachigo.Raffles.Batches.{IsDue}
use tachigo.Raffles.Activations.{Activated, run_scheduled_snapshots-Activated}
use tachigo.Raffles.Entries.{insert_entry}
use tachigo.Tests.Books.{env}
use tachigo.Tests.Prizes.{raffle, raffled}

abbrev pub scheduled : Raffle
scheduled = record raffle { source = RaffleSource.twitch_api; scheduled_at = some 500 }

-- The user of a number is called so, and has the login of that number.
abbrev pub user : ℕ → User
user n = record {
  id = n;
  username = some n;
  email = none;
  password_hash = none;
  avatar_url = none;
  role = UserRole.viewer;
  email_verified = false;
  deleted_at = none;
}

abbrev pub linked : ℕ → AuthProvider
linked n = record {
  id = n;
  user_id = n;
  provider = ProviderType.twitch;
  provider_id = n;
  access_token = some 33;
  refresh_token = none;
  token_expires_at = none;
  created_at = 100;
  deleted_at = none;
}

abbrev pub subscribed : Db
subscribed = record raffled {
  raffles = scheduled ∷ [];
  users = user 1 ∷ user 2 ∷ user 3 ∷ [];
  auth_providers = linked 1 ∷ linked 2 ∷ linked 3 ∷ [];
}

abbrev subscription : ℕ → TwitchSubscription
subscription n = record { user_id = n; user_login = n; user_name = n }

-- The second page, after the cursor 1, is the last.
abbrev page : Name → TwitchSubsPage
page cursor =
    if cursor == 0
    then record { subscriptions = subscription 2 ∷ subscription 9 ∷ []; cursor = 1 }
    else record { subscriptions = subscription 3 ∷ subscription 2 ∷ []; cursor = 0 }

abbrev answer : TwitchQuery → Result TwitchAnswer
answer (TwitchQuery.of_user b u) = ok (record { status = 404; page = ok (page 1) })
answer (TwitchQuery.page_after b c) = ok (record { status = 200; page = ok (page c) })

abbrev paged : Env
paged = record env { outside = record env.outside { twitch_get = λ t token q. answer q } }

abbrev ahead : Name → ℕ
ahead cursor = if cursor == 0 then 1 else 0

run_scheduled_snapshots-Activated_example :
    Safe
      (Activated (IsDue (100 + snapshot_window) subscribed.raffles) subscribed)
      subscribed
      (run_scheduled_snapshots 2 100)
      (λ _ db. Activated (IsDue (100 + snapshot_window) subscribed.raffles) subscribed db)
run_scheduled_snapshots-Activated_example = run_scheduled_snapshots-Activated 2 100 subscribed

-- Two of the subscribers of two pages have accounts and come in once each, and the raffle is active.
synchronised :
    length (run_scheduled_snapshots 2 100 (world paged 0 subscribed)).1.db.raffle_entries ≡ 4
unfolding run_scheduled_snapshots calm insert_entry
synchronised = refl
