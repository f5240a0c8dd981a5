-- ===== src/Raffles/Entries.antt =====
-- Joining a raffle by the extension's button, and the statistics of the entries.
use tachigo.Base.{
  ℕ, Bool, true, false, not, ◌&&◌, Option, none, some, List, ◌∷◌, ◌==◌, ltb, leb, if◌then◌else◌,
  find_first, sort_by, update_where, length,
}
use tachigo.Models.{
  Uuid, Time, Name, ProviderType, twitch, AuthProvider, User, Raffle, RaffleMode, subscribers_only,
  extension_button, RaffleEntry, Result, Error, ok, err, duplicated_key, foreign_key_violated,
  raffle_not_found, entry_not_open, already_joined, not_subscriber, viewer_not_linked,
  twitch_token_missing, twitch_insufficient_scope, unexpected_status,
}
use tachigo.Effect.{
  Db, M, TwitchAnswer, TwitchSubsPage, of_user, sql, ask, now, new_uuid, guard, raise, catch, lift,
  not_found_as, ◌>>=◌, ◌>>◌, pure,
}
use tachigo.Ledger.{row_or_missing}
use tachigo.Durations.{streams}
use tachigo.Raffles.{first_raffle, has_raffle_id}

abbrev pub is_unset : Option Time → Bool
is_unset none = true
is_unset (some _) = false

-- `users.id = auth_providers.user_id AND users.deleted_at IS NULL`
abbrev pub is_user_of : Uuid → User → Bool
is_user_of id u = u.id == id && is_unset u.deleted_at

abbrev pub is_there {ℓ} : {A : Type ℓ} → Option A → Bool
is_there none = false
is_there (some _) = true

-- A login at Twitch of a user who is not deleted.
abbrev pub links : Name → List User → AuthProvider → Bool
links login users p = streams login p && is_there (find_first (is_user_of p.user_id) users)

abbrev pub first_viewer : Name → Db → Result (AuthProvider × Db)
first_viewer login db = row_or_missing (find_first (links login db.users) db.auth_providers) db

abbrev pub is_twitch : ProviderType → Bool
is_twitch twitch = true
is_twitch _ = false

-- `user_id = ? AND provider = 'twitch'`, in the order of the primary key.
abbrev pub broadcasts : Uuid → AuthProvider → Bool
broadcasts user p = p.user_id == user && is_twitch p.provider && is_unset p.deleted_at

abbrev pub by_key : AuthProvider → AuthProvider → Bool
by_key p q = leb p.id q.id

abbrev pub first_broadcaster : Uuid → Db → Result (AuthProvider × Db)
first_broadcaster user db =
    row_or_missing (find_first (broadcasts user) (sort_by by_key db.auth_providers)) db

-- No token is the empty text.
abbrev pub decrypted : Option Name → M Name
decrypted none = pure 0
decrypted (some t) = ask (λ env _. env.outside.decrypt_token t) >>= lift

unfoldable pub decrypted_provider_access_token : AuthProvider → M Name
decrypted_provider_access_token p = decrypted p.access_token

abbrev pub without_tokens : AuthProvider → AuthProvider
without_tokens p = record p { access_token = none; refresh_token = none; token_expires_at = none }

abbrev pub clear_tokens : Uuid → Db → Result (Unit {0} × Db)
clear_tokens id db = ok (
  tt,
  record db { auth_providers = update_where (λ p. p.id == id) without_tokens db.auth_providers },
)

-- Its failure is ignored.
unfoldable pub clear_provider_tokens : Uuid → M (Unit {0})
clear_provider_tokens id = if id == 0 then pure tt else catch (sql (clear_tokens id)) (λ _. pure tt)

-- The status decides before the body is read.
abbrev pub decoded : Result TwitchSubsPage → M Bool
decoded (ok page) = pure (ltb 0 (length page.subscriptions))
decoded (err e) = raise e

abbrev pub is_subscribed : Result TwitchAnswer → M Bool
is_subscribed (err e) = raise e
is_subscribed (ok a) =
    if a.status == 401
    then raise twitch_token_missing
    else if a.status == 403
    then raise twitch_insufficient_scope
    else if a.status == 404
    then pure false
    else if a.status == 200
    then decoded a.page
    else raise (unexpected_status a.status)

unfoldable pub fetch_twitch_subscription : Name → Name → Name → M Bool
fetch_twitch_subscription token broadcaster user =
    ask (λ env t. env.outside.twitch_get t token (of_user broadcaster user)) >>= is_subscribed

abbrev pub lacks_scope : Error → Bool
lacks_scope twitch_insufficient_scope = true
lacks_scope _ = false

-- The tokens are cleared when they are of no more use.
abbrev pub after_fetch : Uuid → Result Bool → M (Unit {0})
after_fetch provider (ok b) = guard b not_subscriber
after_fetch provider (err e) =
    if lacks_scope e then clear_provider_tokens provider >> raise e else raise e

-- `TokenExpiresAt != nil && time.Now().After(*TokenExpiresAt)`
abbrev pub has_expired : Option Time → M Bool
has_expired none = pure false
has_expired (some t) = now >>= λ at. pure (ltb t at)

unfoldable pub fetch_with : AuthProvider → Name → Name → M (Unit {0})
unfolding clear_provider_tokens fetch_twitch_subscription
fetch_with b login token = do
  expired ← has_expired b.token_expires_at
  if expired
      then clear_provider_tokens b.id >> raise twitch_token_missing
      else catch (fetch_twitch_subscription token b.provider_id login) (after_fetch b.id)

-- The viewer's subscription to the raffle's broadcaster.
unfoldable pub check_subscription : Raffle → Name → M (Unit {0})
unfolding clear_provider_tokens fetch_with decrypted_provider_access_token
check_subscription r login = do
  b ← not_found_as twitch_token_missing (sql (first_broadcaster r.user_id))
  token ← decrypted_provider_access_token b
  if token == 0
      then clear_provider_tokens b.id >> raise twitch_token_missing
      else fetch_with b login token

abbrev pub is_for_subscribers : RaffleMode → Bool
is_for_subscribers subscribers_only = true
is_for_subscribers _ = false

-- The user's name, or else the id at Twitch.
abbrev pub name_of : Option User → Name → Name
name_of none login = login
name_of (some u) login = elim u.username [ none ↦ login | some n ↦ n ]

abbrev pub new_entry : Uuid → Uuid → Uuid → Name → Time → RaffleEntry
new_entry id raffle user login at = record {
  id = id;
  raffle_id = raffle;
  user_id = some user;
  twitch_login = login;
  display_name = login;
  source = some extension_button;
  eligible = true;
  ineligible_reason = 0;
  created_at = at;
}

-- `ON CONFLICT (raffle_id, twitch_login) DO NOTHING`: the number of rows affected.
abbrev pub enters : Uuid → Name → RaffleEntry → Bool
enters raffle login e = e.raffle_id == raffle && e.twitch_login == login

abbrev pub insert_new_entry :
    RaffleEntry → Option RaffleEntry → Option Raffle → Db → Result (ℕ × Db)
insert_new_entry e (some _) _ db = err duplicated_key
insert_new_entry e none none db = err foreign_key_violated
insert_new_entry e none (some _) db = ok (1, record db { raffle_entries = e ∷ db.raffle_entries })

abbrev pub insert_entry_row : RaffleEntry → Option RaffleEntry → Db → Result (ℕ × Db)
insert_entry_row e (some _) db = ok (0, db)
insert_entry_row e none db =
    insert_new_entry e (find_first (λ f. f.id == e.id) db.raffle_entries)
      (find_first (has_raffle_id e.raffle_id) db.raffles) db

unfoldable pub insert_entry : RaffleEntry → Db → Result (ℕ × Db)
insert_entry e db =
    insert_entry_row e (find_first (enters e.raffle_id e.twitch_login) db.raffle_entries) db

unfoldable pub enter_viewer : Raffle → Name → AuthProvider → M RaffleEntry
unfolding check_subscription
enter_viewer r login p = do
  name ← sql λ db. ok (name_of (find_first (λ u. u.id == p.user_id) db.users) login, db)
  if is_for_subscribers r.mode then check_subscription r login else pure tt
  at ← now
  id ← new_uuid
  let entry = new_entry id r.id p.user_id name at
  affected ← sql (insert_entry entry)
  guard (not (affected == 0)) already_joined
  pure entry

unfoldable pub join_raffle : Uuid → Name → M RaffleEntry
unfolding enter_viewer
join_raffle raffle login = do
  r ← not_found_as raffle_not_found (sql (first_raffle raffle))
  guard r.entry_open entry_not_open
  p ← not_found_as viewer_not_linked (sql (first_viewer login))
  enter_viewer r login p
