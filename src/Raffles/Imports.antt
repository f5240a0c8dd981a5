-- ===== src/Raffles/Imports.antt =====
-- Entries that the streamer brings in: rows of a CSV file (ImportCSV) and the subscribers that Twitch
-- lists (SyncFromTwitchAPI). Neither runs in a transaction: a failure leaves what came before it.
use tachigo.Base.{
  ℕ, zero, suc, Bool, true, false, not, ◌&&◌, ◌||◌, Option, none, some, List, [], ◌∷◌, ◌==◌,
  if◌then◌else◌, find_first, sort_by, count_where, is_some_of,
}
use tachigo.Models.{
  Uuid, Time, Name, AuthProvider, User, RaffleSource, twitch_api, RaffleEntry, Result, ok, err,
  duplicated_key, raffle_not_draft, twitch_token_missing, twitch_insufficient_scope,
  unsupported_raffle_source, unexpected_status,
}
use tachigo.Effect.{
  Db, M, TwitchAnswer, TwitchSubscription, TwitchSubsPage, page_after, sql, ask, now, new_uuid,
  guard, raise, catch, lift, not_found_as, not_found_to, ◌>>=◌, ◌>>◌, pure,
}
use tachigo.Ledger.{row_or_missing}
use tachigo.Raffles.{is_draft, get_by_id, has_raffle_id}
use tachigo.Raffles.Entries.{
  is_unset, is_twitch, is_there, by_key, first_viewer, first_broadcaster,
  decrypted_provider_access_token, clear_provider_tokens, lacks_scope, has_expired, enters,
  insert_new_entry, insert_entry,
}

-- How many rows came in and how many were passed over.
pub record ImportResult : Type 0 where
  pub imported : ℕ
  pub skipped : ℕ

abbrev pub no_import : ImportResult
no_import = record { imported = 0; skipped = 0 }

abbrev pub counting : ImportResult → ImportResult
counting r = record r { imported = suc r.imported }

abbrev pub skipping : ImportResult → ImportResult
skipping r = record r { skipped = suc r.skipped }

-- An entry as the import writes it: no source, and eligible by the column's default.
abbrev pub imported_entry : Uuid → Uuid → Uuid → Name → Name → Time → RaffleEntry
imported_entry id raffle user login name at = record {
  id = id;
  raffle_id = raffle;
  user_id = some user;
  twitch_login = login;
  display_name = name;
  source = none;
  eligible = true;
  ineligible_reason = 0;
  created_at = at;
}

-- `users.username = ?`, for a user who is not deleted.
abbrev is_called : Name → Uuid → User → Bool
is_called name id u = u.id == id && is_unset u.deleted_at && is_some_of u.username name

-- A login at Twitch, whichever, of the user of that name, in the order of the primary key.
abbrev pub names : Name → List User → AuthProvider → Bool
names name users p =
    is_twitch p.provider
    && is_unset p.deleted_at
    && is_there (find_first (is_called name p.user_id) users)

abbrev pub first_named : Name → Db → Result (AuthProvider × Db)
first_named name db =
    row_or_missing (find_first (names name db.users) (sort_by by_key db.auth_providers)) db

-- `Create`, which the unique index on raffle and login may refuse.
abbrev pub create_entry_row : RaffleEntry → Option RaffleEntry → Db → Result (ℕ × Db)
create_entry_row e (some _) db = err duplicated_key
create_entry_row e none db =
    insert_new_entry e (find_first (λ f. f.id == e.id) db.raffle_entries)
      (find_first (has_raffle_id e.raffle_id) db.raffles) db

unfoldable pub create_entry : RaffleEntry → Db → Result (ℕ × Db)
create_entry e db =
    create_entry_row e (find_first (enters e.raffle_id e.twitch_login) db.raffle_entries) db

-- A user with a login at Twitch is entered, anyone else is passed over.
unfoldable pub import_viewer :
    Uuid → Name → Name → ImportResult → Option AuthProvider → M ImportResult
import_viewer raffle login name res none = pure (skipping res)
import_viewer raffle login name res (some p) = do
  id ← new_uuid
  at ← now
  sql (create_entry (imported_entry id raffle p.user_id login name at))
  pure (counting res)

unfoldable pub import_login : Uuid → Name → Name → ImportResult → M ImportResult
unfolding import_viewer
import_login raffle login name res = do
  count ← sql λ db. ok (count_where (enters raffle login) db.raffle_entries, db)
  if not (count == 0) then pure (skipping res) else do
    p ← not_found_to none (sql (first_named login) >>= λ p. pure (some p))
    import_viewer raffle login name res p

abbrev pub trimmed : List Name → M Name
trimmed [] = pure 0
trimmed (cell ∷ _) = ask λ env _. env.outside.strings.trim_space cell

-- An empty login and the header are no rows.
unfoldable pub import_row : Uuid → List Name → ImportResult → M ImportResult
unfolding import_login
import_row raffle [] res = pure res
import_row raffle (cell ∷ rest) res = do
  login ← ask λ env _. env.outside.strings.trim_space cell
  header ← ask λ env _. env.outside.strings.equal_fold login "twitch_login"
  if login == 0 || header
      then pure res
      else do name ← trimmed rest; import_login raffle login name res

-- What the CSV reader returns, up to the end of the file.
unfoldable pub import_records : Uuid → List (Result (List Name)) → ImportResult → M ImportResult
unfolding import_row
import_records raffle [] res = pure res
import_records raffle (err e ∷ _) res = raise e
import_records raffle (ok cells ∷ rest) res =
    import_row raffle cells res >>= import_records raffle rest

unfoldable pub import_csv : Uuid → Uuid → List (Result (List Name)) → M ImportResult
unfolding get_by_id import_records
import_csv raffle user records = do
  r ← get_by_id raffle user
  guard (is_draft r) raffle_not_draft
  import_records raffle records no_import

abbrev pub is_twitch_api : RaffleSource → Bool
is_twitch_api twitch_api = true
is_twitch_api _ = false

-- The status decides before the body is read.
abbrev pub page_of : Result TwitchAnswer → M TwitchSubsPage
page_of (err e) = raise e
page_of (ok a) =
    if a.status == 401 || a.status == 403
    then raise twitch_insufficient_scope
    else if a.status == 200
    then lift a.page
    else raise (unexpected_status a.status)

unfoldable pub fetch_twitch_subs_page : Name → Name → Name → M TwitchSubsPage
fetch_twitch_subs_page token broadcaster cursor =
    ask (λ env t. env.outside.twitch_get t token (page_after broadcaster cursor)) >>= page_of

-- Tokens that lack the scope are cleared.
abbrev pub after_page : Uuid → Result TwitchSubsPage → M TwitchSubsPage
after_page provider (ok p) = pure p
after_page provider (err e) =
    if lacks_scope e then clear_provider_tokens provider >> raise e else raise e

unfoldable pub sync_viewer :
    Uuid → TwitchSubscription → ImportResult → Option AuthProvider → M ImportResult
sync_viewer raffle s res none = pure (skipping res)
sync_viewer raffle s res (some p) = do
  id ← new_uuid
  at ← now
  affected ← sql (insert_entry (imported_entry id raffle p.user_id s.user_login s.user_name at))
  pure (if affected == 0 then skipping res else counting res)

unfoldable pub sync_page : Uuid → List TwitchSubscription → ImportResult → M ImportResult
unfolding sync_viewer
sync_page raffle [] res = pure res
sync_page raffle (s ∷ rest) res = do
  p ← not_found_to none (sql (first_viewer s.user_id) >>= λ p. pure (some p))
  res' ← sync_viewer raffle s res p
  sync_page raffle rest res'

-- The loop over pages, on the number of pages that it may still ask for: `none` when that runs out.
unfoldable pub sync_pages :
    ℕ → Uuid → AuthProvider → Name → Name → ImportResult → M (Option ImportResult)
unfolding fetch_twitch_subs_page clear_provider_tokens sync_page
sync_pages zero raffle p token cursor res = pure none
sync_pages (suc fuel) raffle p token cursor res = do
  page ← catch (fetch_twitch_subs_page token p.provider_id cursor) (after_page p.id)
  res' ← sync_page raffle page.subscriptions res
  let rest = sync_pages fuel raffle p token page.cursor res'
  if page.cursor == 0 then pure (some res') else rest

unfoldable pub sync_from_twitch_api : ℕ → Uuid → Uuid → M (Option ImportResult)
unfolding get_by_id decrypted_provider_access_token clear_provider_tokens sync_pages
sync_from_twitch_api fuel raffle user = do
  r ← get_by_id raffle user
  guard (is_twitch_api r.source) unsupported_raffle_source
  p ← not_found_as twitch_token_missing (sql (first_broadcaster user))
  token ← decrypted_provider_access_token p
  guard (not (token == 0)) twitch_token_missing
  expired ← has_expired p.token_expires_at
  if expired
      then clear_provider_tokens p.id >> raise twitch_token_missing
      else sync_pages fuel raffle p token 0 no_import
