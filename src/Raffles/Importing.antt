-- ===== src/Raffles/Importing.antt =====
-- What an import leaves: ImportCSV of services/raffle_service.go.
use tachigo.Base.{
  ℕ, suc, ◌≡◌, refl, true, not, ◌||◌, Option, none, some, List, [], ◌∷◌, ◌++◌, ◌==◌, length, All,
  find_first, sort_by, ap, sym, ◌∙◌,
}
use tachigo.Models.{
  Uuid, Name, AuthProvider, Raffle, RaffleEntry, Result, ok, err, raffle_not_draft,
}
use tachigo.Effect.{Db, M}
use tachigo.Effect.Ensures.{Gives}
use tachigo.Effect.Safe.{
  Safe, Safe-pure, Safe-raise, Safe-if, Safe-bind, Safe-guard, Safe-sql, Safe-bind-now,
  Safe-bind-new_uuid, Safe-bind-ask, Safe-ask, Safe-outcome,
}
use tachigo.Ledger.Lookups.{Safe-bind-lookup}
use tachigo.Raffles.{is_draft}
use tachigo.Raffles.Access.{Owned, get_by_id-Owned}
use tachigo.Raffles.Entries.{by_key, enters, insert_new_entry}
use tachigo.Raffles.Joining.{OnlyLogins}
use tachigo.Raffles.Imports.{
  ImportResult, no_import, imported_entry, names, create_entry_row, create_entry, import_viewer,
  import_login, trimmed, import_row, import_records, import_csv,
}

-- New entries come before the old ones.
abbrev pub grown : Db → List RaffleEntry → Db
grown before new = record before { raffle_entries = new ++ before.raffle_entries }

-- No entry behind a new one has its raffle and login.
abbrev pub AreFirst : List RaffleEntry → List RaffleEntry → Type 0
AreFirst [] old = Unit
AreFirst (e ∷ new) old =
    (find_first (enters e.raffle_id e.twitch_login) (new ++ old) ≡ none) × AreFirst new old

-- From the tables `before`, `n` entries have come in, of the raffle, each of a user with a login that
-- passes the test, and nothing else has changed.
pub record Entered (raffle : Uuid) (V : RaffleEntry → AuthProvider → Type 0) (before : Db) (n : ℕ)
    (db : Db) : Type 0 where
  pub new : List RaffleEntry
  pub counted : length new ≡ n
  pub of_raffle : All (λ e. e.raffle_id ≡ raffle) new
  pub viewers : All (λ e. (p : AuthProvider) × (e.user_id ≡ some p.user_id) × V e p) new
  pub first : AreFirst new before.raffle_entries
  pub stored : db ≡ grown before new

-- A run that failed has entered some, and at most cleared tokens of a login besides.
pub record Stopped (raffle : Uuid) (V : RaffleEntry → AuthProvider → Type 0) (before db : Db)
    : Type 0 where
  pub n : ℕ
  pub reached : Db
  pub entered : Entered raffle V before n reached
  pub logins : OnlyLogins reached db

module _ {raffle : Uuid} {V : RaffleEntry → AuthProvider → Type 0} {before : Db} where
  pub Entered-none : Entered raffle V before 0 before
  Entered-none = record {
    new = [];
    counted = refl;
    of_raffle = tt;
    viewers = tt;
    first = tt;
    stored = refl;
  }

  pub stop : {n : ℕ} {db : Db} → Entered raffle V before n db → Stopped raffle V before db
  stop {n} {db} e = record { n = n; reached = db; entered = e; logins = refl }

  -- One more entry.
  pub Entered-one_more :
      {n : ℕ} {db : Db} (h : Entered raffle V before n db) (e : RaffleEntry) (p : AuthProvider)
      → e.raffle_id ≡ raffle
      → e.user_id ≡ some p.user_id
      → V e p
      → find_first (enters e.raffle_id e.twitch_login) db.raffle_entries ≡ none
      → Entered raffle V before (suc n) (record db { raffle_entries = e ∷ db.raffle_entries })
  Entered-one_more {n} {db} h e p r u v f = record {
    new = e ∷ h.new;
    counted = ap suc h.counted;
    of_raffle = (r, h.of_raffle);
    viewers = ((p, u, v), h.viewers);
    first = (
      ap (λ d. find_first (enters e.raffle_id e.twitch_login) d.raffle_entries) (sym h.stored) ∙ f,
      h.first,
    );
    stored = rw h.stored refl;
  }

-- An entry that was inserted, as the first of its login.
abbrev pub Inserted : RaffleEntry → Db → Db → Type 0
Inserted e db db' =
    (find_first (enters e.raffle_id e.twitch_login) db.raffle_entries ≡ none)
    × (db' ≡ record db { raffle_entries = e ∷ db.raffle_entries })

create_entry-Gives :
    (e : RaffleEntry) (db : Db) → Gives (create_entry e db) (λ _ db'. Inserted e db db')
unfolding create_entry
create_entry-Gives e db = go (find_first (enters e.raffle_id e.twitch_login) db.raffle_entries) refl
  where
    fresh :
        (o : Option RaffleEntry) (r : Option Raffle)
        → find_first (enters e.raffle_id e.twitch_login) db.raffle_entries ≡ none
        → Gives (insert_new_entry e o r db) (λ _ db'. Inserted e db db')
    fresh (some _) r h = tt
    fresh none none h = tt
    fresh none (some _) h = (h, refl)

    go :
        (o : Option RaffleEntry)
        → find_first (enters e.raffle_id e.twitch_login) db.raffle_entries ≡ o
        → Gives (create_entry_row e o db) (λ _ db'. Inserted e db db')
    go (some _) h = tt
    go none h = fresh _ _ h

-- The user who is called as the entry's login, with a login at Twitch.
abbrev pub IsNamed : Db → RaffleEntry → AuthProvider → Type 0
IsNamed before e p =
    find_first (names e.twitch_login before.users) (sort_by by_key before.auth_providers) ≡ some p

module _ (raffle : Uuid) (before : Db) where
  abbrev InCsv : ℕ → Db → Type 0
  InCsv = Entered raffle (IsNamed before) before

  abbrev Counts : {A : Type 0} → (A → ℕ) → Db → M A → Type 0
  Counts n db m = Safe (Stopped raffle (IsNamed before) before) db m (λ a db'. InCsv (n a) db')

  viewer-Counts :
      (login name : Name) (res : ImportResult) (db : Db) (o : Option AuthProvider)
      → InCsv res.imported db
      → find_first (names login before.users) (sort_by by_key before.auth_providers) ≡ o
      → Counts (λ r. r.imported) db (import_viewer raffle login name res o)
  unfolding import_viewer
  viewer-Counts login name res db none h e = Safe-pure _ h
  viewer-Counts login name res db (some p) h e = Safe-bind-new_uuid _ λ id. Safe-bind-now _ λ at.
      let entry = imported_entry id raffle p.user_id login name at in
      Safe-bind (λ _ db'. Inserted entry db db') _ _
        (Safe-sql (create_entry entry) (stop h) (create_entry-Gives entry db))
        λ _ db' ins. rw ins.1 (Safe-pure _ (Entered-one_more h entry p refl refl e ins.0))

  login-Counts :
      (login name : Name) (res : ImportResult) (db : Db)
      → InCsv res.imported db
      → Counts (λ r. r.imported) db (import_login raffle login name res)
  unfolding import_login
  login-Counts login name res db h =
      Safe-bind (λ _ db'. db' ≡ db) _ _ (Safe-sql _ (stop h) refl)
        λ count db' same. rw same (
          Safe-if (not (count == 0)) _ _ (λ _. Safe-pure _ h)
            λ _.
              Safe-bind-lookup
                (find_first (names login before.users) (sort_by by_key before.auth_providers)) _ _
                (rw h.stored refl) (stop h) (viewer-Counts login name res db _ h refl))

  row-Counts :
      (cells : List Name) (res : ImportResult) (db : Db)
      → InCsv res.imported db
      → Counts (λ r. r.imported) db (import_row raffle cells res)
  unfolding import_row
  row-Counts [] res db h = Safe-pure _ h
  row-Counts (cell ∷ rest) res db h = Safe-bind-ask _ _ λ login. Safe-bind-ask _ _ λ header.
      Safe-if (login == 0 || header) _ _ (λ _. Safe-pure _ h)
        λ _.
          Safe-bind (λ _ db'. db' ≡ db) _ _ (second rest)
            λ name db' same. rw same (login-Counts login name res db h)
    where
      second :
          (cells : List Name)
          → Safe (Stopped raffle (IsNamed before) before) db (trimmed cells) (λ _ db'. db' ≡ db)
      second [] = Safe-pure 0 refl
      second (c ∷ _) = Safe-ask _ λ _. refl

  records-Counts :
      (records : List (Result (List Name))) (res : ImportResult) (db : Db)
      → InCsv res.imported db
      → Counts (λ r. r.imported) db (import_records raffle records res)
  unfolding import_records
  records-Counts [] res db h = Safe-pure _ h
  records-Counts (err e ∷ _) res db h = Safe-raise e (stop h)
  records-Counts (ok cells ∷ rest) res db h =
      Safe-bind (λ r db'. InCsv r.imported db') _ _ (row-Counts cells res db h)
        λ r db' h'. records-Counts rest r db' h'

  pub import_csv-Entered :
      (user : Uuid) (records : List (Result (List Name)))
      → Safe
          (Stopped raffle (IsNamed before) before)
          before
          (import_csv raffle user records)
          (λ r db'.
            ((found : Raffle) × Owned raffle user before found × (is_draft found ≡ true))
            × Entered raffle (IsNamed before) before r.imported db')
  unfolding import_csv
  import_csv-Entered user records =
      Safe-bind (λ r db'. Owned raffle user before r × (db' ≡ before)) _ _
        (Safe-outcome (λ db'. db' ≡ before) _ (get_by_id-Owned raffle user before)
          (λ db' e. rw e (stop Entered-none)) (λ _ _ h. h))
        λ r db' own. rw own.1 (
          Safe-guard (is_draft r) raffle_not_draft _ (stop Entered-none) λ draft.
            Safe-outcome (Stopped raffle (IsNamed before) before) _
              (records-Counts records no_import before Entered-none) (λ _ s. s)
              (λ res db' h. ((r, own.0, draft), h)))
