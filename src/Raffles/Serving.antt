-- ===== src/Raffles/Serving.antt =====
-- What one call of the raffle service does to the tables.
use tachigo.Base.{◌+◌, ◌≡◌, refl, subst, Option, none, some, [], ◌∷◌}
use tachigo.Models.{Uuid, AuthProvider, RaffleEntry}
use tachigo.Effect.{world, Db, M}
use tachigo.Effect.Safe.{Safe, Safe-pure, Safe-bind, Safe-outcome}
use tachigo.Raffles.Joining.{OnlyLogins, Joined, join_raffle-Joined}
use tachigo.Raffles.Fairness.{IsFair, OnlyPrizes}
use tachigo.Raffles.Drawing.{draw_next-Drawn, draw_from_tier-Drawn}
use tachigo.Raffles.Quotas.{
  create_prize_tier-IsFair, update_prize_tier-IsFair, delete_prize_tier-IsFair,
}
use tachigo.Effect.Runs.{Safe-Runs}
use tachigo.Raffles.Delivery.{HasSingleClaims, Claimed, submit_claim-Claimed}
use tachigo.Raffles.Edits.{
  Edit, updated, create-Edit, activate-Edit, complete-Edit, set_mode-Edit, set_entry_open-Edit,
  set_discord_webhook-Edit, activation-Rises,
}
use tachigo.Raffles.Imports.{ImportResult}
use tachigo.Raffles.Importing.{Stopped, stop, IsNamed, import_csv-Entered}
use tachigo.Raffles.Syncing.{IsLinked, Synced, sync_from_twitch_api-Synced}
use tachigo.Raffles.Snapshots.{snapshot_window}
use tachigo.Raffles.Batches.{Keeps, run-keeps}
use tachigo.Raffles.Turns.{IsSound, Turn, edits, fairly, claims, importing, Turns, still, more}
use tachigo.Raffles.Calls.{
  Call, serve, silent, creates, activates, completes, sets_mode, sets_entry_open, sets_webhook,
  creates_tier, updates_tier, deletes_tier, draws_next, draws_from_tier, submits_claim, joins,
  imports, syncs, runs_snapshots,
}

-- One change.
once_done : {db db' : Db} → Turn db db' → Turns db db'
once_done t = more still t

-- What an import leaves is one change, also where it stopped.
Stopped-Turn :
    {raffle : Uuid} {V : RaffleEntry → AuthProvider → Type 0} {db db' : Db}
    → Stopped raffle V db db'
    → Turn db db'
Stopped-Turn {raffle} {V} {db} {db'} s =
    importing s.entered.new s.entered.first
      (subst (λ d. OnlyLogins d db') s.entered.stored s.logins)

module _ (db : Db) (sound : IsSound db) where
  imported :
      {A : Type 0} {raffle : Uuid} {V : RaffleEntry → AuthProvider → Type 0} (m : M A)
      → Safe (Stopped raffle V db) db m (λ _ db'. Stopped raffle V db db')
      → Safe (Turns db) db (silent m) (λ _ db'. Turns db db')
  imported {A} {raffle} {V} m s =
      Safe-bind (λ _ db'. Turns db db') _ _
        (Safe-outcome (Stopped raffle V db) (λ _ db'. Stopped raffle V db db') s
          (λ _ x. once_done (Stopped-Turn x)) (λ _ _ x. once_done (Stopped-Turn x)))
        λ a db' t. Safe-pure tt t

  of_table :
      {A : Type 0} (m : M A)
      → Safe (Edit db) db m (λ _ db'. Edit db db')
      → Safe (Turns db) db (silent m) (λ _ db'. Turns db db')
  of_table m s =
      Safe-bind (λ _ db'. Turns db db') _ _
        (Safe-outcome (Edit db) (λ _ db'. Edit db db') s (λ _ e. once_done (edits e))
          (λ _ _ e. once_done (edits e)))
        λ a db' t. Safe-pure tt t

  of_prizes :
      {A : Type 0} (m : M A)
      → Safe (λ db'. db' ≡ db) db m (λ _ db'. IsFair db' × OnlyPrizes db db')
      → Safe (Turns db) db (silent m) (λ _ db'. Turns db db')
  of_prizes m s =
      Safe-bind (λ _ db'. Turns db db') _ _
        (Safe-outcome (λ db'. db' ≡ db) _ s (λ _ e. rw e still)
          (λ _ _ h. once_done (fairly h.0 h.1)))
        λ a db' t. Safe-pure tt t

  pub serve-Turns : (c : Call) → Safe (Turns db) db (serve c) (λ _ db'. Turns db db')
  unfolding serve
  serve-Turns (creates user title) = of_table _ (create-Edit db user title)
  serve-Turns (activates id user) = of_table _ (activate-Edit db id user)
  serve-Turns (completes id user) = of_table _ (complete-Edit db id user)
  serve-Turns (sets_mode id user m) = of_table _ (set_mode-Edit db id user m)
  serve-Turns (sets_entry_open id user b) = of_table _ (set_entry_open-Edit db id user b)
  serve-Turns (sets_webhook id user url) = of_table _ (set_discord_webhook-Edit db id user url)
  serve-Turns (creates_tier raffle user input) =
      of_prizes _ (create_prize_tier-IsFair raffle user db sound.fair input)
  serve-Turns (updates_tier raffle id user input) =
      of_prizes _ (update_prize_tier-IsFair raffle user db sound.fair id input)
  serve-Turns (deletes_tier raffle id user) =
      Safe-outcome (λ db'. IsFair db' × OnlyPrizes db db') _
        (delete_prize_tier-IsFair raffle user db sound.fair id) (λ _ h. once_done (fairly h.0 h.1))
        (λ _ _ h. once_done (fairly h.0 h.1))
  serve-Turns (draws_next raffle user) = of_prizes _ (
      Safe-outcome (λ db'. db' ≡ db) _ (draw_next-Drawn raffle user db sound.fair) (λ _ e. e)
        (λ _ _ d. (d.0.fair, d.0.frame)))
  serve-Turns (draws_from_tier raffle tier user) = of_prizes _ (
      Safe-outcome (λ db'. db' ≡ db) _ (draw_from_tier-Drawn raffle user db sound.fair tier)
        (λ _ e. e) (λ _ _ d. (d.0.fair, d.0.frame)))
  serve-Turns (submits_claim raw user input) =
      Safe-bind (λ _ db'. Turns db db') _ _
        (Safe-Runs (Claimed raw user)
          (λ env tick. submit_claim-Claimed raw user input (world env tick db) sound.single)
          (λ _ e. rw e still)
          (λ env tick c db' h. rw h.stored (
            once_done (claims c (subst (λ d. HasSingleClaims d.raffle_claims) h.stored h.single)))))
        λ a db' t. Safe-pure tt t
  serve-Turns (joins raffle login) =
      Safe-bind (λ _ db'. Turns db db') _ _
        (Safe-outcome (OnlyLogins db) (Joined raffle login db) (join_raffle-Joined raffle login db)
          (λ _ o. once_done (importing [] tt o))
          (λ e db' h. rw h.stored (once_done (importing (e ∷ []) (h.first, tt) refl))))
        λ a db' t. Safe-pure tt t
  serve-Turns (imports raffle user records) = imported _ (
      Safe-outcome (Stopped raffle (IsNamed db) db) _ (import_csv-Entered raffle db user records)
        (λ _ s. s) (λ _ _ h. stop h.1))
  serve-Turns (syncs fuel raffle user) = imported _ (
      Safe-outcome (Stopped raffle (IsLinked db) db) _
        (sync_from_twitch_api-Synced raffle db fuel user) (λ _ s. s) (λ o _ h. synced o h.1))
    where
      synced :
          {db' : Db} (o : Option ImportResult)
          → Synced raffle db o db'
          → Stopped raffle (IsLinked db) db db'
      synced none s = s
      synced (some r) s = stop s
  serve-Turns (runs_snapshots fuel at) =
      Safe-bind (λ _ db'. Turns db db') _ _ (run-keeps db fuel at (Turns db) batch still)
        λ a db' t. Safe-pure tt t
    where
      batch : Keeps db (at + snapshot_window) (Turns db)
      batch = record {
        synced = λ raffle db1 db2 t s. more t (Stopped-Turn s);
        promoted = λ id db1 d t. more t (edits (updated _ _ (activation-Rises id)));
      }
