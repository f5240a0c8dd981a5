-- ===== src/Lib.antt =====
-- Tachigo's points and tokens: a model of the services that move them, and what they keep.
--
-- The program is a Go backend (services/api) on PostgreSQL. Viewers earn points in a channel by
-- watching and clicking, spend them, and turn them into tokens; tokens buy coupons. Each service is
-- a set of methods on one database; a method runs SQL statements, most of them in a transaction,
-- reads the clock, makes UUIDs, and calls an Ethereum node or the coupon shop. The services meet
-- in the tables: a heartbeat, a click, an airdrop and a claim all write the ledgers of a viewer.
--
-- The files, with the code that each is about:
--   Models          services/api/internal/models: one record for each table, one data type for each
--                   enumeration, and `Error`, which has a constructor for each sentinel error.
--   Effect          gorm's `Transaction` and statements as a state-passing monad `M` on a `World`:
--                   the tables (`Db`), a tick, and the surroundings (`Env`). `Ensures` and `Safe` are
--                   the postconditions that the theorems are stated with: `Safe E db m Q` says that
--                   for every environment a run of `m` from the tables `db` either returns with `Q`
--                   or fails with `E` of the tables that it leaves. `Runs E w m Q` says the same of
--                   the run from the world `w`, so that `Q` may speak of its clock and surroundings.
--   Ledger          the statements on points_ledgers and points_transactions with the constraints of
--                   services/api/migrations, and `IsAudited`: every spendable balance is the sum of
--                   its transactions, every total the sum of its earnings, no balance is negative,
--                   and the keys are unique.
--   Points          services/points_service.go: GetBalance, ListTransactions, DeductPoints, AddPoints,
--                   AddPointsWithMeta.
--   Durations       services/points_service.go: AddWatchTime, GetWatchStats, AddBroadcastTime,
--                   AddHeartbeatTime, GetBroadcastStats. Durations/Heartbeats and
--                   Durations/Windows are about counters, log and report.
--   Watch           services/watch_service.go: StartSession in Watch/Opening, Heartbeat,
--                   EndSession, RecordClick and getChannelConfig in Watch.
--   ChannelConfigs  services/channel_config_service.go: Get, EffectiveMultiplier,
--                   UpdateChannelConfig.
--   Wallet, Balance the linked wallet of a user and the token balance (claim_service.go,
--                   spend_service.go, token_units.go).
--   Claims          services/claim_service.go: `reserve_claim` in Claims, the later transactions in
--                   Claims/Steps, `finalize_claim` and the whole `claim` in Claims/Saga; the other
--                   files of Claims hold the proofs.
--   Airdrop         services/airdrop_service.go: TodayTotal, the viewers and the limit in
--                   Airdrop/Reading, Execute and `distribute_airdrop` in Airdrop. Airdrop/Shares and
--                   Airdrop/Distribution are about the shares, Airdrop/Credits and
--                   Airdrop/Execution about the books.
--   Spending        services/spend_service.go: Redeem and its steps.
--   Raffles         services/raffle_service.go: the raffle's row (Create, GetByID, Activate, Complete,
--                   SetMode, SetEntryOpen, SetDiscordWebhook) in Raffles, CRUD of prize tiers in
--                   Raffles/Tiers, DrawNext and DrawFromTier in Raffles/Draws, GetDrawByToken and
--                   SubmitClaim in Raffles/Winners, JoinRaffle in Raffles/Entries, ImportCSV and
--                   SyncFromTwitchAPI in Raffles/Imports, RunScheduledSnapshots in
--                   Raffles/Snapshots, GetEntryStats in Raffles/Statistics. Raffles/Fairness says
--                   what fair draws are, Raffles/Calls what a call is, Raffles/Lifecycle what
--                   any sequence of calls (`Reaches`) keeps; the other files of Raffles hold the
--                   proofs.
--   Sessions        services/auth_service.go: Login, Refresh, Logout, DeleteExpiredRefreshTokens and
--                   the pair of tokens that they issue. Sessions/Tokens is the abstract view of the
--                   stored tokens, Sessions/Calls what each call may do to it, Sessions/Refinement
--                   is about the two views.
--   Accounts        services/auth_service.go: the rows of users and logins in Accounts/Rows,
--                   upsertOAuthUser and its steps, which sign a user in by a provider, in Accounts;
--                   Register, UnlinkProvider, Web3Nonce and Web3Verify in
--                   Accounts/Logins; services/siwe.go in Accounts/Siwe. The other files of
--                   Accounts hold the proofs.
--   TokenCipher     services/oauth_token_crypto.go: encrypt and decrypt of stored OAuth tokens;
--                   TokenCipher/RoundTrip is about the two together.
--   Base, Int       shared helpers; signed integers and Go's int64.
--   Tests           concrete tables on which the theorems apply.
-- (The paths of services and models are below services/api/internal.)
--
-- How the model stands for the code:
--   * UUIDs are natural numbers, 0 for `uuid.Nil`; so are texts that are only compared, 0 for the
--     empty one (the cipher of tokens and the message of a wallet are on strings of characters).
--     int64 is `ℤ` with wrap-around written out (`add64`, `sub64`, `mul64`, `div64`); times are
--     nanoseconds. A sum that the database computes does not wrap: out of the range of bigint the
--     statement fails.
--   * Each statement, reading of the clock, new UUID and external call takes one tick. At every
--     tick the environment may fail a statement or a commit, with any error but
--     gorm.ErrRecordNotFound, and may answer with any time and any UUID, a used one too. So a
--     theorem about every environment is a theorem about every pattern of database failures.
--   * A failed statement changes nothing; a failed transaction restores the tables that it began
--     with. Transactions lock the rows that they read, so that each is one atomic step.
--   * The chain, the coupon shop, the calendar of the server's zone, the random order of rows,
--     SHA-256, the cipher of OAuth tokens and the Twitch API are fields of `Env`, and nothing is
--     assumed of them; of the clock, only that it never shows the zero time. A database failure is
--     never gorm's ErrRecordNotFound, which means that the query went through and found no row.
--   * Foreign keys into `users` are not modelled: a statement that they reject is one that fails.
--     The text around a wrapped error is left out; the errors that it wraps are kept.
--   * A row of the model has the columns that the modelled code reads or writes; creation and
--     update times of some tables are left out.
--   * Loops run over lists by structural recursion, loops of attempts on the number that is left.
--     The loop over Twitch's pages takes the number of pages that it may ask for, and returns `none`
--     when that runs out; Raffles/Pages shows how many are enough. So does `upsert_oauth_user` with
--     its call of itself: two are enough. An index past the end of a slice is an error that rolls
--     back, as the panic does.
--   * The e-mail and the webhook that follow a draw write no table and are left out. A CSV file is
--     what its reader returns; the scheduler's timer only starts the snapshots.
-- Not modelled: what these files do not name of the services, the HTTP layer, telemetry, start-up,
-- the front ends and the contracts' own code.
pub mod Base
pub mod Int
pub mod Models
pub mod Effect
pub mod Ledger
pub mod Points
pub mod Watch
pub mod Wallet
pub mod Balance
pub mod Claims
pub mod ChannelConfigs
pub mod Durations
pub mod Spending
pub mod Tests
pub mod Airdrop
pub mod Raffles
pub mod Sessions
pub mod Accounts
pub mod TokenCipher
