-- ===== src/Effect.antt =====
-- How a service acts on the world: SQL statements against the tables, the clock, new UUIDs and
-- transactions. Every effect takes one tick. What the environment answers at a tick, a failing
-- statement included, is a parameter: nothing is assumed of it, so what holds here holds for every
-- pattern of database failures.
mod Tables
pub mod Ensures
pub mod Safe
pub mod Handled
pub mod Within
pub mod Runs
pub use Tables.*
use tachigo.Base.{String, List, ℕ, suc, ◌≡◌, ◌==◌, false, Option, none, some, Bool, if◌then◌else◌}
use tachigo.Int.{ℤ}
use tachigo.Models.{
  Uuid, Time, Name, UserRole, Error, Result, ok, err, record_not_found, db_failure,
}

-- The chain and the coupon shop, which the services call: the contract's `MintBroadcast`,
-- `WaitMintReceipt` and `Burn` on raw units, the client's `RedeemCoupon`, and the address format of
-- go-ethereum. `ready` says that a contract is configured, `signer_error` how its key fails to parse.
pub record Chain : Type 0 where
  pub ready : Bool
  pub signer_error : Option Error
  pub is_hex_address : Name → Bool
  pub checksum_address : Name → Name
  pub mint_broadcast : ℕ → Name → ℤ → Result Name
  pub wait_mint_receipt : ℕ → Name → Option Error
  pub burn : ℕ → Name → ℤ → Name × Option Error
  pub shop_configured : Bool
  pub redeem_coupon : ℕ → Name → ℤ → Result Name

-- What Twitch answers to a query for subscriptions: the status, and the body if it decodes.
pub record TwitchSubscription : Type 0 where
  pub user_id : Name
  pub user_login : Name
  pub user_name : Name

pub record TwitchSubsPage : Type 0 where
  pub subscriptions : List TwitchSubscription
  pub cursor : Name

pub record TwitchAnswer : Type 0 where
  pub status : ℕ
  pub page : Result TwitchSubsPage

-- The subscription of one user to a broadcaster, or a page of all of them.
pub data TwitchQuery : Type 0 where
  of_user : Name → Name → TwitchQuery
  page_after : Name → Name → TwitchQuery

-- Go's `time.Date` in the server's zone: the start of the day, month and year of a time.
pub record Calendar : Type 0 where
  pub start_of_day : Time → Time
  pub start_of_month : Time → Time
  pub start_of_year : Time → Time

-- What an access token says.
pub record AccessClaims : Type 0 where
  pub user_id : Uuid
  pub role : UserRole
  pub issued_at : Time
  pub expires_at : Time

-- The parts of the accounts that lie outside: bcrypt, signed tokens, wallet signatures, the mailer,
-- and the life of tokens that the configuration sets.
pub record Authentication : Type 0 where
  pub access_ttl : ℕ
  pub refresh_ttl : ℕ
  -- 32 random bytes in hex.
  pub generate_nonce : ℕ → Result Name
  pub hash_password : ℕ → Name → Result Name
  pub matches_password : Name → Name → Bool
  pub sign : AccessClaims → Result Name
  pub keccak256 : String → List ℕ
  -- The address, in the checksum format, of the public key that a signature of a hash gives.
  pub recover_signer : List ℕ → List ℕ → Option Name
  pub encrypt_token : ℕ → Name → Result Name
  pub send_mail : ℕ → Name → Name → Option Error

-- Go's functions on text: `TrimSpace`, `ToLower`, `EqualFold`, `Contains` on an error's message, the
-- characters of a name, `%d`, a time in UTC by RFC 3339, and the bytes of a hexadecimal text, from
-- which a prefix `0x` is trimmed.
pub record Strings : Type 0 where
  pub trim_space : Name → Name
  pub to_lower : Name → Name
  pub equal_fold : Name → String → Bool
  pub mentions : Error → String → Bool
  pub text : Name → String
  pub decimal : ℕ → String
  pub format_time : Time → String
  pub decode_hex : Name → Option (List ℕ)

-- The zone, the chain and the shop, randomness, hashing, the cipher of tokens, the Twitch API, and
-- what texts and accounts need.
pub record Outside : Type 0 where
  pub calendar : Calendar
  pub chain : Chain
  -- The row that `ORDER BY RANDOM()` puts first, counted from the table's beginning.
  pub random : ℕ → ℕ
  -- The SHA-256 hex digest of a text.
  pub sha256_hex : Name → Name
  -- The cipher of OAuth tokens, and the Twitch API with a token.
  pub decrypt_token : Name → Result Name
  pub twitch_get : ℕ → Name → TwitchQuery → Result TwitchAnswer
  pub strings : Strings
  pub identity : Authentication

-- The surroundings of the services. Each answer may depend on the tick at which it is asked for.
pub record Env : Type 0 where
  pub clock : ℕ → Time
  -- No clock shows the zero time, which stands for a time that is not set.
  pub clock_set : (t : ℕ) → (clock t == 0) ≡ false
  pub uuid : ℕ → Uuid
  pub fault : ℕ → Option Error
  pub outside : Outside

pub record World : Type 0 where
  pub env : Env
  pub tick : ℕ
  pub db : Db

abbrev pub M : Type 0 → Type 0
M A = World → Result A × World

abbrev pub world : Env → ℕ → Db → World
world env tick db = record { env = env; tick = tick; db = db }

abbrev pub ticked : World → World
ticked w = record w { tick = suc w.tick }

-- A missing row is an answer of the tables: no failure of the database reads as one.
abbrev pub faulted : Error → Error
faulted record_not_found = db_failure 0
faulted e = e

module _ {A : Type 0} where
  unfoldable pub pure : A → M A
  pure a w = (ok a, w)

  unfoldable pub raise : Error → M A
  raise e w = (err e, w)

  abbrev pub settle : Result (A × Db) → M A
  settle (ok (a, db)) w = (ok a, record w { db = db })
  settle (err e) w = (err e, w)

  abbrev pub attempt : Option Error → Result (A × Db) → M A
  attempt none r w = settle r w
  attempt (some e) r w = (err (faulted e), w)

  -- One SQL statement. A statement that fails changes nothing.
  unfoldable pub sql : (Db → Result (A × Db)) → M A
  sql f w = attempt (w.env.fault w.tick) (f w.db) (ticked w)

  abbrev pub commit : Option Error → Db → A → M A
  commit none _ a w = (ok a, w)
  commit (some e) before a w = (err e, record w { db = before })

  abbrev pub close_tx : Db → Result A × World → Result A × World
  close_tx before (ok a, w) = commit (w.env.fault w.tick) before a (ticked w)
  close_tx before (err e, w) = (err e, record w { db = before })

  -- `db.Transaction(func(tx) …)`: an error of the body, or of the commit, rolls back.
  unfoldable pub transaction : M A → M A
  transaction m w = close_tx w.db (m w)

unfoldable pub now : M Time
now w = (ok (w.env.clock w.tick), ticked w)

unfoldable pub ask : {A : Type 0} → (Env → ℕ → A) → M A
ask f w = (ok (f w.env w.tick), ticked w)

unfoldable pub new_uuid : M Uuid
new_uuid w = (ok (w.env.uuid w.tick), ticked w)

module _ {A B : Type 0} where
  abbrev pub continue : Result A × World → (A → M B) → Result B × World
  continue (ok a, w) f = f a w
  continue (err e, w) f = (err e, w)

  infixl 5 ◌>>=◌ ◌>>◌
  unfoldable pub ◌>>=◌ : M A → (A → M B) → M B
  ◌>>=◌ m f w = continue (m w) f

  abbrev pub ◌>>◌ : M A → M B → M B
  m >> k = m >>= λ _. k

  -- `if err := …; err != nil { … }`: the caller looks at the error itself.
  unfoldable pub catch : M A → (Result A → M B) → M B
  catch m f w = let (r, w') = m w in f r w'

-- A computation without effects that may fail.
unfoldable pub lift : {A : Type 0} → Result A → M A
lift r w = (r, w)

-- `errors.Is(err, gorm.ErrRecordNotFound)`: the missing row becomes the error `e`.
abbrev pub renamed : {A : Type 0} → Error → Result A → Result A
renamed e (ok a) = ok a
renamed e (err record_not_found) = err e
renamed e (err f) = err f

unfoldable pub not_found_as : {A : Type 0} → Error → M A → M A
not_found_as e m w = let (r, w') = m w in (renamed e r, w')

-- The missing row becomes the value `a`.
abbrev pub defaulted : {A : Type 0} → A → Result A → Result A
defaulted a (ok b) = ok b
defaulted a (err record_not_found) = ok a
defaulted a (err f) = err f

unfoldable pub not_found_to : {A : Type 0} → A → M A → M A
not_found_to a m w = let (r, w') = m w in (defaulted a r, w')

unfoldable pub guard : Bool → Error → M (Unit {0})
guard b e w = (if b then ok tt else err e, w)

-- A world whose database never fails. Opening `calm` opens every effect.
unfoldable pub calm : World → World
unfolding pure raise sql transaction now ask new_uuid ◌>>=◌ guard catch not_found_as not_found_to
    lift
calm w = record w { env = record w.env { fault = λ _. none } }
