-- ===== src/Wallet.antt =====
-- The linked wallet of a user: `resolveWalletAddress`, which services/claim_service.go and
-- services/spend_service.go each declare, with errors of their own.
pub mod Lookup
use tachigo.Base.{
  ℕ, Bool, true, false, ◌&&◌, Option, none, some, ◌==◌, ltb, leb, if◌then◌else◌, find_first,
  sort_by,
}
use tachigo.Models.{
  Uuid, Name, Error, ProviderType, web3, AuthProvider, Result, invalid_wallet_address,
}
use tachigo.Effect.{Db, M, sql, ask, guard, not_found_as, ◌>>=◌, ◌>>◌}
use tachigo.Ledger.{row_or_missing}

abbrev is_web3 : ProviderType → Bool
is_web3 web3 = true
is_web3 _ = false

abbrev is_nil : Option ℕ → Bool
is_nil none = true
is_nil (some _) = false

-- `Order("created_at ASC").First(…)`, which orders by the primary key next.
abbrev older : AuthProvider → AuthProvider → Bool
older p q = if p.created_at == q.created_at then leb p.id q.id else ltb p.created_at q.created_at

-- `user_id = ? AND provider = 'web3'`, on rows that are not soft-deleted.
abbrev pub wallet_of : Uuid → AuthProvider → Bool
wallet_of user p = p.user_id == user && is_web3 p.provider && is_nil p.deleted_at

abbrev pub first_wallet : Uuid → Db → Result (AuthProvider × Db)
first_wallet user db =
    row_or_missing (find_first (wallet_of user) (sort_by older db.auth_providers)) db

pub resolve_wallet_address : Error → Uuid → M Name
resolve_wallet_address not_linked user = do
  p ← not_found_as not_linked (sql (first_wallet user))
  valid ← ask λ env _. env.outside.chain.is_hex_address p.provider_id
  guard valid (invalid_wallet_address p.provider_id)
  ask λ env _. env.outside.chain.checksum_address p.provider_id
