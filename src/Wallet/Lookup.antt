-- ===== src/Wallet/Lookup.antt =====
-- Looking up a wallet, and the tables after it.
use tachigo.Base.{◌≡◌, refl, Option, none, some}
use tachigo.Models.{Uuid, Error, AuthProvider}
use tachigo.Effect.{Db, guard, ask, ◌>>=◌}
use tachigo.Effect.Ensures.{
  Gives, Ensures, Ensures-bind-found, Ensures-bind-sql, Ensures-bind-ask, Ensures-guard,
  Ensures-ask,
}
use tachigo.Ledger.{row_or_missing}
use tachigo.Models.{invalid_wallet_address}
use tachigo.Wallet.{resolve_wallet_address}

pub resolve_wallet_address-Ensures :
    (e : Error) (user : Uuid) (db : Db)
    → Ensures db (resolve_wallet_address e user) (λ _ db'. db' ≡ db)
unfolding resolve_wallet_address
resolve_wallet_address-Ensures e user db = Ensures-bind-found _ _ _ (Ensures-bind-sql _ _ (go _))
  where
    go :
        (o : Option AuthProvider)
        → Gives (row_or_missing o db) (λ p db'.
          Ensures db'
            (ask (λ env _. env.outside.chain.is_hex_address p.provider_id) >>= λ valid.
              guard valid (invalid_wallet_address p.provider_id) >>= λ _.
              ask (λ env _. env.outside.chain.checksum_address p.provider_id))
            (λ _ db'. db' ≡ db))
    go none = tt
    go (some p) = Ensures-bind-ask _ _ λ valid. Ensures-guard _ _ _ λ _. Ensures-ask _ λ _. refl
