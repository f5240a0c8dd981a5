-- ===== src/Accounts/Wallets.antt =====
-- Signing in by a wallet: Web3Verify of services/auth_service.go.
use tachigo.Base.{
  ℕ, suc, ◌≡◌, refl, ◌⊎◌, inl, inr, true, Option, some, ltb, find_first, delete_where,
}
use tachigo.Models.{Uuid, Name, User, Web3Nonce, invalid_nonce, invalid_signature}
use tachigo.Effect.{Db, Outside, World, ask, ◌>>=◌}
use tachigo.Effect.Safe.{
  Safe, Outcome, Safe-raise, Safe-if, Safe-bind, Safe-guard, Safe-catch, Safe-sql, Safe-found,
  Safe-bind-now, Safe-transaction, Safe-outcome, Safe-Ensures,
}
use tachigo.Raffles.Access.{row-Gives}
use tachigo.Sessions.{TokenPair}
use tachigo.Accounts.Siwe.{verify_eth_signature, message_at}
use tachigo.Accounts.Recovery.{Signs, upsert_oauth_user-SignsIn}
use tachigo.Accounts.Logins.{
  Web3VerifyInput, is_nonce, first_nonce, has_nonce_id, wallet_identity, consume_nonce,
  web3_verify_with, web3_verify,
}

-- The tables without the nonce.
abbrev pub without_nonce : Uuid → Db → Db
without_nonce id db = record db { web3_nonces = delete_where (has_nonce_id id) db.web3_nonces }

-- The nonce was given to the address, and the address has signed it.
abbrev pub IsSigned : Outside → Web3VerifyInput → Db → Web3Nonce → Type 0
IsSigned outside input db n =
    let address = outside.strings.to_lower input.address in
    (find_first (is_nonce input.nonce address) db.web3_nonces ≡ some n)
    × (verify_eth_signature outside (message_at outside address input.nonce n.created_at)
          input.signature address
        ≡ true)

-- The nonce is gone, and its address has signed in.
abbrev pub Verified : Outside → Web3VerifyInput → Db → Option (User × TokenPair) → Db → Type 0
Verified outside input db o db' =
    (n : Web3Nonce) × IsSigned outside input db n
    × Signs (without_nonce n.id db) (wallet_identity (outside.chain.checksum_address input.address))
        o db'

-- Nothing has changed, but that a nonce that has expired is gone.
abbrev pub Refused : Outside → Web3VerifyInput → Db → Db → Type 0
Refused outside input db db' =
    (db' ≡ db)
    ⊎ ((n : Web3Nonce) × (find_first (is_nonce input.nonce (outside.strings.to_lower input.address))
            db.web3_nonces
          ≡ some n)
        × (db' ≡ without_nonce n.id db))

consume-Signs :
    (fuel : ℕ) (n : Web3Nonce) (checksum : Name) (db : Db)
    → Safe
        (λ _. Unit)
        db
        (consume_nonce fuel n checksum)
        (Signs (without_nonce n.id db) (wallet_identity checksum))
unfolding consume_nonce
consume-Signs fuel n checksum db =
    Safe-bind (λ _ db'. db' ≡ without_nonce n.id db) _ _ (Safe-sql _ tt refl)
      λ affected db' same. rw same (
        Safe-guard _ invalid_nonce _ tt λ one.
          Safe-outcome (λ db'. db' ≡ without_nonce n.id db) _
            (upsert_oauth_user-SignsIn (without_nonce n.id db) fuel (wallet_identity checksum))
            (λ _ _. tt) (λ _ _ s. s))

verify-Verified :
    (fuel : ℕ) (input : Web3VerifyInput) (outside : Outside) (db : Db)
    → Safe
        (Refused outside input db)
        db
        (web3_verify_with fuel input outside)
        (Verified outside input db)
unfolding web3_verify_with
verify-Verified fuel input outside db =
    let address = outside.strings.to_lower input.address in
    Safe-bind
      (λ n db'. (find_first (is_nonce input.nonce address) db.web3_nonces ≡ some n) × (db' ≡ db)) _
      _
      (Safe-outcome (λ db'. db' ≡ db) _
        (Safe-found invalid_nonce _
          (Safe-sql (first_nonce input.nonce address) refl (row-Gives db _)))
        (λ _ e. inl e) (λ _ _ h. h))
      λ n db' found. rw found.1 (
        Safe-bind-now _ λ at.
          Safe-if (ltb n.expires_at at) _ _
            (λ _.
              Safe-catch (λ db'. db' ≡ db) (λ _ db'. db' ≡ without_nonce n.id db) _ _
                (Safe-sql _ refl refl)
                (λ _ db' gone. Safe-raise invalid_nonce (inr (n, found.0, gone)))
                (λ _ db' same. Safe-raise invalid_nonce (inl same)))
            (λ _. Safe-guard _ invalid_signature _ (inl refl) λ signed.
              Safe-transaction _ (inl refl) (
                Safe-Ensures {E = λ _. Unit} (
                  Safe-outcome (λ _. Unit) _
                    (consume-Signs fuel n (outside.chain.checksum_address input.address) db)
                    (λ _ _. tt) (λ o db' s. (n, (found.0, signed), s))))))

-- `Web3Verify`, whatever the database does: if it returns, a nonce was stored for the address, the
-- address has signed it with the time at which it was made, the nonce is deleted, and the wallet of the
-- address has signed in, with what that does to the accounts and nothing else. If it fails, nothing has
-- changed, but that the nonce may be deleted.
pub web3_verify-Verified :
    (fuel : ℕ) (input : Web3VerifyInput) (w : World)
    → Outcome
        (Refused w.env.outside input w.db)
        (web3_verify fuel input w)
        (Verified w.env.outside input w.db)
unfolding web3_verify ask ◌>>=◌
web3_verify-Verified fuel input w =
    (verify-Verified fuel input w.env.outside w.db).at w.env (suc w.tick)
