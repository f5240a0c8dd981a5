-- ===== src/Claims/Saga.antt =====
-- The whole of a claim: reserve, broadcast, mark, wait, finalize, with what each failure does.
use tachigo.Base.{Bool, true, false, Option, none, some, ◌==◌, if◌then◌else◌}
use tachigo.Int.{ℤ, pos, ltb_ℤ}
use tachigo.Models.{
  Uuid, Name, Error, Result, ok, err, wrapped, claim_broadcast_record, claim_amount_invalid,
  claim_contract_config, invalid_wallet_address, mint_receipt_status_failed,
}
use tachigo.Effect.{
  M, pure, raise, sql, transaction, now, new_uuid, ask, guard, lift, catch, ◌>>=◌, ◌>>◌,
}
use tachigo.Balance.{upsert_balance, load_tachi_balance_value, tachi_whole_tokens_to_raw_units}
use tachigo.Claims.{ClaimReservation, reserve_claim}
use tachigo.Claims.Steps.{
  finalizable, finalized, new_hash, update_claims, skipped, mark_claim_broadcast,
  rollback_claim_reservation, record_claim_receipt_unknown, mark_claim_failed_and_compensate,
  mark_finalize_failed_claim,
}

unfoldable pub finalize_claim : ClaimReservation → Name → M ℤ
unfolding update_claims skipped upsert_balance load_tachi_balance_value
finalize_claim r hash = do
  at ← now
  affected ← sql (update_claims (finalizable r hash) (finalized hash at) (new_hash hash))
  if affected == 0 then (skipped r hash >>= λ _. load_tachi_balance_value r.user_id) else do
    id ← new_uuid
    sql (upsert_balance id r.user_id r.amount at)
    load_tachi_balance_value r.user_id

abbrev pub or_error : Option Error → M (Unit {0})
or_error none = pure tt
or_error (some e) = raise e

-- `MintBroadcastOnChain`: the guards, then the contract's call on raw units.
unfoldable pub mint_broadcast_on_chain : Name → ℤ → M Name
unfolding tachi_whole_tokens_to_raw_units
mint_broadcast_on_chain to amount = do
  ready ← ask λ env _. env.outside.chain.ready
  guard ready claim_contract_config
  valid ← ask λ env _. env.outside.chain.is_hex_address to
  guard valid (invalid_wallet_address to)
  guard (ltb_ℤ (pos 0) amount) claim_amount_invalid
  key ← ask λ env _. env.outside.chain.signer_error
  or_error key
  r ← ask λ env tick.
      env.outside.chain.mint_broadcast tick (env.outside.chain.checksum_address to)
        (tachi_whole_tokens_to_raw_units amount)
  lift r

unfoldable pub wait_mint_receipt_on_chain : Name → M (Unit {0})
wait_mint_receipt_on_chain hash = do
  ready ← ask λ env _. env.outside.chain.ready
  guard ready claim_contract_config
  e ← ask λ env tick. env.outside.chain.wait_mint_receipt tick hash
  or_error e

abbrev with_receipt : Name → Result (Unit {0}) → M (Name × Option Error)
with_receipt hash (ok _) = pure (hash, none)
with_receipt hash (err e) = pure (hash, some e)

-- `MintOnChain`: the hash is returned beside an error of the wait.
pub mint_on_chain : Name → ℤ → M (Name × Option Error)
unfolding mint_broadcast_on_chain wait_mint_receipt_on_chain
mint_on_chain to amount = catch (mint_broadcast_on_chain to amount) after_mint
  where
    after_mint : Result Name → M (Name × Option Error)
    after_mint (err e) = pure (0, some e)
    after_mint (ok hash) = catch (wait_mint_receipt_on_chain hash) (with_receipt hash)

-- `errors.Is(err, ErrMintReceiptStatusFailed)`
abbrev pub is_status_failed : Error → Bool
is_status_failed mint_receipt_status_failed = true
is_status_failed (wrapped e _) = is_status_failed e
is_status_failed _ = false

-- A repair after the error `e`: its own failure is reported behind `e`.
abbrev pub repaired : {A : Type 0} → Error → Result (Unit {0}) → M A
repaired e (ok _) = raise e
repaired e (err f) = raise (wrapped e f)

abbrev pub after_finalize : ClaimReservation → Name → Result ℤ → M ℤ
after_finalize r hash (ok balance) = pure balance
after_finalize r hash (err e) =
    catch (transaction (mark_finalize_failed_claim r hash e)) (repaired e)

abbrev pub after_wait : ClaimReservation → Name → Result (Unit {0}) → M ℤ
after_wait r hash (ok _) = catch (transaction (finalize_claim r hash)) (after_finalize r hash)
after_wait r hash (err e) =
    if is_status_failed e
    then catch (transaction (mark_claim_failed_and_compensate r hash e)) (repaired e)
    else catch (transaction (record_claim_receipt_unknown r hash e)) (repaired e)

abbrev pub after_mark : ClaimReservation → Name → Result (Unit {0}) → M ℤ
after_mark r hash (ok _) = catch (wait_mint_receipt_on_chain hash) (after_wait r hash)
after_mark r hash (err e) = raise (claim_broadcast_record r.claim_id r.user_id hash e)

abbrev pub after_broadcast : ClaimReservation → Result Name → M ℤ
after_broadcast r (ok hash) = catch (transaction (mark_claim_broadcast r hash)) (after_mark r hash)
after_broadcast r (err e) = catch (transaction (rollback_claim_reservation r)) (repaired e)

unfoldable pub claim : Uuid → ℤ → M ℤ
unfolding mint_broadcast_on_chain wait_mint_receipt_on_chain finalize_claim
claim user amount = do
  r ← transaction (reserve_claim user amount)
  catch (mint_broadcast_on_chain r.to_addr r.amount) (after_broadcast r)
