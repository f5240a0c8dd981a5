-- ===== src/Tests/Claimants.antt =====
-- A user with points and a wallet who claims tokens.
use tachigo.Base.{◌≡◌, refl, none, some, [], ◌∷◌, ◌==◌, arith, Bool-cases, inl, inr}
use tachigo.Int.{pos, ◌+ℤ◌}
use tachigo.Models.{AuthProvider, ProviderType, ClaimStatus, tx_hash_mismatch}
use tachigo.Effect.{Db, transaction}
use tachigo.Effect.Safe.{Safe}
use tachigo.Ledger.Audit.{IsAudited}
use tachigo.Claims.{ClaimReservation, reserve_claim}
use tachigo.Claims.Steps.{mark_claim_failed_and_compensate}
use tachigo.Claims.Saga.{claim}
use tachigo.Claims.Frames.{SameTokens}
use tachigo.Claims.Settlement.{Settled, claim-Settled}
use tachigo.Claims.Reservations.{ReservedClaim, reserve_claim-ReservedClaim}
use tachigo.Claims.Postings.{reframe-IsAudited}
use tachigo.Claims.Returns.{HasRoom}
use tachigo.Claims.Compensation.{Compensated, mark_claim_failed_and_compensate-Compensated}
use tachigo.Tests.Books.{books, books-IsAudited}

abbrev wallet : AuthProvider
wallet = record {
  id = 51;
  user_id = 1;
  provider = ProviderType.web3;
  provider_id = 601;
  access_token = none;
  refresh_token = none;
  token_expires_at = none;
  created_at = 100;
  deleted_at = none;
}

abbrev claiming : Db
claiming = record books { auth_providers = wallet ∷ [] }

claiming-IsAudited : IsAudited claiming
claiming-IsAudited = reframe-IsAudited books _ refl refl books-IsAudited

reserve_claim-ReservedClaim_example :
    Safe
      (λ db'. db' ≡ claiming)
      claiming
      (transaction (reserve_claim 1 (pos 8)))
      (ReservedClaim 1 (pos 8) claiming)
reserve_claim-ReservedClaim_example =
    reserve_claim-ReservedClaim 1 (pos 8) claiming claiming-IsAudited (omega arith)

claim-Settled_example :
    Safe (SameTokens claiming) claiming (claim 1 (pos 8)) (Settled 1 (pos 8) claiming)
claim-Settled_example = claim-Settled 1 (pos 8) claiming claiming-IsAudited (omega arith)

-- The claim 61 took 8 points from the ledger 11, and its mint was broadcast.
abbrev minting : Db
minting = record claiming {
  claims =
      record {
        id = 61;
        user_id = 1;
        wallet_addr = 601;
        amount = pos 8;
        status = ClaimStatus.broadcast;
        tx_hash = some 77;
        error_message = none;
        broadcast_at = some 120;
        confirmed_at = none;
        failed_at = none;
        finalize_failed_at = none;
        created_at = 110;
        updated_at = 120;
      }
      ∷ [];
}

minting-IsAudited : IsAudited minting
minting-IsAudited = reframe-IsAudited books _ refl refl books-IsAudited

abbrev taken : ClaimReservation
taken = record {
  user_id = 1;
  to_addr = 601;
  amount = pos 8;
  claim_id = 61;
  items = record { ledger_id = 11; transaction_id = 22; amount = pos 8 } ∷ [];
}

minting-HasRoom : HasRoom taken.items minting
unfolding ◌+ℤ◌
minting-HasRoom id = elim (Bool-cases (11 == id)) [
  | inl same ↦ rw same (omega arith)
  | inr other ↦ rw other (omega arith)
]

mark_claim_failed_and_compensate-Compensated_example :
    Safe
      (λ db'. db' ≡ minting)
      minting
      (transaction (mark_claim_failed_and_compensate taken 77 (tx_hash_mismatch 77)))
      (λ _ db'. Compensated taken 77 (tx_hash_mismatch 77) minting db')
mark_claim_failed_and_compensate-Compensated_example =
    mark_claim_failed_and_compensate-Compensated taken 77 (tx_hash_mismatch 77) minting
      minting-IsAudited (omega arith, tt) minting-HasRoom
