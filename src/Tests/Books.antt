-- ===== src/Tests/Books.antt =====
-- The books with one ledger, and the theorems on credits and deductions applied to them.
use tachigo.Base.{ℕ, zero, suc, List, some, ◌≡◌, refl, true, false, ◌==◌, none, [], ◌∷◌, ◌+◌, arith}
use tachigo.Int.{pos, ◌+ℤ◌}
use tachigo.Models.{TxSource, PointsLedger, PointsTransaction, ok, err, insufficient_balance}
use tachigo.Effect.{Db, Env, world, calm}
use tachigo.Effect.Safe.{Safe}
use tachigo.Ledger.{blank_transaction}
use tachigo.Ledger.Audit.{IsAudited, deltas, earnings}
use tachigo.Ledger.Awards.{Credited}
use tachigo.Points.{no_meta, add_points_with_meta, deduct_points}
use tachigo.Points.Credit.{add_points_with_meta-Credited}
use tachigo.Points.Deduct.{
  Deducted, is_ok, deduct_points-Deducted, deduct_points-insufficient, deduct_points-returns,
}

abbrev ledger : PointsLedger
ledger = record {
  id = 11;
  user_id = 1;
  channel_id = 7;
  cumulative_total = pos 20;
  spendable_balance = pos 20;
  created_at = 100;
  updated_at = 100;
}

abbrev airdrop : PointsTransaction
airdrop = record blank_transaction {
  id = 21;
  ledger_id = 11;
  source = TxSource.airdrop;
  delta = pos 20;
  balance_after = pos 20;
  created_at = 100;
}

abbrev pub books : Db
books = record {
  points_ledgers = ledger ∷ [];
  points_transactions = airdrop ∷ [];
  watch_sessions = [];
  watch_time_stats = [];
  broadcast_time_stats = [];
  broadcast_time_logs = [];
  channel_configs = [];
  auth_providers = [];
  claims = [];
  claim_items = [];
  tachi_balances = [];
  coupon_redemptions = [];
  users = [];
  raffles = [];
  raffle_entries = [];
  raffle_draws = [];
  raffle_claims = [];
  raffle_prize_tiers = [];
  refresh_tokens = [];
  web3_nonces = [];
  email_verifications = [];
  password_resets = [];
}

pub books-IsAudited : IsAudited books
unfolding deltas earnings ◌+ℤ◌
books-IsAudited = record {
  balanced = (
    record {
      spendable = refl;
      cumulative = refl;
      nonneg = omega arith;
      spendable_fits = omega arith;
    },
    tt,
  );
  keyed = (tt, tt);
  posted = ((λ e. cc), tt);
  distinct = (refl, tt);
}

-- The same byte so many times.
abbrev repeat : ℕ → ℕ → List ℕ
repeat zero b = []
repeat (suc n) b = b ∷ repeat n b

-- No fault, a clock that counts seconds, UUIDs that count up, and a chain that is not configured.
abbrev pub env : Env
env = record {
  clock = λ t. suc t;
  clock_set = λ t. ground arith;
  uuid = λ t. 1000 + t;
  fault = λ _. none;
  outside = record {
    calendar = record { start_of_day = λ t. t; start_of_month = λ t. t; start_of_year = λ t. t };
    chain = record {
      ready = false;
      signer_error = none;
      is_hex_address = λ _. true;
      checksum_address = λ a. a;
      mint_broadcast = λ t a n. ok 77;
      wait_mint_receipt = λ t h. none;
      burn = λ t a n. (78, none);
      shop_configured = false;
      redeem_coupon = λ t c n. ok 79;
    };
    random = λ t. t;
    sha256_hex = λ n. n;
    decrypt_token = λ n. ok n;
    twitch_get = λ t n q. ok (record { status = 404; page = err insufficient_balance });
    strings = record {
      trim_space = λ n. n;
      to_lower = λ n. n;
      equal_fold = λ n s. false;
      mentions = λ e s. false;
      text = λ n. "0";
      decimal = λ n. "0";
      format_time = λ t. "0";
      decode_hex = λ n. some (repeat 65 27);
    };
    identity = record {
      access_ttl = 900;
      refresh_ttl = 5000;
      generate_nonce = λ t. ok (2000 + t);
      hash_password = λ t p. ok (p + 1);
      matches_password = λ h p. h == p + 1;
      sign = λ c. ok c.user_id;
      keccak256 = λ s. [];
      recover_signer = λ h s. some 97;
      encrypt_token = λ t n. ok n;
      send_mail = λ t a b. none;
    };
  };
}

add_points_with_meta-Credited_example :
    Safe
      (λ db'. db' ≡ books)
      books
      (add_points_with_meta 1 7 TxSource.bits (pos 5) no_meta)
      (λ l db'. Credited 1 7 (pos 5) books l db')
add_points_with_meta-Credited_example =
    add_points_with_meta-Credited 1 7 TxSource.bits (pos 5) no_meta books refl (omega arith)
      books-IsAudited

deduct_points-Deducted_example :
    Safe
      (λ db'. db' ≡ books)
      books
      (deduct_points 1 7 (pos 5) "hat")
      (λ t db'. Deducted 1 7 (pos 5) books t db')
deduct_points-Deducted_example = deduct_points-Deducted 1 7 (pos 5) "hat" books books-IsAudited

deduct_points-insufficient_example :
    (deduct_points 1 7 (pos 21) "hat" (calm (world env 0 books))).0 ≡ err insufficient_balance
deduct_points-insufficient_example =
    deduct_points-insufficient 1 7 (pos 21) "hat" (world env 0 books) (omega arith) (omega arith)

deduct_points-returns_example :
    is_ok (deduct_points 1 7 (pos 20) "hat" (calm (world env 0 books))).0 ≡ true
deduct_points-returns_example =
    deduct_points-returns 1 7 (pos 20) "hat" (world env 0 books) ledger (omega arith) refl
      (omega arith) refl
