-- ===== src/Tests/Shoppers.antt =====
-- A user with tokens who buys a coupon.
use tachigo.Base.{arith, [], ◌∷◌}
use tachigo.Int.{pos}
use tachigo.Models.{TachiBalance}
use tachigo.Effect.{Db}
use tachigo.Effect.Safe.{Safe}
use tachigo.Spending.{redeem}
use tachigo.Spending.Redemptions.{Redeemed, Unsettled, redeem-Settled}
use tachigo.Tests.Books.{books}

abbrev purse : TachiBalance
purse = record { id = 41; user_id = 1; balance = pos 9; updated_at = 100 }

abbrev shopping : Db
shopping = record books { tachi_balances = purse ∷ [] }

redeem-Settled_example :
    Safe
      (Unsettled 1 (pos 4) shopping)
      shopping
      (redeem 1 501 (pos 4))
      (Redeemed 1 501 (pos 4) shopping)
redeem-Settled_example = redeem-Settled 1 501 (pos 4) shopping (omega arith, tt)
