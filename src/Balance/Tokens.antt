-- ===== src/Balance/Tokens.antt =====
-- The tokens that users hold, and how an update of the balances moves them.
use tachigo.Base.{
  ◌≡◌, refl, Bool, true, false, not, ◌==◌, if◌then◌else◌, Option, none, some, List, [], ◌∷◌,
  find_first, find_first-update, update_where, arith, Bool-cases, inl, inr, ==_iff,
}
use tachigo.Int.{ℤ, pos, ◌≤ℤ◌, IsInt64, leb_ℤ}
use tachigo.Models.{Uuid, TachiBalance, Result, ok, err}
use tachigo.Effect.{Db}
use tachigo.Effect.Ensures.{Gives}
use tachigo.Balance.{balance_of_user, checked, fits_numeric}

-- The tokens of a user, zero without a row.
abbrev pub held : Option TachiBalance → ℤ
held none = pos 0
held (some b) = b.balance

abbrev pub tokens : Uuid → Db → ℤ
tokens user db = held (find_first (balance_of_user user) db.tachi_balances)

-- Balances are not negative, and small enough for an int64.
abbrev pub IsFunded : TachiBalance → Type 0
IsFunded b = (pos 0 ≤ℤ b.balance) × IsInt64 b.balance

-- The tokens of `user` are `n`, and those of everyone else are what they were.
abbrev pub Moved : Uuid → ℤ → Db → Db → Type 0
Moved user n db db' = (v : Uuid) → tokens v db' ≡ (if v == user then n else tokens v db)

module _ (user : Uuid) (f : TachiBalance → TachiBalance)
    (keeps : (b : TachiBalance) → (f b).user_id ≡ b.user_id) where
  others-update :
      (v : Uuid) (bs : List TachiBalance)
      → (v == user) ≡ false
      → find_first (balance_of_user v) (update_where (balance_of_user user) f bs)
        ≡ find_first (balance_of_user v) bs
  others-update v [] h = refl
  others-update v (b ∷ bs) h = ground (arith, keeps b, others-update v bs h)

  pub held-update :
      (bs : List TachiBalance) {x : TachiBalance}
      → find_first (balance_of_user user) bs ≡ some x
      → (v : Uuid)
      → held (find_first (balance_of_user v) (update_where (balance_of_user user) f bs))
        ≡ (if v == user then (f x).balance else held (find_first (balance_of_user v) bs))
  held-update bs {x} e v = elim (Bool-cases (v == user)) [
    | inl same ↦ rw (
      same,
      (==_iff _ _).0 same,
      find_first-update (balance_of_user user) f bs (λ b. rw (keeps b)) e,
    )
    | inr other ↦ rw (other, others-update v bs other)
  ]

-- A write under the constraints of the column, if it goes through.
pub checked-Gives :
    (Q : Unit {0} → Db → Type 0) (balance : ℤ) (db : Db) (r : Result (Unit {0} × Db))
    → (pos 0 ≤ℤ balance → Gives r Q)
    → Gives (checked balance db r) Q
checked-Gives Q balance db r g = go (not (fits_numeric balance)) (leb_ℤ (pos 0) balance) refl
  where
    go :
        (x y : Bool)
        → leb_ℤ (pos 0) balance ≡ y
        → Gives
            (if x
              then err tachigo.Models.out_of_range
              else (if y then r else err tachigo.Models.check_violated))
            Q
    go true y e = tt
    go false true e = g (ground arith)
    go false false e = tt
