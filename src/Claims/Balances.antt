-- ===== src/Claims/Balances.antt =====
-- The spendable balances of ledgers, and how a claim moves them.
use tachigo.Base.{
  ◌≡◌, refl, subst, ◌∙◌, Bool, true, false, some, List, [], ◌∷◌, ◌==◌, if◌then◌else◌, find_first,
  update_where, find_first-update_other, ==_refl, Bool-cases, inl, inr, ==_iff, arith,
}
use tachigo.Int.{ℤ, pos, ◌+ℤ◌, ◌-ℤ◌, int_laws, +ℤ_zero_right}
use tachigo.Models.{Uuid, Time, PointsLedger}
use tachigo.Effect.{Db}
use tachigo.Ledger.{has_id, with_balance}
use tachigo.Ledger.Awards.{spendable_of}
use tachigo.Claims.{ClaimReservationItem}

-- The spendable balance of a ledger.
abbrev pub balance_at : Uuid → Db → ℤ
balance_at id db = spendable_of (find_first (has_id id) db.points_ledgers)

-- What the items took from a ledger.
abbrev pub took_from : Uuid → List ClaimReservationItem → ℤ
took_from id [] = pos 0
took_from id (i ∷ items) = (if i.ledger_id == id then i.amount else pos 0) +ℤ took_from id items

-- A row with another id is found as before.
pub still_found :
    (id other : Uuid) (f : PointsLedger → PointsLedger) (ls : List PointsLedger)
    → ((x : PointsLedger) → (f x).id ≡ x.id)
    → (other == id) ≡ false
    → find_first (has_id other) (update_where (has_id id) f ls) ≡ find_first (has_id other) ls
still_found id other f [] k e = refl
still_found id other f (l ∷ ls) k e = ground (arith, k l, still_found id other f ls k e)

-- The balances after one ledger's is raised.
pub given_at :
    (l : PointsLedger) (amount : ℤ) (at : Time) (ls : List PointsLedger) (ledger k : Uuid)
    → find_first (has_id ledger) ls ≡ some l
    → l.id ≡ ledger
    → spendable_of (
        find_first
          (has_id k)
          (update_where (has_id l.id) (with_balance (l.spendable_balance +ℤ amount) at) ls))
      ≡ spendable_of (find_first (has_id k) ls)
        +ℤ ((if ledger == k then amount else pos 0) +ℤ pos 0)
given_at l amount at ls ledger k found own =
    let f = with_balance (l.spendable_balance +ℤ amount) at in
    elim (Bool-cases (ledger == k)) [
      | inl same ↦
          subst
            (λ j.
              spendable_of (find_first (has_id j) (update_where (has_id l.id) f ls))
              ≡ spendable_of (find_first (has_id j) ls)
                +ℤ ((if ledger == j then amount else pos 0) +ℤ pos 0))
            ((==_iff ledger k).0 same)
            (rw
              (
                find_first-update_other (has_id ledger) (has_id l.id) f ls (λ a. refl) found
                    (==_refl l.id),
                found,
                ==_refl ledger,
                +ℤ_zero_right amount,
              )
              refl)
      | inr other ↦
          rw
            (
              still_found l.id k f ls (λ x. refl) (ground (arith, own, other)),
              other,
              +ℤ_zero_right (pos 0),
              +ℤ_zero_right,
            )
            refl
    ]

pub regroup : (a b c : ℤ) → (a +ℤ (b +ℤ pos 0)) +ℤ c ≡ a +ℤ (b +ℤ c)
regroup a b c = omega int_laws

-- The balances after one ledger's is lowered.
pub taken_at :
    (l : PointsLedger) (amount : ℤ) (at : Time) (ls : List PointsLedger) (k : Uuid)
    → find_first (has_id l.id) ls ≡ some l
    → spendable_of (
        find_first
          (has_id k)
          (update_where (has_id l.id) (with_balance (l.spendable_balance -ℤ amount) at) ls))
      ≡ spendable_of (find_first (has_id k) ls) -ℤ (if l.id == k then amount else pos 0)
taken_at l amount at ls k found =
    let lowered : l.spendable_balance +ℤ (pos 0 -ℤ amount) ≡ l.spendable_balance -ℤ amount =
      omega int_laws in
    subst
      (λ b.
        spendable_of (find_first (has_id k) (update_where (has_id l.id) (with_balance b at) ls))
        ≡ spendable_of (find_first (has_id k) ls)
          +ℤ ((if l.id == k then pos 0 -ℤ amount else pos 0) +ℤ pos 0))
      lowered (given_at l (pos 0 -ℤ amount) at ls l.id k found refl)
    ∙ negated (spendable_of (find_first (has_id k) ls)) (l.id == k)
  where
    negated :
        (x : ℤ) (b : Bool)
        → x +ℤ ((if b then pos 0 -ℤ amount else pos 0) +ℤ pos 0)
          ≡ x -ℤ (if b then amount else pos 0)
    negated x true = omega int_laws
    negated x false = omega int_laws
