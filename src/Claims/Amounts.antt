-- ===== src/Claims/Amounts.antt =====
-- The arithmetic of a reservation: sums of balances and the part that a ledger gives.
use tachigo.Base.{◌≡◌, if◌then◌else◌, List, [], ◌∷◌, All, arith, Bool-cases, inl, inr, ◌⊎◌}
use tachigo.Int.{
  ℤ, pos, ◌+ℤ◌, ◌-ℤ◌, ◌≤ℤ◌, ◌<ℤ◌, IsInt64, ltb_ℤ, wrap64, wrap64-IsInt64, wrap64_le, add64, sub64,
  wrap64-eq, int_laws, one_part,
}
use tachigo.Models.{PointsLedger}
use tachigo.Claims.{total_spendable, ClaimReservationItem}

-- The points on some ledgers, and the points that some items took.
abbrev pub offered : List PointsLedger → ℤ
offered [] = pos 0
offered (l ∷ ls) = l.spendable_balance +ℤ offered ls

abbrev pub taken : List ClaimReservationItem → ℤ
taken [] = pos 0
taken (i ∷ items) = i.amount +ℤ taken items

abbrev pub IsGiving : PointsLedger → Type 0
IsGiving l = (pos 0 <ℤ l.spendable_balance) × IsInt64 l.spendable_balance

pub offered_nonneg : (ls : List PointsLedger) → All IsGiving ls → pos 0 ≤ℤ offered ls
offered_nonneg [] h = omega arith
offered_nonneg (l ∷ ls) h = omega (int_laws, h.0, offered_nonneg ls h.1)

-- The sum that the loop computes on int64 is at most the true sum, even if it wraps.
pub total_spendable_le :
    (total : ℤ) (ls : List PointsLedger)
    → IsInt64 total
    → All IsGiving ls
    → total_spendable total ls ≤ℤ total +ℤ offered ls
unfolding total_spendable add64
total_spendable_le total [] f h = omega int_laws
total_spendable_le total (l ∷ ls) f h =
    let low =
      wrap64_le (total +ℤ l.spendable_balance)
        (omega (int_laws, h.0, f, one_part total, one_part (total +ℤ l.spendable_balance))) in
    let rest =
      total_spendable_le (wrap64 (total +ℤ l.spendable_balance)) ls
        (wrap64-IsInt64 (total +ℤ l.spendable_balance)) h.1 in
    omega (int_laws, low, rest)

pub total_spendable-IsInt64 :
    (total : ℤ) (ls : List PointsLedger) → IsInt64 total → IsInt64 (total_spendable total ls)
unfolding total_spendable add64
total_spendable-IsInt64 total [] f = f
total_spendable-IsInt64 total (l ∷ ls) f =
    total_spendable-IsInt64 (wrap64 (total +ℤ l.spendable_balance)) ls (wrap64-IsInt64 _)

-- What a ledger with `s` points gives of the `n` that are still to be taken.
abbrev pub part : ℤ → ℤ → ℤ
part n s = if ltb_ℤ n s then n else s

pub part_bounds :
    (n s : ℤ)
    → pos 0 <ℤ n
    → pos 0 <ℤ s
    → (pos 0 <ℤ part n s) × (part n s ≤ℤ s) × (part n s ≤ℤ n) × ((n ≤ℤ part n s) ⊎ (s ≤ℤ part n s))
part_bounds n s hn hs = elim (Bool-cases (ltb_ℤ n s)) [
  | inl less ↦ rw less (hn, ground arith, omega arith, inl (omega arith))
  | inr more ↦ rw more (hs, omega arith, ground arith, inr (omega arith))
]

-- What is left after a part is taken: exact, not negative, and covered by the other ledgers.
pub rest_after :
    (n s rest : ℤ)
    → pos 0 <ℤ n
    → pos 0 <ℤ s
    → IsInt64 n
    → pos 0 ≤ℤ rest
    → n ≤ℤ s +ℤ rest
    → (sub64 n (part n s) ≡ n -ℤ part n s)
      × (pos 0 ≤ℤ n -ℤ part n s)
      × IsInt64 (n -ℤ part n s)
      × (n -ℤ part n s ≤ℤ rest)
unfolding sub64
rest_after n s rest hn hs f hr c =
    let (above, below_s, below_n, which) = part_bounds n s hn hs in
    let fits : IsInt64 (n -ℤ part n s) =
      omega (int_laws, above, below_n, f, one_part (n -ℤ part n s)) in
    (
      wrap64-eq _ fits,
      omega (int_laws, below_n),
      fits,
      elim which [ inl all ↦ omega (int_laws, all, hr) | inr whole ↦ omega (int_laws, whole, c) ],
    )
