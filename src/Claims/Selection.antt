-- ===== src/Claims/Selection.antt =====
-- The ledgers that a claim takes from, in its order: present, with distinct ids, each with points.
use tachigo.Base.{
  ◌≡◌, Bool, true, false, some, List, [], ◌∷◌, find_first, select, insert_by, select-All,
  insert-All, sort-All, sort_by, All, All-map, arith, Bool-cases, inl, inr,
}
use tachigo.Int.{pos, ◌<ℤ◌}
use tachigo.Models.{Uuid, PointsLedger}
use tachigo.Ledger.{has_id}
use tachigo.Ledger.Audit.{IsKeyed}
use tachigo.Claims.{spendable_row, spendable_ledgers}

-- No two rows share an id.
abbrev pub IsDistinct : List PointsLedger → Type 0
IsDistinct [] = Unit
IsDistinct (l ∷ ls) = All (λ r. has_id l.id r ≡ false) ls × IsDistinct ls

select_passes :
    (p : PointsLedger → Bool) (ls : List PointsLedger) → All (λ l. p l ≡ true) (select p ls)
select_passes p [] = tt
select_passes p (l ∷ ls) = elim (Bool-cases (p l)) [
  | inl hit ↦ rw hit (hit, select_passes p ls)
  | inr miss ↦ rw miss (select_passes p ls)
]

select-IsDistinct :
    (p : PointsLedger → Bool) (ls : List PointsLedger) → IsDistinct ls → IsDistinct (select p ls)
select-IsDistinct p [] h = tt
select-IsDistinct p (l ∷ ls) h = elim (Bool-cases (p l)) [
  | inl hit ↦ rw hit (select-All _ p ls h.0, select-IsDistinct p ls h.1)
  | inr miss ↦ rw miss (select-IsDistinct p ls h.1)
]

swapped : (l r : PointsLedger) → has_id l.id r ≡ false → has_id r.id l ≡ false
swapped l r e = ground (arith, e)

module _ (le : PointsLedger → PointsLedger → Bool) where
  insert-IsDistinct :
      (x : PointsLedger) (ls : List PointsLedger)
      → All (λ r. has_id x.id r ≡ false) ls
      → IsDistinct ls
      → IsDistinct (insert_by le x ls)
  insert-IsDistinct x [] n h = (tt, tt)
  insert-IsDistinct x (l ∷ ls) n h = elim (Bool-cases (le x l)) [
    | inl before ↦ rw before (n, h)
    | inr after ↦
        rw after (insert-All _ le x ls (swapped x l n.0) h.0, insert-IsDistinct x ls n.1 h.1)
  ]

  sort-IsDistinct : (ls : List PointsLedger) → IsDistinct ls → IsDistinct (sort_by le ls)
  sort-IsDistinct [] h = tt
  sort-IsDistinct (l ∷ ls) h =
      insert-IsDistinct l (sort_by le ls) (sort-All _ le ls h.0) (sort-IsDistinct ls h.1)

keyed-IsDistinct : (ls : List PointsLedger) → IsKeyed ls → IsDistinct ls
keyed-IsDistinct [] k = tt
keyed-IsDistinct (l ∷ ls) k = (All-map ls (λ r a. a.other_id) k.0, keyed-IsDistinct ls k.1)

-- A table row is what a search by its id finds.
abbrev pub IsStored : List PointsLedger → PointsLedger → Type 0
IsStored ls l = find_first (has_id l.id) ls ≡ some l

each_found : (ls : List PointsLedger) → IsDistinct ls → All (IsStored ls) ls
each_found [] d = tt
each_found (l ∷ ls) d = (ground arith, go ls d.0 (each_found ls d.1))
  where
    go :
        (rs : List PointsLedger)
        → All (λ r. has_id l.id r ≡ false) rs
        → All (IsStored ls) rs
        → All (IsStored (l ∷ ls)) rs
    go [] n h = tt
    go (r ∷ rs) n h = (rw (swapped l r n.0) h.0, go rs n.1 h.1)

-- What the selection gives the loop of a reservation.
pub record IsOffered (ls : List PointsLedger) (l : PointsLedger) : Type 0 where
  pub stored : IsStored ls l
  pub positive : pos 0 <ℤ l.spendable_balance

pub spendable_ledgers-IsOffered :
    (user : Uuid) (ls : List PointsLedger)
    → IsKeyed ls
    → All (IsOffered ls) (spendable_ledgers user ls) × IsDistinct (spendable_ledgers user ls)
spendable_ledgers-IsOffered user ls keyed =
    let distinct = keyed-IsDistinct ls keyed in
    (
      sort-All (IsOffered ls) _ (select (spendable_row user) ls) (
          both (select (spendable_row user) ls)
            (select-All (IsStored ls) (spendable_row user) ls (each_found ls distinct))
            (select_passes (spendable_row user) ls)),
      sort-IsDistinct _ (select (spendable_row user) ls)
          (select-IsDistinct (spendable_row user) ls distinct),
    )
  where
    both :
        (rs : List PointsLedger)
        → All (IsStored ls) rs
        → All (λ l. spendable_row user l ≡ true) rs
        → All (IsOffered ls) rs
    both [] h t = tt
    both (r ∷ rs) h t = (record { stored = h.0; positive = ground (arith, t.0) }, both rs h.1 t.1)
