-- ===== src/Claims/Rounds.antt =====
-- The loop of a reservation (claim_service.go): what it takes from each ledger, and what it stores.
use tachigo.Base.{
  ◌≡◌, refl, sym, ap, subst, ◌∙◌, true, false, some, List, [], ◌∷◌, find_first, update_where, All,
  All-find_first, arith, inl, inr, ◌⊎◌,
}
use tachigo.Int.{ℤ, pos, ◌+ℤ◌, ◌-ℤ◌, ◌≤ℤ◌, ◌<ℤ◌, IsInt64, sub64, int_laws}
use tachigo.Models.{Uuid, Time, PointsLedger, PointsTransaction, ClaimItem}
use tachigo.Effect.{Db}
use tachigo.Effect.Ensures.{Ensures, Ensures-pure, Ensures-bind}
use tachigo.Ledger.{has_id}
use tachigo.Ledger.Audit.{IsBalanced, IsAudited}
use tachigo.Claims.{ClaimReservationItem, is_zero, reserve_items}
use tachigo.Claims.Balances.{balance_at, took_from, still_found, taken_at}
use tachigo.Claims.Selection.{IsOffered, IsDistinct}
use tachigo.Claims.Amounts.{offered, taken, part, rest_after, IsGiving, offered_nonneg}
use tachigo.Claims.Postings.{Noted, Gave, reserve_one-Gave}

module _ (claim user : Uuid) where
  -- What the loop has done: the items add up to the amount, every ledger has lost exactly what they
  -- took, each has its transaction and its row, the books are audited, and the rest is as it was.
  pub record Took (n : ℤ) (db : Db) (items : List ClaimReservationItem) (db' : Db) : Type 0 where
    pub audited : IsAudited db'
    pub total : taken items ≡ n
    pub lost : (k : Uuid) → balance_at k db' ≡ balance_at k db -ℤ took_from k items
    pub ls : List PointsLedger
    pub ts : List PointsTransaction
    pub cs : List ClaimItem
    pub noted : Noted claim user items db.points_transactions db.claim_items ts cs
    pub frame :
        db' ≡ (record db { points_ledgers = ls; points_transactions = ts; claim_items = cs })

still-IsOffered :
    (id : Uuid) (f : PointsLedger → PointsLedger) (table ls : List PointsLedger)
    → ((x : PointsLedger) → (f x).id ≡ x.id)
    → All (λ r. has_id id r ≡ false) ls
    → All (IsOffered table) ls
    → All (IsOffered (update_where (has_id id) f table)) ls
still-IsOffered id f table [] k n h = tt
still-IsOffered id f table (l ∷ ls) k n h = (
  record { stored = still_found id l.id f table k n.0 ∙ h.0.stored; positive = h.0.positive },
  still-IsOffered id f table ls k n.1 h.1,
)

-- The rows on offer have points that fit an int64.
pub rows-IsGiving :
    (db : Db) (ls : List PointsLedger)
    → IsAudited db
    → All (IsOffered db.points_ledgers) ls
    → All IsGiving ls
rows-IsGiving db [] audit h = tt
rows-IsGiving db (l ∷ ls) audit h = (
  (
    h.0.positive,
    (All-find_first (IsBalanced db.points_transactions) (has_id l.id) db.points_ledgers
        audit.balanced h.0.stored).spendable_fits,
  ),
  rows-IsGiving db ls audit h.1,
)

is_zero-cases :
    (n : ℤ) → pos 0 ≤ℤ n → ((is_zero n ≡ true) × (n ≡ pos 0)) ⊎ ((is_zero n ≡ false) × (pos 0 <ℤ n))
is_zero-cases n h = ground arith

combined : (x a b : ℤ) → (x -ℤ a) -ℤ b ≡ x -ℤ (a +ℤ b)
combined x a b = omega int_laws

module _ (claim user : Uuid) where
  nothing_taken : (n : ℤ) (db : Db) → IsAudited db → n ≡ pos 0 → Took claim user n db [] db
  nothing_taken n db audit e = record {
    audited = audit;
    total = sym e;
    lost = λ k. omega int_laws;
    ls = db.points_ledgers;
    ts = db.points_transactions;
    cs = db.claim_items;
    noted = (refl, refl);
    frame = refl;
  }

  -- One round and those after it.
  one_more :
      (l : PointsLedger) (n : ℤ) (db : Db) (i : ClaimReservationItem) (db' : Db)
      (items : List ClaimReservationItem) (db'' : Db)
      → find_first (has_id l.id) db.points_ledgers ≡ some l
      → Gave claim user l n db i db'
      → Took claim user (n -ℤ part n l.spendable_balance) db' items db''
      → Took claim user n db (i ∷ items) db''
  one_more l n db i db' items db'' found g t = record {
    audited = t.audited;
    total = rw (g.amount, t.total) (omega int_laws);
    lost = λ k.
        t.lost k
        ∙ ap (λ d. balance_at k d -ℤ took_from k items) g.stored
        ∙ ap (λ x. x -ℤ took_from k items)
            (taken_at l (part n l.spendable_balance) g.at db.points_ledgers k found)
        ∙ combined _ _ _
        ∙ rw (g.of_ledger, g.amount) refl;
    ls = t.ls;
    ts = t.ts;
    cs = t.cs;
    noted = (
      g.t,
      g.id,
      g.posting,
      subst (λ (d : Db). Noted claim user items d.points_transactions d.claim_items t.ts t.cs)
          g.stored t.noted,
    );
    frame =
        t.frame
        ∙ ap
            (λ (d : Db). record d {
              points_ledgers = t.ls;
              points_transactions = t.ts;
              claim_items = t.cs;
            })
            g.stored;
  }

  pub reserve_items-Took :
      (at : Time) (n : ℤ) (ls : List PointsLedger) (db : Db)
      → IsAudited db
      → All (IsOffered db.points_ledgers) ls
      → IsDistinct ls
      → pos 0 ≤ℤ n
      → IsInt64 n
      → n ≤ℤ offered ls
      → Ensures db (reserve_items claim user at n ls) (Took claim user n db)
  unfolding reserve_items
  reserve_items-Took at n [] db audit h d nn f c =
      Ensures-pure [] (nothing_taken n db audit (omega (int_laws, nn, c)))
  reserve_items-Took at n (l ∷ ls) db audit h d nn f c = elim (is_zero-cases n nn) [
    | inl (z, e) ↦ rw z (Ensures-pure [] (nothing_taken n db audit e))
    | inr (z, above) ↦ rw z (
        Ensures-bind (Gave claim user l n db) _ _
          (reserve_one-Gave claim user at l n db audit h.0 above)
          λ i db' g.
            let giving = rows-IsGiving db ls audit h.1 in
            let (exact, nonneg, fits, covered) =
              rest_after n l.spendable_balance (offered ls) above h.0.positive f
                (offered_nonneg ls giving) c in
            let s = part n l.spendable_balance in
            let left : sub64 n i.amount ≡ n -ℤ s = ap (sub64 n) g.amount ∙ exact in
            let offers : All (IsOffered db'.points_ledgers) ls =
              subst (λ (t : Db). All (IsOffered t.points_ledgers) ls) (sym g.stored)
                (still-IsOffered l.id _ db.points_ledgers ls (λ x. refl) d.0 h.1) in
            rw left (
              Ensures-bind (Took claim user (n -ℤ s) db') _ _
                (reserve_items-Took at (n -ℤ s) ls db' g.audited offers d.1 nonneg fits covered)
                λ items db'' t.
                  Ensures-pure (i ∷ items) (one_more l n db i db' items db'' h.0.stored g t)))
  ]
