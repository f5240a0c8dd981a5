-- ===== src/Ledger/Posting.antt =====
-- The writes of the books and their audit: a credit, a new ledger, a balance set beside its
-- transaction.
use tachigo.Base.{
  ◌≡◌, ◌≢◌, refl, sym, ◌∙◌, true, false, some, none, List, [], ◌∷◌, ◌==◌, find_first,
  find_first-none, update_where, All-map, All, arith, ==_iff, ==_refl, Bool-cases, inl, inr,
}
use tachigo.Int.{ℤ, pos, ◌+ℤ◌, ◌≤ℤ◌, IsInt64, int_laws, +ℤ_zero_left}
use tachigo.Models.{Uuid, Time, Name, PointsLedger, PointsTransaction}
use tachigo.Effect.{Db}
use tachigo.Ledger.{owned, has_id, has_tx_id, collides, with_balance, credited, new_ledger}
use tachigo.Ledger.Audit.{
  deltas, is_earning, earnings, deltas_other, deltas_same, earnings_other, earnings_same,
  earnings_idle, IsBalanced, Apart, IsPosted, IsAudited,
}
use tachigo.Ledger.Rows.{
  update_owned-eq-update_id, update-IsKeyed, update-IsPosted, update-IsBalanced, other-IsBalanced,
  find-update, KeepsKeys,
}

-- A row that collides with nothing has a new id.
pub fresh_id :
    (t : PointsTransaction) (ts : List PointsTransaction)
    → find_first (collides t) ts ≡ none
    → find_first (has_tx_id t.id) ts ≡ none
fresh_id t [] e = refl
fresh_id t (s ∷ ts) e = ground (arith, fresh_id t ts)

-- A ledger id that no row has is named by no transaction.
pub unposted :
    (id : Uuid) (ls : List PointsLedger) (ts : List PointsTransaction)
    → find_first (has_id id) ls ≡ none
    → All (IsPosted ls) ts
    → (deltas id ts ≡ pos 0) × (earnings id ts ≡ pos 0)
unfolding deltas earnings
unposted id ls [] e h = (refl, refl)
unposted id ls (t ∷ ts) e h = elim (Bool-cases (t.ledger_id == id)) [
  | inl same ↦ absurd (h.0 (rw ((==_iff _ _).0 same) e))
  | inr other ↦
      let ih = unposted id ls ts e h.1 in
      (deltas_other t ts id other ∙ ih.0, earnings_other t ts id other ∙ ih.1)
]

module _ {ts : List PointsTransaction} (t : PointsTransaction) (l : PointsLedger) where
  -- The row of `t` when its balance is set to the old one moved by `t`, which earns nothing.
  pub with_balance-IsBalanced :
      (balance : ℤ) (at : Time)
      → l.id ≡ t.ledger_id
      → balance ≡ deltas t.ledger_id ts +ℤ t.delta
      → is_earning t.source ≡ false
      → pos 0 ≤ℤ balance
      → IsInt64 balance
      → IsBalanced ts l
      → IsBalanced (t ∷ ts) (with_balance balance at l)
  with_balance-IsBalanced balance at e eb es nn fits h = record {
    spendable = rw (e, deltas_same t ts t.ledger_id (==_refl _)) eb;
    cumulative = rw (earnings_idle t ts l.id es) h.cumulative;
    nonneg = nn;
    spendable_fits = fits;
  }

  -- The row of `t` when it is credited with what `t` earns.
  pub credited-IsBalanced :
      (at : Time)
      → l.id ≡ t.ledger_id
      → is_earning t.source ≡ true
      → pos 0 ≤ℤ t.delta
      → IsInt64 (l.spendable_balance +ℤ t.delta)
      → IsBalanced ts l
      → IsBalanced (t ∷ ts) (credited t.delta at l)
  credited-IsBalanced at e es nn fits h = record {
    spendable = rw (deltas_same t ts l.id (rw e (==_refl _)), h.spendable);
    cumulative = rw (earnings_same t ts l.id (rw e (==_refl _)) es, h.cumulative);
    nonneg = omega (int_laws, h.nonneg);
    spendable_fits = fits;
  }

-- The audit after a write to the rows of one ledger beside its transaction.
module _ (db : Db) (t : PointsTransaction) (audit : IsAudited db) where
  abbrev ledgers : List PointsLedger
  ledgers = db.points_ledgers

  abbrev log : List PointsTransaction
  log = db.points_transactions

  -- A balance is set on the rows of `t`.
  pub set_balance-IsAudited :
      (x : PointsLedger) (balance : ℤ) (at : Time)
      → find_first (has_tx_id t.id) log ≡ none
      → t.ledger_id ≡ x.id
      → find_first (has_id x.id) ledgers ≢ none
      → balance ≡ deltas x.id log +ℤ t.delta
      → is_earning t.source ≡ false
      → pos 0 ≤ℤ balance
      → IsInt64 balance
      → IsAudited (record db {
        points_ledgers = update_where (has_id x.id) (with_balance balance at) ledgers;
        points_transactions = t ∷ log;
      })
  set_balance-IsAudited x balance at fresh own there eb es nn fits = record {
    balanced = rw (← own) (
        update-IsBalanced t log (with_balance balance at) ledgers
          (λ l e. with_balance-IsBalanced t l balance at e (rw own eb) es nn fits) audit.balanced);
    keyed = update-IsKeyed (has_id x.id) (with_balance balance at) keeps ledgers audit.keyed;
    posted = (
      λ e.
          there
            (find-update (has_id x.id) (with_balance balance at) keeps x.id ledgers (rw own at e)),
      update-IsPosted (has_id x.id) (with_balance balance at) keeps ledgers log audit.posted,
    );
    distinct = (fresh, audit.distinct);
  }
    where
      keeps : KeepsKeys (with_balance balance at)
      keeps l = (refl, refl, refl)

  -- The owner's rows are credited.
  pub credit-IsAudited :
      (user : Uuid) (channel : Name) (x : PointsLedger) (at : Time)
      → find_first (owned user channel) ledgers ≡ some x
      → find_first (has_tx_id t.id) log ≡ none
      → t.ledger_id ≡ x.id
      → find_first (has_id x.id) ledgers ≢ none
      → is_earning t.source ≡ true
      → pos 0 ≤ℤ t.delta
      → IsInt64 (deltas x.id log +ℤ t.delta)
      → IsAudited (record db {
        points_ledgers = update_where (owned user channel) (credited t.delta at) ledgers;
        points_transactions = t ∷ log;
      })
  credit-IsAudited user channel x at found fresh own there es nn fits = record {
    balanced =
        rw
          (
            update_owned-eq-update_id user channel (credited t.delta at) ledgers audit.keyed found,
            ← own,
          )
          (update-IsBalanced t log (credited t.delta at) ledgers
            (λ l e h. credited-IsBalanced t l at e es nn (rw (h.spendable, e, own) fits) h)
            audit.balanced);
    keyed = update-IsKeyed (owned user channel) (credited t.delta at) keeps ledgers audit.keyed;
    posted = (
      λ e.
          there (
            find-update (owned user channel) (credited t.delta at) keeps x.id ledgers
              (rw own at e)),
      update-IsPosted (owned user channel) (credited t.delta at) keeps ledgers log audit.posted,
    );
    distinct = (fresh, audit.distinct);
  }
    where
      keeps : KeepsKeys (credited t.delta at)
      keeps l = (refl, refl, refl)

  -- A ledger opens with its first earnings.
  pub open-IsAudited :
      (user : Uuid) (channel : Name) (id : Uuid) (at : Time)
      → find_first (owned user channel) ledgers ≡ none
      → find_first (has_id id) ledgers ≡ none
      → find_first (has_tx_id t.id) log ≡ none
      → t.ledger_id ≡ id
      → is_earning t.source ≡ true
      → pos 0 ≤ℤ t.delta
      → IsInt64 t.delta
      → IsAudited (record db {
        points_ledgers = new_ledger id user channel t.delta at ∷ ledgers;
        points_transactions = t ∷ log;
      })
  open-IsAudited user channel id at unowned new fresh own es nn fits = record {
    balanced = (opened, others ledgers (find_first-none (has_id id) ledgers new) audit.balanced);
    keyed = (
      apart ledgers (find_first-none (has_id id) ledgers new)
          (find_first-none (owned user channel) ledgers unowned),
      audit.keyed,
    );
    posted =
        (λ e. ground (arith, ==_refl id), All-map log (λ s h e. ground (arith, h)) audit.posted);
    distinct = (fresh, audit.distinct);
  }
    where
      opened : IsBalanced (t ∷ log) (new_ledger id user channel t.delta at)
      opened =
          let sums = unposted id ledgers log new audit.posted in
          record {
            spendable =
                rw (deltas_same t log id (rw own (==_refl id)), sums.0)
                  (sym (+ℤ_zero_left t.delta));
            cumulative =
                rw (earnings_same t log id (rw own (==_refl id)) es, sums.1)
                  (sym (+ℤ_zero_left t.delta));
            nonneg = nn;
            spendable_fits = fits;
          }

      others :
          (ls : List PointsLedger)
          → All (λ l. has_id id l ≡ false) ls
          → All (IsBalanced log) ls
          → All (IsBalanced (t ∷ log)) ls
      others [] n h = tt
      others (l ∷ ls) n h =
          (other-IsBalanced t log l (rw own (ground (arith, n.0))) h.0, others ls n.1 h.1)

      apart :
          (ls : List PointsLedger)
          → All (λ l. has_id id l ≡ false) ls
          → All (λ l. owned user channel l ≡ false) ls
          → All (Apart (new_ledger id user channel t.delta at)) ls
      apart [] n o = tt
      apart (l ∷ ls) n o = (record { other_id = n.0; other_owner = o.0 }, apart ls n.1 o.1)
