-- ===== src/Ledger/Rows.antt =====
-- How an update of the ledger rows acts on the parts of the audit.
use tachigo.Base.{
  ◌≡◌, refl, Bool, true, false, some, none, List, [], ◌∷◌, ◌==◌, inl, inr, find_first, update_where,
  All, arith, ==_iff, Bool-cases,
}
use tachigo.Models.{Uuid, Name, PointsLedger, PointsTransaction}
use tachigo.Ledger.{owned, has_id}
use tachigo.Ledger.Audit.{deltas_other, earnings_other, IsBalanced, Apart, IsKeyed, IsPosted}

pub update_where_none :
    (p : PointsLedger → Bool) (f : PointsLedger → PointsLedger) (ls : List PointsLedger)
    → All (λ l. p l ≡ false) ls
    → update_where p f ls ≡ ls
update_where_none p f [] h = refl
update_where_none p f (l ∷ ls) h = ground (arith, update_where_none p f ls h.1)

-- Under the unique indexes an update by owner and channel is an update by id.
module _ (user : Uuid) (channel : Name) (f : PointsLedger → PointsLedger) where
  Apart-other :
      (l : PointsLedger) (ls : List PointsLedger)
      → owned user channel l ≡ true
      → All (Apart l) ls
      → All (λ r. owned user channel r ≡ false) ls × All (λ r. has_id l.id r ≡ false) ls
  Apart-other l [] e h = (tt, tt)
  Apart-other l (r ∷ ls) e h = ground (arith, Apart-other l ls e h.1)

  found-other :
      (l : PointsLedger) (ls : List PointsLedger) {x : PointsLedger}
      → All (Apart l) ls
      → find_first (owned user channel) ls ≡ some x
      → has_id x.id l ≡ false
  found-other l [] h e = cc
  found-other l (r ∷ ls) {x} h e = ground (arith, found-other l ls {x = x} h.1)

  pub update_owned-eq-update_id :
      (ls : List PointsLedger) {x : PointsLedger}
      → IsKeyed ls
      → find_first (owned user channel) ls ≡ some x
      → update_where (owned user channel) f ls ≡ update_where (has_id x.id) f ls
  update_owned-eq-update_id [] k e = cc
  update_owned-eq-update_id (l ∷ ls) {x} k e = elim (Bool-cases (owned user channel l)) [
    | inl own ↦ ground (
      arith,
      Apart-other l ls own k.0,
      update_where_none (owned user channel) f ls,
      update_where_none (has_id l.id) f ls,
    )
    | inr other ↦
        ground (arith, found-other l ls {x = x} k.0, update_owned-eq-update_id ls {x = x} k.1)
  ]

-- An update that leaves the keys of a row alone.
abbrev pub KeepsKeys : (PointsLedger → PointsLedger) → Type 0
KeepsKeys f =
    (l : PointsLedger)
    → ((f l).id ≡ l.id) × ((f l).user_id ≡ l.user_id) × ((f l).channel_id ≡ l.channel_id)

module _ (p : PointsLedger → Bool) (f : PointsLedger → PointsLedger) (keeps : KeepsKeys f) where
  Apart-update :
      (l : PointsLedger) (ls : List PointsLedger)
      → All (Apart l) ls
      → All (Apart l) (update_where p f ls) × All (Apart (f l)) (update_where p f ls)
  Apart-update l [] h = (tt, tt)
  Apart-update l (r ∷ ls) h = ground (arith, keeps l, keeps r, Apart-update l ls h.1)

  pub update-IsKeyed : (ls : List PointsLedger) → IsKeyed ls → IsKeyed (update_where p f ls)
  update-IsKeyed [] k = tt
  update-IsKeyed (l ∷ ls) k = ground (arith, Apart-update l ls k.0, update-IsKeyed ls k.1)

  pub find-update :
      (id : Uuid) (ls : List PointsLedger)
      → find_first (has_id id) (update_where p f ls) ≡ none
      → find_first (has_id id) ls ≡ none
  find-update id [] e = refl
  find-update id (l ∷ ls) e = ground (arith, keeps l, find-update id ls)

  pub update-IsPosted :
      (ls : List PointsLedger) (ts : List PointsTransaction)
      → All (IsPosted ls) ts
      → All (IsPosted (update_where p f ls)) ts
  update-IsPosted ls [] h = tt
  update-IsPosted ls (t ∷ ts) h =
      (λ e. h.0 (find-update t.ledger_id ls e), update-IsPosted ls ts h.1)

  -- The row that an owner finds after an update of the owner's rows.
  pub find_owned-update :
      (user : Uuid) (channel : Name) (ls : List PointsLedger) {x : PointsLedger}
      → find_first (owned user channel) ls ≡ some x
      → find_first (owned user channel) (update_where (owned user channel) f ls) ≡ some (f x)
  find_owned-update user channel [] e = cc
  find_owned-update user channel (l ∷ ls) {x} e =
      ground (arith, keeps l, find_owned-update user channel ls {x = x})

-- A transaction posted on one ledger keeps every other row balanced.
module _ (t : PointsTransaction) (ts : List PointsTransaction) where
  pub other-IsBalanced :
      (l : PointsLedger) → (t.ledger_id == l.id) ≡ false → IsBalanced ts l → IsBalanced (t ∷ ts) l
  other-IsBalanced l e h = record {
    spendable = rw (deltas_other t ts l.id e) h.spendable;
    cumulative = rw (earnings_other t ts l.id e) h.cumulative;
    nonneg = h.nonneg;
    spendable_fits = h.spendable_fits;
  }

  -- The rows of the ledger that `t` names take `f`, which must balance them with `t`.
  pub update-IsBalanced :
      (f : PointsLedger → PointsLedger) (ls : List PointsLedger)
      → ((l : PointsLedger) → l.id ≡ t.ledger_id → IsBalanced ts l → IsBalanced (t ∷ ts) (f l))
      → All (IsBalanced ts) ls
      → All (IsBalanced (t ∷ ts)) (update_where (has_id t.ledger_id) f ls)
  update-IsBalanced f [] step h = tt
  update-IsBalanced f (l ∷ ls) step h = elim (Bool-cases (has_id t.ledger_id l)) [
    | inl same ↦ rw same (step l ((==_iff _ _).0 same) h.0, update-IsBalanced f ls step h.1)
    | inr other ↦ rw other (other-IsBalanced l (ground arith) h.0, update-IsBalanced f ls step h.1)
  ]
