-- ===== src/Claims/Postings.antt =====
-- One round of a reservation (claim_service.go): what a ledger gives, and what is stored for it.
use tachigo.Base.{
  ◌≡◌, refl, sym, ap, ◌∙◌, Option, none, some, List, [], ◌∷◌, find_first, update_where,
  All-find_first,
}
use tachigo.Int.{pos_part, neg_part, ℤ, pos, ◌+ℤ◌, ◌-ℤ◌, ◌<ℤ◌, ltb_ℤ, int_laws}
use tachigo.Models.{Uuid, Time, TxSource, PointsLedger, PointsTransaction, ClaimItem}
use tachigo.Effect.{Db}
use tachigo.Effect.Ensures.{
  Gives, Gives-if, Ensures, Ensures-pure, Ensures-sql, Ensures-bind, Ensures-bind-sql,
  Ensures-bind-new_uuid,
}
use tachigo.Ledger.{has_id, with_balance}
use tachigo.Ledger.Audit.{is_earning, IsBalanced, IsAudited}
use tachigo.Ledger.Posting.{set_balance-IsAudited}
use tachigo.Ledger.Awards.{create_transaction-Ensures}
use tachigo.Points.{neg64}
use tachigo.Points.Deduct.{covered_difference}
use tachigo.Claims.{
  ClaimReservationItem, insert_item, insert_item_row, create_claim_item, reserve_one,
}
use tachigo.Claims.Selection.{IsOffered}
use tachigo.Claims.Amounts.{part, part_bounds}

-- The books that a change of other tables leaves alone.
pub reframe-IsAudited :
    (db db' : Db)
    → db'.points_ledgers ≡ db.points_ledgers
    → db'.points_transactions ≡ db.points_transactions
    → IsAudited db
    → IsAudited db'
reframe-IsAudited db db' el et a = record {
  balanced = rw (el, et) a.balanced;
  keyed = rw el a.keyed;
  posted = rw (el, et) a.posted;
  distinct = rw et a.distinct;
}

-- The row of an item of a reservation, and the transaction that takes its points.
abbrev pub item_row : Uuid → Uuid → Uuid → ClaimReservationItem → ClaimItem
item_row id claim user i = record {
  id = id;
  claim_id = claim;
  claim_user_id = user;
  ledger_id = i.ledger_id;
  points_transaction_id = i.transaction_id;
  amount = i.amount;
}

pub record IsPosting (i : ClaimReservationItem) (t : PointsTransaction) : Type 0 where
  pub named : t.id ≡ i.transaction_id
  pub of_ledger : t.ledger_id ≡ i.ledger_id
  pub claims : t.source ≡ TxSource.claim
  pub takes : t.delta +ℤ i.amount ≡ pos 0

-- Each item in turn puts its transaction and its row before those that are there.
abbrev pub Noted :
    Uuid
    → Uuid
    → List ClaimReservationItem
    → List PointsTransaction
    → List ClaimItem
    → List PointsTransaction
    → List ClaimItem
    → Type 0
Noted claim user [] ts cs ts' cs' = (ts' ≡ ts) × (cs' ≡ cs)
Noted claim user (i ∷ items) ts cs ts' cs' =
    (t : PointsTransaction) × (id : Uuid) × IsPosting i t
    × Noted claim user items (t ∷ ts) (item_row id claim user i ∷ cs) ts' cs'

-- A claim item is stored beside the books.
create_claim_item-Ensures :
    (claim user ledger tx : Uuid) (amount : ℤ) (db : Db) (Q : Db → Type 0)
    → ((id : Uuid)
        → Q (record db {
          claim_items =
              item_row id claim user
                (record { ledger_id = ledger; transaction_id = tx; amount = amount })
              ∷ db.claim_items;
        }))
    → Ensures db (create_claim_item claim user ledger tx amount) (λ _ db'. Q db')
unfolding create_claim_item insert_item
create_claim_item-Ensures claim user ledger tx amount db Q q =
    Ensures-bind-new_uuid _ λ id. Ensures-sql _ (go _ (find_first _ db.claim_items) (q id))
  where
    go :
        (i : ClaimItem) (o : Option ClaimItem)
        → Q (record db { claim_items = i ∷ db.claim_items })
        → Gives (insert_item_row i o db) (λ _ db'. Q db')
    go i (some _) h = tt
    go i none h = Gives-if (λ _ db'. Q db') (ltb_ℤ (pos 0) i.amount) _ _ (λ _. h) (λ _. tt)

-- The ledgers after one has given its part.
abbrev pub lowered : PointsLedger → ℤ → Time → List PointsLedger → List PointsLedger
lowered l n at ls =
    update_where (has_id l.id) (with_balance (l.spendable_balance -ℤ part n l.spendable_balance) at)
      ls

module _ (claim user : Uuid) where
  -- One round: the ledger gives its part, by a transaction and a row of the item.
  pub record Gave (l : PointsLedger) (n : ℤ) (db : Db) (i : ClaimReservationItem) (db' : Db)
      : Type 0 where
    pub audited : IsAudited db'
    pub amount : i.amount ≡ part n l.spendable_balance
    pub of_ledger : i.ledger_id ≡ l.id
    pub at : Time
    pub t : PointsTransaction
    pub posting : IsPosting i t
    pub id : Uuid
    pub stored : db' ≡ (record db {
      points_ledgers = lowered l n at db.points_ledgers;
      points_transactions = t ∷ db.points_transactions;
      claim_items = item_row id claim user i ∷ db.claim_items;
    })

-- The same, before the item is stored.
record Posted (l : PointsLedger) (n : ℤ) (db : Db) (t : PointsTransaction) (db' : Db) : Type 0 where
  audited : IsAudited db'
  at : Time
  posting :
      IsPosting
        (record { ledger_id = l.id; transaction_id = t.id; amount = part n l.spendable_balance })
        t
  stored : db' ≡ (record db {
    points_ledgers = lowered l n at db.points_ledgers;
    points_transactions = t ∷ db.points_transactions;
  })

no_sum : (s a m : ℤ) → s +ℤ m ≡ s -ℤ a → m +ℤ a ≡ pos 0
no_sum s a m e = omega (int_laws, ap pos_part e, ap neg_part e)

module _ (claim user : Uuid) (at : Time) where
  pub reserve_one-Gave :
      (l : PointsLedger) (n : ℤ) (db : Db)
      → IsAudited db
      → IsOffered db.points_ledgers l
      → pos 0 <ℤ n
      → Ensures db (reserve_one claim user at n l) (Gave claim user l n db)
  unfolding reserve_one
  reserve_one-Gave l n db audit o hn =
      let p = part n l.spendable_balance in
      let row : IsBalanced db.points_transactions l =
        All-find_first (IsBalanced db.points_transactions) (has_id l.id) db.points_ledgers
          audit.balanced o.stored in
      let (above, below, _, _) = part_bounds n l.spendable_balance hn o.positive in
      let (exact, moved, nn, fits) =
        covered_difference l.spendable_balance p above below row.spendable_fits in
      rw exact (
        Ensures-bind-sql _ _ (
          Ensures-bind (Posted l n db) _ _
            (create_transaction-Ensures _ _ _ λ id tx_at t e fresh there. record {
              audited =
                  set_balance-IsAudited db t audit l _ at fresh (ap (λ r. r.ledger_id) e)
                    (λ x. cc (sym o.stored ∙ x))
                    (rw (← row.spendable, ap (λ r. r.delta) e) (sym moved))
                    (ap (λ r. is_earning r.source) e) nn fits;
              at = at;
              posting = record {
                named = refl;
                of_ledger = ap (λ r. r.ledger_id) e;
                claims = ap (λ r. r.source) e;
                takes = rw (ap (λ r. r.delta) e) (no_sum l.spendable_balance p (neg64 p) moved);
              };
              stored = refl;
            })
            λ t db' posted.
              Ensures-bind
                (λ _ db''.
                  Gave claim user l n db
                    (record { ledger_id = l.id; transaction_id = t.id; amount = p }) db'')
                _ _
                (create_claim_item-Ensures claim user l.id t.id p db' _ (λ id. record {
                  audited = reframe-IsAudited db' _ refl refl posted.audited;
                  amount = refl;
                  of_ledger = refl;
                  at = posted.at;
                  t = t;
                  posting = posted.posting;
                  id = id;
                  stored =
                      ap
                        (λ (d : Db). record d {
                          claim_items =
                              item_row id claim user
                                (record { ledger_id = l.id; transaction_id = t.id; amount = p })
                              ∷ d.claim_items;
                        })
                        posted.stored;
                }))
                λ _ db'' g. Ensures-pure _ g))
