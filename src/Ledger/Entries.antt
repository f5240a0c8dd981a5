-- ===== src/Ledger/Entries.antt =====
-- What a write to one ledger leaves of the others, and where the row of a ledger is found.
use tachigo.Base.{
  ◌≡◌, refl, Bool, false, Option, some, none, List, [], ◌∷◌, ◌==◌, ==_refl, find_first,
  update_where, All-find_first, All-map, arith, inl, inr, Bool-cases,
}
use tachigo.Models.{Uuid, Name, PointsLedger}
use tachigo.Ledger.{owned, has_id}
use tachigo.Ledger.Audit.{IsKeyed}
use tachigo.Ledger.Rows.{KeepsKeys}

-- The channel of a ledger that is there.
abbrev pub channel_in : Option PointsLedger → Option Name
channel_in none = none
channel_in (some l) = some l.channel_id

abbrev pub channel_at : Uuid → List PointsLedger → Option Name
channel_at id ls = channel_in (find_first (has_id id) ls)

module _ (p : PointsLedger → Bool) (f : PointsLedger → PointsLedger) (keeps : KeepsKeys f) where
  pub channel_at-update :
      (id : Uuid) (ls : List PointsLedger) → channel_at id (update_where p f ls) ≡ channel_at id ls
  channel_at-update id [] = refl
  channel_at-update id (l ∷ ls) = ground (arith, keeps l, channel_at-update id ls)

-- The rows of other users stay.
pub find_owned-other :
    (f : PointsLedger → PointsLedger)
    → KeepsKeys f
    → (user : Uuid) (channel : Name) (u : Uuid) → (u == user) ≡ false
    → (ls : List PointsLedger)
    → find_first (owned u channel) (update_where (owned user channel) f ls)
      ≡ find_first (owned u channel) ls
find_owned-other f keeps user channel u e [] = refl
find_owned-other f keeps user channel u e (l ∷ ls) =
    ground (arith, keeps l, find_owned-other f keeps user channel u e ls)

-- With unique ids, a row that is found is found by its id.
pub find_id-found :
    (p : PointsLedger → Bool) (ls : List PointsLedger) {x : PointsLedger}
    → IsKeyed ls
    → find_first p ls ≡ some x
    → find_first (has_id x.id) ls ≡ some x
find_id-found p [] k e = cc
find_id-found p (l ∷ ls) {x} k e = elim (Bool-cases (p l)) [
  | inl hit ↦ ground (arith, e, hit, ==_refl x.id)
  | inr miss ↦
      let rest : find_first p ls ≡ some x = ground (arith, e, miss) in
      let apart : has_id l.id x ≡ false =
        All-find_first (λ r. has_id l.id r ≡ false) p ls (All-map ls (λ r a. a.other_id) k.0)
          rest in
      ground (arith, apart, find_id-found p ls {x = x} k.1)
]
