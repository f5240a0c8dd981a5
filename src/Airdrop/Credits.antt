-- ===== src/Airdrop/Credits.antt =====
-- The loop that credits the viewers their shares.
use tachigo.Base.{
  ℕ, ◌≡◌, ◌≢◌, refl, ◌∙◌, sym, ap, ◌+◌, ◌*◌, ◌/◌, ◌≤◌, ◌<◌, ◌==◌, ltb, leb, Bool, true, false,
  Option, some, none, List, [], ◌∷◌, ◌&&◌, length, count_where, arith, All, sum_by, find_first,
  find_first-passes, if◌then◌else◌, Bool-cases, ==_iff, &&_split, inl, inr,
}
use tachigo.Int.{
  ℤ, pos, ◌+ℤ◌, ◌<ℤ◌, +ℤ_comm, +ℤ_zero_right, int_laws, pos_part, int64_half, add64_pos,
}
use tachigo.Models.{Uuid, Time, Name, TxSource, PointsLedger, PointsTransaction}
use tachigo.Effect.{Db}
use tachigo.Effect.Ensures.{Ensures, Ensures-pure, Ensures-bind, Ensures-if, Ensures-weaken}
use tachigo.Ledger.{has_id, owned}
use tachigo.Ledger.Audit.{IsPosted, IsAudited}
use tachigo.Ledger.Entries.{channel_in, channel_at, find_id-found}
use tachigo.Ledger.Awards.{Credited, Logged, OnlyBooks, OnlyBooks-trans, ledger_of, spendable_of}
use tachigo.Points.{PointsCreditMeta, credit_row}
use tachigo.Points.Credit.{add_points_with_meta_at-Logged}
use tachigo.Airdrop.Reading.{
  AirdropViewer, AirdropRecipient, AirdropResult, day, in_channel, dropped_total,
}
use tachigo.Airdrop.{credit_viewers, no_result, with_recipient}
use tachigo.Airdrop.Shares.{points, IsNatural, pos_of_part}
use tachigo.Airdrop.Parts.{is_user}
use native.Mathlib.Nat.{div-add-mod, mod-lt}

abbrev pub allocated : AirdropRecipient → ℕ
allocated r = pos_part r.allocated_points

-- The points that the viewers' list has for one user.
abbrev pub points_for : Uuid → List AirdropViewer → ℕ
points_for u vs = sum_by (λ v. if is_user u v then points v else 0) vs

+ℤ_pos : (a : ℤ) (m n : ℕ) → a +ℤ pos m +ℤ pos n ≡ a +ℤ pos (m + n)
+ℤ_pos a m n = omega int_laws

-- The points that an answer has for one user, and how often it names the user.
abbrev pub is_recipient : Uuid → AirdropRecipient → Bool
is_recipient u p = p.user_id == u

abbrev pub allocated_to : Uuid → List AirdropRecipient → ℕ
allocated_to u ps = sum_by (λ p. if is_recipient u p then allocated p else 0) ps

-- What the day's airdrops of the channel come to.
abbrev pub today_of : Name → Time → Db → ℤ
today_of channel at db = dropped_total channel at db.points_ledgers db.points_transactions

in_channel-channel_in :
    (channel : Name) (o o' : Option PointsLedger)
    → channel_in o ≡ channel_in o'
    → in_channel channel o ≡ in_channel channel o'
in_channel-channel_in channel none none e = refl
in_channel-channel_in channel (some l) none e = cc
in_channel-channel_in channel none (some l) e = cc
in_channel-channel_in channel (some l) (some l') e = ground (arith, e)

-- The sum of the day reads the ledgers' channels only.
dropped_total-channels :
    (channel : Name) (at : Time) (ls ls' : List PointsLedger) (ts : List PointsTransaction)
    → ((i : Uuid) → find_first (has_id i) ls ≢ none → channel_at i ls' ≡ channel_at i ls)
    → All (IsPosted ls) ts
    → dropped_total channel at ls' ts ≡ dropped_total channel at ls ts
unfolding dropped_total
dropped_total-channels channel at ls ls' [] same h = refl
dropped_total-channels channel at ls ls' (t ∷ ts) same h =
    rw
      (
        in_channel-channel_in channel (find_first (has_id t.ledger_id) ls')
            (find_first (has_id t.ledger_id) ls) (same t.ledger_id h.0),
        dropped_total-channels channel at ls ls' ts same h.1,
      )
      refl

-- A time is in its own day.
in_day : (at : Time) → (leb (at / day * day) at && ltb at (at / day * day + day)) ≡ true
in_day at = ground (arith, div-add-mod at day, mod-lt at {m = day} (omega arith))

module _ (channel : Name) (meta : PointsCreditMeta) (at : Time) (set : (at == 0) ≡ false) where
  -- A credit of an airdrop counts towards the sum of the day.
  credit-today :
      (user : Uuid) (amount : ℤ) (db db' : Db) (l : PointsLedger)
      → IsAudited db
      → Credited user channel amount db l db'
      → Logged user channel (credit_row TxSource.airdrop amount meta at l) db db'
      → today_of channel at db' ≡ today_of channel at db +ℤ amount
  unfolding dropped_total
  credit-today user amount db db' l audit c g =
      let own =
        &&_split (l.user_id == user) (l.channel_id == channel)
          (find_first-passes (owned user channel) db'.points_ledgers c.read) in
      let home : find_first (has_id l.id) db'.points_ledgers ≡ some l =
        find_id-found (owned user channel) db'.points_ledgers c.audited.keyed c.read in
      let rest =
        dropped_total-channels channel at db.points_ledgers db'.points_ledgers
          db.points_transactions g.channels audit.posted in
      rw (g.posted, home, own.1, set, in_day at, rest) (+ℤ_comm _ _)

  -- What the loop leaves: the viewers' shares, each above zero, are in the answer and in the books.
  pub record Dropped (vs : List AirdropViewer) (db : Db) (r : AirdropResult) (db' : Db)
      : Type 0 where
    pub audited : IsAudited db'
    pub given : sum_by allocated r.distribution ≡ sum_by points vs
    pub above_zero : All (λ p. pos 0 <ℤ p.allocated_points) r.distribution
    pub counted : r.affected_count ≡ pos (length r.distribution)
    pub few : length r.distribution ≤ sum_by points vs
    pub named : (u : Uuid) → allocated_to u r.distribution ≡ points_for u vs
    pub times :
        (u : Uuid) → count_where (is_recipient u) r.distribution ≤ count_where (is_user u) vs
    pub balances :
        (u : Uuid)
        → spendable_of (ledger_of u channel db')
          ≡ spendable_of (ledger_of u channel db) +ℤ pos (points_for u vs)
    pub today : today_of channel at db' ≡ today_of channel at db +ℤ pos (sum_by points vs)
    pub frame : OnlyBooks db db'

  skip :
      (v : AirdropViewer) (vs : List AirdropViewer) (db : Db) (r : AirdropResult) (db' : Db)
      → points v ≡ 0
      → Dropped vs db r db'
      → Dropped (v ∷ vs) db r db'
  skip v vs db r db' z d = record {
    audited = d.audited;
    given = omega (arith, z, d.given);
    above_zero = d.above_zero;
    counted = d.counted;
    few = omega (arith, d.few);
    named = λ u. d.named u ∙ ground (arith, z);
    times = λ u. omega (arith, d.times u);
    balances = λ u.
        d.balances u ∙ ap (λ n. spendable_of (ledger_of u channel db) +ℤ pos n) (ground (arith, z));
    today = d.today ∙ ap (λ n. today_of channel at db +ℤ pos n) (omega (arith, z));
    frame = d.frame;
  }

  give :
      (v : AirdropViewer) (vs : List AirdropViewer) (db db1 db' : Db) (l : PointsLedger)
      (r : AirdropResult)
      → IsNatural v
      → 0 < points v
      → sum_by points (v ∷ vs) < int64_half
      → IsAudited db
      → Credited v.user_id channel v.share db l db1
      → Logged v.user_id channel (credit_row TxSource.airdrop v.share meta at l) db db1
      → Dropped vs db1 r db'
      → Dropped (v ∷ vs) db (with_recipient v r) db'
  give v vs db db1 db' l r natural above fits audit c g d = record {
    audited = d.audited;
    given = omega (arith, d.given);
    above_zero = (omega (arith, above, natural), d.above_zero);
    counted = rw d.counted (
        add64_pos 1 (length r.distribution) (omega (arith, fits, above, d.few))
        ∙ ap pos (omega arith));
    few = omega (arith, d.few, above);
    named = λ u. ap (λ k. (if is_user u v then points v else 0) + k) (d.named u);
    times = λ u. ground (arith, d.times u);
    balances = λ u. d.balances u ∙ ap (λ n. n +ℤ pos (points_for u vs)) (raised u) ∙ +ℤ_pos _ _ _;
    today =
        d.today
        ∙ ap (λ n. n +ℤ pos (sum_by points vs))
            (credit-today v.user_id v.share db db1 l audit c g
              ∙ ap (λ n. today_of channel at db +ℤ n) (pos_of_part v.share natural))
        ∙ +ℤ_pos _ _ _;
    frame = OnlyBooks-trans db db1 db' c.frame d.frame;
  }
    where
      raised :
          (u : Uuid)
          → spendable_of (ledger_of u channel db1)
            ≡ spendable_of (ledger_of u channel db) +ℤ pos (if is_user u v then points v else 0)
      raised u = elim (Bool-cases (v.user_id == u)) [
        | inl same ↦
            rw (same, ← (==_iff v.user_id u).0 same, ← pos_of_part v.share natural)
              (ap spendable_of c.read ∙ c.spendable)
        | inr other ↦ rw (other, g.others u (ground (arith, other))) (sym (+ℤ_zero_right _))
      ]

  pub credit_viewers-Dropped :
      (vs : List AirdropViewer) (db : Db)
      → All IsNatural vs
      → sum_by points vs < int64_half
      → IsAudited db
      → Ensures db (credit_viewers channel meta at vs) (Dropped vs db)
  unfolding credit_viewers
  credit_viewers-Dropped [] db h fits audit = Ensures-pure no_result (record {
    audited = audit;
    given = refl;
    above_zero = tt;
    counted = refl;
    few = omega arith;
    named = λ u. refl;
    times = λ u. omega arith;
    balances = λ u. sym (+ℤ_zero_right _);
    today = sym (+ℤ_zero_right _);
    frame = refl;
  })
  credit_viewers-Dropped (v ∷ vs) db h fits audit =
      Ensures-if _ _ _
        (λ none.
          let zero : points v ≡ 0 = ground arith in
          Ensures-weaken (Dropped vs db)
            (credit_viewers-Dropped vs db h.1 (omega (arith, fits)) audit)
            λ r db' d. skip v vs db r db' zero d)
        (λ some.
          let above : 0 < points v = ground arith in
          Ensures-bind
            (λ l db1.
              Credited v.user_id channel v.share db l db1
              × Logged v.user_id channel (credit_row TxSource.airdrop v.share meta at l) db db1)
            _ _
            (add_points_with_meta_at-Logged at v.user_id channel TxSource.airdrop v.share meta db
              refl (omega (arith, h.0)) (omega (arith, h.0, fits)) audit)
            (λ l db1 c.
              Ensures-bind (Dropped vs db1) _ _
                (credit_viewers-Dropped vs db1 h.1 (omega (arith, fits)) c.0.audited)
                λ r db' d.
                  Ensures-pure (with_recipient v r)
                    (give v vs db db1 db' l r h.0 above fits audit c.0 c.1 d)))
