-- ===== src/Sessions/Tokens.antt =====
-- What the stored refresh tokens stand for: the sessions that are open, each for a user and until a
-- time, by the hash of its token.
use tachigo.Base.{
  ◌≡◌, refl, Bool, true, false, Option, none, some, List, [], ◌∷◌, ◌==◌, ltb, arith, if◌then◌else◌,
  find_first, delete_where, Bool-cases, inl, inr, ==_iff, ==_refl, ap, subst, ◌∙◌, All-find_first,
  find_first-none,
}
use tachigo.Models.{Uuid, Time, Name, RefreshToken}
use tachigo.Sessions.{has_hash, has_token_id, token_clashes, expires_before}

-- The abstract view: who is signed in with a token, and until when.
abbrev pub Sessions : Type 0
Sessions = Name → Option (Uuid × Time)

abbrev session_of : Option RefreshToken → Option (Uuid × Time)
session_of none = none
session_of (some t) = some (t.user_id, t.expires_at)

abbrev pub sessions : List RefreshToken → Sessions
sessions ts hash = session_of (find_first (has_hash hash) ts)

-- A session is opened, is ended, or ends by the clock.
abbrev pub grant : Sessions → Name → Uuid → Time → Sessions
grant s hash user expires k = if hash == k then some (user, expires) else s k

abbrev pub revoke : Sessions → Name → Sessions
revoke s hash k = if hash == k then none else s k

abbrev ended : Time → Option (Uuid × Time) → Option (Uuid × Time)
ended at none = none
ended at (some (user, expires)) = if ltb expires at then none else some (user, expires)

abbrev pub expire : Sessions → Time → Sessions
expire s at k = ended at (s k)

abbrev pub Agree : Sessions → Sessions → Type 0
Agree s s' = (k : Name) → s' k ≡ s k

-- The primary key and the unique index hold.
abbrev pub IsKeyed : List RefreshToken → Type 0
IsKeyed [] = Unit
IsKeyed (t ∷ ts) = (find_first (token_clashes t) ts ≡ none) × IsKeyed ts

-- A token that clashes with none has a new hash, and a new id.
unclashed_hash :
    (t : RefreshToken) (ts : List RefreshToken)
    → find_first (token_clashes t) ts ≡ none
    → find_first (has_hash t.token_hash) ts ≡ none
unclashed_hash t [] e = refl
unclashed_hash t (u ∷ ts) e = ground (arith, e, unclashed_hash t ts)

unclashed_id :
    (t : RefreshToken) (ts : List RefreshToken)
    → find_first (token_clashes t) ts ≡ none
    → find_first (has_token_id t.id) ts ≡ none
unclashed_id t [] e = refl
unclashed_id t (u ∷ ts) e = ground (arith, e, unclashed_id t ts)

pub sessions-closed :
    (t : RefreshToken) (ts : List RefreshToken)
    → find_first (token_clashes t) ts ≡ none
    → sessions ts t.token_hash ≡ none
sessions-closed t ts e = rw (unclashed_hash t ts e) refl

-- A stored token opens its session.
pub sessions-insert :
    (t : RefreshToken) (ts : List RefreshToken)
    → Agree (grant (sessions ts) t.token_hash t.user_id t.expires_at) (sessions (t ∷ ts))
sessions-insert t ts k = elim (Bool-cases (t.token_hash == k)) [
  | inl same ↦ rw same refl
  | inr other ↦ rw other refl
]

-- Deleting the rows of a hash ends its session.
pub sessions-delete_hash :
    (hash : Name) (ts : List RefreshToken)
    → Agree (revoke (sessions ts) hash) (sessions (delete_where (has_hash hash) ts))
sessions-delete_hash hash [] k = ground arith
sessions-delete_hash hash (t ∷ ts) k = ground (arith, sessions-delete_hash hash ts k)

delete_where-still :
    (p q : RefreshToken → Bool) (ts : List RefreshToken)
    → find_first p ts ≡ none
    → find_first p (delete_where q ts) ≡ none
delete_where-still p q [] e = refl
delete_where-still p q (t ∷ ts) e = ground (arith, e, delete_where-still p q ts)

pub delete_where-IsKeyed :
    (q : RefreshToken → Bool) (ts : List RefreshToken) → IsKeyed ts → IsKeyed (delete_where q ts)
delete_where-IsKeyed q [] h = tt
delete_where-IsKeyed q (t ∷ ts) h = elim (Bool-cases (q t)) [
  | inl gone ↦ rw gone (delete_where-IsKeyed q ts h.1)
  | inr kept ↦
      rw kept (delete_where-still (token_clashes t) q ts h.0, delete_where-IsKeyed q ts h.1)
]

-- Deleting no row of an id changes nothing.
delete_id-absent :
    (id : Uuid) (ts : List RefreshToken)
    → find_first (has_token_id id) ts ≡ none
    → delete_where (has_token_id id) ts ≡ ts
delete_id-absent id [] e = refl
delete_id-absent id (t ∷ ts) e = ground (arith, e, delete_id-absent id ts)

delete_id-head :
    (t : RefreshToken) (ts : List RefreshToken)
    → find_first (token_clashes t) ts ≡ none
    → delete_where (has_token_id t.id) (t ∷ ts) ≡ ts
delete_id-head t ts h = rw (==_refl t.id) (delete_id-absent t.id ts (unclashed_id t ts h))

-- Behind the row that a hash has found, no row has the hash.
behind :
    (hash k : Name) (t : RefreshToken) (ts : List RefreshToken)
    → has_hash hash t ≡ true
    → find_first (has_hash t.token_hash) ts ≡ none
    → sessions ts k ≡ revoke (sessions (t ∷ ts)) hash k
behind hash k t ts hit gone =
    let same : t.token_hash ≡ hash = (==_iff t.token_hash hash).0 hit in
    elim (Bool-cases (hash == k)) [
      | inl here ↦
          let at_k : t.token_hash ≡ k = same ∙ (==_iff hash k).0 here in
          rw here (ap session_of (subst (λ x. find_first (has_hash x) ts ≡ none) at_k gone))
      | inr other ↦
          let apart : (t.token_hash == k) ≡ false = rw same other in rw (other, apart) refl
    ]

-- Another row has another id.
apart :
    (hash : Name) (t stored : RefreshToken) (ts : List RefreshToken)
    → find_first (token_clashes t) ts ≡ none
    → find_first (has_hash hash) ts ≡ some stored
    → has_token_id stored.id t ≡ false
apart hash t stored ts h e =
    let free : token_clashes t stored ≡ false =
      All-find_first (λ u. token_clashes t u ≡ false) (has_hash hash) ts
        (find_first-none (token_clashes t) ts h) e in
    ground (arith, free)

-- Deleting the row that a hash has found ends its session.
pub sessions-delete_id :
    (hash : Name) (stored : RefreshToken) (ts : List RefreshToken)
    → IsKeyed ts
    → find_first (has_hash hash) ts ≡ some stored
    → Agree (revoke (sessions ts) hash) (sessions (delete_where (has_token_id stored.id) ts))
sessions-delete_id hash stored [] h e k = cc
sessions-delete_id hash stored (t ∷ ts) h e k = elim (Bool-cases (has_hash hash t)) [
  | inl hit ↦
      let same : t ≡ stored = cc (e, hit) in
      subst
        (λ s.
          sessions (delete_where (has_token_id s.id) (t ∷ ts)) k
          ≡ revoke (sessions (t ∷ ts)) hash k)
        same
        (ap (λ us. sessions us k) (delete_id-head t ts h.0)
          ∙ behind hash k t ts hit (unclashed_hash t ts h.0))
  | inr miss ↦
      let found : find_first (has_hash hash) ts ≡ some stored = cc (e, miss) in
      rw (apart hash t stored ts h.0 found)
        (ground (arith, miss, sessions-delete_id hash stored ts h.1 found k))
]

-- Deleting the rows that have expired ends their sessions.
pub sessions-expire :
    (at : Time) (ts : List RefreshToken)
    → IsKeyed ts
    → Agree (expire (sessions ts) at) (sessions (delete_where (expires_before at) ts))
sessions-expire at [] h k = refl
sessions-expire at (t ∷ ts) h k = elim (Bool-cases (expires_before at t)) [
  | inl late ↦ elim (Bool-cases (has_hash k t)) [
    | inl hit ↦
        let same : t.token_hash ≡ k = (==_iff t.token_hash k).0 hit in
        let gone : find_first (has_hash k) ts ≡ none =
          subst (λ x. find_first (has_hash x) ts ≡ none) same (unclashed_hash t ts h.0) in
        rw (late, hit)
          (rw late (ap session_of (delete_where-still (has_hash k) (expires_before at) ts gone)))
    | inr miss ↦ rw (late, miss) (sessions-expire at ts h.1 k)
  ]
  | inr alive ↦ elim (Bool-cases (has_hash k t)) [
    | inl hit ↦ rw (alive, hit) (rw alive refl)
    | inr miss ↦ rw (alive, miss) (sessions-expire at ts h.1 k)
  ]
]
