-- ===== src/Raffles/Lifecycle.antt =====
-- Any sequence of calls of the raffle service, each from whatever surroundings.
use tachigo.Base.{ℕ, ◌≡◌, refl, ◌∙◌, some, arith, find_first}
use tachigo.Models.{Uuid, Raffle}
use tachigo.Effect.{Db, Env, world}
use tachigo.Effect.Safe.{Safe-keeps}
use tachigo.Raffles.{has_raffle_id}
use tachigo.Raffles.Calls.{Call, serve}
use tachigo.Raffles.Turns.{IsSound, Later, Turns, Turns-IsSound, Turns-Later}
use tachigo.Raffles.Serving.{serve-Turns}

-- One call, whatever its surroundings and its outcome, failures included.
pub data Step : Db → Db → Type 0 where
  served : (db : Db) (c : Call) (env : Env) (tick : ℕ) → Step db (serve c (world env tick db)).1.db

pub data Reaches (before : Db) : Db → Type 0 where
  here : Reaches before before
  after : {db db' : Db} → Reaches before db → Step db db' → Reaches before db'

served_turns :
    (db : Db) (sound : IsSound db) (c : Call) (env : Env) (tick : ℕ)
    → Turns db (serve c (world env tick db)).1.db
served_turns db sound c env tick =
    Safe-keeps (Turns db) (serve c) (world env tick db) (serve-Turns db sound c)

-- After any sequence of calls of the raffle service, from whatever surroundings and with whatever
-- failures, that begins with sound tables: nobody has been drawn twice in a raffle, every draw is of
-- an entry of its raffle, every prize tier has as many draws as it counts and no more than its
-- winners, no draw has two claims, and no login has two entries in a raffle.
pub Reaches-IsSound : {db db' : Db} → Reaches db db' → IsSound db → IsSound db'
Reaches-IsSound here s = s
Reaches-IsSound (after r (served db c env tick)) s =
    let sound = Reaches-IsSound r s in Turns-IsSound db sound (served_turns db sound c env tick)

-- After any sequence of calls of the raffle service that begins with sound tables, a raffle that was
-- stored is stored still, with the same owner, and its status is the same or a later one of draft,
-- active and completed.
pub Reaches-Later :
    {db db' : Db}
    → Reaches db db'
    → IsSound db
    → (id : Uuid) (r : Raffle) → find_first (has_raffle_id id) db.raffles ≡ some r
    → Later id r db'.raffles
Reaches-Later here s id r e = record {
  found = r;
  there = e;
  onward = omega arith;
  same_owner = refl;
}
Reaches-Later (after steps (served db c env tick)) s id r e =
    let sound = Reaches-IsSound steps s in
    let l = Reaches-Later steps s id r e in
    let step = Turns-Later id l.found (served_turns db sound c env tick) l.there in
    record {
      found = step.found;
      there = step.there;
      onward = omega (arith, l.onward, step.onward);
      same_owner = step.same_owner ∙ l.same_owner;
    }
