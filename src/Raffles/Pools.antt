-- ===== src/Raffles/Pools.antt =====
-- The entries among which the two ways to draw choose.
use tachigo.Base.{
  ℕ, ◌≡◌, refl, ap, Bool, List, [], ◌∷◌, ◌==◌, ◌&&◌, arith, find_first, select, map, length, ◌%◌,
}
use tachigo.Models.{Uuid, RaffleEntry, RaffleDraw}
use tachigo.Effect.{Db}
use tachigo.Raffles.Draws.{
  draws_entry, is_none, can_win, random_entry, won_ids, has_not_won, random_loser, nth,
}

-- An entry is among the winners' ids if a draw of the raffle names it.
won-drawn :
    (raffle id : Uuid) (ds : List RaffleDraw)
    → is_none (
        find_first
          (λ i. i == id)
          (map (λ (d : RaffleDraw). d.entry_id) (select (λ d. d.raffle_id == raffle) ds)))
      ≡ is_none (find_first (draws_entry raffle id) ds)
won-drawn raffle id [] = refl
won-drawn raffle id (d ∷ ds) = ground (arith, won-drawn raffle id ds)

select-agree :
    (p q : RaffleEntry → Bool)
    → ((e : RaffleEntry) → p e ≡ q e)
    → (es : List RaffleEntry) → select p es ≡ select q es
select-agree p q same [] = refl
select-agree p q same (e ∷ es) = rw (same e, select-agree p q same es) refl

-- Given the same random number, the query of `DrawFromTier`, which excludes the winners' ids that it
-- has read, picks the entry that the query of `DrawNext` picks, which excludes the draws' entries
-- itself.
pub random_loser-random_entry :
    (raffle : Uuid) (n : ℕ) (db : Db)
    → random_loser raffle (won_ids raffle db) n db ≡ random_entry raffle n db
random_loser-random_entry raffle n db =
    ap (λ (es : List RaffleEntry). nth (n % length es) es)
      (select-agree (has_not_won raffle (won_ids raffle db)) (can_win raffle db.raffle_draws)
        (λ e. ap (λ b. e.raffle_id == raffle && b) (won-drawn raffle e.id db.raffle_draws))
        db.raffle_entries)
