-- ===== src/Tests/Prizes.antt =====
-- A raffle with two entries and a prize tier, and the theorems on raffles applied to it.
use tachigo.Base.{◌≡◌, refl, true, false, not, none, some, [], ◌∷◌, arith}
use tachigo.Int.{pos}
use tachigo.Models.{draft, csv, public, Raffle, RaffleEntry, RaffleDraw, RafflePrizeTier}
use tachigo.Effect.{Db, world}
use tachigo.Effect.Runs.{Runs}
use tachigo.Effect.Safe.{Safe}
use tachigo.Raffles.{is_active, is_completed}
use tachigo.Raffles.Draws.{draw_next, draw_from_tier, random_loser, won_ids, random_entry}
use tachigo.Raffles.Pools.{random_loser-random_entry}
use tachigo.Raffles.Winners.{ClaimInput, submit_claim}
use tachigo.Raffles.Fairness.{IsFair}
use tachigo.Raffles.Recording.{Drawn}
use tachigo.Raffles.Drawing.{Permitted, draw_next-Drawn, draw_from_tier-Drawn}
use tachigo.Raffles.Delivery.{Claimed, submit_claim-Claimed}
use tachigo.Raffles.Calls.{Call, serve}
use tachigo.Raffles.Turns.{IsSound, Later}
use tachigo.Raffles.Lifecycle.{Step, Reaches, Reaches-IsSound, Reaches-Later}
use tachigo.Tests.Books.{books, env}

abbrev pub raffle : Raffle
raffle = record {
  id = 41;
  user_id = 1;
  title = 5;
  status = draft;
  source = csv;
  mode = public;
  winner_count = pos 1;
  entry_open = false;
  scheduled_at = none;
  discord_webhook_url = none;
  created_at = 100;
}

abbrev pub first_entry : RaffleEntry
first_entry = record {
  id = 51;
  raffle_id = 41;
  user_id = some 2;
  twitch_login = 6;
  display_name = 6;
  source = none;
  eligible = true;
  ineligible_reason = 0;
  created_at = 100;
}

abbrev pub second_entry : RaffleEntry
second_entry = record first_entry { id = 52; user_id = some 3; twitch_login = 7 }

abbrev pub tier : RafflePrizeTier
tier = record {
  id = 61;
  raffle_id = 41;
  name = 8;
  prize_description = 0;
  winner_count = pos 2;
  drawn_count = pos 1;
  position = pos 1;
}

abbrev pub draw : RaffleDraw
draw = record {
  id = 71;
  raffle_id = 41;
  entry_id = 51;
  claim_token = 9;
  claim_expires_at = 1000;
  drawn_at = 200;
  prize_tier_id = some 61;
}

abbrev pub raffled : Db
raffled = record books {
  raffles = raffle ∷ [];
  raffle_entries = first_entry ∷ second_entry ∷ [];
  raffle_draws = draw ∷ [];
  raffle_prize_tiers = tier ∷ [];
}

raffled-IsFair : IsFair raffled
raffled-IsFair = record {
  distinct = (refl, tt);
  entered = ((λ e. cc), tt);
  tiered = (refl, tt);
  keyed = (refl, tt);
  tiers = (record { counted = refl; within = omega arith }, tt);
}

raffled-IsSound : IsSound raffled
raffled-IsSound = record { fair = raffled-IsFair; once = (refl, (refl, tt)); single = tt }

draw_next-Drawn_example :
    Safe
      (λ db'. db' ≡ raffled)
      raffled
      (draw_next 41 1)
      (λ w db'. Drawn 41 none raffled w db' × Permitted 41 1 raffled (λ r. not (is_completed r)))
draw_next-Drawn_example = draw_next-Drawn 41 1 raffled raffled-IsFair

draw_from_tier-Drawn_example :
    Safe
      (λ db'. db' ≡ raffled)
      raffled
      (draw_from_tier 41 61 1)
      (λ w db'. Drawn 41 (some 61) raffled w db' × Permitted 41 1 raffled is_active)
draw_from_tier-Drawn_example = draw_from_tier-Drawn 41 1 raffled raffled-IsFair 61

random_loser-random_entry_example :
    random_loser 41 (won_ids 41 raffled) 5 raffled ≡ random_entry 41 5 raffled
random_loser-random_entry_example = random_loser-random_entry 41 5 raffled

abbrev address : ClaimInput
address = record {
  recipient_name = 1;
  phone = 0;
  address_line1 = 2;
  address_line2 = 0;
  city = 3;
  postal_code = 0;
  country = 0;
}

submit_claim-Claimed_example :
    Runs
      (λ db'. db' ≡ raffled)
      (world env 0 raffled)
      (submit_claim 9 2 address)
      (Claimed 9 2 (world env 0 raffled))
submit_claim-Claimed_example = submit_claim-Claimed 9 2 address (world env 0 raffled) tt

-- The raffle is activated, and a winner is drawn for the tier.
abbrev activated : Db
activated = (serve (Call.activates 41 1) (world env 0 raffled)).1.db

abbrev drawn_again : Db
drawn_again = (serve (Call.draws_from_tier 41 61 1) (world env 9 activated)).1.db

run : Reaches raffled drawn_again
run =
    Reaches.after (Reaches.after Reaches.here (Step.served raffled (Call.activates 41 1) env 0))
      (Step.served activated (Call.draws_from_tier 41 61 1) env 9)

Reaches-IsSound_example : IsSound drawn_again
Reaches-IsSound_example = Reaches-IsSound run raffled-IsSound

Reaches-Later_example : Later 41 raffle drawn_again.raffles
Reaches-Later_example = Reaches-Later run raffled-IsSound 41 raffle refl
