-- ===== src/Models/Raffles.antt =====
-- Raffles, their entries, draws, claims and prize tiers (models/raffle.go), and the users who enter
-- (models/user.go).
use tachigo.Base.{Bool, Option, String}
use tachigo.Int.{ℤ}
use tachigo.Models.Status.{Uuid, Time, Name, UserRole, RaffleStatus, RaffleSource, RaffleMode}

pub record User : Type 0 where
  pub id : Uuid
  pub username : Option Name
  pub email : Option Name
  pub password_hash : Option Name
  pub avatar_url : Option Name
  pub role : UserRole
  pub email_verified : Bool
  pub deleted_at : Option Time

pub record Raffle : Type 0 where
  pub id : Uuid
  pub user_id : Uuid
  pub title : Name
  pub status : RaffleStatus
  pub source : RaffleSource
  pub mode : RaffleMode
  pub winner_count : ℤ
  pub entry_open : Bool
  pub scheduled_at : Option Time
  pub discord_webhook_url : Option String
  pub created_at : Time

pub record RaffleEntry : Type 0 where
  pub id : Uuid
  pub raffle_id : Uuid
  pub user_id : Option Uuid
  pub twitch_login : Name
  pub display_name : Name
  pub source : Option RaffleSource
  pub eligible : Bool
  pub ineligible_reason : Name
  pub created_at : Time

pub record RaffleDraw : Type 0 where
  pub id : Uuid
  pub raffle_id : Uuid
  pub entry_id : Uuid
  pub claim_token : Name
  pub claim_expires_at : Time
  pub drawn_at : Time
  pub prize_tier_id : Option Uuid

pub record RaffleClaim : Type 0 where
  pub id : Uuid
  pub draw_id : Uuid
  pub recipient_name : Name
  pub phone : Name
  pub address_line1 : Name
  pub address_line2 : Name
  pub city : Name
  pub postal_code : Name
  pub country : Name
  pub submitted_at : Time

pub record RafflePrizeTier : Type 0 where
  pub id : Uuid
  pub raffle_id : Uuid
  pub name : Name
  pub prize_description : Name
  pub winner_count : ℤ
  pub drawn_count : ℤ
  pub position : ℤ
