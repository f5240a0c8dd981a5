-- ===== src/Raffles/Pages.antt =====
-- The loop over Twitch's pages, where Twitch's cursors lead on.
use tachigo.Base.{ℕ, ◌≡◌, ◌≢◌, ◌<◌, false, Option, none, ◌==◌}
use tachigo.Models.{Name, ok}
use tachigo.Effect.{Env, M, TwitchSubsPage, TwitchAnswer, page_after}
use tachigo.Effect.Safe.{Safe}
use tachigo.Effect.Within.{Within, Any}

-- Twitch's pagination: the cursor of a page has fewer pages before it than the cursor that the page
-- was asked for with, and the last page has none.
pub record Paginates (ahead : Name → ℕ) (env : Env) : Type 0 where
  pub onward :
      (t : ℕ) (token broadcaster cursor : Name) (a : TwitchAnswer) (page : TwitchSubsPage)
      → env.outside.twitch_get t token (page_after broadcaster cursor) ≡ ok a
      → a.page ≡ ok page
      → (page.cursor == 0) ≡ false
      → ahead page.cursor < ahead cursor

module _ (ahead : Name → ℕ) where
  abbrev Ends : {A : Type 0} → M (Option A) → Type 0
  Ends m = Within (Paginates ahead) m (λ o. o ≢ none)

  abbrev Runs : {A : Type 0} → M A → Type 0
  Runs m = Within (Paginates ahead) m Any

  -- A page whose cursor leads on from the given one.
  abbrev Onward : Name → TwitchSubsPage → Type 0
  Onward cursor page = (page.cursor == 0) ≡ false → ahead page.cursor < ahead cursor
