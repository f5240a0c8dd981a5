-- ===== src/ChannelConfigs/Updates.antt =====
-- What an update of a channel's settings stores.
use tachigo.Base.{
  ◌≡◌, refl, sym, ◌⊎◌, inl, inr, false, Option, none, some, List, [], ◌∷◌, ◌==◌, arith,
  if◌then◌else◌, find_first, update_where, find_first-update, Bool-cases, ==_iff, subst,
  find_first-passes,
}
use tachigo.Int.{ℤ, pos, ltb_ℤ, ◌≤ℤ◌, ◌<ℤ◌}
use tachigo.Models.{Name, ChannelConfig}
use tachigo.Effect.{Db}
use tachigo.Effect.Safe.{Safe, Safe-sql}
use tachigo.Ledger.Lookups.{Safe-bind-lookup}
use tachigo.ChannelConfigs.{
  of_channel, first_config, new_config, or_new, replaced, merged, kept_if_zero, assigned,
  insert_config, save_config, get, update_channel_config,
}

-- A positive setting is taken, any other leaves the old one.
abbrev pub Chosen : ℤ → ℤ → ℤ → Type 0
Chosen given old now = ((pos 0 <ℤ given) × (now ≡ given)) ⊎ ((given ≤ℤ pos 0) × (now ≡ old))

-- `c` is now the channel's row. `old` is the row that it had, or that of a new channel.
pub record Updated (channel : Name) (seconds multiplier : ℤ) (db : Db) (c : ChannelConfig)
    (db' : Db) : Type 0 where
  pub rows : List ChannelConfig
  pub only : db' ≡ (record db { channel_configs = rows })
  pub found :
      (other : Name)
      → find_first (of_channel other) rows
        ≡ (if channel == other then some c else find_first (of_channel other) db.channel_configs)
  pub chosen_seconds :
      let old = or_new channel (find_first (of_channel channel) db.channel_configs) in
      Chosen seconds old.seconds_per_point c.seconds_per_point
  pub chosen_multiplier :
      let old = or_new channel (find_first (of_channel channel) db.channel_configs) in
      Chosen multiplier old.multiplier c.multiplier
  pub same_limit :
      let old = or_new channel (find_first (of_channel channel) db.channel_configs) in
      c.daily_airdrop_limit ≡ old.daily_airdrop_limit

replaced-Chosen : (given old : ℤ) → Chosen given old (replaced given old)
replaced-Chosen given old = elim (Bool-cases (ltb_ℤ (pos 0) given)) [
  | inl positive ↦ rw positive (inl (ground arith, refl))
  | inr other ↦ rw other (inr (ground arith, refl))
]

-- The zero that `Assign` skips was the row's own.
kept-Chosen : (given old : ℤ) → Chosen given old (kept_if_zero (replaced given old) old)
kept-Chosen given old = elim (Bool-cases (ltb_ℤ (pos 0) given)) [
  | inl positive ↦ rw positive (inl (ground arith, ground arith))
  | inr other ↦ rw other (inr (ground arith, ground arith))
]

module _ (channel other : Name) (f : ChannelConfig → ChannelConfig)
    (keeps : (c : ChannelConfig) → (f c).channel_id ≡ c.channel_id) where
  find-skips :
      (cs : List ChannelConfig)
      → (channel == other) ≡ false
      → find_first (of_channel other) (update_where (of_channel channel) f cs)
        ≡ find_first (of_channel other) cs
  find-skips [] e = refl
  find-skips (c ∷ cs) e =
      ground (arith, keeps c, find-skips cs, ==_iff c.channel_id channel, ==_iff channel other)

  find-updated :
      (cs : List ChannelConfig) {x : ChannelConfig}
      → find_first (of_channel channel) cs ≡ some x
      → find_first (of_channel other) (update_where (of_channel channel) f cs)
        ≡ (if channel == other then some (f x) else find_first (of_channel other) cs)
  find-updated cs {x} found = elim (Bool-cases (channel == other)) [
    | inl same ↦
        rw (same, ← (==_iff channel other).0 same)
          (find_first-update (of_channel channel) f cs (λ c. rw (keeps c)) found)
    | inr apart ↦ rw apart (find-skips cs apart)
  ]

save-Updated :
    (channel : Name) (seconds multiplier : ℤ) (o : Option ChannelConfig) (db : Db)
    → find_first (of_channel channel) db.channel_configs ≡ o
    → Safe
        (λ db'. db' ≡ db)
        db
        (save_config (merged seconds multiplier (or_new channel o)) o)
        (Updated channel seconds multiplier db)
save-Updated channel seconds multiplier none db missing =
    let new = merged seconds multiplier (new_config channel) in
    Safe-sql (insert_config new) refl (
      rw missing (record {
        rows = new ∷ db.channel_configs;
        only = refl;
        found = λ other. refl;
        chosen_seconds = rw missing (replaced-Chosen seconds _);
        chosen_multiplier = rw missing (replaced-Chosen multiplier _);
        same_limit = rw missing refl;
      }))
save-Updated channel seconds multiplier (some old) db found =
    let f = assigned (merged seconds multiplier old) in
    let rows = db.channel_configs in
    Safe-sql _ refl (record {
      rows = update_where (of_channel old.channel_id) f rows;
      only = refl;
      found = λ other.
          subst
            (λ k.
              find_first (of_channel other) (update_where (of_channel k) f rows)
              ≡ (if channel == other then some (f old) else find_first (of_channel other) rows))
            (sym ((==_iff _ _).0 (find_first-passes (of_channel channel) rows found)))
            (find-updated channel other f (λ c. refl) rows found);
      chosen_seconds = rw found (kept-Chosen seconds _);
      chosen_multiplier = rw found (kept-Chosen multiplier _);
      same_limit = rw found refl;
    })

-- `UpdateChannelConfig`, whatever the database does: if it returns, the channel's row is the one
-- returned and every other channel's row is as it was; a setting that is positive is taken, any other
-- is that of the old row, or the default where there was none; the daily limit is the old one; and no
-- other table has changed. If it fails, nothing has changed.
pub update_channel_config-Updated :
    (channel : Name) (seconds multiplier : ℤ) (db : Db)
    → Safe
        (λ db'. db' ≡ db)
        db
        (update_channel_config channel seconds multiplier)
        (Updated channel seconds multiplier db)
unfolding update_channel_config get
update_channel_config-Updated channel seconds multiplier db =
    let o = find_first (of_channel channel) db.channel_configs in
    Safe-bind-lookup o (first_config channel) _ refl refl (
      Safe-bind-lookup o (first_config channel) _ refl refl
        (save-Updated channel seconds multiplier o db refl))
