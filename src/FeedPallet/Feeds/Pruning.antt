-- ===== src/FeedPallet/Feeds/Pruning.antt =====
-- What `set_pruning_window` of pallet-chainlink-feed/src/lib.rs prunes.
use chainlink_polkadot.Prelude.{
  ℕ, suc, zero, ◌+◌, ◌-◌, ◌%◌, ◌^◌, ◌≤◌, ◌<◌, ◌≡◌, refl, ◌∙◌, true, Bool-cases, ◌&&◌, none, some,
  inl, inr, ◌==◌, leb, ltb, if◌then◌else◌, arith,
}
use chainlink_polkadot.FeedPallet.Types.{FeedId, RoundId, FeedConfig, Chain, Config, signed}
use chainlink_polkadot.FeedPallet.Effects.{ok}
use chainlink_polkadot.FeedPallet.Feed.{
  load_from, sync_to_storage, prune_oldest, pruned, put, put_at,
}
use chainlink_polkadot.FeedPallet.Feeds.{prune_all, set_pruning_window}

module _ (T : Config) (id : FeedId) where
  -- From `config` and `s` to `c` and `t` the rounds from one next round to prune to the other were
  -- removed, all other rounds stay, and the window is no longer exceeded.
  pub record PrunedTo (config c : FeedConfig) (s t : Chain T.World) : Type 0 where
    pub window : c.latest_round - c.next_round_to_prune < c.pruning_window
    pub kept_window : c.pruning_window ≡ config.pruning_window
    pub kept_latest : c.latest_round ≡ config.latest_round
    pub forward : config.next_round_to_prune ≤ c.next_round_to_prune
    pub rounds :
        (r : RoundId)
        → t.rounds id r ≡ (
            if leb config.next_round_to_prune r && ltb r c.next_round_to_prune
            then none
            else s.rounds id r)

  prune_all-PrunedTo :
      (fuel : ℕ) (config : FeedConfig) (s : Chain T.World)
      → config.latest_round < 2 ^ 32
      → 0 < config.pruning_window
      → config.latest_round - config.next_round_to_prune ≤ fuel
      → (c : FeedConfig) × (t : Chain T.World) × (prune_all T id fuel config s ≡ (ok c, t))
        × PrunedTo config c s t
        × (t.feeds ≡ s.feeds)
  unfolding prune_all prune_oldest
  prune_all-PrunedTo zero config s b w f = (
    config,
    s,
    refl,
    record {
      window = omega arith;
      kept_window = refl;
      kept_latest = refl;
      forward = omega arith;
      rounds = λ r. ground arith;
    },
    refl,
  )
  prune_all-PrunedTo (suc fuel) config s b w f =
      elim (Bool-cases
        (leb config.pruning_window (config.latest_round - config.next_round_to_prune))) [
          | inr e ↦ (
            config,
            s,
            rw e refl,
            record {
              window = ground arith;
              kept_window = refl;
              kept_latest = refl;
              forward = omega arith;
              rounds = λ r. ground arith;
            },
            refl,
          )
          | inl e ↦
              let small : config.next_round_to_prune + 1 < 2 ^ 32 = ground arith in
              let wrap : (config.next_round_to_prune + 1) % 2 ^ 32
                  ≡ config.next_round_to_prune + 1 =
                omega arith in
              let (c, t, p, done, k) =
                prune_all-PrunedTo fuel (pruned T id config)
                  (record s {
                    rounds = put_at id config.next_round_to_prune none s.rounds;
                    details = put_at id config.next_round_to_prune none s.details;
                  })
                  b w (ground arith) in
              (
                c,
                t,
                rw e p,
                record {
                  window = done.window;
                  kept_window = done.kept_window;
                  kept_latest = done.kept_latest;
                  forward = omega (arith, done.forward);
                  rounds = λ r. done.rounds r ∙ ground (arith, done.forward);
                },
                k,
              )
        ]

  -- When the owner of a feed whose latest round is of 32 bits sets a window above 0, the call ends,
  -- the window is set and no longer exceeded, the rounds from the old to the new next round to
  -- prune are removed, and all other rounds of the feed stay.
  pub set_pruning_window_lem :
      (pruning_window : RoundId) (s : Chain T.World) (feed : FeedConfig)
      → s.feeds id ≡ some feed
      → feed.latest_round < 2 ^ 32
      → 0 < pruning_window
      → (c : FeedConfig) × (t : Chain T.World) × (set_pruning_window T id pruning_window
            (signed feed.owner)
            s
          ≡ (ok tt, t))
        × (t.feeds id ≡ some c)
        × PrunedTo (record feed { pruning_window = pruning_window }) c s t
  unfolding set_pruning_window load_from sync_to_storage
  set_pruning_window_lem pruning_window s feed found b w =
      let own : (feed.owner == feed.owner) ≡ true = ground arith in
      let positive : ltb 0 pruning_window ≡ true = ground arith in
      let (c, t, p, done, k) =
        prune_all-PrunedTo (feed.latest_round - feed.next_round_to_prune)
          (record feed { pruning_window = pruning_window }) s b w (omega arith) in
      (
        c,
        record t { feeds = put id (some c) t.feeds },
        rw (positive, found, own, p) refl,
        ground arith,
        record {
          window = done.window;
          kept_window = done.kept_window;
          kept_latest = done.kept_latest;
          forward = done.forward;
          rounds = done.rounds;
        },
      )
