-- ===== src/FeedPallet/Feeds.antt =====
-- The calls of pallet-chainlink-feed/src/lib.rs that create a feed and change its settings and its
-- oracles.
pub mod Pruning
use chainlink_polkadot.Prelude.{
  ℕ, ◌+◌, ◌-◌, ◌%◌, ◌^◌, suc, zero, String, Bool, true, false, Option, none, some, List, [], ◌∷◌,
  is_some, length, ◌==◌, leb, ltb, if◌then◌else◌,
}
use chainlink_polkadot.FeedPallet.Types
use chainlink_polkadot.FeedPallet.Types.{
  AccountId, FeedId, RoundId, Balance, BlockNumber, Value, FeedConfig, Round, OracleMeta,
  OracleStatus, Chain, Config, Origin, oracle_permissions_updated, feed_created,
}
use chainlink_polkadot.FeedPallet.Effects.{
  Outcome, ok, failed, panicked, M, ◌>>=◌, ◌>>◌, pure, throw, ok_or, get, modify, ensure,
  ensure_signed, deposit_event, map_or, checked_add, saturating_add, with_transaction_result,
}
use chainlink_polkadot.FeedPallet.Feed
use chainlink_polkadot.FeedPallet.Feed.{
  round_max, put, put_at, put_round, put_status, load_from, sync_to_storage, ensure_owner,
  current_window, prune_oldest,
}
use chainlink_polkadot.FeedPallet.Owners.{put_oracle}
use chainlink_polkadot.FeedPallet.Funds.{checked_sub}

-- `OracleStatus::new`
abbrev pub new_status : RoundId → OracleStatus
new_status starting_round = record {
  starting_round = starting_round;
  ending_round = none;
  last_reported_round = none;
  last_started_round = none;
  latest_submission = none;
}

-- An oracle that is enabled again keeps what it has reported.
abbrev pub enabled : RoundId → Option OracleStatus → OracleStatus
enabled reporting_round none = new_status reporting_round
enabled reporting_round (some status) = record status {
  starting_round = reporting_round;
  ending_round = none;
}

-- `u32`, the type that `len` is converted to.
abbrev pub count_u32 : {A : Type 0} → List A → ℕ
count_u32 xs = length xs % 2 ^ 32

module _ (T : Config) (id : FeedId) where
  abbrev pub track_oracle : AccountId → AccountId → Option OracleMeta → M T.World Unit
  track_oracle oracle admin (some meta) =
      ensure (meta.admin == admin) Types.owner_cannot_change_admin
  track_oracle oracle admin none =
      put_oracle oracle (record { withdrawable = 0; admin = admin; pending_admin = none })

  unfoldable pub add_oracle : RoundId → AccountId → AccountId → M T.World Unit
  add_oracle reporting_round oracle admin = do
    meta ← get (λ s. s.oracles oracle)
    track_oracle oracle admin meta
    status ← get (λ s. s.oracle_statuses id oracle)
    ensure (map_or true (λ (o : OracleStatus). is_some o.ending_round) status) Types.already_enabled
    put_status id oracle (enabled reporting_round status)
    deposit_event (oracle_permissions_updated id oracle true)

  unfoldable pub add_each : RoundId → List (AccountId × AccountId) → M T.World Unit
  unfolding add_oracle
  add_each reporting_round [] = pure tt
  add_each reporting_round ((oracle, admin) ∷ to_add) = do
    add_oracle reporting_round oracle admin
    add_each reporting_round to_add

  unfoldable pub add_oracles : FeedConfig → List (AccountId × AccountId) → M T.World FeedConfig
  unfolding add_each
  add_oracles config to_add = do
    let new_count = saturating_add round_max config.oracle_count (count_u32 to_add)
    ensure (leb new_count T.oracle_count_limit) Types.oracles_limit_exceeded
    add_each config.reporting_round to_add
    pure (record config { oracle_count = new_count })

  unfoldable pub disable_oracle : RoundId → AccountId → M T.World Unit
  disable_oracle reporting_round d = do
    status ← get (λ s. s.oracle_statuses id d)
    status ← ok_or Types.oracle_not_found status
    ensure (map_or true (λ e. false) status.ending_round) Types.oracle_disabled
    put_status id d (record status { ending_round = some reporting_round })
    deposit_event (oracle_permissions_updated id d false)

  unfoldable pub disable_each : RoundId → List AccountId → M T.World Unit
  unfolding disable_oracle
  disable_each reporting_round [] = pure tt
  disable_each reporting_round (d ∷ to_disable) = do
    disable_oracle reporting_round d
    disable_each reporting_round to_disable

  unfoldable pub disable_oracles : FeedConfig → List AccountId → M T.World FeedConfig
  unfolding disable_each
  disable_oracles config to_disable = do
    count ← ok_or Types.not_enough_oracles (checked_sub config.oracle_count (count_u32 to_disable))
    disable_each config.reporting_round to_disable
    pure (record config { oracle_count = count })

  unfoldable pub oracles_changed :
      AccountId → List AccountId → List (AccountId × AccountId) → M T.World Unit
  unfolding load_from disable_oracles add_oracles sync_to_storage
  oracles_changed owner to_disable to_add = do
    feed ← load_from id
    ensure_owner id feed owner
    feed ← disable_oracles feed to_disable
    feed ← add_oracles feed to_add
    sync_to_storage id feed

  unfoldable pub change_oracles :
      List AccountId → List (AccountId × AccountId) → Origin → M T.World Unit
  unfolding with_transaction_result oracles_changed
  change_oracles to_disable to_add origin = do
    owner ← ensure_signed origin
    with_transaction_result (oracles_changed owner to_disable to_add)

  unfoldable pub future_rounds_updated :
      AccountId → Balance → ℕ × ℕ → RoundId → BlockNumber → M T.World Unit
  unfolding load_from Feed.update_future_rounds sync_to_storage
  future_rounds_updated owner payment submission_count_bounds restart_delay timeout = do
    feed ← load_from id
    ensure_owner id feed owner
    feed ← Feed.update_future_rounds T id feed payment submission_count_bounds restart_delay timeout
    sync_to_storage id feed

  unfoldable pub update_future_rounds :
      Balance → ℕ × ℕ → RoundId → BlockNumber → Origin → M T.World Unit
  unfolding with_transaction_result future_rounds_updated
  update_future_rounds payment submission_count_bounds restart_delay timeout origin = do
    owner ← ensure_signed origin
    with_transaction_result
        (future_rounds_updated owner payment submission_count_bounds restart_delay timeout)

  abbrev pub continue_if : Bool → FeedConfig → M T.World FeedConfig → M T.World FeedConfig
  continue_if true config rest = rest
  continue_if false config rest = pure config

  -- The loop of `set_pruning_window`, ended by the first flag that is false.
  unfoldable pub prune_all : ℕ → FeedConfig → M T.World FeedConfig
  unfolding prune_oldest
  prune_all zero config = pure config
  prune_all (suc fuel) config = do
    (config, more) ← prune_oldest T id config
    continue_if more config (prune_all fuel config)

  -- Where the owner differs, the feed is dropped as it was loaded.
  abbrev pub owner_or_drop : Bool → FeedConfig → M T.World Unit
  owner_or_drop true feed = pure tt
  owner_or_drop false feed = do sync_to_storage id feed; throw Types.not_feed_owner

  -- A window of `n` rounds is pruned in at most `n` steps.
  unfoldable pub set_pruning_window : RoundId → Origin → M T.World Unit
  unfolding load_from prune_all sync_to_storage
  set_pruning_window pruning_window origin = do
    owner ← ensure_signed origin
    ensure (ltb 0 pruning_window) Types.cannot_prune_round_zero
    feed ← load_from id
    owner_or_drop (feed.owner == owner) feed
    feed ← prune_all (current_window T id feed) (record feed { pruning_window = pruning_window })
    sync_to_storage id feed

module _ (T : Config) where
  module _ (payment : Balance) (timeout : BlockNumber) (submission_value_bounds : Value × Value)
      (min_submissions decimals : ℕ) (description : List ℕ) (restart_delay : RoundId)
      (oracles : List (AccountId × AccountId)) (max_debt : Option Balance) (owner : AccountId) where
    abbrev pub new_config : RoundId → FeedConfig
    new_config pruning_window = record {
      owner = owner;
      pending_owner = none;
      payment = payment;
      timeout = timeout;
      submission_value_bounds = submission_value_bounds;
      submission_count_bounds = (min_submissions, count_u32 oracles);
      decimals = decimals;
      description = description;
      restart_delay = restart_delay;
      latest_round = 0;
      reporting_round = 0;
      first_valid_round = none;
      oracle_count = 0;
      pruning_window = pruning_window;
      next_round_to_prune = 1;
      debt = 0;
      max_debt = max_debt;
    }

    -- Round 0 has an answer of 0, which later rounds can take over.
    abbrev pub seed : BlockNumber → Round
    seed started_at = record {
      started_at = started_at;
      answer = some 0;
      updated_at = some started_at;
      answered_in_round = some 0;
    }

    unfoldable pub feed_created_by : RoundId → M T.World Unit
    unfolding add_oracles Feed.update_future_rounds sync_to_storage
    feed_created_by pruning_window = do
      id ← get (λ s. s.feed_counter)
      ensure (ltb id T.feed_limit) Types.feed_limit_reached
      new_id ← ok_or Types.overflow (checked_add T.feed_id_max id 1)
      modify (λ s. record s { feed_counter = new_id })
      started_at ← get (λ s. s.block_number)
      put_round id 0 (some (seed started_at))
      feed ← add_oracles T id (new_config pruning_window) oracles
      feed ←
          Feed.update_future_rounds T id feed payment (min_submissions, count_u32 oracles)
            restart_delay timeout
      deposit_event (feed_created id owner)
      sync_to_storage id feed

  unfoldable pub create_feed :
      Balance
      → BlockNumber
      → Value × Value
      → ℕ
      → ℕ
      → List ℕ
      → RoundId
      → List (AccountId × AccountId)
      → Option RoundId
      → Option Balance
      → Origin
      → M T.World Unit
  unfolding with_transaction_result feed_created_by
  create_feed payment timeout submission_value_bounds min_submissions decimals description
        restart_delay oracles pruning_window max_debt origin =
      do
        owner ← ensure_signed origin
        creator ← get (λ s. s.feed_creators owner)
        ensure creator Types.not_feed_creator
        ensure (leb (count_u32 description) T.string_limit) Types.description_too_long
        let window = map_or round_max (λ w. w) pruning_window
        ensure (ltb 0 window) Types.cannot_prune_round_zero
        with_transaction_result (
            feed_created_by payment timeout submission_value_bounds min_submissions decimals
              description restart_delay oracles max_debt owner window)
