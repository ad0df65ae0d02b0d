-- ===== src/FeedPallet/Feed.antt =====
-- `Feed` of pallet-chainlink-feed/src/lib.rs. The feed object is its identifier and its `config`,
-- which a method passes on; `sync_to_storage` is what its drop does.
use chainlink_polkadot.Prelude.{
  ℕ, ◌+◌, ◌-◌, ◌%◌, ◌^◌, Bool, true, false, not, ◌&&◌, ◌||◌, Option, none, some, [], is_some, ◌==◌,
  leb, ltb, if◌then◌else◌,
}
use chainlink_polkadot.FeedPallet.Types
use chainlink_polkadot.FeedPallet.Types.{
  AccountId, FeedId, RoundId, Balance, BlockNumber, FeedConfig, Round, RoundDetails, OracleStatus,
  Chain, Config, new_round, round_details_updated,
}
use chainlink_polkadot.FeedPallet.Effects.{
  M, ◌>>=◌, ◌>>◌, pure, ok_or, get, modify, ensure, deposit_event, saturating_add, checked_add,
  map_or,
}

-- `RoundId::MAX`
abbrev pub round_max : RoundId
round_max = 4294967295

-- The storage map `m` with `v` at `k`, and the map with two keys with `v` at `j` and `k`.
module _ {V : Type 0} where
  abbrev pub put : ℕ → V → (ℕ → V) → ℕ → V
  put k v m i = if k == i then v else m i

  abbrev pub put_at : ℕ → ℕ → V → (ℕ → ℕ → V) → ℕ → ℕ → V
  put_at j k v m i = if j == i then put k v (m i) else m i

module _ {World : Type 0} (id : FeedId) where
  abbrev pub put_round : RoundId → Option Round → M World Unit
  put_round r v = modify λ s. record s { rounds = put_at id r v s.rounds }

  abbrev pub put_details : RoundId → Option RoundDetails → M World Unit
  put_details r v = modify λ s. record s { details = put_at id r v s.details }

  abbrev pub put_status : AccountId → OracleStatus → M World Unit
  put_status o v = modify λ s. record s { oracle_statuses = put_at id o (some v) s.oracle_statuses }

  unfoldable pub load_from : M World FeedConfig
  load_from s = ok_or Types.feed_not_found (s.feeds id) s

  unfoldable pub sync_to_storage : FeedConfig → M World Unit
  sync_to_storage config = modify λ s. record s { feeds = put id (some config) s.feeds }

  abbrev pub ensure_owner : FeedConfig → AccountId → M World Unit
  ensure_owner config owner = ensure (config.owner == owner) Types.not_feed_owner

  abbrev pub was_updated : Chain World → RoundId → Bool
  was_updated s round = map_or false (λ (r : Round). is_some r.updated_at) (s.rounds id round)

module _ (T : Config) (id : FeedId) where
  abbrev pub is_timed_out : Chain T.World → RoundId → Bool
  is_timed_out s round =
      let started_at = map_or 0 (λ (r : Round). r.started_at) (s.rounds id round) in
      let timeout = map_or 0 (λ (d : RoundDetails). d.timeout) (s.details id round) in
      ltb 0 started_at
      && ltb 0 timeout
      && ltb (saturating_add T.block_max started_at timeout) s.block_number

  abbrev pub is_supersedable : Chain T.World → RoundId → Bool
  is_supersedable s round = round == 0 || was_updated id s round || is_timed_out s round

  -- The round may be submitted to: it is the current one, the next one, or the previous one as
  -- long as the current one has no answer.
  abbrev pub is_open : Chain T.World → FeedConfig → RoundId → Bool
  is_open s config round_id =
      round_id == config.reporting_round
      || round_id == saturating_add round_max config.reporting_round 1
      || saturating_add round_max round_id 1 == config.reporting_round
        && map_or true (λ (r : Round). not (is_some r.updated_at))
            (s.rounds id config.reporting_round)

  unfoldable pub ensure_valid_round : FeedConfig → AccountId → RoundId → M T.World Unit
  ensure_valid_round config oracle round_id = do
    o ← get (λ s. s.oracle_statuses id oracle)
    o ← ok_or Types.not_oracle o
    ensure (leb o.starting_round round_id) Types.oracle_not_enabled
    ensure (map_or true (λ e. leb round_id e) o.ending_round) Types.oracle_disabled
    ensure (map_or true (λ l. ltb l round_id) o.last_reported_round) Types.reporting_order
    open_ ← get (λ s. is_open s config round_id)
    ensure open_ Types.invalid_round
    supersedable ← get (λ s. is_supersedable s (round_id - 1))
    ensure (round_id == 1 || supersedable) Types.not_supersedable

  -- The round takes the answer of the one before.
  unfoldable pub close_timed_out_round : RoundId → M T.World Unit
  close_timed_out_round timed_out_id = do
    prev ← get (λ s. s.rounds id (timed_out_id - 1))
    prev ← ok_or Types.round_not_found prev
    round ← get (λ s. s.rounds id timed_out_id)
    round ← ok_or Types.round_not_found round
    now ← get (λ s. s.block_number)
    put_round id timed_out_id (
        some (record {
          started_at = round.started_at;
          answer = prev.answer;
          answered_in_round = prev.answered_in_round;
          updated_at = some now;
        }))
    put_details id timed_out_id none

  abbrev pub close_if : Bool → RoundId → M T.World Unit
  close_if true r = close_timed_out_round r
  close_if false r = pure tt

  unfoldable pub initialize_round : FeedConfig → RoundId → M T.World (FeedConfig × BlockNumber)
  unfolding close_timed_out_round
  initialize_round config new_round_id = do
    timed_out ← get (λ s. is_timed_out s (new_round_id - 1))
    close_if timed_out (new_round_id - 1)
    put_details id new_round_id (
        some (record {
          submissions = [];
          submission_count_bounds = config.submission_count_bounds;
          payment = config.payment;
          timeout = config.timeout;
        }))
    started_at ← get (λ s. s.block_number)
    put_round id new_round_id (
        some (record {
          started_at = started_at;
          answer = none;
          updated_at = none;
          answered_in_round = none;
        }))
    pure (record config { reporting_round = new_round_id }, started_at)

  abbrev pub current_window : FeedConfig → ℕ
  current_window config = config.latest_round - config.next_round_to_prune

  abbrev pub pruned : FeedConfig → FeedConfig
  pruned config =
      let next = (config.next_round_to_prune + 1) % 2 ^ 32 in
      record config { next_round_to_prune = next; first_valid_round = some next }

  -- The flag tells whether a round was pruned.
  abbrev pub prune_if : Bool → FeedConfig → M T.World (FeedConfig × Bool)
  prune_if false config = pure (config, false)
  prune_if true config = do
    put_round id config.next_round_to_prune none
    put_details id config.next_round_to_prune none
    pure (pruned config, true)

  unfoldable pub prune_oldest : FeedConfig → M T.World (FeedConfig × Bool)
  prune_oldest config = prune_if (leb config.pruning_window (current_window config)) config

  unfoldable pub request_new_round : FeedConfig → AccountId → M T.World FeedConfig
  unfolding initialize_round
  request_new_round config requester = do
    new_round_id ← ok_or Types.overflow (checked_add round_max config.reporting_round 1)
    supersedable ← get (λ s. is_supersedable s config.reporting_round)
    ensure supersedable Types.round_not_supersedable
    (config, started_at) ← initialize_round config new_round_id
    deposit_event (new_round id new_round_id requester started_at)
    pure config

  unfoldable pub update_future_rounds :
      FeedConfig → Balance → ℕ × ℕ → RoundId → BlockNumber → M T.World FeedConfig
  update_future_rounds config payment (min, max) restart_delay timeout = do
    ensure (leb min max) Types.wrong_bounds
    ensure (leb max config.oracle_count) Types.max_exceeded_total
    ensure (ltb restart_delay config.oracle_count) Types.delay_not_below_count
    ensure (config.oracle_count == 0 || ltb 0 min) Types.wrong_bounds
    deposit_event (round_details_updated id payment (min, max) restart_delay timeout)
    pure (record config {
      payment = payment;
      submission_count_bounds = (min, max);
      restart_delay = restart_delay;
      timeout = timeout;
    })
