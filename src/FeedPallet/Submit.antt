-- ===== src/FeedPallet/Submit.antt =====
-- The call `submit` of pallet-chainlink-feed/src/lib.rs, in the parts that its comments name.
pub mod Statuses
pub mod Once
pub mod Payment
pub mod Safety
use chainlink_polkadot.Prelude.{
  ℕ, String, ◌+◌, ◌-◌, Bool, true, false, not, ◌&&◌, ◌||◌, Option, none, some, List, [], ◌∷◌, ◌++◌,
  ◌⊎◌, inl, inr, length, is_some, ◌==◌, leb, ltb, if◌then◌else◌,
}
use chainlink_polkadot.FeedPallet.Types
use chainlink_polkadot.FeedPallet.Types.{
  AccountId, FeedId, RoundId, Balance, BlockNumber, Value, FeedConfig, Round, RoundDetails,
  RoundData, OracleMeta, OracleStatus, Chain, Config, Origin, new_round, submission_received,
  answer_updated,
}
use chainlink_polkadot.FeedPallet.Effects.{
  Outcome, ok, failed, panicked, M, ◌>>=◌, ◌>>◌, pure, throw, ok_or, get, modify, ensure,
  ensure_signed, deposit_event, saturating_add, checked_add, map_or, with_transaction_result,
}
use chainlink_polkadot.FeedPallet.Median.{median, sort_unstable}
use chainlink_polkadot.FeedPallet.Feed.{
  round_max, put, put_round, put_details, put_status, load_from, sync_to_storage,
  ensure_valid_round, initialize_round, prune_oldest,
}

-- The element, or the panic where it is missing.
abbrev pub or_panic : {World A : Type 0} → Option A → M World A
or_panic none s = (panicked, s)
or_panic (some a) s = (ok a, s)

abbrev pub or_zero : Option ℕ → ℕ
or_zero o = map_or 0 (λ n. n) o

module _ (T : Config) (id : FeedId) where
  -- A round that starts here.
  abbrev pub start_if :
      Bool → RoundId → AccountId → FeedConfig → OracleStatus → M T.World (FeedConfig × OracleStatus)
  start_if false new_round_id oracle config status = pure (config, status)
  start_if true new_round_id oracle config status = do
    (config, started_at) ← initialize_round T id config new_round_id
    deposit_event (new_round id new_round_id oracle started_at)
    pure (config, record status { last_started_round = some new_round_id })

  unfoldable pub start_round :
      RoundId → AccountId → FeedConfig → OracleStatus → M T.World (FeedConfig × OracleStatus)
  unfolding initialize_round
  start_round round_id oracle config status = do
    let new_round_id = saturating_add round_max config.reporting_round 1
    next ←
        ok_or Types.overflow
          (checked_add round_max (or_zero status.last_started_round) config.restart_delay)
    next ← ok_or Types.overflow (checked_add round_max next 1)
    let eligible = leb next round_id || not (is_some status.last_started_round)
    start_if (round_id == new_round_id && eligible) new_round_id oracle config status

  -- The details are taken out of the storage.
  unfoldable pub record_submission :
      RoundId → Value → AccountId → OracleStatus → M T.World RoundDetails
  record_submission round_id submission oracle status = do
    details ← get (λ s. s.details id round_id)
    details ← ok_or Types.not_accepting_submissions details
    put_details id round_id none
    put_status id oracle
        (record status { last_reported_round = some round_id; latest_submission = some submission })
    deposit_event (submission_received id round_id submission oracle)
    pure (record details { submissions = details.submissions ++ submission ∷ [] })

  abbrev pub into_round : RoundData → Round
  into_round d = record {
    started_at = d.started_at;
    answer = some d.answer;
    updated_at = some d.updated_at;
    answered_in_round = some d.answered_in_round;
  }

  abbrev pub answer_data : RoundId → Round → Value → BlockNumber → RoundData
  answer_data round_id round new_answer now = record {
    started_at = round.started_at;
    answer = new_answer;
    updated_at = now;
    answered_in_round = round_id;
  }

  abbrev pub close_previous : RoundId → M T.World Unit
  close_previous round_id s =
      if ltb 0 (round_id - 1) then put_details id (round_id - 1) none s else (ok tt, s)

  abbrev pub answered : RoundId → FeedConfig → FeedConfig
  answered round_id config = record config {
    latest_round = round_id;
    first_valid_round =
        if is_some config.first_valid_round then config.first_valid_round else some round_id;
  }

  abbrev pub answer_if : Bool → RoundId → FeedConfig → RoundDetails → M T.World FeedConfig
  answer_if false round_id config details = pure config
  answer_if true round_id config details = do
    now ← get (λ s. s.block_number)
    new_answer ← or_panic (median T.value_max details.submissions)
    round ← get (λ s. s.rounds id round_id)
    round ← ok_or Types.round_not_found round
    let data_ = answer_data round_id round new_answer now
    put_round id round_id (some (into_round data_))
    close_previous round_id
    (config, pruned) ← prune_oldest T id (answered round_id config)
    modify (T.on_answer id data_)
    deposit_event (answer_updated id round_id new_answer now)
    pure config

  unfoldable pub update_answer : RoundId → FeedConfig → RoundDetails → M T.World FeedConfig
  unfolding median prune_oldest
  update_answer round_id config details =
      answer_if (leb details.submission_count_bounds.0 (length details.submissions)) round_id config
        details

  -- The debt is tracked where the payment cannot be reserved.
  abbrev pub within_max_debt : Balance → Option Balance → Bool
  within_max_debt new_debt max_debt = map_or true (λ max. leb new_debt max) max_debt

  abbrev pub reserve_or_owe : Balance → FeedConfig → String ⊎ T.World → M T.World FeedConfig
  reserve_or_owe payment config (inr w) s = (ok config, record s { world = w })
  reserve_or_owe payment config (inl e) s = owe s
    where
      owe : M T.World FeedConfig
      owe = do
        new_debt ← ok_or Types.overflow (checked_add T.balance_max config.debt payment)
        ensure (within_max_debt new_debt config.max_debt) Types.max_debt_reached
        pure (record config { debt = new_debt })

  unfoldable pub pay : Balance → FeedConfig → M T.World FeedConfig
  pay payment config s = reserve_or_owe payment config (T.reserve T.fund payment s.world) s

  unfoldable pub reward : AccountId → Balance → M T.World Unit
  reward oracle payment = do
    meta ← get (λ s. s.oracles oracle)
    meta ← ok_or Types.oracle_not_found meta
    withdrawable ← ok_or Types.overflow (checked_add T.balance_max meta.withdrawable payment)
    modify λ s. record s {
      oracles = put oracle (some (record meta { withdrawable = withdrawable })) s.oracles;
    }

  abbrev pub sorted_by_answer : RoundDetails → RoundDetails
  sorted_by_answer details =
      if leb details.submission_count_bounds.0 (length details.submissions)
      then record details { submissions = sort_unstable details.submissions }
      else details

  -- The details are put back unless the round has all its submissions. Counting the submissions
  -- for an answer sorts them.
  unfoldable pub keep_details : RoundId → RoundDetails → M T.World Unit
  unfolding sort_unstable
  keep_details round_id details s =
      if ltb (length details.submissions) details.submission_count_bounds.1
      then put_details id round_id (some (sorted_by_answer details)) s
      else (ok tt, s)

  -- From the answer on.
  unfoldable pub settled : RoundId → AccountId → FeedConfig → RoundDetails → M T.World Unit
  unfolding update_answer pay reward keep_details sync_to_storage
  settled round_id oracle config details = do
    config ← update_answer round_id config details
    config ← pay details.payment config
    reward oracle details.payment
    keep_details round_id details
    sync_to_storage id config

  unfoldable pub submitted : RoundId → Value → AccountId → M T.World Unit
  unfolding load_from ensure_valid_round start_round record_submission settled
  submitted round_id submission oracle = do
    config ← load_from id
    status ← get (λ s. s.oracle_statuses id oracle)
    status ← ok_or Types.not_oracle status
    ensure_valid_round T id config oracle round_id
    ensure (leb config.submission_value_bounds.0 submission) Types.submission_below_minimum
    ensure (leb submission config.submission_value_bounds.1) Types.submission_above_maximum
    (config, status) ← start_round round_id oracle config status
    details ← record_submission round_id submission oracle status
    settled round_id oracle config details

  unfoldable pub submit : RoundId → Value → Origin → M T.World Unit
  unfolding with_transaction_result submitted
  submit round_id submission origin = do
    oracle ← ensure_signed origin
    with_transaction_result (submitted round_id submission oracle)
