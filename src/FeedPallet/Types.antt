-- ===== src/FeedPallet/Types.antt =====
-- The storage of pallet-chainlink-feed/src/lib.rs, its events and errors, and what the pallet takes
-- from the runtime.
use chainlink_polkadot.Prelude.{ℕ, String, Bool, Option, List, ◌⊎◌}

-- Accounts and feeds are compared, and the feeds counted. A value is an unsigned number, and a
-- description the list of its bytes.
abbrev pub AccountId : Type 0
AccountId = ℕ

abbrev pub FeedId : Type 0
FeedId = ℕ

abbrev pub RoundId : Type 0
RoundId = ℕ

abbrev pub Balance : Type 0
Balance = ℕ

abbrev pub BlockNumber : Type 0
BlockNumber = ℕ

abbrev pub Value : Type 0
Value = ℕ

pub record FeedConfig : Type 0 where
  pub owner : AccountId
  pub pending_owner : Option AccountId
  pub submission_value_bounds : Value × Value
  pub submission_count_bounds : ℕ × ℕ
  pub payment : Balance
  pub timeout : BlockNumber
  pub decimals : ℕ
  pub description : List ℕ
  pub restart_delay : RoundId
  pub reporting_round : RoundId
  pub latest_round : RoundId
  pub first_valid_round : Option RoundId
  pub oracle_count : ℕ
  pub pruning_window : RoundId
  pub next_round_to_prune : RoundId
  pub debt : Balance
  pub max_debt : Option Balance

pub record Round : Type 0 where
  pub started_at : BlockNumber
  pub answer : Option Value
  pub updated_at : Option BlockNumber
  pub answered_in_round : Option RoundId

pub record RoundDetails : Type 0 where
  pub submissions : List Value
  pub submission_count_bounds : ℕ × ℕ
  pub payment : Balance
  pub timeout : BlockNumber

pub record OracleMeta : Type 0 where
  pub withdrawable : Balance
  pub admin : AccountId
  pub pending_admin : Option AccountId

pub record OracleStatus : Type 0 where
  pub starting_round : RoundId
  pub ending_round : Option RoundId
  pub last_reported_round : Option RoundId
  pub last_started_round : Option RoundId
  pub latest_submission : Option Value

pub record Requester : Type 0 where
  pub delay : RoundId
  pub last_started_round : Option RoundId

pub record RoundData : Type 0 where
  pub started_at : BlockNumber
  pub answer : Value
  pub updated_at : BlockNumber
  pub answered_in_round : RoundId

-- `Event`
pub data Event : Type 0 where
  feed_created : FeedId → AccountId → Event
  new_round : FeedId → RoundId → AccountId → BlockNumber → Event
  submission_received : FeedId → RoundId → Value → AccountId → Event
  answer_updated : FeedId → RoundId → Value → BlockNumber → Event
  round_details_updated : FeedId → Balance → ℕ × ℕ → RoundId → BlockNumber → Event
  oracle_admin_update_requested : AccountId → AccountId → AccountId → Event
  oracle_admin_updated : AccountId → AccountId → Event
  oracle_permissions_updated : FeedId → AccountId → Bool → Event
  requester_permissions_set : FeedId → AccountId → Bool → RoundId → Event
  owner_update_requested : FeedId → AccountId → AccountId → Event
  owner_updated : FeedId → AccountId → Event
  pallet_admin_update_requested : AccountId → AccountId → Event
  pallet_admin_updated feed_creator feed_creator_removed : AccountId → Event

-- `Error`, the error of an unsigned origin, and those of the currency, by their names.
pub data Error : Type 0 where
  overflow not_oracle oracle_not_enabled oracle_disabled not_enough_oracles : Error
  reporting_order feed_not_found round_not_found requester_not_found : Error
  round_not_supersedable oracle_not_found not_accepting_submissions : Error
  submission_below_minimum submission_above_maximum description_too_long : Error
  oracles_limit_exceeded already_enabled owner_cannot_change_admin not_feed_owner : Error
  not_pending_owner wrong_bounds max_exceeded_total delay_not_below_count not_admin : Error
  not_pending_admin cannot_request_round_yet not_authorized_requester : Error
  insufficient_funds insufficient_reserve not_pallet_admin not_pending_pallet_admin : Error
  cannot_prune_round_zero feed_limit_reached not_supersedable invalid_round : Error
  not_feed_creator max_debt_reached bad_origin : Error
  foreign : String → Error

-- The storage, with the block number and the events of the system pallet, and the rest of the
-- chain, the balances among it.
pub record Chain (World : Type 0) : Type 0 where
  pub pallet_admin : AccountId
  pub pending_pallet_admin : Option AccountId
  pub feed_counter : FeedId
  pub feeds : FeedId → Option FeedConfig
  pub feed_creators : AccountId → Bool
  pub rounds : FeedId → RoundId → Option Round
  pub details : FeedId → RoundId → Option RoundDetails
  pub oracles : AccountId → Option OracleMeta
  pub oracle_statuses : FeedId → AccountId → Option OracleStatus
  pub requesters : FeedId → AccountId → Option Requester
  pub block_number : BlockNumber
  pub events : List Event
  pub world : World

-- `Config`. The last values of the runtime's number types end in `_max`; `fund` is the account of
-- the pallet. A transfer is one that keeps the sender alive. `on_answer` may change the whole
-- storage.
pub record Config : Type 1 where
  pub World : Type 0
  pub balance_max : Balance
  pub block_max : BlockNumber
  pub value_max : Value
  pub feed_id_max : FeedId
  pub fund : AccountId
  pub minimum_reserve : Balance
  pub string_limit : ℕ
  pub oracle_count_limit : ℕ
  pub feed_limit : FeedId
  pub free_balance : World → AccountId → Balance
  pub reserved_balance : World → AccountId → Balance
  pub reserve : AccountId → Balance → World → String ⊎ World
  pub unreserve : AccountId → Balance → World → World
  pub transfer : AccountId → AccountId → Balance → World → String ⊎ World
  pub on_answer : FeedId → RoundData → Chain World → Chain World

-- `RawOrigin`
pub data Origin : Type 0 where
  signed : AccountId → Origin
  root unsigned : Origin
