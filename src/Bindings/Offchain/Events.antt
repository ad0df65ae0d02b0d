-- ===== src/Bindings/Offchain/Events.antt =====
-- The events of fm-demo/go-scripts/contracts/ethereum/OffchainAggregator.go.
use chainlink_polkadot.Prelude.{ℕ, String, Option, List, ◌⊎◌}
use chainlink_polkadot.Errors.{Error}
use chainlink_polkadot.Node.{BigInt}
use chainlink_polkadot.Bindings.Bound.{Value}
use chainlink_polkadot.Bindings.Events.{Select}
use chainlink_polkadot.Bindings.Watch.{Case}

-- `OffchainAggregatorAnswerUpdated`
pub record AnswerUpdated (Log Address : Type 0) : Type 0 where
  pub current : BigInt
  pub round_id : BigInt
  pub updated_at : BigInt
  pub raw : Option Log

-- `OffchainAggregatorBillingAccessControllerSet`
pub record BillingAccessControllerSet (Log Address : Type 0) : Type 0 where
  pub old : Address
  pub current : Address
  pub raw : Option Log

-- `OffchainAggregatorBillingSet`
pub record BillingSet (Log Address : Type 0) : Type 0 where
  pub maximum_gas_price : ℕ
  pub reasonable_gas_price : ℕ
  pub micro_link_per_eth : ℕ
  pub link_gwei_per_observation : ℕ
  pub link_gwei_per_transmission : ℕ
  pub raw : Option Log

-- `OffchainAggregatorConfigSet`
pub record ConfigSet (Log Address : Type 0) : Type 0 where
  pub previous_config_block_number : ℕ
  pub config_count : ℕ
  pub signers : List Address
  pub transmitters : List Address
  pub threshold : ℕ
  pub encoded_config_version : ℕ
  pub encoded : String
  pub raw : Option Log

-- `OffchainAggregatorNewRound`
pub record NewRound (Log Address : Type 0) : Type 0 where
  pub round_id : BigInt
  pub started_by : Address
  pub started_at : BigInt
  pub raw : Option Log

-- `OffchainAggregatorNewTransmission`
pub record NewTransmission (Log Address : Type 0) : Type 0 where
  pub aggregator_round_id : ℕ
  pub answer : BigInt
  pub transmitter : Address
  pub observations : List BigInt
  pub observers : String
  pub raw_report_context : String
  pub raw : Option Log

-- `OffchainAggregatorOraclePaid`
pub record OraclePaid (Log Address : Type 0) : Type 0 where
  pub transmitter : Address
  pub payee : Address
  pub amount : BigInt
  pub raw : Option Log

-- `OffchainAggregatorOwnershipTransferRequested`
pub record OwnershipTransferRequested (Log Address : Type 0) : Type 0 where
  pub from : Address
  pub to : Address
  pub raw : Option Log

-- `OffchainAggregatorOwnershipTransferred`
pub record OwnershipTransferred (Log Address : Type 0) : Type 0 where
  pub from : Address
  pub to : Address
  pub raw : Option Log

-- `OffchainAggregatorPayeeshipTransferRequested`
pub record PayeeshipTransferRequested (Log Address : Type 0) : Type 0 where
  pub transmitter : Address
  pub current : Address
  pub proposed : Address
  pub raw : Option Log

-- `OffchainAggregatorPayeeshipTransferred`
pub record PayeeshipTransferred (Log Address : Type 0) : Type 0 where
  pub transmitter : Address
  pub previous : Address
  pub current : Address
  pub raw : Option Log

-- `OffchainAggregatorRequesterAccessControllerSet`
pub record RequesterAccessControllerSet (Log Address : Type 0) : Type 0 where
  pub old : Address
  pub current : Address
  pub raw : Option Log

-- `OffchainAggregatorRoundRequested`
pub record RoundRequested (Log Address : Type 0) : Type 0 where
  pub requester : Address
  pub config_digest : String
  pub epoch : ℕ
  pub round : ℕ
  pub raw : Option Log

-- `OffchainAggregatorValidatorConfigSet`
pub record ValidatorConfigSet (Log Address : Type 0) : Type 0 where
  pub previous_validator : Address
  pub previous_gas_limit : ℕ
  pub current_validator : Address
  pub current_gas_limit : ℕ
  pub raw : Option Log

-- The generic contract behind the filterer: `FilterLogs` and `WatchLogs` of `bind` under the rules
-- for the indexed fields, and `UnpackLog`, which fills in a new event as far as it gets.
pub record Filterer (Log Address World : Type 0) : Type 0 where
  pub filter_logs :
      String → List (List (Value Address)) → World → (Error ⊎ (List Log × List Select)) × World
  pub watch_logs : String → List (List (Value Address)) → World → (Error ⊎ List (Case Log)) × World
  pub unpack_answer_updated : Log → AnswerUpdated Log Address × Option Error
  pub unpack_billing_access_controller_set :
      Log → BillingAccessControllerSet Log Address × Option Error
  pub unpack_billing_set : Log → BillingSet Log Address × Option Error
  pub unpack_config_set : Log → ConfigSet Log Address × Option Error
  pub unpack_new_round : Log → NewRound Log Address × Option Error
  pub unpack_new_transmission : Log → NewTransmission Log Address × Option Error
  pub unpack_oracle_paid : Log → OraclePaid Log Address × Option Error
  pub unpack_ownership_transfer_requested :
      Log → OwnershipTransferRequested Log Address × Option Error
  pub unpack_ownership_transferred : Log → OwnershipTransferred Log Address × Option Error
  pub unpack_payeeship_transfer_requested :
      Log → PayeeshipTransferRequested Log Address × Option Error
  pub unpack_payeeship_transferred : Log → PayeeshipTransferred Log Address × Option Error
  pub unpack_requester_access_controller_set :
      Log → RequesterAccessControllerSet Log Address × Option Error
  pub unpack_round_requested : Log → RoundRequested Log Address × Option Error
  pub unpack_validator_config_set : Log → ValidatorConfigSet Log Address × Option Error
