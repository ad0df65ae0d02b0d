-- ===== src/Bindings/Flux/Events.antt =====
-- The events of fm-demo/go-scripts/contracts/ethereum/FluxAggregator.go.
use chainlink_polkadot.Prelude.{ℕ, Bool, String, Option, List, ◌⊎◌}
use chainlink_polkadot.Errors.{Error}
use chainlink_polkadot.Node.{BigInt}
use chainlink_polkadot.Bindings.Bound.{Value}
use chainlink_polkadot.Bindings.Events.{Select}
use chainlink_polkadot.Bindings.Watch.{Case}

-- `FluxAggregatorAnswerUpdated`
pub record AnswerUpdated (Log Address : Type 0) : Type 0 where
  pub current : BigInt
  pub round_id : BigInt
  pub updated_at : BigInt
  pub raw : Option Log

-- `FluxAggregatorAvailableFundsUpdated`
pub record AvailableFundsUpdated (Log Address : Type 0) : Type 0 where
  pub amount : BigInt
  pub raw : Option Log

-- `FluxAggregatorNewRound`
pub record NewRound (Log Address : Type 0) : Type 0 where
  pub round_id : BigInt
  pub started_by : Address
  pub started_at : BigInt
  pub raw : Option Log

-- `FluxAggregatorOracleAdminUpdateRequested`
pub record OracleAdminUpdateRequested (Log Address : Type 0) : Type 0 where
  pub oracle : Address
  pub admin : Address
  pub new_admin : Address
  pub raw : Option Log

-- `FluxAggregatorOracleAdminUpdated`
pub record OracleAdminUpdated (Log Address : Type 0) : Type 0 where
  pub oracle : Address
  pub new_admin : Address
  pub raw : Option Log

-- `FluxAggregatorOraclePermissionsUpdated`
pub record OraclePermissionsUpdated (Log Address : Type 0) : Type 0 where
  pub oracle : Address
  pub whitelisted : Bool
  pub raw : Option Log

-- `FluxAggregatorOwnershipTransferRequested`
pub record OwnershipTransferRequested (Log Address : Type 0) : Type 0 where
  pub from : Address
  pub to : Address
  pub raw : Option Log

-- `FluxAggregatorOwnershipTransferred`
pub record OwnershipTransferred (Log Address : Type 0) : Type 0 where
  pub from : Address
  pub to : Address
  pub raw : Option Log

-- `FluxAggregatorRequesterPermissionsSet`
pub record RequesterPermissionsSet (Log Address : Type 0) : Type 0 where
  pub requester : Address
  pub authorized : Bool
  pub delay : ℕ
  pub raw : Option Log

-- `FluxAggregatorRoundDetailsUpdated`
pub record RoundDetailsUpdated (Log Address : Type 0) : Type 0 where
  pub payment_amount : BigInt
  pub min_submission_count : ℕ
  pub max_submission_count : ℕ
  pub restart_delay : ℕ
  pub timeout : ℕ
  pub raw : Option Log

-- `FluxAggregatorSubmissionReceived`
pub record SubmissionReceived (Log Address : Type 0) : Type 0 where
  pub submission : BigInt
  pub round : ℕ
  pub oracle : Address
  pub raw : Option Log

-- `FluxAggregatorValidatorUpdated`
pub record ValidatorUpdated (Log Address : Type 0) : Type 0 where
  pub previous : Address
  pub current : Address
  pub raw : Option Log

-- The generic contract behind the filterer: `FilterLogs` and `WatchLogs` of `bind` under the rules
-- for the indexed fields, and `UnpackLog`, which fills in a new event as far as it gets.
pub record Filterer (Log Address World : Type 0) : Type 0 where
  pub filter_logs :
      String → List (List (Value Address)) → World → (Error ⊎ (List Log × List Select)) × World
  pub watch_logs : String → List (List (Value Address)) → World → (Error ⊎ List (Case Log)) × World
  pub unpack_answer_updated : Log → AnswerUpdated Log Address × Option Error
  pub unpack_available_funds_updated : Log → AvailableFundsUpdated Log Address × Option Error
  pub unpack_new_round : Log → NewRound Log Address × Option Error
  pub unpack_oracle_admin_update_requested :
      Log → OracleAdminUpdateRequested Log Address × Option Error
  pub unpack_oracle_admin_updated : Log → OracleAdminUpdated Log Address × Option Error
  pub unpack_oracle_permissions_updated : Log → OraclePermissionsUpdated Log Address × Option Error
  pub unpack_ownership_transfer_requested :
      Log → OwnershipTransferRequested Log Address × Option Error
  pub unpack_ownership_transferred : Log → OwnershipTransferred Log Address × Option Error
  pub unpack_requester_permissions_set : Log → RequesterPermissionsSet Log Address × Option Error
  pub unpack_round_details_updated : Log → RoundDetailsUpdated Log Address × Option Error
  pub unpack_submission_received : Log → SubmissionReceived Log Address × Option Error
  pub unpack_validator_updated : Log → ValidatorUpdated Log Address × Option Error
