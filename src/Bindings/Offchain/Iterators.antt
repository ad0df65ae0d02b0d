-- ===== src/Bindings/Offchain/Iterators.antt =====
-- The iterators and the parsers for the events of
-- fm-demo/go-scripts/contracts/ethereum/OffchainAggregator.go.
use chainlink_polkadot.Prelude.{Bool, ◌⊎◌}
use chainlink_polkadot.Errors.{Error}
use chainlink_polkadot.Program.{Outcome}
use chainlink_polkadot.Bindings.Events.{Iterator, next, parse}
use chainlink_polkadot.Bindings.Offchain.Events.{
  AnswerUpdated, BillingAccessControllerSet, BillingSet, ConfigSet, NewRound, NewTransmission,
  OraclePaid, OwnershipTransferRequested, OwnershipTransferred, PayeeshipTransferRequested,
  PayeeshipTransferred, RequesterAccessControllerSet, RoundRequested, ValidatorConfigSet, Filterer,
}
use chainlink_polkadot.Bindings.Offchain.Filters.{
  answer_updated_raw, billing_access_controller_set_raw, billing_set_raw, config_set_raw,
  new_round_raw, new_transmission_raw, oracle_paid_raw, ownership_transfer_requested_raw,
  ownership_transferred_raw, payeeship_transfer_requested_raw, payeeship_transferred_raw,
  requester_access_controller_set_raw, round_requested_raw, validator_config_set_raw,
}

module _ {Log Address World : Type 0} (f : Filterer Log Address World) where
  unfoldable pub next_answer_updated :
      Iterator Log (AnswerUpdated Log Address)
      → Outcome Bool × Iterator Log (AnswerUpdated Log Address)
  unfolding next
  next_answer_updated = next f.unpack_answer_updated (answer_updated_raw f)

  unfoldable pub parse_answer_updated : Log → Error ⊎ AnswerUpdated Log Address
  unfolding parse
  parse_answer_updated = parse f.unpack_answer_updated (answer_updated_raw f)

  unfoldable pub next_billing_access_controller_set :
      Iterator Log (BillingAccessControllerSet Log Address)
      → Outcome Bool × Iterator Log (BillingAccessControllerSet Log Address)
  unfolding next
  next_billing_access_controller_set =
      next f.unpack_billing_access_controller_set (billing_access_controller_set_raw f)

  unfoldable pub parse_billing_access_controller_set :
      Log → Error ⊎ BillingAccessControllerSet Log Address
  unfolding parse
  parse_billing_access_controller_set =
      parse f.unpack_billing_access_controller_set (billing_access_controller_set_raw f)

  unfoldable pub next_billing_set :
      Iterator Log (BillingSet Log Address) → Outcome Bool × Iterator Log (BillingSet Log Address)
  unfolding next
  next_billing_set = next f.unpack_billing_set (billing_set_raw f)

  unfoldable pub parse_billing_set : Log → Error ⊎ BillingSet Log Address
  unfolding parse
  parse_billing_set = parse f.unpack_billing_set (billing_set_raw f)

  unfoldable pub next_config_set :
      Iterator Log (ConfigSet Log Address) → Outcome Bool × Iterator Log (ConfigSet Log Address)
  unfolding next
  next_config_set = next f.unpack_config_set (config_set_raw f)

  unfoldable pub parse_config_set : Log → Error ⊎ ConfigSet Log Address
  unfolding parse
  parse_config_set = parse f.unpack_config_set (config_set_raw f)

  unfoldable pub next_new_round :
      Iterator Log (NewRound Log Address) → Outcome Bool × Iterator Log (NewRound Log Address)
  unfolding next
  next_new_round = next f.unpack_new_round (new_round_raw f)

  unfoldable pub parse_new_round : Log → Error ⊎ NewRound Log Address
  unfolding parse
  parse_new_round = parse f.unpack_new_round (new_round_raw f)

  unfoldable pub next_new_transmission :
      Iterator Log (NewTransmission Log Address)
      → Outcome Bool × Iterator Log (NewTransmission Log Address)
  unfolding next
  next_new_transmission = next f.unpack_new_transmission (new_transmission_raw f)

  unfoldable pub parse_new_transmission : Log → Error ⊎ NewTransmission Log Address
  unfolding parse
  parse_new_transmission = parse f.unpack_new_transmission (new_transmission_raw f)

  unfoldable pub next_oracle_paid :
      Iterator Log (OraclePaid Log Address) → Outcome Bool × Iterator Log (OraclePaid Log Address)
  unfolding next
  next_oracle_paid = next f.unpack_oracle_paid (oracle_paid_raw f)

  unfoldable pub parse_oracle_paid : Log → Error ⊎ OraclePaid Log Address
  unfolding parse
  parse_oracle_paid = parse f.unpack_oracle_paid (oracle_paid_raw f)

  unfoldable pub next_ownership_transfer_requested :
      Iterator Log (OwnershipTransferRequested Log Address)
      → Outcome Bool × Iterator Log (OwnershipTransferRequested Log Address)
  unfolding next
  next_ownership_transfer_requested =
      next f.unpack_ownership_transfer_requested (ownership_transfer_requested_raw f)

  unfoldable pub parse_ownership_transfer_requested :
      Log → Error ⊎ OwnershipTransferRequested Log Address
  unfolding parse
  parse_ownership_transfer_requested =
      parse f.unpack_ownership_transfer_requested (ownership_transfer_requested_raw f)

  unfoldable pub next_ownership_transferred :
      Iterator Log (OwnershipTransferred Log Address)
      → Outcome Bool × Iterator Log (OwnershipTransferred Log Address)
  unfolding next
  next_ownership_transferred = next f.unpack_ownership_transferred (ownership_transferred_raw f)

  unfoldable pub parse_ownership_transferred : Log → Error ⊎ OwnershipTransferred Log Address
  unfolding parse
  parse_ownership_transferred = parse f.unpack_ownership_transferred (ownership_transferred_raw f)

  unfoldable pub next_payeeship_transfer_requested :
      Iterator Log (PayeeshipTransferRequested Log Address)
      → Outcome Bool × Iterator Log (PayeeshipTransferRequested Log Address)
  unfolding next
  next_payeeship_transfer_requested =
      next f.unpack_payeeship_transfer_requested (payeeship_transfer_requested_raw f)

  unfoldable pub parse_payeeship_transfer_requested :
      Log → Error ⊎ PayeeshipTransferRequested Log Address
  unfolding parse
  parse_payeeship_transfer_requested =
      parse f.unpack_payeeship_transfer_requested (payeeship_transfer_requested_raw f)

  unfoldable pub next_payeeship_transferred :
      Iterator Log (PayeeshipTransferred Log Address)
      → Outcome Bool × Iterator Log (PayeeshipTransferred Log Address)
  unfolding next
  next_payeeship_transferred = next f.unpack_payeeship_transferred (payeeship_transferred_raw f)

  unfoldable pub parse_payeeship_transferred : Log → Error ⊎ PayeeshipTransferred Log Address
  unfolding parse
  parse_payeeship_transferred = parse f.unpack_payeeship_transferred (payeeship_transferred_raw f)

  unfoldable pub next_requester_access_controller_set :
      Iterator Log (RequesterAccessControllerSet Log Address)
      → Outcome Bool × Iterator Log (RequesterAccessControllerSet Log Address)
  unfolding next
  next_requester_access_controller_set =
      next f.unpack_requester_access_controller_set (requester_access_controller_set_raw f)

  unfoldable pub parse_requester_access_controller_set :
      Log → Error ⊎ RequesterAccessControllerSet Log Address
  unfolding parse
  parse_requester_access_controller_set =
      parse f.unpack_requester_access_controller_set (requester_access_controller_set_raw f)

  unfoldable pub next_round_requested :
      Iterator Log (RoundRequested Log Address)
      → Outcome Bool × Iterator Log (RoundRequested Log Address)
  unfolding next
  next_round_requested = next f.unpack_round_requested (round_requested_raw f)

  unfoldable pub parse_round_requested : Log → Error ⊎ RoundRequested Log Address
  unfolding parse
  parse_round_requested = parse f.unpack_round_requested (round_requested_raw f)

  unfoldable pub next_validator_config_set :
      Iterator Log (ValidatorConfigSet Log Address)
      → Outcome Bool × Iterator Log (ValidatorConfigSet Log Address)
  unfolding next
  next_validator_config_set = next f.unpack_validator_config_set (validator_config_set_raw f)

  unfoldable pub parse_validator_config_set : Log → Error ⊎ ValidatorConfigSet Log Address
  unfolding parse
  parse_validator_config_set = parse f.unpack_validator_config_set (validator_config_set_raw f)
