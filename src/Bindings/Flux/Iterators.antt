-- ===== src/Bindings/Flux/Iterators.antt =====
-- The iterators and the parsers for the events of
-- fm-demo/go-scripts/contracts/ethereum/FluxAggregator.go.
use chainlink_polkadot.Prelude.{Bool, ◌⊎◌}
use chainlink_polkadot.Errors.{Error}
use chainlink_polkadot.Program.{Outcome}
use chainlink_polkadot.Bindings.Events.{Iterator, next, parse}
use chainlink_polkadot.Bindings.Flux.Events.{
  AnswerUpdated, AvailableFundsUpdated, NewRound, OracleAdminUpdateRequested, OracleAdminUpdated,
  OraclePermissionsUpdated, OwnershipTransferRequested, OwnershipTransferred,
  RequesterPermissionsSet, RoundDetailsUpdated, SubmissionReceived, ValidatorUpdated, Filterer,
}
use chainlink_polkadot.Bindings.Flux.Filters.{
  answer_updated_raw, available_funds_updated_raw, new_round_raw, oracle_admin_update_requested_raw,
  oracle_admin_updated_raw, oracle_permissions_updated_raw, ownership_transfer_requested_raw,
  ownership_transferred_raw, requester_permissions_set_raw, round_details_updated_raw,
  submission_received_raw, validator_updated_raw,
}

module _ {Log Address World : Type 0} (f : Filterer Log Address World) where
  unfoldable pub next_answer_updated :
      Iterator Log (AnswerUpdated Log Address)
      → Outcome Bool × Iterator Log (AnswerUpdated Log Address)
  unfolding next
  next_answer_updated = next f.unpack_answer_updated (answer_updated_raw f)

  unfoldable pub parse_answer_updated : Log → Error ⊎ AnswerUpdated Log Address
  unfolding parse
  parse_answer_updated = parse f.unpack_answer_updated (answer_updated_raw f)

  unfoldable pub next_available_funds_updated :
      Iterator Log (AvailableFundsUpdated Log Address)
      → Outcome Bool × Iterator Log (AvailableFundsUpdated Log Address)
  unfolding next
  next_available_funds_updated =
      next f.unpack_available_funds_updated (available_funds_updated_raw f)

  unfoldable pub parse_available_funds_updated : Log → Error ⊎ AvailableFundsUpdated Log Address
  unfolding parse
  parse_available_funds_updated =
      parse f.unpack_available_funds_updated (available_funds_updated_raw f)

  unfoldable pub next_new_round :
      Iterator Log (NewRound Log Address) → Outcome Bool × Iterator Log (NewRound Log Address)
  unfolding next
  next_new_round = next f.unpack_new_round (new_round_raw f)

  unfoldable pub parse_new_round : Log → Error ⊎ NewRound Log Address
  unfolding parse
  parse_new_round = parse f.unpack_new_round (new_round_raw f)

  unfoldable pub next_oracle_admin_update_requested :
      Iterator Log (OracleAdminUpdateRequested Log Address)
      → Outcome Bool × Iterator Log (OracleAdminUpdateRequested Log Address)
  unfolding next
  next_oracle_admin_update_requested =
      next f.unpack_oracle_admin_update_requested (oracle_admin_update_requested_raw f)

  unfoldable pub parse_oracle_admin_update_requested :
      Log → Error ⊎ OracleAdminUpdateRequested Log Address
  unfolding parse
  parse_oracle_admin_update_requested =
      parse f.unpack_oracle_admin_update_requested (oracle_admin_update_requested_raw f)

  unfoldable pub next_oracle_admin_updated :
      Iterator Log (OracleAdminUpdated Log Address)
      → Outcome Bool × Iterator Log (OracleAdminUpdated Log Address)
  unfolding next
  next_oracle_admin_updated = next f.unpack_oracle_admin_updated (oracle_admin_updated_raw f)

  unfoldable pub parse_oracle_admin_updated : Log → Error ⊎ OracleAdminUpdated Log Address
  unfolding parse
  parse_oracle_admin_updated = parse f.unpack_oracle_admin_updated (oracle_admin_updated_raw f)

  unfoldable pub next_oracle_permissions_updated :
      Iterator Log (OraclePermissionsUpdated Log Address)
      → Outcome Bool × Iterator Log (OraclePermissionsUpdated Log Address)
  unfolding next
  next_oracle_permissions_updated =
      next f.unpack_oracle_permissions_updated (oracle_permissions_updated_raw f)

  unfoldable pub parse_oracle_permissions_updated :
      Log → Error ⊎ OraclePermissionsUpdated Log Address
  unfolding parse
  parse_oracle_permissions_updated =
      parse f.unpack_oracle_permissions_updated (oracle_permissions_updated_raw f)

  unfoldable pub next_ownership_transfer_requested :
      Iterator Log (OwnershipTransferRequested Log Address)
      → Outcome Bool × Iterator Log (OwnershipTransferRequested Log Address)
  unfolding next
  next_ownership_transfer_requested =
      next f.unpack_ownership_transfer_requested (ownership_transfer_requested_raw f)

  unfoldable pub parse_ownership_transfer_requested :
      Log → Error ⊎ OwnershipTransferRequested Log Address
  unfolding parse
  parse_ownership_transfer_requested =
      parse f.unpack_ownership_transfer_requested (ownership_transfer_requested_raw f)

  unfoldable pub next_ownership_transferred :
      Iterator Log (OwnershipTransferred Log Address)
      → Outcome Bool × Iterator Log (OwnershipTransferred Log Address)
  unfolding next
  next_ownership_transferred = next f.unpack_ownership_transferred (ownership_transferred_raw f)

  unfoldable pub parse_ownership_transferred : Log → Error ⊎ OwnershipTransferred Log Address
  unfolding parse
  parse_ownership_transferred = parse f.unpack_ownership_transferred (ownership_transferred_raw f)

  unfoldable pub next_requester_permissions_set :
      Iterator Log (RequesterPermissionsSet Log Address)
      → Outcome Bool × Iterator Log (RequesterPermissionsSet Log Address)
  unfolding next
  next_requester_permissions_set =
      next f.unpack_requester_permissions_set (requester_permissions_set_raw f)

  unfoldable pub parse_requester_permissions_set : Log → Error ⊎ RequesterPermissionsSet Log Address
  unfolding parse
  parse_requester_permissions_set =
      parse f.unpack_requester_permissions_set (requester_permissions_set_raw f)

  unfoldable pub next_round_details_updated :
      Iterator Log (RoundDetailsUpdated Log Address)
      → Outcome Bool × Iterator Log (RoundDetailsUpdated Log Address)
  unfolding next
  next_round_details_updated = next f.unpack_round_details_updated (round_details_updated_raw f)

  unfoldable pub parse_round_details_updated : Log → Error ⊎ RoundDetailsUpdated Log Address
  unfolding parse
  parse_round_details_updated = parse f.unpack_round_details_updated (round_details_updated_raw f)

  unfoldable pub next_submission_received :
      Iterator Log (SubmissionReceived Log Address)
      → Outcome Bool × Iterator Log (SubmissionReceived Log Address)
  unfolding next
  next_submission_received = next f.unpack_submission_received (submission_received_raw f)

  unfoldable pub parse_submission_received : Log → Error ⊎ SubmissionReceived Log Address
  unfolding parse
  parse_submission_received = parse f.unpack_submission_received (submission_received_raw f)

  unfoldable pub next_validator_updated :
      Iterator Log (ValidatorUpdated Log Address)
      → Outcome Bool × Iterator Log (ValidatorUpdated Log Address)
  unfolding next
  next_validator_updated = next f.unpack_validator_updated (validator_updated_raw f)

  unfoldable pub parse_validator_updated : Log → Error ⊎ ValidatorUpdated Log Address
  unfolding parse
  parse_validator_updated = parse f.unpack_validator_updated (validator_updated_raw f)
