-- ===== src/Bindings/Flux/Filters.antt =====
-- The filters for the events of fm-demo/go-scripts/contracts/ethereum/FluxAggregator.go.
use chainlink_polkadot.Prelude.{ℕ, Bool, some, List, [], ◌∷◌, map, ◌⊎◌}
use chainlink_polkadot.Errors.{Error}
use chainlink_polkadot.Node.{BigInt}
use chainlink_polkadot.Bindings.Bound.{address, big, flag, small}
use chainlink_polkadot.Bindings.Events.{Iterator, iterator}
use chainlink_polkadot.Bindings.Flux.Events.{
  AnswerUpdated, AvailableFundsUpdated, NewRound, OracleAdminUpdateRequested, OracleAdminUpdated,
  OraclePermissionsUpdated, OwnershipTransferRequested, OwnershipTransferred,
  RequesterPermissionsSet, RoundDetailsUpdated, SubmissionReceived, ValidatorUpdated, Filterer,
}

module _ {Log Address World : Type 0} (f : Filterer Log Address World) where
  abbrev pub answer_updated_raw : AnswerUpdated Log Address → Log → AnswerUpdated Log Address
  answer_updated_raw event log = record event { raw = some log }

  unfoldable pub filter_answer_updated :
      List BigInt → List BigInt → World → (Error ⊎ Iterator Log (AnswerUpdated Log Address)) × World
  filter_answer_updated current round_id w =
      iterator (f.filter_logs "AnswerUpdated" (map big current ∷ map big round_id ∷ []) w)

  abbrev pub available_funds_updated_raw :
      AvailableFundsUpdated Log Address → Log → AvailableFundsUpdated Log Address
  available_funds_updated_raw event log = record event { raw = some log }

  unfoldable pub filter_available_funds_updated :
      List BigInt → World → (Error ⊎ Iterator Log (AvailableFundsUpdated Log Address)) × World
  filter_available_funds_updated amount w =
      iterator (f.filter_logs "AvailableFundsUpdated" (map big amount ∷ []) w)

  abbrev pub new_round_raw : NewRound Log Address → Log → NewRound Log Address
  new_round_raw event log = record event { raw = some log }

  unfoldable pub filter_new_round :
      List BigInt → List Address → World → (Error ⊎ Iterator Log (NewRound Log Address)) × World
  filter_new_round round_id started_by w =
      iterator (f.filter_logs "NewRound" (map big round_id ∷ map address started_by ∷ []) w)

  abbrev pub oracle_admin_update_requested_raw :
      OracleAdminUpdateRequested Log Address → Log → OracleAdminUpdateRequested Log Address
  oracle_admin_update_requested_raw event log = record event { raw = some log }

  unfoldable pub filter_oracle_admin_update_requested :
      List Address → World → (Error ⊎ Iterator Log (OracleAdminUpdateRequested Log Address)) × World
  filter_oracle_admin_update_requested oracle w =
      iterator (f.filter_logs "OracleAdminUpdateRequested" (map address oracle ∷ []) w)

  abbrev pub oracle_admin_updated_raw :
      OracleAdminUpdated Log Address → Log → OracleAdminUpdated Log Address
  oracle_admin_updated_raw event log = record event { raw = some log }

  unfoldable pub filter_oracle_admin_updated :
      List Address
      → List Address
      → World
      → (Error ⊎ Iterator Log (OracleAdminUpdated Log Address)) × World
  filter_oracle_admin_updated oracle new_admin w =
      iterator
        (f.filter_logs "OracleAdminUpdated" (map address oracle ∷ map address new_admin ∷ []) w)

  abbrev pub oracle_permissions_updated_raw :
      OraclePermissionsUpdated Log Address → Log → OraclePermissionsUpdated Log Address
  oracle_permissions_updated_raw event log = record event { raw = some log }

  unfoldable pub filter_oracle_permissions_updated :
      List Address
      → List Bool
      → World
      → (Error ⊎ Iterator Log (OraclePermissionsUpdated Log Address)) × World
  filter_oracle_permissions_updated oracle whitelisted w =
      iterator (
        f.filter_logs "OraclePermissionsUpdated" (map address oracle ∷ map flag whitelisted ∷ []) w)

  abbrev pub ownership_transfer_requested_raw :
      OwnershipTransferRequested Log Address → Log → OwnershipTransferRequested Log Address
  ownership_transfer_requested_raw event log = record event { raw = some log }

  unfoldable pub filter_ownership_transfer_requested :
      List Address
      → List Address
      → World
      → (Error ⊎ Iterator Log (OwnershipTransferRequested Log Address)) × World
  filter_ownership_transfer_requested from to w =
      iterator
        (f.filter_logs "OwnershipTransferRequested" (map address from ∷ map address to ∷ []) w)

  abbrev pub ownership_transferred_raw :
      OwnershipTransferred Log Address → Log → OwnershipTransferred Log Address
  ownership_transferred_raw event log = record event { raw = some log }

  unfoldable pub filter_ownership_transferred :
      List Address
      → List Address
      → World
      → (Error ⊎ Iterator Log (OwnershipTransferred Log Address)) × World
  filter_ownership_transferred from to w =
      iterator (f.filter_logs "OwnershipTransferred" (map address from ∷ map address to ∷ []) w)

  abbrev pub requester_permissions_set_raw :
      RequesterPermissionsSet Log Address → Log → RequesterPermissionsSet Log Address
  requester_permissions_set_raw event log = record event { raw = some log }

  unfoldable pub filter_requester_permissions_set :
      List Address → World → (Error ⊎ Iterator Log (RequesterPermissionsSet Log Address)) × World
  filter_requester_permissions_set requester w =
      iterator (f.filter_logs "RequesterPermissionsSet" (map address requester ∷ []) w)

  abbrev pub round_details_updated_raw :
      RoundDetailsUpdated Log Address → Log → RoundDetailsUpdated Log Address
  round_details_updated_raw event log = record event { raw = some log }

  unfoldable pub filter_round_details_updated :
      List BigInt
      → List ℕ
      → List ℕ
      → World
      → (Error ⊎ Iterator Log (RoundDetailsUpdated Log Address)) × World
  filter_round_details_updated payment_amount min_submission_count max_submission_count w =
      iterator (
        f.filter_logs "RoundDetailsUpdated"
          (map big payment_amount
            ∷ map small min_submission_count
            ∷ map small max_submission_count
            ∷ [])
          w)

  abbrev pub submission_received_raw :
      SubmissionReceived Log Address → Log → SubmissionReceived Log Address
  submission_received_raw event log = record event { raw = some log }

  unfoldable pub filter_submission_received :
      List BigInt
      → List ℕ
      → List Address
      → World
      → (Error ⊎ Iterator Log (SubmissionReceived Log Address)) × World
  filter_submission_received submission round oracle w = iterator (
      f.filter_logs "SubmissionReceived"
        (map big submission ∷ map small round ∷ map address oracle ∷ []) w)

  abbrev pub validator_updated_raw :
      ValidatorUpdated Log Address → Log → ValidatorUpdated Log Address
  validator_updated_raw event log = record event { raw = some log }

  unfoldable pub filter_validator_updated :
      List Address
      → List Address
      → World
      → (Error ⊎ Iterator Log (ValidatorUpdated Log Address)) × World
  filter_validator_updated previous current w =
      iterator
        (f.filter_logs "ValidatorUpdated" (map address previous ∷ map address current ∷ []) w)
