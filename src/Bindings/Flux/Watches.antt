-- ===== src/Bindings/Flux/Watches.antt =====
-- The watchers for the events of fm-demo/go-scripts/contracts/ethereum/FluxAggregator.go.
use chainlink_polkadot.Prelude.{ℕ, Bool, none, List, [], ◌∷◌, map, ◌⊎◌}
use chainlink_polkadot.Errors.{Error}
use chainlink_polkadot.Node.{BigInt}
use chainlink_polkadot.Bindings.Bound.{address, big, flag, small}
use chainlink_polkadot.Bindings.Watch.{Watched, watch_loop, watching}
use chainlink_polkadot.Bindings.Flux.Events.{
  AnswerUpdated, AvailableFundsUpdated, NewRound, OracleAdminUpdateRequested, OracleAdminUpdated,
  OraclePermissionsUpdated, OwnershipTransferRequested, OwnershipTransferred,
  RequesterPermissionsSet, RoundDetailsUpdated, SubmissionReceived, ValidatorUpdated, Filterer,
}
use chainlink_polkadot.Bindings.Flux.Filters.{
  answer_updated_raw, available_funds_updated_raw, new_round_raw, oracle_admin_update_requested_raw,
  oracle_admin_updated_raw, oracle_permissions_updated_raw, ownership_transfer_requested_raw,
  ownership_transferred_raw, requester_permissions_set_raw, round_details_updated_raw,
  submission_received_raw, validator_updated_raw,
}

module _ {Log Address World : Type 0} (f : Filterer Log Address World) where
  unfoldable pub watch_answer_updated :
      List BigInt → List BigInt → World → (Error ⊎ Watched (AnswerUpdated Log Address)) × World
  unfolding watch_loop
  watch_answer_updated current round_id w =
      watching (watch_loop f.unpack_answer_updated (answer_updated_raw f) none)
        (f.watch_logs "AnswerUpdated" (map big current ∷ map big round_id ∷ []) w)

  unfoldable pub watch_available_funds_updated :
      List BigInt → World → (Error ⊎ Watched (AvailableFundsUpdated Log Address)) × World
  unfolding watch_loop
  watch_available_funds_updated amount w =
      watching (watch_loop f.unpack_available_funds_updated (available_funds_updated_raw f) none)
        (f.watch_logs "AvailableFundsUpdated" (map big amount ∷ []) w)

  unfoldable pub watch_new_round :
      List BigInt → List Address → World → (Error ⊎ Watched (NewRound Log Address)) × World
  unfolding watch_loop
  watch_new_round round_id started_by w =
      watching (watch_loop f.unpack_new_round (new_round_raw f) none)
        (f.watch_logs "NewRound" (map big round_id ∷ map address started_by ∷ []) w)

  unfoldable pub watch_oracle_admin_update_requested :
      List Address → World → (Error ⊎ Watched (OracleAdminUpdateRequested Log Address)) × World
  unfolding watch_loop
  watch_oracle_admin_update_requested oracle w =
      watching
        (watch_loop f.unpack_oracle_admin_update_requested (oracle_admin_update_requested_raw f)
          none)
        (f.watch_logs "OracleAdminUpdateRequested" (map address oracle ∷ []) w)

  unfoldable pub watch_oracle_admin_updated :
      List Address
      → List Address
      → World
      → (Error ⊎ Watched (OracleAdminUpdated Log Address)) × World
  unfolding watch_loop
  watch_oracle_admin_updated oracle new_admin w =
      watching (watch_loop f.unpack_oracle_admin_updated (oracle_admin_updated_raw f) none)
        (f.watch_logs "OracleAdminUpdated" (map address oracle ∷ map address new_admin ∷ []) w)

  unfoldable pub watch_oracle_permissions_updated :
      List Address
      → List Bool
      → World
      → (Error ⊎ Watched (OraclePermissionsUpdated Log Address)) × World
  unfolding watch_loop
  watch_oracle_permissions_updated oracle whitelisted w =
      watching
        (watch_loop f.unpack_oracle_permissions_updated (oracle_permissions_updated_raw f) none)
        (f.watch_logs "OraclePermissionsUpdated" (map address oracle ∷ map flag whitelisted ∷ []) w)

  unfoldable pub watch_ownership_transfer_requested :
      List Address
      → List Address
      → World
      → (Error ⊎ Watched (OwnershipTransferRequested Log Address)) × World
  unfolding watch_loop
  watch_ownership_transfer_requested from to w =
      watching
        (watch_loop f.unpack_ownership_transfer_requested (ownership_transfer_requested_raw f) none)
        (f.watch_logs "OwnershipTransferRequested" (map address from ∷ map address to ∷ []) w)

  unfoldable pub watch_ownership_transferred :
      List Address
      → List Address
      → World
      → (Error ⊎ Watched (OwnershipTransferred Log Address)) × World
  unfolding watch_loop
  watch_ownership_transferred from to w =
      watching (watch_loop f.unpack_ownership_transferred (ownership_transferred_raw f) none)
        (f.watch_logs "OwnershipTransferred" (map address from ∷ map address to ∷ []) w)

  unfoldable pub watch_requester_permissions_set :
      List Address → World → (Error ⊎ Watched (RequesterPermissionsSet Log Address)) × World
  unfolding watch_loop
  watch_requester_permissions_set requester w =
      watching
        (watch_loop f.unpack_requester_permissions_set (requester_permissions_set_raw f) none)
        (f.watch_logs "RequesterPermissionsSet" (map address requester ∷ []) w)

  unfoldable pub watch_round_details_updated :
      List BigInt
      → List ℕ
      → List ℕ
      → World
      → (Error ⊎ Watched (RoundDetailsUpdated Log Address)) × World
  unfolding watch_loop
  watch_round_details_updated payment_amount min_submission_count max_submission_count w =
      watching (watch_loop f.unpack_round_details_updated (round_details_updated_raw f) none) (
        f.watch_logs "RoundDetailsUpdated"
          (map big payment_amount
            ∷ map small min_submission_count
            ∷ map small max_submission_count
            ∷ [])
          w)

  unfoldable pub watch_submission_received :
      List BigInt
      → List ℕ
      → List Address
      → World
      → (Error ⊎ Watched (SubmissionReceived Log Address)) × World
  unfolding watch_loop
  watch_submission_received submission round oracle w =
      watching (watch_loop f.unpack_submission_received (submission_received_raw f) none) (
        f.watch_logs "SubmissionReceived"
          (map big submission ∷ map small round ∷ map address oracle ∷ []) w)

  unfoldable pub watch_validator_updated :
      List Address → List Address → World → (Error ⊎ Watched (ValidatorUpdated Log Address)) × World
  unfolding watch_loop
  watch_validator_updated previous current w =
      watching (watch_loop f.unpack_validator_updated (validator_updated_raw f) none)
        (f.watch_logs "ValidatorUpdated" (map address previous ∷ map address current ∷ []) w)
