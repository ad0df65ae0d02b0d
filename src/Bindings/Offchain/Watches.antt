-- ===== src/Bindings/Offchain/Watches.antt =====
-- The watchers for the events of fm-demo/go-scripts/contracts/ethereum/OffchainAggregator.go.
use chainlink_polkadot.Prelude.{ℕ, none, List, [], ◌∷◌, map, ◌⊎◌}
use chainlink_polkadot.Errors.{Error}
use chainlink_polkadot.Node.{BigInt}
use chainlink_polkadot.Bindings.Bound.{address, big, small}
use chainlink_polkadot.Bindings.Watch.{Watched, watch_loop, watching}
use chainlink_polkadot.Bindings.Offchain.Events.{
  AnswerUpdated, BillingAccessControllerSet, BillingSet, ConfigSet, NewRound, NewTransmission,
  OraclePaid, OwnershipTransferRequested, OwnershipTransferred, PayeeshipTransferRequested,
  PayeeshipTransferred, RequesterAccessControllerSet, RoundRequested, ValidatorConfigSet, Filterer,
}
use chainlink_polkadot.Bindings.Offchain.Filters.{
  answer_updated_raw, billing_access_controller_set_raw, billing_set_raw, config_set_raw,
  new_round_raw, new_transmission_raw, oracle_paid_raw, ownership_transfer_requested_raw,
  ownership_transferred_raw, payeeship_transfer_requested_raw, payeeship_transferred_raw,
  requester_access_controller_set_raw, round_requested_raw, validator_config_set_raw,
}

module _ {Log Address World : Type 0} (f : Filterer Log Address World) where
  unfoldable pub watch_answer_updated :
      List BigInt → List BigInt → World → (Error ⊎ Watched (AnswerUpdated Log Address)) × World
  unfolding watch_loop
  watch_answer_updated current round_id w =
      watching (watch_loop f.unpack_answer_updated (answer_updated_raw f) none)
        (f.watch_logs "AnswerUpdated" (map big current ∷ map big round_id ∷ []) w)

  unfoldable pub watch_billing_access_controller_set :
      World → (Error ⊎ Watched (BillingAccessControllerSet Log Address)) × World
  unfolding watch_loop
  watch_billing_access_controller_set w =
      watching
        (watch_loop f.unpack_billing_access_controller_set (billing_access_controller_set_raw f)
          none)
        (f.watch_logs "BillingAccessControllerSet" [] w)

  unfoldable pub watch_billing_set : World → (Error ⊎ Watched (BillingSet Log Address)) × World
  unfolding watch_loop
  watch_billing_set w =
      watching (watch_loop f.unpack_billing_set (billing_set_raw f) none)
        (f.watch_logs "BillingSet" [] w)

  unfoldable pub watch_config_set : World → (Error ⊎ Watched (ConfigSet Log Address)) × World
  unfolding watch_loop
  watch_config_set w =
      watching (watch_loop f.unpack_config_set (config_set_raw f) none)
        (f.watch_logs "ConfigSet" [] w)

  unfoldable pub watch_new_round :
      List BigInt → List Address → World → (Error ⊎ Watched (NewRound Log Address)) × World
  unfolding watch_loop
  watch_new_round round_id started_by w =
      watching (watch_loop f.unpack_new_round (new_round_raw f) none)
        (f.watch_logs "NewRound" (map big round_id ∷ map address started_by ∷ []) w)

  unfoldable pub watch_new_transmission :
      List ℕ → World → (Error ⊎ Watched (NewTransmission Log Address)) × World
  unfolding watch_loop
  watch_new_transmission aggregator_round_id w =
      watching (watch_loop f.unpack_new_transmission (new_transmission_raw f) none)
        (f.watch_logs "NewTransmission" (map small aggregator_round_id ∷ []) w)

  unfoldable pub watch_oracle_paid : World → (Error ⊎ Watched (OraclePaid Log Address)) × World
  unfolding watch_loop
  watch_oracle_paid w =
      watching (watch_loop f.unpack_oracle_paid (oracle_paid_raw f) none)
        (f.watch_logs "OraclePaid" [] w)

  unfoldable pub watch_ownership_transfer_requested :
      List Address
      → List Address
      → World
      → (Error ⊎ Watched (OwnershipTransferRequested Log Address)) × World
  unfolding watch_loop
  watch_ownership_transfer_requested from to w =
      watching
        (watch_loop f.unpack_ownership_transfer_requested (ownership_transfer_requested_raw f) none)
        (f.watch_logs "OwnershipTransferRequested" (map address from ∷ map address to ∷ []) w)

  unfoldable pub watch_ownership_transferred :
      List Address
      → List Address
      → World
      → (Error ⊎ Watched (OwnershipTransferred Log Address)) × World
  unfolding watch_loop
  watch_ownership_transferred from to w =
      watching (watch_loop f.unpack_ownership_transferred (ownership_transferred_raw f) none)
        (f.watch_logs "OwnershipTransferred" (map address from ∷ map address to ∷ []) w)

  unfoldable pub watch_payeeship_transfer_requested :
      List Address
      → List Address
      → List Address
      → World
      → (Error ⊎ Watched (PayeeshipTransferRequested Log Address)) × World
  unfolding watch_loop
  watch_payeeship_transfer_requested transmitter current proposed w =
      watching
        (watch_loop f.unpack_payeeship_transfer_requested (payeeship_transfer_requested_raw f) none)
        (f.watch_logs "PayeeshipTransferRequested"
          (map address transmitter ∷ map address current ∷ map address proposed ∷ []) w)

  unfoldable pub watch_payeeship_transferred :
      List Address
      → List Address
      → List Address
      → World
      → (Error ⊎ Watched (PayeeshipTransferred Log Address)) × World
  unfolding watch_loop
  watch_payeeship_transferred transmitter previous current w =
      watching (watch_loop f.unpack_payeeship_transferred (payeeship_transferred_raw f) none) (
        f.watch_logs "PayeeshipTransferred"
          (map address transmitter ∷ map address previous ∷ map address current ∷ []) w)

  unfoldable pub watch_requester_access_controller_set :
      World → (Error ⊎ Watched (RequesterAccessControllerSet Log Address)) × World
  unfolding watch_loop
  watch_requester_access_controller_set w =
      watching
        (watch_loop f.unpack_requester_access_controller_set (requester_access_controller_set_raw f)
          none)
        (f.watch_logs "RequesterAccessControllerSet" [] w)

  unfoldable pub watch_round_requested :
      List Address → World → (Error ⊎ Watched (RoundRequested Log Address)) × World
  unfolding watch_loop
  watch_round_requested requester w =
      watching (watch_loop f.unpack_round_requested (round_requested_raw f) none)
        (f.watch_logs "RoundRequested" (map address requester ∷ []) w)

  unfoldable pub watch_validator_config_set :
      List Address
      → List Address
      → World
      → (Error ⊎ Watched (ValidatorConfigSet Log Address)) × World
  unfolding watch_loop
  watch_validator_config_set previous_validator current_validator w =
      watching (watch_loop f.unpack_validator_config_set (validator_config_set_raw f) none) (
        f.watch_logs "ValidatorConfigSet"
          (map address previous_validator ∷ map address current_validator ∷ []) w)
