-- ===== src/Bindings/Offchain/Filters.antt =====
-- The filters for the events of fm-demo/go-scripts/contracts/ethereum/OffchainAggregator.go.
use chainlink_polkadot.Prelude.{ℕ, some, List, [], ◌∷◌, map, ◌⊎◌}
use chainlink_polkadot.Errors.{Error}
use chainlink_polkadot.Node.{BigInt}
use chainlink_polkadot.Bindings.Bound.{address, big, small}
use chainlink_polkadot.Bindings.Events.{Iterator, iterator}
use chainlink_polkadot.Bindings.Offchain.Events.{
  AnswerUpdated, BillingAccessControllerSet, BillingSet, ConfigSet, NewRound, NewTransmission,
  OraclePaid, OwnershipTransferRequested, OwnershipTransferred, PayeeshipTransferRequested,
  PayeeshipTransferred, RequesterAccessControllerSet, RoundRequested, ValidatorConfigSet, Filterer,
}

module _ {Log Address World : Type 0} (f : Filterer Log Address World) where
  abbrev pub answer_updated_raw : AnswerUpdated Log Address → Log → AnswerUpdated Log Address
  answer_updated_raw event log = record event { raw = some log }

  unfoldable pub filter_answer_updated :
      List BigInt → List BigInt → World → (Error ⊎ Iterator Log (AnswerUpdated Log Address)) × World
  filter_answer_updated current round_id w =
      iterator (f.filter_logs "AnswerUpdated" (map big current ∷ map big round_id ∷ []) w)

  abbrev pub billing_access_controller_set_raw :
      BillingAccessControllerSet Log Address → Log → BillingAccessControllerSet Log Address
  billing_access_controller_set_raw event log = record event { raw = some log }

  unfoldable pub filter_billing_access_controller_set :
      World → (Error ⊎ Iterator Log (BillingAccessControllerSet Log Address)) × World
  filter_billing_access_controller_set w =
      iterator (f.filter_logs "BillingAccessControllerSet" [] w)

  abbrev pub billing_set_raw : BillingSet Log Address → Log → BillingSet Log Address
  billing_set_raw event log = record event { raw = some log }

  unfoldable pub filter_billing_set :
      World → (Error ⊎ Iterator Log (BillingSet Log Address)) × World
  filter_billing_set w = iterator (f.filter_logs "BillingSet" [] w)

  abbrev pub config_set_raw : ConfigSet Log Address → Log → ConfigSet Log Address
  config_set_raw event log = record event { raw = some log }

  unfoldable pub filter_config_set : World → (Error ⊎ Iterator Log (ConfigSet Log Address)) × World
  filter_config_set w = iterator (f.filter_logs "ConfigSet" [] w)

  abbrev pub new_round_raw : NewRound Log Address → Log → NewRound Log Address
  new_round_raw event log = record event { raw = some log }

  unfoldable pub filter_new_round :
      List BigInt → List Address → World → (Error ⊎ Iterator Log (NewRound Log Address)) × World
  filter_new_round round_id started_by w =
      iterator (f.filter_logs "NewRound" (map big round_id ∷ map address started_by ∷ []) w)

  abbrev pub new_transmission_raw : NewTransmission Log Address → Log → NewTransmission Log Address
  new_transmission_raw event log = record event { raw = some log }

  unfoldable pub filter_new_transmission :
      List ℕ → World → (Error ⊎ Iterator Log (NewTransmission Log Address)) × World
  filter_new_transmission aggregator_round_id w =
      iterator (f.filter_logs "NewTransmission" (map small aggregator_round_id ∷ []) w)

  abbrev pub oracle_paid_raw : OraclePaid Log Address → Log → OraclePaid Log Address
  oracle_paid_raw event log = record event { raw = some log }

  unfoldable pub filter_oracle_paid :
      World → (Error ⊎ Iterator Log (OraclePaid Log Address)) × World
  filter_oracle_paid w = iterator (f.filter_logs "OraclePaid" [] w)

  abbrev pub ownership_transfer_requested_raw :
      OwnershipTransferRequested Log Address → Log → OwnershipTransferRequested Log Address
  ownership_transfer_requested_raw event log = record event { raw = some log }

  unfoldable pub filter_ownership_transfer_requested :
      List Address
      → List Address
      → World
      → (Error ⊎ Iterator Log (OwnershipTransferRequested Log Address)) × World
  filter_ownership_transfer_requested from to w =
      iterator
        (f.filter_logs "OwnershipTransferRequested" (map address from ∷ map address to ∷ []) w)

  abbrev pub ownership_transferred_raw :
      OwnershipTransferred Log Address → Log → OwnershipTransferred Log Address
  ownership_transferred_raw event log = record event { raw = some log }

  unfoldable pub filter_ownership_transferred :
      List Address
      → List Address
      → World
      → (Error ⊎ Iterator Log (OwnershipTransferred Log Address)) × World
  filter_ownership_transferred from to w =
      iterator (f.filter_logs "OwnershipTransferred" (map address from ∷ map address to ∷ []) w)

  abbrev pub payeeship_transfer_requested_raw :
      PayeeshipTransferRequested Log Address → Log → PayeeshipTransferRequested Log Address
  payeeship_transfer_requested_raw event log = record event { raw = some log }

  unfoldable pub filter_payeeship_transfer_requested :
      List Address
      → List Address
      → List Address
      → World
      → (Error ⊎ Iterator Log (PayeeshipTransferRequested Log Address)) × World
  filter_payeeship_transfer_requested transmitter current proposed w = iterator (
      f.filter_logs "PayeeshipTransferRequested"
        (map address transmitter ∷ map address current ∷ map address proposed ∷ []) w)

  abbrev pub payeeship_transferred_raw :
      PayeeshipTransferred Log Address → Log → PayeeshipTransferred Log Address
  payeeship_transferred_raw event log = record event { raw = some log }

  unfoldable pub filter_payeeship_transferred :
      List Address
      → List Address
      → List Address
      → World
      → (Error ⊎ Iterator Log (PayeeshipTransferred Log Address)) × World
  filter_payeeship_transferred transmitter previous current w = iterator (
      f.filter_logs "PayeeshipTransferred"
        (map address transmitter ∷ map address previous ∷ map address current ∷ []) w)

  abbrev pub requester_access_controller_set_raw :
      RequesterAccessControllerSet Log Address → Log → RequesterAccessControllerSet Log Address
  requester_access_controller_set_raw event log = record event { raw = some log }

  unfoldable pub filter_requester_access_controller_set :
      World → (Error ⊎ Iterator Log (RequesterAccessControllerSet Log Address)) × World
  filter_requester_access_controller_set w =
      iterator (f.filter_logs "RequesterAccessControllerSet" [] w)

  abbrev pub round_requested_raw : RoundRequested Log Address → Log → RoundRequested Log Address
  round_requested_raw event log = record event { raw = some log }

  unfoldable pub filter_round_requested :
      List Address → World → (Error ⊎ Iterator Log (RoundRequested Log Address)) × World
  filter_round_requested requester w =
      iterator (f.filter_logs "RoundRequested" (map address requester ∷ []) w)

  abbrev pub validator_config_set_raw :
      ValidatorConfigSet Log Address → Log → ValidatorConfigSet Log Address
  validator_config_set_raw event log = record event { raw = some log }

  unfoldable pub filter_validator_config_set :
      List Address
      → List Address
      → World
      → (Error ⊎ Iterator Log (ValidatorConfigSet Log Address)) × World
  filter_validator_config_set previous_validator current_validator w = iterator (
      f.filter_logs "ValidatorConfigSet"
        (map address previous_validator ∷ map address current_validator ∷ []) w)
