-- ===== src/Contracts/Methods.antt =====
-- The methods of the contracts in fm-demo/go-scripts/contracts/ethereum_contracts.go.
pub mod Frame
pub mod Values
use chainlink_polkadot.Prelude.{ℕ, String, none, some, List}
use chainlink_polkadot.Prelude.Int.{pos}
use chainlink_polkadot.Program.{M, ◌>>=◌, ◌>>◌, pure}
use chainlink_polkadot.Crypto.{Crypto}
use chainlink_polkadot.Node.{Node, BigInt}
use chainlink_polkadot.Wallets.{Wallet}
use chainlink_polkadot.Ethereum.Defs.{State}
use chainlink_polkadot.Ethereum.Wait.{wait_for_transaction}
use chainlink_polkadot.Ethereum.Messages.{transaction_opts}
use chainlink_polkadot.Bindings.Bound.{Bind}
use chainlink_polkadot.Bindings.LinkToken
use chainlink_polkadot.Bindings.Store
use chainlink_polkadot.Bindings.Aggregators
use chainlink_polkadot.Bindings.Aggregators.{RoundData}
use chainlink_polkadot.Contracts.Defs.{Contract, Artifacts, call_opts, fund}

-- `FluxAggregatorData` of contract_models.go, and `OffchainAggregatorData`.
pub record FluxAggregatorData (Address : Type 0) : Type 0 where
  pub allocated_funds : BigInt
  pub available_funds : BigInt
  pub latest_round_data : RoundData
  pub oracles : List Address

pub record OffchainAggregatorData : Type 0 where
  pub latest_round_data : RoundData

module _ {C : Crypto} {N : Node C} {B : Bind N} (c : Contract B) where
  -- `Fund` of the flux aggregator, the offchain aggregator and the VRF contract.
  unfoldable pub fund_contract :
      Artifacts → Wallet C → BigInt → BigInt → M (State N.World) (Unit {0})
  fund_contract art from eth_amount link_amount =
      fund B art c.client from c.address eth_amount link_amount

  -- `Fund` of the LINK token.
  unfoldable pub fund_link_token : Artifacts → Wallet C → BigInt → M (State N.World) (Unit {0})
  fund_link_token art from eth_amount = fund B art c.client from c.address eth_amount none

  -- `GetContractData` of the flux aggregator. An error comes with an empty struct, which is left
  -- out.
  unfoldable pub flux_get_contract_data : M (State N.World) (FluxAggregatorData C.Address)
  flux_get_contract_data = do
    allocated ← Aggregators.allocated_funds N B c.instance_ (call_opts B c)
    available ← Aggregators.available_funds N B c.instance_ (call_opts B c)
    latest_round ← Aggregators.latest_round_data N B c.instance_ (call_opts B c)
    oracles ← Aggregators.get_oracles N B c.instance_ (call_opts B c)
    pure (record {
      allocated_funds = allocated;
      available_funds = available;
      latest_round_data = latest_round;
      oracles = oracles;
    })

  unfoldable pub set_oracles :
      Wallet C
      → List C.Address
      → List C.Address
      → List C.Address
      → ℕ
      → ℕ
      → ℕ
      → M (State N.World) (Unit {0})
  set_oracles from to_add to_remove to_admin min_submissions max_submissions restart_delay = do
    opts ← transaction_opts N c.client from c.address (some (pos 0)) ""
    tx ←
        Aggregators.change_oracles N B c.instance_ opts to_remove to_add to_admin min_submissions
          max_submissions restart_delay
    wait_for_transaction N c.client (N.tx_hash tx)

  unfoldable pub description : M (State N.World) String
  description = Aggregators.description N B c.instance_ (call_opts B c)

  -- `Name` of the LINK token.
  unfoldable pub name : M (State N.World) String
  name = LinkToken.name N B c.instance_ (call_opts B c)

  -- `GetContractData` of the offchain aggregator. An error comes with an empty struct, which is
  -- left out.
  unfoldable pub offchain_get_contract_data : M (State N.World) OffchainAggregatorData
  offchain_get_contract_data = do
    latest_round ← Aggregators.latest_round_data N B c.instance_ (call_opts B c)
    pure (record { latest_round_data = latest_round })

  unfoldable pub set_payees :
      Wallet C → List C.Address → List C.Address → M (State N.World) (Unit {0})
  set_payees from transmitters payees = do
    opts ← transaction_opts N c.client from c.address (some (pos 0)) ""
    tx ← Aggregators.set_payees N B c.instance_ opts transmitters payees
    wait_for_transaction N c.client (N.tx_hash tx)

  unfoldable pub set_config :
      Wallet C → List C.Address → List C.Address → ℕ → ℕ → String → M (State N.World) (Unit {0})
  set_config from signers transmitters threshold encoded_config_version encoded = do
    opts ← transaction_opts N c.client from c.address (some (pos 0)) ""
    tx ←
        Aggregators.set_config N B c.instance_ opts signers transmitters threshold
          encoded_config_version encoded
    wait_for_transaction N c.client (N.tx_hash tx)

  -- `Link` of the offchain aggregator.
  unfoldable pub link : M (State N.World) C.Address
  link = Aggregators.link N B c.instance_ (call_opts B c)

  -- `Set` and `Get` of the storage.
  unfoldable pub set : BigInt → M (State N.World) (Unit {0})
  set value = do
    opts ← transaction_opts N c.client c.caller_wallet C.zero_address (some (pos 0)) ""
    tx ← Store.set N B c.instance_ opts value
    wait_for_transaction N c.client (N.tx_hash tx)

  unfoldable pub get : M (State N.World) BigInt
  get = Store.get N B c.instance_ (call_opts B c)

  unfoldable pub proof_length : M (State N.World) BigInt
  proof_length = Store.proof_length N B c.instance_ (call_opts B c)
