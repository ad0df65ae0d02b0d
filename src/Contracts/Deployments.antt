-- ===== src/Contracts/Deployments.antt =====
-- The deployments of fm-demo/go-scripts/contracts/ethereum_contracts.go.
pub mod Link
use chainlink_polkadot.Prelude.{ℕ, String, Option, none, some, List, get_elem?, set}
use chainlink_polkadot.Program.{Outcome, ok, panicked, M, ◌>>=◌, ◌>>◌, pure}
use chainlink_polkadot.Config.{NetworkConfig, Heap}
use chainlink_polkadot.Crypto.{Crypto}
use chainlink_polkadot.Node.{Node, TransactOpts}
use chainlink_polkadot.Wallets.{Wallet}
use chainlink_polkadot.Network
use chainlink_polkadot.Network.{EthereumNetwork}
use chainlink_polkadot.Ethereum.Defs.{State, EthereumClient, read}
use chainlink_polkadot.Ethereum.Sending.{ContractDeployer, deploy_contract}
use chainlink_polkadot.Bindings.Bound.{Bind, Instance, Deployed}
use chainlink_polkadot.Bindings.LinkToken.{deploy_link_token}
use chainlink_polkadot.Bindings.Store.{deploy_store, deploy_vrf}
use chainlink_polkadot.Bindings.Aggregators.{
  FluxAggregatorOptions, OffchainOptions, deploy_flux_aggregator, deploy_offchain_aggregator,
}
use chainlink_polkadot.Contracts.Defs.{Contract, Artifacts}

-- The assignment to `LinkTokenAddress` through the shared pointer. A nil pointer panics.
abbrev pub set_link_token_address :
    EthereumNetwork → String → Heap → Option NetworkConfig → Outcome Heap
set_link_token_address n at heap none = panicked
set_link_token_address n at heap (some c) =
    ok (set heap n.network_config (record c { link_token_address = at }))

module _ {W : Type 0} where
  abbrev put_heap : Outcome Heap → M (State W) (Unit {0})
  put_heap (ok heap) s = (ok tt, record s { heap = heap })
  put_heap _ s = (panicked, s)

  unfoldable pub write_link_token_address : EthereumNetwork → String → M (State W) (Unit {0})
  write_link_token_address n at s =
      put_heap (set_link_token_address n at s.heap (get_elem? s.heap n.network_config)) s

module _ {C : Crypto} {N : Node C} (B : Bind N) (art : Artifacts) (e : EthereumClient N.Client)
    (from : Wallet C) where
  abbrev made : C.Address → Instance B.BoundContract → Contract B
  made at i = record { client = e; instance_ = i; caller_wallet = from; address = at }

  -- The body of the deployments that only wrap what is deployed.
  abbrev deploy_as :
      ContractDeployer N e from (Instance B.BoundContract) → M (State N.World) (Contract B)
  deploy_as deployer = do (at, tx, i) ← deploy_contract N e from deployer; pure (made at i)

  -- The address of the LINK token that the network's settings name now.
  abbrev link_address : M (State N.World) C.Address
  link_address = do
    conf ← read (Network.config e.network)
    pure (C.hex_to_address conf.link_token_address)

  unfoldable pub deploy_flux_aggregator_contract :
      FluxAggregatorOptions C.Address → M (State N.World) (Contract B)
  deploy_flux_aggregator_contract options = deploy_as λ auth backend. do
    link ← link_address
    deploy_flux_aggregator N B art.flux_aggregator auth backend link options

  unfoldable pub deploy_link_token_contract : M (State N.World) (Contract B)
  unfolding write_link_token_address
  deploy_link_token_contract = do
    (at, tx, i) ← deploy_contract N e from (deploy_link_token N B art.link_token)
    write_link_token_address e.network (C.address_hex at)
    pure (made at i)

  unfoldable pub deploy_off_chain_aggregator :
      OffchainOptions C.Address → M (State N.World) (Contract B)
  deploy_off_chain_aggregator options = deploy_as λ auth backend. do
    link ← link_address
    deploy_offchain_aggregator N B art.offchain_aggregator auth backend link options

  unfoldable pub deploy_storage_contract : M (State N.World) (Contract B)
  deploy_storage_contract = deploy_as (deploy_store N B art.store)

  unfoldable pub deploy_vrf_contract : M (State N.World) (Contract B)
  deploy_vrf_contract = deploy_as (deploy_vrf N B art.vrf)
