-- ===== src/Bindings/Parts.antt =====
-- The functions of the files below fm-demo/go-scripts/contracts/ethereum that bind a contract at an
-- address, whole or one of its three parts. The contract's own interface is `art`.
use chainlink_polkadot.Prelude.{Option}
use chainlink_polkadot.Program.{M}
use chainlink_polkadot.Crypto.{Crypto}
use chainlink_polkadot.Node.{Node}
use chainlink_polkadot.Ethereum.Defs.{State}
use chainlink_polkadot.Bindings.Bound.{
  Artifact, Bind, Instance, bind_contract, new_instance, new_caller, new_transactor, new_filterer,
}

module _ {C : Crypto} (N : Node C) (B : Bind N) where
  module _ (art : Artifact) where
    -- store.go
    unfoldable pub new_store : C.Address → N.Client → M (State N.World) (Instance B.BoundContract)
    new_store at backend = new_instance N B art at backend

    unfoldable pub new_store_caller : C.Address → N.Client → M (State N.World) B.BoundContract
    new_store_caller at backend = new_caller N B art at backend

    unfoldable pub new_store_transactor : C.Address → N.Client → M (State N.World) B.BoundContract
    new_store_transactor at backend = new_transactor N B art at backend

    unfoldable pub new_store_filterer : C.Address → N.Client → M (State N.World) B.BoundContract
    new_store_filterer at backend = new_filterer N B art at backend

    -- VRF.go
    unfoldable pub new_vrf : C.Address → N.Client → M (State N.World) (Instance B.BoundContract)
    new_vrf at backend = new_instance N B art at backend

    unfoldable pub new_vrf_caller : C.Address → N.Client → M (State N.World) B.BoundContract
    new_vrf_caller at backend = new_caller N B art at backend

    unfoldable pub new_vrf_transactor : C.Address → N.Client → M (State N.World) B.BoundContract
    new_vrf_transactor at backend = new_transactor N B art at backend

    unfoldable pub new_vrf_filterer : C.Address → N.Client → M (State N.World) B.BoundContract
    new_vrf_filterer at backend = new_filterer N B art at backend

    unfoldable pub bind_vrf :
        C.Address
        → Option N.Client
        → Option N.Client
        → Option N.Client
        → M (State N.World) B.BoundContract
    bind_vrf at caller transactor filterer = bind_contract N B art at caller transactor filterer

    -- LinkToken.go
    unfoldable pub new_link_token_caller : C.Address → N.Client → M (State N.World) B.BoundContract
    new_link_token_caller at backend = new_caller N B art at backend

    unfoldable pub new_link_token_transactor :
        C.Address → N.Client → M (State N.World) B.BoundContract
    new_link_token_transactor at backend = new_transactor N B art at backend

    unfoldable pub new_link_token_filterer :
        C.Address → N.Client → M (State N.World) B.BoundContract
    new_link_token_filterer at backend = new_filterer N B art at backend

    unfoldable pub bind_link_token :
        C.Address
        → Option N.Client
        → Option N.Client
        → Option N.Client
        → M (State N.World) B.BoundContract
    bind_link_token at caller transactor filterer =
        bind_contract N B art at caller transactor filterer

    -- FluxAggregator.go
    unfoldable pub new_flux_aggregator :
        C.Address → N.Client → M (State N.World) (Instance B.BoundContract)
    new_flux_aggregator at backend = new_instance N B art at backend

    unfoldable pub new_flux_aggregator_caller :
        C.Address → N.Client → M (State N.World) B.BoundContract
    new_flux_aggregator_caller at backend = new_caller N B art at backend

    unfoldable pub new_flux_aggregator_transactor :
        C.Address → N.Client → M (State N.World) B.BoundContract
    new_flux_aggregator_transactor at backend = new_transactor N B art at backend

    unfoldable pub new_flux_aggregator_filterer :
        C.Address → N.Client → M (State N.World) B.BoundContract
    new_flux_aggregator_filterer at backend = new_filterer N B art at backend

    unfoldable pub bind_flux_aggregator :
        C.Address
        → Option N.Client
        → Option N.Client
        → Option N.Client
        → M (State N.World) B.BoundContract
    bind_flux_aggregator at caller transactor filterer =
        bind_contract N B art at caller transactor filterer

    -- OffchainAggregator.go
    unfoldable pub new_offchain_aggregator :
        C.Address → N.Client → M (State N.World) (Instance B.BoundContract)
    new_offchain_aggregator at backend = new_instance N B art at backend

    unfoldable pub new_offchain_aggregator_caller :
        C.Address → N.Client → M (State N.World) B.BoundContract
    new_offchain_aggregator_caller at backend = new_caller N B art at backend

    unfoldable pub new_offchain_aggregator_transactor :
        C.Address → N.Client → M (State N.World) B.BoundContract
    new_offchain_aggregator_transactor at backend = new_transactor N B art at backend

    unfoldable pub new_offchain_aggregator_filterer :
        C.Address → N.Client → M (State N.World) B.BoundContract
    new_offchain_aggregator_filterer at backend = new_filterer N B art at backend

    unfoldable pub bind_offchain_aggregator :
        C.Address
        → Option N.Client
        → Option N.Client
        → Option N.Client
        → M (State N.World) B.BoundContract
    bind_offchain_aggregator at caller transactor filterer =
        bind_contract N B art at caller transactor filterer
