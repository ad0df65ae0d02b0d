-- ===== src/Bindings/Offchain/Sends.antt =====
-- The methods of fm-demo/go-scripts/contracts/ethereum/OffchainAggregator.go that make a
-- transaction.
use chainlink_polkadot.Prelude.{ℕ, String, List, [], ◌∷◌}
use chainlink_polkadot.Program.{M}
use chainlink_polkadot.Crypto.{Crypto}
use chainlink_polkadot.Node.{Node, BigInt, TransactOpts}
use chainlink_polkadot.Ethereum.Defs.{State}
use chainlink_polkadot.Bindings.Bound.{Bind, Instance, address, big, raw, small, transact, words}

module _ {C : Crypto} (N : Node C) (B : Bind N) where
  module _ (c : Instance B.BoundContract) where
    unfoldable pub accept_ownership : TransactOpts C.Address N.Signer → M (State N.World) N.Tx
    accept_ownership opts = transact N B c "acceptOwnership" [] opts

    unfoldable pub accept_payeeship :
        TransactOpts C.Address N.Signer → C.Address → M (State N.World) N.Tx
    accept_payeeship opts transmitter =
        transact N B c "acceptPayeeship" (address transmitter ∷ []) opts

    unfoldable pub request_new_round : TransactOpts C.Address N.Signer → M (State N.World) N.Tx
    request_new_round opts = transact N B c "requestNewRound" [] opts

    unfoldable pub set_billing :
        TransactOpts C.Address N.Signer → ℕ → ℕ → ℕ → ℕ → ℕ → M (State N.World) N.Tx
    set_billing opts maximum_gas_price reasonable_gas_price micro_link_per_eth
          link_gwei_per_observation link_gwei_per_transmission =
        transact N B c "setBilling"
          (small maximum_gas_price
            ∷ small reasonable_gas_price
            ∷ small micro_link_per_eth
            ∷ small link_gwei_per_observation
            ∷ small link_gwei_per_transmission
            ∷ [])
          opts

    unfoldable pub set_billing_access_controller :
        TransactOpts C.Address N.Signer → C.Address → M (State N.World) N.Tx
    set_billing_access_controller opts billing_access_controller =
        transact N B c "setBillingAccessController" (address billing_access_controller ∷ []) opts

    unfoldable pub set_requester_access_controller :
        TransactOpts C.Address N.Signer → C.Address → M (State N.World) N.Tx
    set_requester_access_controller opts requester_access_controller =
        transact N B c "setRequesterAccessController" (address requester_access_controller ∷ [])
          opts

    unfoldable pub set_validator_config :
        TransactOpts C.Address N.Signer → C.Address → ℕ → M (State N.World) N.Tx
    set_validator_config opts new_validator new_gas_limit =
        transact N B c "setValidatorConfig" (address new_validator ∷ small new_gas_limit ∷ []) opts

    unfoldable pub transfer_ownership :
        TransactOpts C.Address N.Signer → C.Address → M (State N.World) N.Tx
    transfer_ownership opts to = transact N B c "transferOwnership" (address to ∷ []) opts

    unfoldable pub transfer_payeeship :
        TransactOpts C.Address N.Signer → C.Address → C.Address → M (State N.World) N.Tx
    transfer_payeeship opts transmitter proposed =
        transact N B c "transferPayeeship" (address transmitter ∷ address proposed ∷ []) opts

    unfoldable pub transmit :
        TransactOpts C.Address N.Signer
        → String
        → List String
        → List String
        → String
        → M (State N.World) N.Tx
    transmit opts report rs ss raw_vs =
        transact N B c "transmit" (raw report ∷ words rs ∷ words ss ∷ raw raw_vs ∷ []) opts

    unfoldable pub withdraw_funds :
        TransactOpts C.Address N.Signer → C.Address → BigInt → M (State N.World) N.Tx
    withdraw_funds opts recipient amount =
        transact N B c "withdrawFunds" (address recipient ∷ big amount ∷ []) opts

    unfoldable pub withdraw_payment :
        TransactOpts C.Address N.Signer → C.Address → M (State N.World) N.Tx
    withdraw_payment opts transmitter =
        transact N B c "withdrawPayment" (address transmitter ∷ []) opts
