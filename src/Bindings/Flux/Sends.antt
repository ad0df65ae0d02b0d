-- ===== src/Bindings/Flux/Sends.antt =====
-- The methods of fm-demo/go-scripts/contracts/ethereum/FluxAggregator.go that make a transaction.
use chainlink_polkadot.Prelude.{ℕ, Bool, String, [], ◌∷◌}
use chainlink_polkadot.Program.{M}
use chainlink_polkadot.Crypto.{Crypto}
use chainlink_polkadot.Node.{Node, BigInt, TransactOpts}
use chainlink_polkadot.Ethereum.Defs.{State}
use chainlink_polkadot.Bindings.Bound.{Bind, Instance, address, big, flag, raw, small, transact}

module _ {C : Crypto} (N : Node C) (B : Bind N) where
  module _ (c : Instance B.BoundContract) where
    unfoldable pub accept_admin :
        TransactOpts C.Address N.Signer → C.Address → M (State N.World) N.Tx
    accept_admin opts oracle = transact N B c "acceptAdmin" (address oracle ∷ []) opts

    unfoldable pub accept_ownership : TransactOpts C.Address N.Signer → M (State N.World) N.Tx
    accept_ownership opts = transact N B c "acceptOwnership" [] opts

    unfoldable pub on_token_transfer :
        TransactOpts C.Address N.Signer → C.Address → BigInt → String → M (State N.World) N.Tx
    on_token_transfer opts arg0 arg1 payload =
        transact N B c "onTokenTransfer" (address arg0 ∷ big arg1 ∷ raw payload ∷ []) opts

    unfoldable pub request_new_round : TransactOpts C.Address N.Signer → M (State N.World) N.Tx
    request_new_round opts = transact N B c "requestNewRound" [] opts

    unfoldable pub set_requester_permissions :
        TransactOpts C.Address N.Signer → C.Address → Bool → ℕ → M (State N.World) N.Tx
    set_requester_permissions opts requester authorized delay =
        transact N B c "setRequesterPermissions"
          (address requester ∷ flag authorized ∷ small delay ∷ []) opts

    unfoldable pub set_validator :
        TransactOpts C.Address N.Signer → C.Address → M (State N.World) N.Tx
    set_validator opts new_validator =
        transact N B c "setValidator" (address new_validator ∷ []) opts

    unfoldable pub submit :
        TransactOpts C.Address N.Signer → BigInt → BigInt → M (State N.World) N.Tx
    submit opts round_id submission =
        transact N B c "submit" (big round_id ∷ big submission ∷ []) opts

    unfoldable pub transfer_admin :
        TransactOpts C.Address N.Signer → C.Address → C.Address → M (State N.World) N.Tx
    transfer_admin opts oracle new_admin =
        transact N B c "transferAdmin" (address oracle ∷ address new_admin ∷ []) opts

    unfoldable pub transfer_ownership :
        TransactOpts C.Address N.Signer → C.Address → M (State N.World) N.Tx
    transfer_ownership opts to = transact N B c "transferOwnership" (address to ∷ []) opts

    unfoldable pub update_available_funds : TransactOpts C.Address N.Signer → M (State N.World) N.Tx
    update_available_funds opts = transact N B c "updateAvailableFunds" [] opts

    unfoldable pub update_future_rounds :
        TransactOpts C.Address N.Signer → BigInt → ℕ → ℕ → ℕ → ℕ → M (State N.World) N.Tx
    update_future_rounds opts payment_amount min_submissions max_submissions restart_delay timeout =
        transact N B c "updateFutureRounds"
          (big payment_amount
            ∷ small min_submissions
            ∷ small max_submissions
            ∷ small restart_delay
            ∷ small timeout
            ∷ [])
          opts

    unfoldable pub withdraw_funds :
        TransactOpts C.Address N.Signer → C.Address → BigInt → M (State N.World) N.Tx
    withdraw_funds opts recipient amount =
        transact N B c "withdrawFunds" (address recipient ∷ big amount ∷ []) opts

    unfoldable pub withdraw_payment :
        TransactOpts C.Address N.Signer → C.Address → C.Address → BigInt → M (State N.World) N.Tx
    withdraw_payment opts oracle recipient amount =
        transact N B c "withdrawPayment" (address oracle ∷ address recipient ∷ big amount ∷ []) opts
