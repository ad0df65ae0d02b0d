-- ===== src/Bindings/LinkToken.antt =====
-- fm-demo/go-scripts/contracts/ethereum/LinkToken.go
use chainlink_polkadot.Prelude.{ℕ, String, [], ◌∷◌}
use chainlink_polkadot.Program.{M}
use chainlink_polkadot.Crypto.{Crypto}
use chainlink_polkadot.Node.{Node, BigInt, TransactOpts}
use chainlink_polkadot.Ethereum.Defs.{State}
use chainlink_polkadot.Bindings.Bound.{
  big, raw, address, as_big, as_small, as_text, CallOpts, Artifact, Bind, Instance, Deployed,
  deploy, new_instance, call_one, transact,
}

module _ {C : Crypto} (N : Node C) (B : Bind N) where
  -- `DeployLinkToken`
  unfoldable pub deploy_link_token :
      Artifact → TransactOpts C.Address N.Signer → N.Client → M (State N.World) (Deployed N B)
  deploy_link_token art = deploy N B art []

  -- `NewLinkToken`
  unfoldable pub new_link_token :
      Artifact → C.Address → N.Client → M (State N.World) (Instance B.BoundContract)
  new_link_token art = new_instance N B art

  module _ (c : Instance B.BoundContract) where
    -- The methods of `LinkTokenCaller`.
    unfoldable pub allowance : CallOpts C.Address → C.Address → C.Address → M (State N.World) BigInt
    allowance opts owner spender =
        call_one N B as_big c "allowance" (address owner ∷ address spender ∷ []) opts

    unfoldable pub balance_of : CallOpts C.Address → C.Address → M (State N.World) BigInt
    balance_of opts owner = call_one N B as_big c "balanceOf" (address owner ∷ []) opts

    unfoldable pub decimals : CallOpts C.Address → M (State N.World) ℕ
    decimals opts = call_one N B as_small c "decimals" [] opts

    unfoldable pub name : CallOpts C.Address → M (State N.World) String
    name opts = call_one N B as_text c "name" [] opts

    unfoldable pub symbol : CallOpts C.Address → M (State N.World) String
    symbol opts = call_one N B as_text c "symbol" [] opts

    unfoldable pub total_supply : CallOpts C.Address → M (State N.World) BigInt
    total_supply opts = call_one N B as_big c "totalSupply" [] opts

    -- The methods of `LinkTokenTransactor`.
    module _ (opts : TransactOpts C.Address N.Signer) where
      unfoldable pub approve : C.Address → BigInt → M (State N.World) N.Tx
      approve spender value = transact N B c "approve" (address spender ∷ big value ∷ []) opts

      unfoldable pub decrease_approval : C.Address → BigInt → M (State N.World) N.Tx
      decrease_approval spender value =
          transact N B c "decreaseApproval" (address spender ∷ big value ∷ []) opts

      unfoldable pub increase_approval : C.Address → BigInt → M (State N.World) N.Tx
      increase_approval spender value =
          transact N B c "increaseApproval" (address spender ∷ big value ∷ []) opts

      unfoldable pub transfer : C.Address → BigInt → M (State N.World) N.Tx
      transfer to value = transact N B c "transfer" (address to ∷ big value ∷ []) opts

      unfoldable pub transfer_and_call : C.Address → BigInt → String → M (State N.World) N.Tx
      transfer_and_call to value payload =
          transact N B c "transferAndCall" (address to ∷ big value ∷ raw payload ∷ []) opts

      unfoldable pub transfer_from : C.Address → C.Address → BigInt → M (State N.World) N.Tx
      transfer_from from to value =
          transact N B c "transferFrom" (address from ∷ address to ∷ big value ∷ []) opts
