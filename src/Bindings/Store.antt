-- ===== src/Bindings/Store.antt =====
-- fm-demo/go-scripts/contracts/ethereum/store.go and VRF.go.
use chainlink_polkadot.Prelude.{[], ◌∷◌}
use chainlink_polkadot.Program.{M}
use chainlink_polkadot.Crypto.{Crypto}
use chainlink_polkadot.Node.{Node, BigInt, TransactOpts}
use chainlink_polkadot.Ethereum.Defs.{State}
use chainlink_polkadot.Bindings.Bound.{
  big, as_big, CallOpts, Artifact, Bind, Instance, Deployed, deploy, call_one, transact,
}

module _ {C : Crypto} (N : Node C) (B : Bind N) where
  -- `DeployStore`
  unfoldable pub deploy_store :
      Artifact → TransactOpts C.Address N.Signer → N.Client → M (State N.World) (Deployed N B)
  deploy_store art = deploy N B art []

  -- `Get`
  unfoldable pub get : Instance B.BoundContract → CallOpts C.Address → M (State N.World) BigInt
  get c opts = call_one N B as_big c "get" [] opts

  -- `Set`
  unfoldable pub set :
      Instance B.BoundContract → TransactOpts C.Address N.Signer → BigInt → M (State N.World) N.Tx
  set c opts x = transact N B c "set" (big x ∷ []) opts

  -- `DeployVRF`
  unfoldable pub deploy_vrf :
      Artifact → TransactOpts C.Address N.Signer → N.Client → M (State N.World) (Deployed N B)
  deploy_vrf art = deploy N B art []

  -- `PROOFLENGTH`
  unfoldable pub proof_length :
      Instance B.BoundContract → CallOpts C.Address → M (State N.World) BigInt
  proof_length c opts = call_one N B as_big c "PROOF_LENGTH" [] opts
