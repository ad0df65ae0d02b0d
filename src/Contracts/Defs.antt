-- ===== src/Contracts/Defs.antt =====
-- What the contracts of fm-demo/go-scripts/contracts/ethereum_contracts.go share, and `fund`.
use chainlink_polkadot.Prelude.{zero, suc, Bool, true, false, none, some, if◌then◌else◌}
use chainlink_polkadot.Prelude.Int.{pos, negsuc}
use chainlink_polkadot.Program.{M, ◌>>=◌, ◌>>◌, pure, or_throw}
use chainlink_polkadot.Crypto.{Crypto}
use chainlink_polkadot.Node.{Node, BigInt}
use chainlink_polkadot.Wallets.{Wallet}
use chainlink_polkadot.Network
use chainlink_polkadot.Ethereum.Defs.{State, EthereumClient, read}
use chainlink_polkadot.Ethereum.Wait.{wait_for_transaction}
use chainlink_polkadot.Ethereum.Messages.{sender, transaction_opts}
use chainlink_polkadot.Ethereum.Sending.{send_transaction}
use chainlink_polkadot.Bindings.Bound.{Bind, Instance, CallOpts, Artifact}
use chainlink_polkadot.Bindings.LinkToken.{new_link_token, transfer}

-- `EthereumFluxAggregator`, `EthereumLinkToken`, `EthereumOffchainAggregator`, `EthereumStorage`
-- and `EthereumVRF`, which hold the same; a storage's address is not kept by the program.
pub record Contract {C : Crypto} {N : Node C} (B : Bind N) : Type 0 where
  pub client : EthereumClient N.Client
  pub instance_ : Instance B.BoundContract
  pub caller_wallet : Wallet C
  pub address : C.Address

-- The compiled contracts.
pub record Artifacts : Type 0 where
  pub flux_aggregator : Artifact
  pub link_token : Artifact
  pub offchain_aggregator : Artifact
  pub store : Artifact
  pub vrf : Artifact

-- `amount != nil && big.NewInt(0).Cmp(amount) != 0`
unfoldable pub needed : BigInt → Bool
needed none = false
needed (some (pos zero)) = false
needed (some (pos (suc n))) = true
needed (some (negsuc n)) = true

module _ {C : Crypto} {N : Node C} (B : Bind N) where
  -- The options of every read-only call.
  abbrev pub call_opts : Contract B → CallOpts C.Address
  call_opts c = record { pending = true; from = sender C c.caller_wallet }

  module _ (art : Artifacts) (e : EthereumClient N.Client) (from : Wallet C) (to : C.Address) where
    unfoldable pub send_eth : BigInt → M (State N.World) (Unit {0})
    send_eth amount = do (hash, x) ← send_transaction N e from to amount ""; or_throw x tt

    unfoldable pub send_link : BigInt → M (State N.World) (Unit {0})
    send_link amount = do
      conf ← read (Network.config e.network)
      token ← new_link_token N B art.link_token (C.hex_to_address conf.link_token_address) e.client
      opts ← transaction_opts N e from to none ""
      tx ← transfer N B token opts to amount
      wait_for_transaction N e (N.tx_hash tx)

    -- One of the two `if` blocks: run with an amount that is neither nil nor 0.
    abbrev pub when_needed : BigInt → M (State N.World) (Unit {0}) → M (State N.World) (Unit {0})
    when_needed amount m = if needed amount then m else pure tt

    unfoldable pub fund : BigInt → BigInt → M (State N.World) (Unit {0})
    fund eth_amount link_amount = do
      when_needed eth_amount (send_eth eth_amount)
      when_needed link_amount (send_link link_amount)
