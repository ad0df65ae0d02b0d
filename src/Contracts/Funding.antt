-- ===== src/Contracts/Funding.antt =====
-- What `fund` of fm-demo/go-scripts/contracts/ethereum_contracts.go sends, and in which order.
use chainlink_polkadot.Prelude.{Option, ◌≡◌, refl, inr, true, false, none, some, [], ◌∷◌}
use chainlink_polkadot.Errors.{Error}
use chainlink_polkadot.Program.{
  Outcome, ok, fail, panicked, blocked, proceed, or_throw, ◌>>=◌, ◌>>◌,
}
use chainlink_polkadot.Config.{NetworkConfig}
use chainlink_polkadot.Crypto.{Crypto}
use chainlink_polkadot.Node.{Node, BigInt, TransactOpts}
use chainlink_polkadot.Wallets.{Wallet}
use chainlink_polkadot.Network
use chainlink_polkadot.Ethereum.Defs.{State, EthereumClient}
use chainlink_polkadot.Ethereum.Wait.{wait_for_transaction}
use chainlink_polkadot.Ethereum.Messages.{transaction_opts}
use chainlink_polkadot.Ethereum.Sending.{send_transaction}
use chainlink_polkadot.Bindings.Bound.{Bind, big, address, bind_contract, new_instance, transact}
use chainlink_polkadot.Bindings.LinkToken.{new_link_token, transfer}
use chainlink_polkadot.Contracts.Defs.{Artifacts, needed, when_needed, send_eth, send_link, fund}

module _ {C : Crypto} {N : Node C} (B : Bind N) (art : Artifacts) (e : EthereumClient N.Client)
    (from : Wallet C) (to : C.Address) (eth_amount link_amount : BigInt) where
  -- What follows the ETH transaction: LINK alone, once it has a hash and no error.
  abbrev pub after_eth :
      Outcome (N.Hash × Option Error) × State N.World → Outcome (Unit {0}) × State N.World
  after_eth (ok (hash, none), t) = fund B art e from to none link_amount t
  after_eth (ok (hash, some x), t) = (fail x, t)
  after_eth (fail x, t) = (fail x, t)
  after_eth (panicked, t) = (panicked, t)
  after_eth (blocked, t) = (blocked, t)

  eth_cases :
      (r : Outcome (N.Hash × Option Error) × State N.World)
      → proceed
          (proceed r (λ (hash, x). or_throw x tt))
          (λ _. when_needed B art e from to link_amount (send_link B art e from to link_amount))
        ≡ after_eth r
  unfolding fund needed ◌>>◌
  eth_cases (ok (hash, none), t) = refl
  eth_cases (ok (hash, some x), t) = refl
  eth_cases (fail x, t) = refl
  eth_cases (panicked, t) = refl
  eth_cases (blocked, t) = refl

  -- An ETH amount that is neither nil nor 0 is sent to the receiver with an empty payload before
  -- anything else. Only where the transaction is sent and the wait for it ends without an error is
  -- LINK funded as with LINK alone; an error of either is returned, and nothing more is done.
  pub fund_eth :
      (s : State N.World)
      → needed eth_amount ≡ true
      → fund B art e from to eth_amount link_amount s
        ≡ after_eth (send_transaction N e from to eth_amount "" s)
  unfolding fund send_eth ◌>>◌ ◌>>=◌
  fund_eth s n = rw n (eth_cases (send_transaction N e from to eth_amount "" s))

  -- The LINK half calls `transfer` with the receiver and the amount on the contract at the address
  -- that the network's settings name, with options of no value, and ends as the wait for that
  -- transaction does.
  pub fund_link :
      (s t : State N.World) {conf : NetworkConfig} {abi : B.Abi}
      {opts : TransactOpts C.Address N.Signer} {tx : N.Tx} {w : N.World}
      → needed eth_amount ≡ false
      → needed link_amount ≡ true
      → Network.config e.network s.heap ≡ ok conf
      → B.abi_json art.link_token.abi ≡ inr abi
      → transaction_opts N e from to none "" s ≡ (ok opts, t)
      → B.transact
          (B.new_bound_contract
            (C.hex_to_address conf.link_token_address)
            abi
            (some e.client)
            (some e.client)
            (some e.client))
          opts
          "transfer"
          (address to ∷ big link_amount ∷ [])
          t.world
        ≡ (inr tx, w)
      → fund B art e from to eth_amount link_amount s
        ≡ wait_for_transaction N e (N.tx_hash tx) (record t { world = w })
  unfolding fund send_link new_link_token new_instance bind_contract transfer transact ◌>>◌ ◌>>=◌
  fund_link s t a b c p o h = rw (a, b, c, p, o, h)
