-- ===== src/Contracts/Methods/Frame.antt =====
-- Which operations of ethereum_contracts.go leave the shared network records alone: funding and
-- every method of the contracts.
use chainlink_polkadot.Prelude.{ℕ, String, List}
use chainlink_polkadot.Crypto.{Crypto}
use chainlink_polkadot.Node.{Node, BigInt}
use chainlink_polkadot.Wallets.{Wallet}
use chainlink_polkadot.Ethereum.Defs.{EthereumClient}
use chainlink_polkadot.Ethereum.Frame.{
  Keeps, Keeps-pure, Keeps-read, Keeps-or_throw, Keeps-if, Keeps-bind, Keeps-then,
  Keeps-wait_for_transaction, Keeps-transaction_opts, Keeps-send_transaction,
}
use chainlink_polkadot.Bindings.Bound.{Bind}
use chainlink_polkadot.Bindings.LinkToken.{new_link_token, transfer}
use chainlink_polkadot.Bindings.Store
use chainlink_polkadot.Bindings.Aggregators
use chainlink_polkadot.Bindings.Frame.{
  Keeps-call_one, Keeps-transact, Keeps-new_instance, Keeps-latest_round_data,
}
use chainlink_polkadot.Contracts.Defs.{Contract, Artifacts, needed, send_eth, send_link, fund}
use chainlink_polkadot.Contracts.Methods.{
  flux_get_contract_data, set_oracles, set_payees, set_config, set,
}

module _ {C : Crypto} {N : Node C} (B : Bind N) (art : Artifacts) (e : EthereumClient N.Client)
    (from : Wallet C) (to : C.Address) where
  Keeps-send_eth : (amount : BigInt) → Keeps (send_eth B art e from to amount)
  unfolding send_eth
  Keeps-send_eth amount =
      Keeps-bind (Keeps-send_transaction N e from to amount "") λ (h, x). Keeps-or_throw x tt

  Keeps-send_link : (amount : BigInt) → Keeps (send_link B art e from to amount)
  unfolding send_link new_link_token transfer
  Keeps-send_link amount = Keeps-bind (Keeps-read _) λ conf.
      Keeps-bind (Keeps-new_instance N B art.link_token _ _) λ t.
        Keeps-bind (Keeps-transaction_opts N e from to _ _) λ o.
          Keeps-bind (Keeps-transact N B t _ _ o)
            λ tx. Keeps-wait_for_transaction N e (N.tx_hash tx)

  -- Funding leaves every network's settings as they are, however it ends.
  pub Keeps-fund :
      (eth_amount link_amount : BigInt) → Keeps (fund B art e from to eth_amount link_amount)
  unfolding fund
  Keeps-fund eth_amount link_amount =
      Keeps-then (Keeps-if (needed eth_amount) _ _ (Keeps-send_eth eth_amount) (Keeps-pure tt))
        (Keeps-if (needed link_amount) _ _ (Keeps-send_link link_amount) (Keeps-pure tt))

module _ {C : Crypto} {N : Node C} {B : Bind N} (c : Contract B) where
  pub Keeps-flux_get_contract_data : Keeps (flux_get_contract_data c)
  unfolding flux_get_contract_data Aggregators.allocated_funds Aggregators.available_funds
      Aggregators.get_oracles
  Keeps-flux_get_contract_data = Keeps-bind (Keeps-call_one N B _ c.instance_ _ _ _) λ a.
      Keeps-bind (Keeps-call_one N B _ c.instance_ _ _ _) λ v.
        Keeps-bind (Keeps-latest_round_data N B c.instance_ _)
          λ r. Keeps-bind (Keeps-call_one N B _ c.instance_ _ _ _) λ o. Keeps-pure _

  -- The methods that make a transaction.
  pub Keeps-set_oracles :
      (from : Wallet C) (to_add to_remove to_admin : List C.Address) (min max delay : ℕ)
      → Keeps (set_oracles c from to_add to_remove to_admin min max delay)
  unfolding set_oracles Aggregators.change_oracles
  Keeps-set_oracles from to_add to_remove to_admin min max delay =
      Keeps-bind (Keeps-transaction_opts N c.client from c.address _ _) λ o.
        Keeps-bind (Keeps-transact N B c.instance_ _ _ o)
          λ tx. Keeps-wait_for_transaction N c.client (N.tx_hash tx)

  pub Keeps-set_payees :
      (from : Wallet C) (transmitters payees : List C.Address)
      → Keeps (set_payees c from transmitters payees)
  unfolding set_payees Aggregators.set_payees
  Keeps-set_payees from transmitters payees =
      Keeps-bind (Keeps-transaction_opts N c.client from c.address _ _) λ o.
        Keeps-bind (Keeps-transact N B c.instance_ _ _ o)
          λ tx. Keeps-wait_for_transaction N c.client (N.tx_hash tx)

  pub Keeps-set_config :
      (from : Wallet C) (signers transmitters : List C.Address) (threshold version : ℕ)
      (encoded : String)
      → Keeps (set_config c from signers transmitters threshold version encoded)
  unfolding set_config Aggregators.set_config
  Keeps-set_config from signers transmitters threshold version encoded =
      Keeps-bind (Keeps-transaction_opts N c.client from c.address _ _) λ o.
        Keeps-bind (Keeps-transact N B c.instance_ _ _ o)
          λ tx. Keeps-wait_for_transaction N c.client (N.tx_hash tx)

  pub Keeps-set : (value : BigInt) → Keeps (set c value)
  unfolding set Store.set
  Keeps-set value =
      Keeps-bind (Keeps-transaction_opts N c.client c.caller_wallet C.zero_address _ _) λ o.
        Keeps-bind (Keeps-transact N B c.instance_ _ _ o)
          λ tx. Keeps-wait_for_transaction N c.client (N.tx_hash tx)
