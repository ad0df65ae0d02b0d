-- ===== src/Network.antt =====
-- fm-demo/go-scripts/client/blockchain.go: the networks that a configuration names.
pub mod Keys
use chainlink_polkadot.Prelude.{ℕ, String, Option, none, some, get_elem?}
use chainlink_polkadot.Prelude.Int.{ℤ}
use chainlink_polkadot.Program.{Outcome, ok, panicked, and_then}
use chainlink_polkadot.Config.{Heap, NetworkConfig, Config, get_network_config}
use chainlink_polkadot.Crypto.{Crypto}
use chainlink_polkadot.Wallets.{Made, new_ethereum_wallets}

abbrev pub BlockchainNetworkId : Type 0
BlockchainNetworkId = String

abbrev pub ethereum_hardhat_id : BlockchainNetworkId
ethereum_hardhat_id = "ethereum_hardhat"

abbrev pub ethereum_kovan_id : BlockchainNetworkId
ethereum_kovan_id = "ethereum_kovan"

abbrev pub ethereum_goerli_id : BlockchainNetworkId
ethereum_goerli_id = "ethereum_goerli"

-- `network_config` is the pointer that the configuration's map holds.
pub record EthereumNetwork : Type 0 where
  pub network_id : String
  pub network_config : ℕ

unfoldable pub new_ethereum_network : Config → BlockchainNetworkId → Outcome EthereumNetwork
new_ethereum_network conf id =
    and_then (get_network_config conf id) (λ p. ok (record { network_id = id; network_config = p }))

unfoldable pub new_hardhat_network : Config → Outcome EthereumNetwork
unfolding new_ethereum_network
new_hardhat_network conf = new_ethereum_network conf ethereum_hardhat_id

unfoldable pub new_kovan_network : Config → Outcome EthereumNetwork
unfolding new_ethereum_network
new_kovan_network conf = new_ethereum_network conf ethereum_kovan_id

unfoldable pub new_goerli_network : Config → Outcome EthereumNetwork
unfolding new_ethereum_network
new_goerli_network conf = new_ethereum_network conf ethereum_goerli_id

abbrev pub deref : Option NetworkConfig → Outcome NetworkConfig
deref none = panicked
deref (some c) = ok c

-- `Config`, followed by a read of a field. A nil pointer panics.
unfoldable pub config : EthereumNetwork → Heap → Outcome NetworkConfig
config n heap = deref (get_elem? heap n.network_config)

unfoldable pub url : EthereumNetwork → Heap → Outcome String
unfolding config
url n heap = and_then (config n heap) (λ c. ok c.url)

unfoldable pub chain_id : EthereumNetwork → Heap → Outcome ℤ
unfolding config
chain_id n heap = and_then (config n heap) (λ c. ok c.chain_id)

module _ (C : Crypto) where
  unfoldable pub wallets : EthereumNetwork → Heap → Outcome (Made C)
  unfolding config
  wallets n heap = and_then (config n heap) (λ c. new_ethereum_wallets C c.private_key_store)
