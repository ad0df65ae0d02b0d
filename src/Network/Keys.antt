-- ===== src/Network/Keys.antt =====
-- From the configuration file to the wallets of a network: config.go and blockchain.go together.
use chainlink_polkadot.Prelude.{ℕ, ◌≡◌, refl, String, none, some, List, get_elem?}
use chainlink_polkadot.Prelude.Int.{pos}
use chainlink_polkadot.Prelude.Text.{lookup}
use chainlink_polkadot.Program.{ok}
use chainlink_polkadot.Config.{
  Heap, NetworkConfig, Viper, Decoded, local_config, local_store, fetch, new_private_key_store,
  get_network_config, new_with_path, path_or_default,
}
use chainlink_polkadot.Config.Loading.{IsAllocated, with_store, new_with_path-lookup}
use chainlink_polkadot.Crypto.{Crypto}
use chainlink_polkadot.Wallets.{Wallet}
use chainlink_polkadot.Wallets.Loading.{Belong, new_ethereum_wallets_valid}
use chainlink_polkadot.Network.{EthereumNetwork, new_ethereum_network, wallets}

module _ (C : Crypto) where
  wallets-with_store :
      (n : EthereumNetwork) (h : Heap) (c : NetworkConfig) {keys : List String}
      {ws : List (Wallet C)}
      → get_elem? h n.network_config ≡ some (with_store local_config c)
      → c.private_keys ≡ some keys
      → Belong C keys ws
      → wallets C n h ≡ ok (some (record { default_wallet = pos 0; wallets = ws }), none)
  unfolding wallets new_private_key_store fetch
  wallets-with_store n h c {keys} {ws} g k b =
      rw (g, k) (new_ethereum_wallets_valid C (local_store (some keys)) keys ws refl b)

  -- With a configuration that is loaded as a local one from a file that is read and has no nil
  -- entry, the network of a name of the file exists, and if its listed private keys are all valid
  -- once trimmed, then its wallets are one for each key, in the order of the file, with the first
  -- as the default.
  pub wallets_lem :
      (v : Viper) (path name : String) (p : ℕ) (c : NetworkConfig) {d : Decoded}
      {keys : List String} {ws : List (Wallet C)}
      → v.read_in_config (path_or_default path) ≡ none
      → v.unmarshal (path_or_default path) ≡ d
      → IsAllocated d.heap d.conf.networks
      → lookup name d.conf.networks ≡ some p
      → get_elem? d.heap p ≡ some c
      → c.private_keys ≡ some keys
      → Belong C keys ws
      → (n : EthereumNetwork) × (h : Heap) × (new_with_path v local_config path
          ≡ ok (d.conf, h, d.error))
        × (new_ethereum_network d.conf name ≡ ok n)
        × (wallets C n h ≡ ok (some (record { default_wallet = pos 0; wallets = ws }), none))
  unfolding new_ethereum_network get_network_config
  wallets_lem v path name p c r u a l g k b =
      let (h, e, f) = new_with_path-lookup v local_config path name p c r u a l g in
      let n : EthereumNetwork = record { network_id = name; network_config = p } in
      (n, h, e, rw l, wallets-with_store n h c f k b)
