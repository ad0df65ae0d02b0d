-- ===== src/Tests/Configs.antt =====
-- Loading a configuration, and wallets.
use chainlink_polkadot.Prelude.{◌≡◌, refl, String, ◌<>◌, none, some, [], ◌∷◌, get_elem?, arith}
use chainlink_polkadot.Prelude.Int.{pos, negsuc}
use chainlink_polkadot.Errors.{foreign, invalid_private_key}
use chainlink_polkadot.Program.{ok, panicked}
use chainlink_polkadot.Config.{Heap, Viper, local_store, fetch, new_with_path}
use chainlink_polkadot.Config.Loading.{with_store, new_with_path-lookup}
use chainlink_polkadot.Trim.{is_space, trim_left, trim_right, trim_space}
use chainlink_polkadot.Trim.Laws.{
  AllSpace, StartsSolid, EndsSolid, trim_space_lem, trim_space-eq_self,
}
use chainlink_polkadot.Wallets.{Wallets, Wallet, default, set_default, wallet, new_ethereum_wallets}
use chainlink_polkadot.Network.{EthereumNetwork, new_ethereum_network, wallets}
use chainlink_polkadot.Network.Keys.{wallets_lem}
use chainlink_polkadot.Wallets.Index.{negative_index}
use chainlink_polkadot.Wallets.Loading.{new_ethereum_wallets_valid, new_ethereum_wallets_invalid}
use chainlink_polkadot.Tests.Fixtures.{crypto, config, heap, network_config}

trimmed : trim_space " \tab c\n " ≡ "ab c"
unfolding trim_space trim_left trim_right is_space
trimmed = refl

trim_space_lem_example :
    (l r : String) × (" ab " ≡ l <> (trim_space " ab " <> r))
    × AllSpace l
    × AllSpace r
    × StartsSolid (trim_space " ab ")
    × EndsSolid (trim_space " ab ")
trim_space_lem_example = trim_space_lem " ab "

trim_space-eq_self_example : trim_space "ab" ≡ "ab"
unfolding is_space
trim_space-eq_self_example = trim_space-eq_self "ab" refl refl

abbrev viper : Viper
viper = record {
  read_in_config = λ path. none;
  unmarshal = λ path. record { conf = config; heap = heap; error = none };
}

new_with_path-lookup_example :
    (h : Heap) × (new_with_path viper "local" "" ≡ ok (config, h, none))
    × (get_elem? h 0 ≡ some (with_store "local" network_config))
new_with_path-lookup_example =
    new_with_path-lookup viper "local" "" "ethereum_kovan" 0 network_config refl refl
      (omega arith, (omega arith, tt)) refl refl

abbrev two_wallets : Wallets String
two_wallets = record { default_wallet = pos 0; wallets = "a" ∷ "b" ∷ [] }

negative_index_example :
    (wallet two_wallets (negsuc 0) ≡ panicked)
    × ((set_default two_wallets (negsuc 0)).1 ≡ none)
    × (default (set_default two_wallets (negsuc 0)).0 ≡ panicked)
negative_index_example = negative_index two_wallets 0

abbrev ab_wallet : Wallet crypto
ab_wallet = record { private_key = "ab"; address = "0xab" }

new_ethereum_wallets_valid_example :
    new_ethereum_wallets crypto (some (local_store (some (" ab " ∷ []))))
    ≡ ok (some (record { default_wallet = pos 0; wallets = ab_wallet ∷ [] }), none)
unfolding fetch trim_space trim_left trim_right is_space
new_ethereum_wallets_valid_example =
    new_ethereum_wallets_valid crypto (local_store (some (" ab " ∷ []))) (" ab " ∷ [])
      (ab_wallet ∷ []) refl (("ab", refl, refl, refl), tt)

new_ethereum_wallets_invalid_example :
    new_ethereum_wallets crypto (some (local_store (some (" ab " ∷ "bad" ∷ "cd" ∷ []))))
    ≡ ok (
      some (record { default_wallet = pos 0; wallets = [] }),
      some (invalid_private_key (foreign "bad key")),
    )
unfolding fetch trim_space trim_left trim_right is_space
new_ethereum_wallets_invalid_example =
    new_ethereum_wallets_invalid crypto (local_store (some (" ab " ∷ "bad" ∷ "cd" ∷ [])))
      (" ab " ∷ []) ("cd" ∷ []) "bad" (foreign "bad key") (ab_wallet ∷ []) refl
      (("ab", refl, refl, refl), tt) refl

wallets_lem_example :
    (n : EthereumNetwork) × (h : Heap) × (new_with_path viper "local" "" ≡ ok (config, h, none))
    × (new_ethereum_network config "ethereum_kovan" ≡ ok n)
    × (wallets crypto n h
        ≡ ok (some (record { default_wallet = pos 0; wallets = ab_wallet ∷ [] }), none))
unfolding trim_space trim_left trim_right is_space
wallets_lem_example =
    wallets_lem crypto viper "" "ethereum_kovan" 0 network_config refl refl
      (omega arith, (omega arith, tt)) refl refl refl (("ab", refl, refl, refl), tt)
