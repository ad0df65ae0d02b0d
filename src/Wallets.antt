-- ===== src/Wallets.antt =====
-- fm-demo/go-scripts/client/blockchain.go: the wallets of a network and how they are made from its
-- private keys.
pub mod Index
pub mod Loading
use chainlink_polkadot.Prelude.{
  ℕ, zero, suc, String, Bool, Option, none, some, List, [], ◌∷◌, ◌++◌, ◌⊎◌, inl, inr, length,
  get_elem?, if◌then◌else◌,
}
use chainlink_polkadot.Prelude.Int.{ℤ, pos, negsuc, sub_ℕ, ltb_ℤ}
use chainlink_polkadot.Errors.{Error, invalid_private_key, invalid_wallet_index}
use chainlink_polkadot.Program.{Outcome, ok, fail, panicked, blocked}
use chainlink_polkadot.Config.{PrivateKeyStore, fetch}
use chainlink_polkadot.Crypto.{Crypto}
use chainlink_polkadot.Trim.{trim_space}

pub record Wallets {ℓ} (A : Type ℓ) : Type ℓ where
  pub default_wallet : ℤ
  pub wallets : List A

module _ {ℓ} {A : Type ℓ} where
  abbrev or_panic : Option A → Outcome A
  or_panic none = panicked
  or_panic (some a) = ok a

  -- `xs[i]`: an index out of range panics, and so does a negative one.
  unfoldable pub index : List A → ℤ → Outcome A
  index xs (pos i) = or_panic (get_elem? xs i)
  index xs (negsuc i) = panicked

  -- `i > len(wallets)-1`
  unfoldable pub wallet_slice_index_in_range : List A → ℤ → Option Error
  wallet_slice_index_in_range ws i =
      if ltb_ℤ (sub_ℕ (length ws) 1) i then some invalid_wallet_index else none

  -- `Default`
  unfoldable pub default : Wallets A → Outcome A
  unfolding index
  default w = index w.wallets w.default_wallet

  abbrev set_checked : Wallets A → ℤ → Option Error → Wallets A × Option Error
  set_checked w i (some e) = (w, some e)
  set_checked w i none = (record w { default_wallet = i }, none)

  unfoldable pub set_default : Wallets A → ℤ → Wallets A × Option Error
  unfolding wallet_slice_index_in_range
  set_default w i = set_checked w i (wallet_slice_index_in_range w.wallets i)

  abbrev get_checked : Wallets A → ℤ → Option Error → Outcome A
  get_checked w i (some e) = fail e
  get_checked w i none = index w.wallets i

  unfoldable pub wallet : Wallets A → ℤ → Outcome A
  unfolding wallet_slice_index_in_range index
  wallet w i = get_checked w i (wallet_slice_index_in_range w.wallets i)

pub record EthereumWallet (Address : Type 0) : Type 0 where
  pub private_key : String
  pub address : Address

module _ (C : Crypto) where
  abbrev pub Wallet : Type 0
  Wallet = EthereumWallet C.Address

  unfoldable pub new_ethereum_wallet : String → Error ⊎ Wallet
  new_ethereum_wallet pk = elim (C.hex_to_ecdsa pk) [
    | inl e ↦ inl (invalid_private_key e)
    | inr key ↦ inr (record { private_key = pk; address = C.pubkey_to_address key })
  ]

  -- `Address` of a wallet
  unfoldable pub wallet_address : Wallet → String
  wallet_address w = C.address_hex w.address

  -- The two results of `newEthereumWallets`: nil or a pointer, and the error.
  abbrev pub Made : Type 0
  Made = Option (Wallets Wallet) × Option Error

  unfoldable pub process_keys : List String → List Wallet → Made
  process_keys [] processed = (some (record { default_wallet = pos 0; wallets = processed }), none)
  process_keys (key ∷ keys) processed = elim (new_ethereum_wallet (trim_space key)) [
    | inl e ↦ (some (record { default_wallet = pos 0; wallets = [] }), some e)
    | inr w ↦ process_keys keys (processed ++ w ∷ [])
  ]

  abbrev process_fetched : Outcome (List String) → Outcome Made
  process_fetched (ok keys) = ok (process_keys keys [])
  process_fetched (fail e) = ok (none, some e)
  process_fetched panicked = panicked
  process_fetched blocked = blocked

  -- A nil store panics when `Fetch` is called.
  unfoldable pub new_ethereum_wallets : Option PrivateKeyStore → Outcome Made
  unfolding fetch
  new_ethereum_wallets none = panicked
  new_ethereum_wallets (some store) = process_fetched (fetch store)
