-- ===== src/Wallets/Loading.antt =====
-- The wallets that a network's private keys give (`newEthereumWallets` of blockchain.go).
use mathlib.Core.List.{append_assoc, append-nil}
use chainlink_polkadot.Prelude.{
  ◌≡◌, ap, ◌∙◌, String, none, some, List, [], ◌∷◌, ◌++◌, inl, inr, arith,
}
use chainlink_polkadot.Prelude.Int.{pos}
use chainlink_polkadot.Errors.{Error, invalid_private_key}
use chainlink_polkadot.Program.{ok}
use chainlink_polkadot.Config.{PrivateKeyStore, fetch}
use chainlink_polkadot.Crypto.{Crypto}
use chainlink_polkadot.Trim.{trim_space}
use chainlink_polkadot.Wallets.{Wallet, new_ethereum_wallet, process_keys, new_ethereum_wallets}

module _ (C : Crypto) where
  -- The wallet belongs to the trimmed key: it keeps the key and the address of its public half.
  abbrev pub Belongs : String → Wallet C → Type 0
  Belongs key w =
      (k : C.Key) × (C.hex_to_ecdsa (trim_space key) ≡ inr k)
      × (w.private_key ≡ trim_space key)
      × (w.address ≡ C.pubkey_to_address k)

  -- One wallet for each key, in order.
  abbrev pub Belong : List String → List (Wallet C) → Type 0
  Belong [] [] = Unit
  Belong [] (w ∷ ws) = ⊥
  Belong (k ∷ ks) [] = ⊥
  Belong (k ∷ ks) (w ∷ ws) = Belongs k w × Belong ks ws

  new_ethereum_wallet_lem :
      (key : String) (w : Wallet C) → Belongs key w → new_ethereum_wallet C (trim_space key) ≡ inr w
  unfolding new_ethereum_wallet
  new_ethereum_wallet_lem key w (k, e, p, a) = rw (new_ethereum_wallet, e) (ground arith)

  process_keys_lem :
      (ks rest : List String) (ws processed : List (Wallet C))
      → Belong ks ws
      → process_keys C (ks ++ rest) processed ≡ process_keys C rest (processed ++ ws)
  unfolding process_keys
  process_keys_lem [] rest [] processed h = rw append-nil
  process_keys_lem [] rest (w ∷ ws) processed h = elim h [ ]
  process_keys_lem (k ∷ ks) rest [] processed h = elim h [ ]
  process_keys_lem (k ∷ ks) rest (w ∷ ws) processed (b, h) =
      rw (process_keys, new_ethereum_wallet_lem k w b)
        (process_keys_lem ks rest ws (processed ++ w ∷ []) h ∙ rw append_assoc)

  process_keys_all :
      (ks : List String) (ws : List (Wallet C))
      → Belong ks ws
      → process_keys C ks [] ≡ (some (record { default_wallet = pos 0; wallets = ws }), none)
  unfolding process_keys
  process_keys_all ks ws h = rw append-nil at (process_keys_lem ks [] ws [] h)

  process_keys_bad :
      (ks rest : List String) (key : String) (e : Error) (ws : List (Wallet C))
      → Belong ks ws
      → C.hex_to_ecdsa (trim_space key) ≡ inl e
      → process_keys C (ks ++ key ∷ rest) []
        ≡ (some (record { default_wallet = pos 0; wallets = [] }), some (invalid_private_key e))
  unfolding process_keys new_ethereum_wallet
  process_keys_bad ks rest key e ws h bad =
      process_keys_lem ks (key ∷ rest) ws [] h ∙ rw (process_keys, new_ethereum_wallet, bad)

  -- If every key of the store is valid once it is trimmed, the result has one wallet for each key
  -- in their order, made of the trimmed key and its address, the first one is the default, and
  -- there is no error.
  pub new_ethereum_wallets_valid :
      (store : PrivateKeyStore) (ks : List String) (ws : List (Wallet C))
      → fetch store ≡ ok ks
      → Belong ks ws
      → new_ethereum_wallets C (some store)
        ≡ ok (some (record { default_wallet = pos 0; wallets = ws }), none)
  unfolding new_ethereum_wallets
  new_ethereum_wallets_valid store ks ws e h = rw e (ap ok (process_keys_all ks ws h))

  -- The first key that is not valid stops the loop: the result is an empty set of wallets, also for
  -- the valid keys before it, with that key's error.
  pub new_ethereum_wallets_invalid :
      (store : PrivateKeyStore) (ks rest : List String) (key : String) (e : Error)
      (ws : List (Wallet C))
      → fetch store ≡ ok (ks ++ key ∷ rest)
      → Belong ks ws
      → C.hex_to_ecdsa (trim_space key) ≡ inl e
      → new_ethereum_wallets C (some store)
        ≡ ok (some (record { default_wallet = pos 0; wallets = [] }), some (invalid_private_key e))
  unfolding new_ethereum_wallets
  new_ethereum_wallets_invalid store ks rest key e ws f h bad =
      rw f (ap ok (process_keys_bad ks rest key e ws h bad))
