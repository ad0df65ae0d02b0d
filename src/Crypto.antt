-- ===== src/Crypto.antt =====
-- What the Go code calls of go-ethereum's `crypto` and `common`, as a parameter.
use chainlink_polkadot.Prelude.{String, ◌⊎◌}
use chainlink_polkadot.Errors.{Error}

pub record Crypto : Type 1 where
  pub Address : Type 0
  pub Key : Type 0
  -- `crypto.HexToECDSA`, `crypto.PubkeyToAddress` of the key's public half
  pub hex_to_ecdsa : String → Error ⊎ Key
  pub pubkey_to_address : Key → Address
  -- `Address.String` and `Address.Hex`, which agree; `common.HexToAddress`; `common.Address{}`
  pub address_hex : Address → String
  pub hex_to_address : String → Address
  pub zero_address : Address
