-- ===== src/Errors.antt =====
-- The errors of fm-demo/go-scripts (client, config, contracts), one constructor for each place
-- that makes one. A library's, the node's or the server's error is its text.
use chainlink_polkadot.Prelude.{ℕ, String}
use chainlink_polkadot.Prelude.Int.{ℤ}

pub data Error : Type 0 where
  foreign : String → Error
  -- config.go
  no_network : String → Error
  no_keys : Error
  -- blockchain.go, ethereum.go
  invalid_private_key : Error → Error
  invalid_wallet_index : Error
  wait_timeout : ℤ → Error
  -- chainlink.go: the code that was received, the one that the text says was expected, URL, body
  not_found : Error
  unprocessable_entity : Error
  unexpected_code : ℕ → ℕ → String → String → Error
  reading_response : Error → String → String → Error
  unmarshaling_response : Error → String → String → Error
  session_status : ℕ → String → String → Error
  no_cookie : Error
  no_session_cookie : Error
