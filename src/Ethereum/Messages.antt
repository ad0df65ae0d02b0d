-- ===== src/Ethereum/Messages.antt =====
-- The call message and the transaction options of fm-demo/go-scripts/client/ethereum.go.
pub mod Fields
use chainlink_polkadot.Prelude.{ℕ, ◌+◌, ◌%◌, ◌^◌, String, some, ◌⊎◌, inl, inr}
use chainlink_polkadot.Prelude.Int.{ℤ, to_int64}
use chainlink_polkadot.Errors.{Error, invalid_private_key}
use chainlink_polkadot.Program.{Outcome, ok, fail, M, ◌>>=◌, pure}
use chainlink_polkadot.Crypto.{Crypto}
use chainlink_polkadot.Node.{Node, BigInt, CallMsg, TransactOpts}
use chainlink_polkadot.Wallets.{Wallet, wallet_address}
use chainlink_polkadot.Network
use chainlink_polkadot.Ethereum.Defs.{State, EthereumClient, call, check, read}

module _ (C : Crypto) where
  abbrev key_of : Error ⊎ C.Key → Error ⊎ C.Key
  key_of (inl x) = inl (invalid_private_key x)
  key_of (inr k) = inr k

  -- `crypto.HexToECDSA` with the error text that both callers wrap around its own.
  unfoldable pub private_key : Wallet C → Error ⊎ C.Key
  private_key from = key_of (C.hex_to_ecdsa from.private_key)

  -- The sender's address, through its text.
  unfoldable pub sender : Wallet C → C.Address
  sender from = C.hex_to_address (wallet_address C from)

module _ {C : Crypto} (N : Node C) (e : EthereumClient N.Client) (from : Wallet C) where
  -- `TransactionCallMessage`. The gas is a sum of two uint64.
  unfoldable pub transaction_call_message :
      C.Address → BigInt → String → M (State N.World) (CallMsg C.Address)
  transaction_call_message to value payload = do
    gas_price ← call (N.suggest_gas_price e.client)
    conf ← read (Network.config e.network)
    pure (record {
      from = sender C from;
      to = to;
      gas = (conf.transaction_limit + conf.gas_estimation_buffer) % 2 ^ 64;
      gas_price = some gas_price;
      value = value;
      payload = payload;
    })

  -- `TransactionOpts`
  unfoldable pub transaction_opts :
      C.Address → BigInt → String → M (State N.World) (TransactOpts C.Address N.Signer)
  unfolding Network.chain_id
  transaction_opts to value payload = do
    msg ← transaction_call_message to value payload
    nonce ← call (N.pending_nonce_at e.client (sender C from))
    key ← check (private_key C from)
    chain ← read (Network.chain_id e.network)
    opts ← check (N.new_keyed_transactor key chain)
    pure (record opts {
      from = msg.from;
      nonce = some (to_int64 nonce);
      value = value;
      gas_price = msg.gas_price;
      gas_limit = msg.gas;
    })
