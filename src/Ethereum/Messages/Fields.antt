-- ===== src/Ethereum/Messages/Fields.antt =====
-- What the options for a transaction hold.
use chainlink_polkadot.Prelude.{ℕ, ◌+◌, ◌-◌, ◌%◌, ◌≤◌, ◌<◌, ◌^◌, ◌≡◌, String, some, inr, arith}
use chainlink_polkadot.Prelude.Int.{ℤ, pos, negsuc, to_int64}
use chainlink_polkadot.Program.{ok, ◌>>=◌, ◌>>◌}
use chainlink_polkadot.Config.{NetworkConfig}
use chainlink_polkadot.Crypto.{Crypto}
use chainlink_polkadot.Node.{Node, BigInt, TransactOpts}
use chainlink_polkadot.Wallets.{Wallet}
use chainlink_polkadot.Network
use chainlink_polkadot.Ethereum.Defs.{State, EthereumClient}
use chainlink_polkadot.Ethereum.Messages.{
  private_key, sender, transaction_call_message, transaction_opts,
}

module _ {C : Crypto} (N : Node C) (e : EthereumClient N.Client) (from : Wallet C) where
  pub transaction_call_message_lem :
      (to : C.Address) (value : BigInt) (payload : String) (s : State N.World)
      {conf : NetworkConfig} {price : ℤ} {w : N.World}
      → N.suggest_gas_price e.client s.world ≡ (inr price, w)
      → Network.config e.network s.heap ≡ ok conf
      → transaction_call_message N e from to value payload s ≡ (
        ok (record {
          from = sender C from;
          to = to;
          gas = (conf.transaction_limit + conf.gas_estimation_buffer) % 2 ^ 64;
          gas_price = some price;
          value = value;
          payload = payload;
        }),
        record s { world = w },
      )
  unfolding ◌>>=◌ ◌>>◌ transaction_call_message
  transaction_call_message_lem to value payload s p c = rw (p, c)

  -- With a node that answers, a good key and a network record, the options are those of the
  -- library's transactor with the sender, the amount, the node's gas price, the sum of the two gas
  -- settings as limit and the node's nonce, as long as the sum and the nonce fit in their types.
  -- The network records and the schedule stay as they are.
  pub transaction_opts_lem :
      (to : C.Address) (value : BigInt) (payload : String) (s : State N.World)
      {conf : NetworkConfig} {price : ℤ} {nonce : ℕ} {key : C.Key} {w v : N.World}
      {opts : TransactOpts C.Address N.Signer}
      → N.suggest_gas_price e.client s.world ≡ (inr price, w)
      → Network.config e.network s.heap ≡ ok conf
      → N.pending_nonce_at e.client (sender C from) w ≡ (inr nonce, v)
      → private_key C from ≡ inr key
      → N.new_keyed_transactor key conf.chain_id ≡ inr opts
      → conf.transaction_limit + conf.gas_estimation_buffer < 2 ^ 64
      → nonce < 2 ^ 63
      → transaction_opts N e from to value payload s ≡ (
        ok (record opts {
          from = sender C from;
          nonce = some (pos nonce);
          value = value;
          gas_price = some price;
          gas_limit = conf.transaction_limit + conf.gas_estimation_buffer;
        }),
        record s { world = v },
      )
  unfolding ◌>>=◌ ◌>>◌ transaction_opts
  transaction_opts_lem to value payload s p c n k o fits small =
      rw (transaction_call_message_lem to value payload s p c, n, k, c, o) (ground arith)

  -- A nonce of 2^63 or more, which a uint64 can hold, becomes a negative number in the options.
  pub transaction_opts_wraps :
      (to : C.Address) (value : BigInt) (payload : String) (s : State N.World)
      {conf : NetworkConfig} {price : ℤ} {nonce : ℕ} {key : C.Key} {w v : N.World}
      {opts : TransactOpts C.Address N.Signer}
      → N.suggest_gas_price e.client s.world ≡ (inr price, w)
      → Network.config e.network s.heap ≡ ok conf
      → N.pending_nonce_at e.client (sender C from) w ≡ (inr nonce, v)
      → private_key C from ≡ inr key
      → N.new_keyed_transactor key conf.chain_id ≡ inr opts
      → 2 ^ 63 ≤ nonce
      → nonce < 2 ^ 64
      → (o : TransactOpts C.Address N.Signer) × (transaction_opts N e from to value payload s
          ≡ (ok o, record s { world = v }))
        × (o.nonce ≡ some (negsuc (2 ^ 64 - nonce - 1)))
  unfolding ◌>>=◌ ◌>>◌ transaction_opts
  transaction_opts_wraps to value payload s {conf} {price} {nonce} {opts} p c n k o large fits = (
    record opts {
      from = sender C from;
      nonce = some (to_int64 nonce);
      value = value;
      gas_price = some price;
      gas_limit = (conf.transaction_limit + conf.gas_estimation_buffer) % 2 ^ 64;
    },
    rw (transaction_call_message_lem to value payload s p c, n, k, c, o),
    ground arith,
  )
