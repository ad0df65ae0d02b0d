-- ===== src/Ethereum/Sending/Signed.antt =====
-- What `SendTransaction` of ethereum.go signs and sends.
use chainlink_polkadot.Prelude.{ℕ, ◌+◌, ◌%◌, ◌^◌, ◌≡◌, refl, String, Option, none, some, inl, inr}
use chainlink_polkadot.Prelude.Int.{ℤ}
use chainlink_polkadot.Errors.{Error, invalid_private_key}
use chainlink_polkadot.Program.{Outcome, ok, fail, panicked, blocked, proceed, pure, ◌>>=◌, ◌>>◌}
use chainlink_polkadot.Config.{NetworkConfig}
use chainlink_polkadot.Crypto.{Crypto}
use chainlink_polkadot.Node.{Node, BigInt, LegacyTx}
use chainlink_polkadot.Wallets.{Wallet}
use chainlink_polkadot.Network
use chainlink_polkadot.Ethereum.Defs.{State, EthereumClient, caught}
use chainlink_polkadot.Ethereum.Wait.{wait_for_transaction}
use chainlink_polkadot.Ethereum.Messages.{private_key, sender}
use chainlink_polkadot.Ethereum.Messages.Fields.{transaction_call_message_lem}
use chainlink_polkadot.Ethereum.Sending.{send_transaction}

module _ {C : Crypto} (N : Node C) (e : EthereumClient N.Client) (from : Wallet C) where
  -- The transaction for a call: the node's nonce and gas price, the gas settings of the network.
  abbrev pub legacy_tx : NetworkConfig → ℤ → ℕ → C.Address → BigInt → String → LegacyTx C.Address
  legacy_tx conf price nonce to value payload = record {
    nonce = nonce;
    gas_price = some price;
    gas = (conf.transaction_limit + conf.gas_estimation_buffer) % 2 ^ 64;
    to = to;
    value = value;
    payload = payload;
  }

  -- How the call ends, by how the wait for the transaction ends: with its hash and the wait's
  -- error, or as the wait does.
  abbrev pub reported :
      N.Hash → Outcome (Unit {0}) × State N.World → Outcome (N.Hash × Option Error) × State N.World
  reported h (ok _, s) = (ok (h, none), s)
  reported h (fail x, s) = (ok (h, some x), s)
  reported h (panicked, s) = (panicked, s)
  reported h (blocked, s) = (blocked, s)

  catch-reported :
      (h : N.Hash) (r : Outcome (Unit {0}) × State N.World)
      → proceed (caught r) (λ waited. pure (h, waited)) ≡ reported h r
  catch-reported h (ok _, s) = refl
  catch-reported h (fail x, s) = refl
  catch-reported h (panicked, s) = refl
  catch-reported h (blocked, s) = refl

  module _ (to : C.Address) (value : BigInt) (payload : String) (s : State N.World)
      {conf : NetworkConfig} {price : ℤ} {w : N.World}
      (p : N.suggest_gas_price e.client s.world ≡ (inr price, w))
      (c : Network.config e.network s.heap ≡ ok conf) where
    -- With a node that answers and a good key, what is signed is the transaction of the arguments
    -- with the node's nonce and gas price, for the network's chain. Once the node has taken it, the
    -- call ends as the wait for this transaction does, with its hash.
    pub send_transaction_lem :
        {nonce : ℕ} {key : C.Key} {tx : N.Tx} {v u : N.World}
        → private_key C from ≡ inr key
        → N.pending_nonce_at e.client (sender C from) w ≡ (inr nonce, v)
        → N.sign_new_tx key conf.chain_id (legacy_tx conf price nonce to value payload) ≡ inr tx
        → N.send_transaction e.client tx v ≡ (none, u)
        → send_transaction N e from to value payload s
          ≡ reported
              (N.tx_hash tx)
              (wait_for_transaction N e (N.tx_hash tx) (record s { world = u }))
    unfolding ◌>>=◌ ◌>>◌ send_transaction
    send_transaction_lem {tx} {u} k n t h =
        rw (transaction_call_message_lem N e from to value payload s p c, k, n, c, t, h)
          (catch-reported (N.tx_hash tx)
            (wait_for_transaction N e (N.tx_hash tx) (record s { world = u })))

    -- The key is tested before anything else is asked of the node: with a bad key only the gas
    -- price has been asked, and nothing is sent.
    send_transaction_bad_key :
        {x : Error}
        → C.hex_to_ecdsa from.private_key ≡ inl x
        → send_transaction N e from to value payload s
          ≡ (fail (invalid_private_key x), record s { world = w })
    unfolding ◌>>=◌ ◌>>◌ send_transaction private_key
    send_transaction_bad_key k =
        rw (transaction_call_message_lem N e from to value payload s p c, k)

    -- A transaction that the node refuses gives no hash, and is not waited for.
    send_transaction_refused :
        {nonce : ℕ} {key : C.Key} {tx : N.Tx} {x : Error} {v u : N.World}
        → private_key C from ≡ inr key
        → N.pending_nonce_at e.client (sender C from) w ≡ (inr nonce, v)
        → N.sign_new_tx key conf.chain_id (legacy_tx conf price nonce to value payload) ≡ inr tx
        → N.send_transaction e.client tx v ≡ (some x, u)
        → send_transaction N e from to value payload s ≡ (fail x, record s { world = u })
    unfolding ◌>>=◌ ◌>>◌ send_transaction
    send_transaction_refused k n t h =
        rw (transaction_call_message_lem N e from to value payload s p c, k, n, c, t, h)
