-- ===== src/Ethereum/Sending/Settled.antt =====
-- What a call of `SendTransaction` of ethereum.go without an error says.
use chainlink_polkadot.Prelude.{ℕ, ◌+◌, ◌≤◌, ◌≡◌, ◌∙◌, sym, String, none, length, inr}
use chainlink_polkadot.Prelude.Int.{ℤ, pos, ◌≤ℤ◌}
use chainlink_polkadot.Program.{Outcome, ok, fail, panicked, blocked}
use chainlink_polkadot.Config.{NetworkConfig}
use chainlink_polkadot.Crypto.{Crypto}
use chainlink_polkadot.Node.{Node, BigInt}
use chainlink_polkadot.Wallets.{Wallet}
use chainlink_polkadot.Network
use chainlink_polkadot.Ethereum.Defs.{State, EthereumClient}
use chainlink_polkadot.Ethereum.Wait.Result.{OnlyHeaders}
use chainlink_polkadot.Ethereum.Wait.Confirmed.{wait_for_transaction-headers}
use chainlink_polkadot.Ethereum.Messages.{private_key, sender}
use chainlink_polkadot.Ethereum.Sending.{send_transaction}
use chainlink_polkadot.Ethereum.Sending.Signed.{legacy_tx, reported, send_transaction_lem}

module _ {C : Crypto} (N : Node C) (e : EthereumClient N.Client) (from : Wallet C) where
  reported_ok :
      (h : N.Hash) (t : State N.World) (r : Outcome (Unit {0}) × State N.World)
      → reported N e from h r ≡ (ok (h, none), t)
      → r ≡ (ok tt, t)
  reported_ok h t (ok tt, s) q = cc
  reported_ok h t (fail x, s) q = cc
  reported_ok h t (panicked, s) q = cc
  reported_ok h t (blocked, s) q = cc

  -- With a node that answers and takes the signed transaction, and selects that receive headers
  -- only, `SendTransaction` returns the transaction's hash without an error no earlier than after
  -- as many headers as the network's minimum of confirmations, and one at least.
  pub send_transaction-headers :
      (to : C.Address) (value : BigInt) (payload : String) (s t : State N.World)
      {conf : NetworkConfig} {price : ℤ} {w v u : N.World} {nonce : ℕ} {key : C.Key} {tx : N.Tx}
      → N.suggest_gas_price e.client s.world ≡ (inr price, w)
      → Network.config e.network s.heap ≡ ok conf
      → private_key C from ≡ inr key
      → N.pending_nonce_at e.client (sender C from) w ≡ (inr nonce, v)
      → N.sign_new_tx key conf.chain_id (legacy_tx N e from conf price nonce to value payload)
        ≡ inr tx
      → N.send_transaction e.client tx v ≡ (none, u)
      → OnlyHeaders s.schedule
      → send_transaction N e from to value payload s ≡ (ok (N.tx_hash tx, none), t)
      → (k : ℕ) × (1 ≤ k)
        × (conf.minimum_confirmations ≤ℤ pos k)
        × (k + length t.schedule ≤ length s.schedule)
  send_transaction-headers to value payload s t {u} {tx} p c k n g h only q =
      wait_for_transaction-headers N e (N.tx_hash tx) (record s { world = u }) t c only
        (reported_ok (N.tx_hash tx) t _
          (sym (send_transaction_lem N e from to value payload s p c k n g h) ∙ q))
