-- ===== src/Ethereum/Sending.antt =====
-- Sending a transaction and deploying a contract, in fm-demo/go-scripts/client/ethereum.go.
pub mod Settled
pub mod Signed
use chainlink_polkadot.Prelude.{ℕ, String, Option, none, some, ◌⊎◌, inl, inr}
use chainlink_polkadot.Prelude.Int.{ℤ, pos}
use chainlink_polkadot.Errors.{Error}
use chainlink_polkadot.Program.{Outcome, ok, fail, panicked, blocked, M, ◌>>=◌, ◌>>◌, pure}
use chainlink_polkadot.Crypto.{Crypto}
use chainlink_polkadot.Node.{Node, BigInt, CallMsg, LegacyTx, TransactOpts}
use chainlink_polkadot.Wallets.{Wallet, wallet_address}
use chainlink_polkadot.Network
use chainlink_polkadot.Ethereum.Defs.{State, EthereumClient, call, attempt, check, read, catch}
use chainlink_polkadot.Ethereum.Wait.{wait_for_transaction}
use chainlink_polkadot.Ethereum.Messages.{
  private_key, sender, transaction_call_message, transaction_opts,
}

module _ {C : Crypto} (N : Node C) (e : EthereumClient N.Client) (from : Wallet C) where
  -- `SendTransaction`. Once the transaction is sent its hash is returned with the error of the
  -- wait.
  unfoldable pub send_transaction :
      C.Address → BigInt → String → M (State N.World) (N.Hash × Option Error)
  unfolding Network.chain_id
  send_transaction to value payload = do
    msg ← transaction_call_message N e from to value payload
    key ← check (private_key C from)
    nonce ← call (N.pending_nonce_at e.client (sender C from))
    chain ← read (Network.chain_id e.network)
    tx ← check (
        N.sign_new_tx key chain (record {
          nonce = nonce;
          gas_price = msg.gas_price;
          gas = msg.gas;
          to = msg.to;
          value = msg.value;
          payload = msg.payload;
        }))
    attempt (N.send_transaction e.client tx)
    waited ← catch (wait_for_transaction N e (N.tx_hash tx))
    pure (N.tx_hash tx, waited)

  -- `ContractDeployer`: the address, the transaction and the instance of the contract.
  abbrev pub ContractDeployer : Type 0 → Type 0
  ContractDeployer A =
      TransactOpts C.Address N.Signer → N.Client → M (State N.World) (C.Address × N.Tx × A)

  -- `DeployContract`
  unfoldable pub deploy_contract :
      {A : Type 0} → ContractDeployer A → M (State N.World) (C.Address × N.Tx × A)
  deploy_contract deployer = do
    opts ← transaction_opts N e from C.zero_address (some (pos 0)) ""
    (address, tx, instance_) ← deployer opts e.client
    wait_for_transaction N e (N.tx_hash tx)
    pure (address, tx, instance_)
