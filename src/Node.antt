-- ===== src/Node.antt =====
-- What the Go code calls of go-ethereum's `ethclient`, `types` and `bind`, and of the node behind
-- it, as a parameter. Every call to the node may change the world that the next one sees.
use chainlink_polkadot.Prelude.{ℕ, String, Bool, Option, ◌⊎◌}
use chainlink_polkadot.Prelude.Int.{ℤ}
use chainlink_polkadot.Errors.{Error}
use chainlink_polkadot.Crypto.{Crypto}

-- A `*big.Int`, which may be nil.
abbrev pub BigInt : Type 0
BigInt = Option ℤ

-- What one `select` of `WaitForTransaction` receives: the subscription's error, which is nil when
-- it was closed, a new header with its number, or the timer.
pub data Wake : Type 0 where
  sub_error : Option Error → Wake
  header : ℕ → Wake
  timer : Wake

-- `ethereum.CallMsg`
pub record CallMsg (Address : Type 0) : Type 0 where
  pub from : Address
  pub to : Address
  pub gas : ℕ
  pub gas_price : BigInt
  pub value : BigInt
  pub payload : String

-- `types.LegacyTx`
pub record LegacyTx (Address : Type 0) : Type 0 where
  pub nonce : ℕ
  pub gas_price : BigInt
  pub gas : ℕ
  pub to : Address
  pub value : BigInt
  pub payload : String

-- `bind.TransactOpts`
pub record TransactOpts (Address Signer : Type 0) : Type 0 where
  pub from : Address
  pub nonce : BigInt
  pub signer : Signer
  pub value : BigInt
  pub gas_price : BigInt
  pub gas_limit : ℕ

pub record Node (C : Crypto) : Type 1 where
  pub World : Type 0
  pub Client : Type 0
  pub Hash : Type 0
  -- a signed transaction
  pub Tx : Type 0
  pub Signer : Type 0
  -- `types.SignNewTx` under `types.NewEIP2930Signer` of the chain, `Transaction.Hash`
  pub sign_new_tx : C.Key → ℤ → LegacyTx C.Address → Error ⊎ Tx
  pub tx_hash : Tx → Hash
  -- `bind.NewKeyedTransactorWithChainID`
  pub new_keyed_transactor : C.Key → ℤ → Error ⊎ TransactOpts C.Address Signer
  -- `ethclient.Dial` and the methods of the client
  pub dial : String → World → (Error ⊎ Client) × World
  pub suggest_gas_price : Client → World → (Error ⊎ ℤ) × World
  pub pending_nonce_at : Client → C.Address → World → (Error ⊎ ℕ) × World
  pub send_transaction : Client → Tx → World → Option Error × World
  pub subscribe_new_head : Client → World → Option Error × World
  pub unsubscribe : Client → World → World
  pub block_by_number : Client → ℕ → World → Option Error × World
  -- whether the transaction is pending
  pub transaction_by_hash : Client → Hash → World → (Error ⊎ Bool) × World
