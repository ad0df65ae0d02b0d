-- ===== src/Bindings/Bound.antt =====
-- What the generated bindings do alike, as in fm-demo/go-scripts/contracts/ethereum/store.go, over
-- the library `bind` as a parameter. A `context.Context` is left out: what it cancels ends in an
-- error of the call.
use chainlink_polkadot.Prelude.{ℕ, String, Bool, Option, none, some, List, ◌⊎◌, get_elem?}
use chainlink_polkadot.Errors.{Error}
use chainlink_polkadot.Program.{Outcome, ok, panicked, M, ◌>>=◌, pure}
use chainlink_polkadot.Crypto.{Crypto}
use chainlink_polkadot.Node.{Node, BigInt, TransactOpts}
use chainlink_polkadot.Ethereum.Defs.{State, call, check}

-- An argument or a result of a contract's method, by its Go type.
pub data Value (Address : Type 0) : Type 0 where
  big : BigInt → Value Address
  small : ℕ → Value Address
  text : String → Value Address
  raw : String → Value Address
  address : Address → Value Address
  addresses : List Address → Value Address
  flag : Bool → Value Address
  words : List String → Value Address

-- `abi.ConvertType` to a type that is not the value's panics.
module _ {A : Type 0} where
  abbrev pub as_big : Value A → Outcome BigInt
  as_big (big n) = ok n
  as_big _ = panicked

  abbrev pub as_small : Value A → Outcome ℕ
  as_small (small n) = ok n
  as_small _ = panicked

  abbrev pub as_text : Value A → Outcome String
  as_text (text t) = ok t
  as_text _ = panicked

  abbrev pub as_address : Value A → Outcome A
  as_address (address a) = ok a
  as_address _ = panicked

  abbrev pub as_addresses : Value A → Outcome (List A)
  as_addresses (addresses l) = ok l
  as_addresses _ = panicked

  abbrev pub as_flag : Value A → Outcome Bool
  as_flag (flag b) = ok b
  as_flag _ = panicked

  abbrev pub as_raw : Value A → Outcome String
  as_raw (raw b) = ok b
  as_raw _ = panicked

-- `bind.CallOpts`
pub record CallOpts (Address : Type 0) : Type 0 where
  pub pending : Bool
  pub from : Address

-- The compiled contract: the constants `…ABI` and `…Bin` of its file.
pub record Artifact : Type 0 where
  pub abi : String
  pub bin : String

pub record Bind {C : Crypto} (N : Node C) : Type 1 where
  pub Abi : Type 0
  pub BoundContract : Type 0
  -- `abi.JSON`, `common.FromHex`
  pub abi_json : String → Error ⊎ Abi
  pub from_hex : String → String
  pub deploy_contract :
      TransactOpts C.Address N.Signer
      → Abi
      → String
      → N.Client
      → List (Value C.Address)
      → N.World
      → (Error ⊎ (C.Address × N.Tx × BoundContract)) × N.World
  -- The caller, the transactor and the filterer, each of which may be nil.
  pub new_bound_contract :
      C.Address → Abi → Option N.Client → Option N.Client → Option N.Client → BoundContract
  pub call :
      BoundContract
      → CallOpts C.Address
      → String
      → List (Value C.Address)
      → N.World
      → (Error ⊎ List (Value C.Address)) × N.World
  pub transact :
      BoundContract
      → TransactOpts C.Address N.Signer
      → String
      → List (Value C.Address)
      → N.World
      → (Error ⊎ N.Tx) × N.World

-- The struct of a contract: its three embedded parts hold the generic contract.
pub record Instance (BoundContract : Type 0) : Type 0 where
  pub caller : BoundContract
  pub transactor : BoundContract
  pub filterer : BoundContract

module _ {C : Crypto} (N : Node C) (B : Bind N) where
  abbrev pub of_contract : B.BoundContract → Instance B.BoundContract
  of_contract c = record { caller = c; transactor = c; filterer = c }

  abbrev pub Deployed : Type 0
  Deployed = C.Address × N.Tx × Instance B.BoundContract

  -- `Deploy…`
  unfoldable pub deploy :
      Artifact
      → List (Value C.Address)
      → TransactOpts C.Address N.Signer
      → N.Client
      → M (State N.World) Deployed
  deploy art params auth backend = do
    parsed ← check (B.abi_json art.abi)
    (at, tx, contract) ← call (B.deploy_contract auth parsed (B.from_hex art.bin) backend params)
    pure (at, tx, of_contract contract)

  -- `bind…`
  unfoldable pub bind_contract :
      Artifact
      → C.Address
      → Option N.Client
      → Option N.Client
      → Option N.Client
      → M (State N.World) B.BoundContract
  bind_contract art at caller transactor filterer = do
    parsed ← check (B.abi_json art.abi)
    pure (B.new_bound_contract at parsed caller transactor filterer)

  -- `New…`
  unfoldable pub new_instance :
      Artifact → C.Address → N.Client → M (State N.World) (Instance B.BoundContract)
  new_instance art at backend = do
    contract ← bind_contract art at (some backend) (some backend) (some backend)
    pure (of_contract contract)

  -- `New…Caller`, `New…Transactor` and `New…Filterer`, whose structs hold only the generic
  -- contract.
  unfoldable pub new_caller : Artifact → C.Address → N.Client → M (State N.World) B.BoundContract
  new_caller art at caller = bind_contract art at (some caller) none none

  unfoldable pub new_transactor :
      Artifact → C.Address → N.Client → M (State N.World) B.BoundContract
  new_transactor art at transactor = bind_contract art at none (some transactor) none

  unfoldable pub new_filterer : Artifact → C.Address → N.Client → M (State N.World) B.BoundContract
  new_filterer art at filterer = bind_contract art at none none (some filterer)

  abbrev convert :
      {A : Type 0} → (Value C.Address → Outcome A) → Option (Value C.Address) → Outcome A
  convert as_type none = panicked
  convert as_type (some v) = as_type v

  -- `*abi.ConvertType(out[i], …)`
  abbrev pub field :
      {A : Type 0}
      → (Value C.Address → Outcome A)
      → ℕ
      → List (Value C.Address)
      → M (State N.World) A
  field as_type i out s = (convert as_type (get_elem? out i), s)

  -- A method that returns one value.
  unfoldable pub call_one :
      {A : Type 0}
      → (Value C.Address → Outcome A)
      → Instance B.BoundContract
      → String
      → List (Value C.Address)
      → CallOpts C.Address
      → M (State N.World) A
  call_one as_type c method params opts = do
    out ← call (B.call c.caller opts method params)
    field as_type 0 out

  -- A method that makes a transaction.
  unfoldable pub transact :
      Instance B.BoundContract
      → String
      → List (Value C.Address)
      → TransactOpts C.Address N.Signer
      → M (State N.World) N.Tx
  transact c method params opts = call (B.transact c.transactor opts method params)
