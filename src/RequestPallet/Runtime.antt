-- ===== src/RequestPallet/Runtime.antt =====
-- The storage of pallet-chainlink/src/lib.rs, its events and errors, and what the pallet takes from
-- the runtime: the currency, the callbacks and the period of validity.
use chainlink_polkadot.Prelude.{
  ℕ, String, Bool, Option, none, some, List, [], ◌∷◌, ◌⊎◌, ◌==◌, if◌then◌else◌,
}

-- An `AccountId` is only compared.
abbrev pub AccountId : Type 0
AccountId = ℕ

-- `Error`, the error of an unsigned origin, and those of the currency.
pub data Error (Foreign : Type 0) : Type 0 where
  unknown_operator unknown_request wrong_operator operator_already_registered : Error Foreign
  unknown_callback insufficient_fee bad_origin : Error Foreign
  foreign : Foreign → Error Foreign

-- `Event`
pub data Event : Type 0 where
  oracle_request : AccountId → String → ℕ → AccountId → ℕ → String → String → ℕ → Event
  oracle_answer : AccountId → ℕ → AccountId → String → ℕ → Event
  operator_registered operator_unregistered : AccountId → Event
  kill_request : ℕ → Event

-- The tuple that `Requests` stores.
pub record Request (Callback : Type 0) : Type 0 where
  pub operator : AccountId
  pub callbacks : List Callback
  pub block : ℕ
  pub fee : ℕ

-- The storage, with the block number and the events of the system pallet, and the rest of the
-- chain, the balances among it.
pub record Chain (Callback World : Type 0) : Type 0 where
  pub operators : AccountId → Bool
  pub next_request_identifier : ℕ
  pub requests : List (ℕ × Request Callback)
  pub block_number : ℕ
  pub events : List Event
  pub world : World

-- `Config`: `reserve` and `repatriate_reserved` of the currency, the latter with what it could not
-- move, `with_result` of the callback, and its dispatch as root, the result of which is dropped.
-- `block_modulus` is 2 to the width of a block number.
pub record Config : Type 1 where
  pub World : Type 0
  pub Callback : Type 0
  pub Foreign : Type 0
  pub validity_period : ℕ
  pub block_modulus : ℕ
  pub reserve : AccountId → ℕ → World → Foreign ⊎ World
  pub repatriate_reserved : AccountId → AccountId → ℕ → World → (Foreign ⊎ ℕ) × World
  pub with_result : Callback → String → Option Callback
  pub dispatch : Callback → Chain Callback World → Chain Callback World

-- A storage map, as the list of its entries.
module _ {V : Type 0} where
  unfoldable pub lookup : ℕ → List (ℕ × V) → Option V
  lookup k [] = none
  lookup k ((j, v) ∷ m) = if j == k then some v else lookup k m

  unfoldable pub remove : ℕ → List (ℕ × V) → List (ℕ × V)
  remove k [] = []
  remove k ((j, v) ∷ m) = if j == k then remove k m else (j, v) ∷ remove k m

  unfoldable pub insert : ℕ → V → List (ℕ × V) → List (ℕ × V)
  unfolding remove
  insert k v m = (k, v) ∷ remove k m

-- How a call ends: `Ok`, with an error, or in a panic.
pub data DispatchResult (Foreign : Type 0) : Type 0 where
  done : DispatchResult Foreign
  failed : Error Foreign → DispatchResult Foreign
  panicked : DispatchResult Foreign

-- `RawOrigin`
pub data Origin : Type 0 where
  signed : AccountId → Origin
  root unsigned : Origin
