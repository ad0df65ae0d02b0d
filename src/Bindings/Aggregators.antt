-- ===== src/Bindings/Aggregators.antt =====
-- What the program calls of fm-demo/go-scripts/contracts/ethereum/FluxAggregator.go and
-- OffchainAggregator.go.
use chainlink_polkadot.Prelude.{ℕ, String, List, [], ◌∷◌}
use chainlink_polkadot.Program.{M, ◌>>=◌, pure}
use chainlink_polkadot.Crypto.{Crypto}
use chainlink_polkadot.Node.{Node, BigInt, TransactOpts}
use chainlink_polkadot.Ethereum.Defs.{State, call}
use chainlink_polkadot.Bindings.Bound.{
  Value, big, small, text, raw, address, addresses, as_big, as_text, as_address, as_addresses,
  CallOpts, Artifact, Bind, Instance, Deployed, deploy, field, call_one, transact,
}

-- The anonymous struct of `LatestRoundData`, and `RoundData` of contract_models.go, which has the
-- same fields.
pub record RoundData : Type 0 where
  pub round_id : BigInt
  pub answer : BigInt
  pub started_at : BigInt
  pub updated_at : BigInt
  pub answered_in_round : BigInt

-- `FluxAggregatorOptions` and `OffchainOptions` of contract_models.go.
pub record FluxAggregatorOptions (Address : Type 0) : Type 0 where
  pub payment_amount : BigInt
  pub timeout : ℕ
  pub validator : Address
  pub min_sub_value : BigInt
  pub max_sub_value : BigInt
  pub decimals : ℕ
  pub description : String

pub record OffchainOptions (Address : Type 0) : Type 0 where
  pub maximum_gas_price : ℕ
  pub reasonable_gas_price : ℕ
  pub micro_link_per_eth : ℕ
  pub link_gwei_per_observation : ℕ
  pub link_gwei_per_transmission : ℕ
  pub minimum_answer : BigInt
  pub maximum_answer : BigInt
  pub billing_access_controller : Address
  pub requester_access_controller : Address
  pub decimals : ℕ
  pub description : String

module _ {C : Crypto} (N : Node C) (B : Bind N) where
  -- A method that returns the five values of a round.
  abbrev pub round_data :
      Instance B.BoundContract
      → String
      → List (Value C.Address)
      → CallOpts C.Address
      → M (State N.World) RoundData
  round_data c method params opts = do
    out ← call (B.call c.caller opts method params)
    round_id ← field N B as_big 0 out
    answer ← field N B as_big 1 out
    started_at ← field N B as_big 2 out
    updated_at ← field N B as_big 3 out
    answered_in_round ← field N B as_big 4 out
    pure (record {
      round_id = round_id;
      answer = answer;
      started_at = started_at;
      updated_at = updated_at;
      answered_in_round = answered_in_round;
    })

  -- `LatestRoundData` of both contracts.
  unfoldable pub latest_round_data :
      Instance B.BoundContract → CallOpts C.Address → M (State N.World) RoundData
  latest_round_data c opts = round_data c "latestRoundData" [] opts

  -- `DeployFluxAggregator`
  unfoldable pub deploy_flux_aggregator :
      Artifact
      → TransactOpts C.Address N.Signer
      → N.Client
      → C.Address
      → FluxAggregatorOptions C.Address
      → M (State N.World) (Deployed N B)
  deploy_flux_aggregator art auth backend link o =
      deploy N B art
        (address link
          ∷ big o.payment_amount
          ∷ small o.timeout
          ∷ address o.validator
          ∷ big o.min_sub_value
          ∷ big o.max_sub_value
          ∷ small o.decimals
          ∷ text o.description
          ∷ [])
        auth backend

  -- `DeployOffchainAggregator`
  unfoldable pub deploy_offchain_aggregator :
      Artifact
      → TransactOpts C.Address N.Signer
      → N.Client
      → C.Address
      → OffchainOptions C.Address
      → M (State N.World) (Deployed N B)
  deploy_offchain_aggregator art auth backend link o =
      deploy N B art
        (small o.maximum_gas_price
          ∷ small o.reasonable_gas_price
          ∷ small o.micro_link_per_eth
          ∷ small o.link_gwei_per_observation
          ∷ small o.link_gwei_per_transmission
          ∷ address link
          ∷ big o.minimum_answer
          ∷ big o.maximum_answer
          ∷ address o.billing_access_controller
          ∷ address o.requester_access_controller
          ∷ small o.decimals
          ∷ text o.description
          ∷ [])
        auth backend

  module _ (c : Instance B.BoundContract) where
    unfoldable pub allocated_funds : CallOpts C.Address → M (State N.World) BigInt
    allocated_funds opts = call_one N B as_big c "allocatedFunds" [] opts

    unfoldable pub available_funds : CallOpts C.Address → M (State N.World) BigInt
    available_funds opts = call_one N B as_big c "availableFunds" [] opts

    unfoldable pub get_oracles : CallOpts C.Address → M (State N.World) (List C.Address)
    get_oracles opts = call_one N B as_addresses c "getOracles" [] opts

    unfoldable pub description : CallOpts C.Address → M (State N.World) String
    description opts = call_one N B as_text c "description" [] opts

    unfoldable pub change_oracles :
        TransactOpts C.Address N.Signer
        → List C.Address
        → List C.Address
        → List C.Address
        → ℕ
        → ℕ
        → ℕ
        → M (State N.World) N.Tx
    change_oracles opts removed added added_admins min_submissions max_submissions restart_delay =
        transact N B c "changeOracles"
          (addresses removed
            ∷ addresses added
            ∷ addresses added_admins
            ∷ small min_submissions
            ∷ small max_submissions
            ∷ small restart_delay
            ∷ [])
          opts

    -- `LINK`
    unfoldable pub link : CallOpts C.Address → M (State N.World) C.Address
    link opts = call_one N B as_address c "LINK" [] opts

    unfoldable pub set_payees :
        TransactOpts C.Address N.Signer → List C.Address → List C.Address → M (State N.World) N.Tx
    set_payees opts transmitters payees =
        transact N B c "setPayees" (addresses transmitters ∷ addresses payees ∷ []) opts

    unfoldable pub set_config :
        TransactOpts C.Address N.Signer
        → List C.Address
        → List C.Address
        → ℕ
        → ℕ
        → String
        → M (State N.World) N.Tx
    set_config opts signers transmitters threshold encoded_config_version encoded =
        transact N B c "setConfig"
          (addresses signers
            ∷ addresses transmitters
            ∷ small threshold
            ∷ small encoded_config_version
            ∷ raw encoded
            ∷ [])
          opts
