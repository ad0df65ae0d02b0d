-- ===== src/Bindings/Offchain/Calls.antt =====
-- The read-only methods of fm-demo/go-scripts/contracts/ethereum/OffchainAggregator.go.
use chainlink_polkadot.Prelude.{ℕ, String, List, [], ◌∷◌}
use chainlink_polkadot.Program.{M, ◌>>=◌, pure}
use chainlink_polkadot.Crypto.{Crypto}
use chainlink_polkadot.Node.{Node, BigInt}
use chainlink_polkadot.Ethereum.Defs.{State, call}
use chainlink_polkadot.Bindings.Bound.{
  Bind, CallOpts, Instance, address, as_address, as_addresses, as_big, as_raw, as_small, as_text,
  big, call_one, field,
}
use chainlink_polkadot.Bindings.Aggregators.{RoundData, round_data}

-- The anonymous struct of `GetBilling`.
pub record GetBilling : Type 0 where
  pub maximum_gas_price : ℕ
  pub reasonable_gas_price : ℕ
  pub micro_link_per_eth : ℕ
  pub link_gwei_per_observation : ℕ
  pub link_gwei_per_transmission : ℕ

-- The anonymous struct of `LatestConfigDetails`.
pub record LatestConfigDetails : Type 0 where
  pub config_count : ℕ
  pub block_number : ℕ
  pub config_digest : String

-- The anonymous struct of `LatestTransmissionDetails`.
pub record LatestTransmissionDetails : Type 0 where
  pub config_digest : String
  pub epoch : ℕ
  pub round : ℕ
  pub latest_answer : BigInt
  pub latest_timestamp : ℕ

-- The anonymous struct of `ValidatorConfig`.
pub record ValidatorConfig (Address : Type 0) : Type 0 where
  pub validator : Address
  pub gas_limit : ℕ

module _ {C : Crypto} (N : Node C) (B : Bind N) where
  module _ (c : Instance B.BoundContract) where
    unfoldable pub billing_access_controller : CallOpts C.Address → M (State N.World) C.Address
    billing_access_controller opts = call_one N B as_address c "billingAccessController" [] opts

    unfoldable pub decimals : CallOpts C.Address → M (State N.World) ℕ
    decimals opts = call_one N B as_small c "decimals" [] opts

    unfoldable pub description : CallOpts C.Address → M (State N.World) String
    description opts = call_one N B as_text c "description" [] opts

    unfoldable pub get_answer : CallOpts C.Address → BigInt → M (State N.World) BigInt
    get_answer opts round_id = call_one N B as_big c "getAnswer" (big round_id ∷ []) opts

    unfoldable pub get_billing : CallOpts C.Address → M (State N.World) GetBilling
    get_billing opts = do
      out ← call (B.call c.caller opts "getBilling" [])
      maximum_gas_price ← field N B as_small 0 out
      reasonable_gas_price ← field N B as_small 1 out
      micro_link_per_eth ← field N B as_small 2 out
      link_gwei_per_observation ← field N B as_small 3 out
      link_gwei_per_transmission ← field N B as_small 4 out
      pure (record {
        maximum_gas_price = maximum_gas_price;
        reasonable_gas_price = reasonable_gas_price;
        micro_link_per_eth = micro_link_per_eth;
        link_gwei_per_observation = link_gwei_per_observation;
        link_gwei_per_transmission = link_gwei_per_transmission;
      })

    unfoldable pub get_round_data : CallOpts C.Address → BigInt → M (State N.World) RoundData
    get_round_data opts round_id = round_data N B c "getRoundData" (big round_id ∷ []) opts

    unfoldable pub get_timestamp : CallOpts C.Address → BigInt → M (State N.World) BigInt
    get_timestamp opts round_id = call_one N B as_big c "getTimestamp" (big round_id ∷ []) opts

    unfoldable pub latest_answer : CallOpts C.Address → M (State N.World) BigInt
    latest_answer opts = call_one N B as_big c "latestAnswer" [] opts

    unfoldable pub latest_config_details :
        CallOpts C.Address → M (State N.World) LatestConfigDetails
    latest_config_details opts = do
      out ← call (B.call c.caller opts "latestConfigDetails" [])
      config_count ← field N B as_small 0 out
      block_number ← field N B as_small 1 out
      config_digest ← field N B as_raw 2 out
      pure (record {
        config_count = config_count;
        block_number = block_number;
        config_digest = config_digest;
      })

    unfoldable pub latest_round : CallOpts C.Address → M (State N.World) BigInt
    latest_round opts = call_one N B as_big c "latestRound" [] opts

    unfoldable pub latest_round_data : CallOpts C.Address → M (State N.World) RoundData
    latest_round_data opts = round_data N B c "latestRoundData" [] opts

    unfoldable pub latest_timestamp : CallOpts C.Address → M (State N.World) BigInt
    latest_timestamp opts = call_one N B as_big c "latestTimestamp" [] opts

    unfoldable pub latest_transmission_details :
        CallOpts C.Address → M (State N.World) LatestTransmissionDetails
    latest_transmission_details opts = do
      out ← call (B.call c.caller opts "latestTransmissionDetails" [])
      config_digest ← field N B as_raw 0 out
      epoch ← field N B as_small 1 out
      round ← field N B as_small 2 out
      latest_answer ← field N B as_big 3 out
      latest_timestamp ← field N B as_small 4 out
      pure (record {
        config_digest = config_digest;
        epoch = epoch;
        round = round;
        latest_answer = latest_answer;
        latest_timestamp = latest_timestamp;
      })

    unfoldable pub link_available_for_payment : CallOpts C.Address → M (State N.World) BigInt
    link_available_for_payment opts = call_one N B as_big c "linkAvailableForPayment" [] opts

    unfoldable pub max_answer : CallOpts C.Address → M (State N.World) BigInt
    max_answer opts = call_one N B as_big c "maxAnswer" [] opts

    unfoldable pub min_answer : CallOpts C.Address → M (State N.World) BigInt
    min_answer opts = call_one N B as_big c "minAnswer" [] opts

    unfoldable pub oracle_observation_count : CallOpts C.Address → C.Address → M (State N.World) ℕ
    oracle_observation_count opts signer_or_transmitter =
        call_one N B as_small c "oracleObservationCount" (address signer_or_transmitter ∷ []) opts

    unfoldable pub owed_payment : CallOpts C.Address → C.Address → M (State N.World) BigInt
    owed_payment opts transmitter =
        call_one N B as_big c "owedPayment" (address transmitter ∷ []) opts

    unfoldable pub owner : CallOpts C.Address → M (State N.World) C.Address
    owner opts = call_one N B as_address c "owner" [] opts

    unfoldable pub requester_access_controller : CallOpts C.Address → M (State N.World) C.Address
    requester_access_controller opts = call_one N B as_address c "requesterAccessController" [] opts

    unfoldable pub transmitters : CallOpts C.Address → M (State N.World) (List C.Address)
    transmitters opts = call_one N B as_addresses c "transmitters" [] opts

    unfoldable pub type_and_version : CallOpts C.Address → M (State N.World) String
    type_and_version opts = call_one N B as_text c "typeAndVersion" [] opts

    unfoldable pub validator_config :
        CallOpts C.Address → M (State N.World) (ValidatorConfig C.Address)
    validator_config opts = do
      out ← call (B.call c.caller opts "validatorConfig" [])
      validator ← field N B as_address 0 out
      gas_limit ← field N B as_small 1 out
      pure (record { validator = validator; gas_limit = gas_limit })

    unfoldable pub version : CallOpts C.Address → M (State N.World) BigInt
    version opts = call_one N B as_big c "version" [] opts
