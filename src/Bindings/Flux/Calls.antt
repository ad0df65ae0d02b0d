-- ===== src/Bindings/Flux/Calls.antt =====
-- The read-only methods of fm-demo/go-scripts/contracts/ethereum/FluxAggregator.go.
use chainlink_polkadot.Prelude.{ℕ, Bool, [], ◌∷◌}
use chainlink_polkadot.Program.{M, ◌>>=◌, pure}
use chainlink_polkadot.Crypto.{Crypto}
use chainlink_polkadot.Node.{Node, BigInt}
use chainlink_polkadot.Ethereum.Defs.{State, call}
use chainlink_polkadot.Bindings.Bound.{
  Bind, CallOpts, Instance, address, as_address, as_big, as_flag, as_small, big, call_one, field,
  small,
}
use chainlink_polkadot.Bindings.Aggregators.{RoundData, round_data}

-- The anonymous struct of `OracleRoundState`.
pub record OracleRoundState : Type 0 where
  pub eligible_to_submit : Bool
  pub round_id : ℕ
  pub latest_submission : BigInt
  pub started_at : ℕ
  pub timeout : ℕ
  pub available_funds : BigInt
  pub oracle_count : ℕ
  pub payment_amount : BigInt

module _ {C : Crypto} (N : Node C) (B : Bind N) where
  module _ (c : Instance B.BoundContract) where
    unfoldable pub decimals : CallOpts C.Address → M (State N.World) ℕ
    decimals opts = call_one N B as_small c "decimals" [] opts

    unfoldable pub get_admin : CallOpts C.Address → C.Address → M (State N.World) C.Address
    get_admin opts oracle = call_one N B as_address c "getAdmin" (address oracle ∷ []) opts

    unfoldable pub get_answer : CallOpts C.Address → BigInt → M (State N.World) BigInt
    get_answer opts round_id = call_one N B as_big c "getAnswer" (big round_id ∷ []) opts

    unfoldable pub get_round_data : CallOpts C.Address → BigInt → M (State N.World) RoundData
    get_round_data opts round_id = round_data N B c "getRoundData" (big round_id ∷ []) opts

    unfoldable pub get_timestamp : CallOpts C.Address → BigInt → M (State N.World) BigInt
    get_timestamp opts round_id = call_one N B as_big c "getTimestamp" (big round_id ∷ []) opts

    unfoldable pub latest_answer : CallOpts C.Address → M (State N.World) BigInt
    latest_answer opts = call_one N B as_big c "latestAnswer" [] opts

    unfoldable pub latest_round : CallOpts C.Address → M (State N.World) BigInt
    latest_round opts = call_one N B as_big c "latestRound" [] opts

    unfoldable pub latest_timestamp : CallOpts C.Address → M (State N.World) BigInt
    latest_timestamp opts = call_one N B as_big c "latestTimestamp" [] opts

    unfoldable pub link_token : CallOpts C.Address → M (State N.World) C.Address
    link_token opts = call_one N B as_address c "linkToken" [] opts

    unfoldable pub max_submission_count : CallOpts C.Address → M (State N.World) ℕ
    max_submission_count opts = call_one N B as_small c "maxSubmissionCount" [] opts

    unfoldable pub max_submission_value : CallOpts C.Address → M (State N.World) BigInt
    max_submission_value opts = call_one N B as_big c "maxSubmissionValue" [] opts

    unfoldable pub min_submission_count : CallOpts C.Address → M (State N.World) ℕ
    min_submission_count opts = call_one N B as_small c "minSubmissionCount" [] opts

    unfoldable pub min_submission_value : CallOpts C.Address → M (State N.World) BigInt
    min_submission_value opts = call_one N B as_big c "minSubmissionValue" [] opts

    unfoldable pub oracle_count : CallOpts C.Address → M (State N.World) ℕ
    oracle_count opts = call_one N B as_small c "oracleCount" [] opts

    unfoldable pub oracle_round_state :
        CallOpts C.Address → C.Address → ℕ → M (State N.World) OracleRoundState
    oracle_round_state opts oracle queried_round_id = do
      out ←
          call
            (B.call c.caller opts "oracleRoundState" (address oracle ∷ small queried_round_id ∷ []))
      eligible_to_submit ← field N B as_flag 0 out
      round_id ← field N B as_small 1 out
      latest_submission ← field N B as_big 2 out
      started_at ← field N B as_small 3 out
      timeout ← field N B as_small 4 out
      available_funds ← field N B as_big 5 out
      oracle_count ← field N B as_small 6 out
      payment_amount ← field N B as_big 7 out
      pure (record {
        eligible_to_submit = eligible_to_submit;
        round_id = round_id;
        latest_submission = latest_submission;
        started_at = started_at;
        timeout = timeout;
        available_funds = available_funds;
        oracle_count = oracle_count;
        payment_amount = payment_amount;
      })

    unfoldable pub owner : CallOpts C.Address → M (State N.World) C.Address
    owner opts = call_one N B as_address c "owner" [] opts

    unfoldable pub payment_amount : CallOpts C.Address → M (State N.World) BigInt
    payment_amount opts = call_one N B as_big c "paymentAmount" [] opts

    unfoldable pub restart_delay : CallOpts C.Address → M (State N.World) ℕ
    restart_delay opts = call_one N B as_small c "restartDelay" [] opts

    unfoldable pub timeout : CallOpts C.Address → M (State N.World) ℕ
    timeout opts = call_one N B as_small c "timeout" [] opts

    unfoldable pub validator : CallOpts C.Address → M (State N.World) C.Address
    validator opts = call_one N B as_address c "validator" [] opts

    unfoldable pub version : CallOpts C.Address → M (State N.World) BigInt
    version opts = call_one N B as_big c "version" [] opts

    unfoldable pub withdrawable_payment : CallOpts C.Address → C.Address → M (State N.World) BigInt
    withdrawable_payment opts oracle =
        call_one N B as_big c "withdrawablePayment" (address oracle ∷ []) opts
