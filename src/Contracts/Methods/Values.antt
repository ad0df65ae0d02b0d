-- ===== src/Contracts/Methods/Values.antt =====
-- What `GetContractData` of the flux aggregator in ethereum_contracts.go returns.
use chainlink_polkadot.Prelude.{◌≡◌, String, List, [], ◌∷◌, inr}
use chainlink_polkadot.Program.{ok, ◌>>=◌}
use chainlink_polkadot.Crypto.{Crypto}
use chainlink_polkadot.Node.{Node, BigInt}
use chainlink_polkadot.Ethereum.Defs.{State}
use chainlink_polkadot.Bindings.Bound.{Value, big, addresses, Bind, call_one}
use chainlink_polkadot.Bindings.Aggregators
use chainlink_polkadot.Contracts.Defs.{Contract, call_opts}
use chainlink_polkadot.Contracts.Methods.{flux_get_contract_data}

module _ {C : Crypto} {N : Node C} {B : Bind N} (c : Contract B) where
  -- The node answers a read-only call of the contract's method with these values.
  abbrev pub Answers : String → N.World → List (Value C.Address) → N.World → Type 0
  Answers method w out v = B.call c.instance_.caller (call_opts B c) method [] w ≡ (inr out, v)

  -- Where the node answers its four calls, which are made one after the other, `GetContractData`
  -- returns the funds, the round with the five values of the third answer in their order, and the
  -- oracles, and changes nothing but the world.
  pub flux_get_contract_data_lem :
      (s : State N.World) {w v u t : N.World} {allocated available : BigInt}
      {round_id answer started_at updated_at answered_in_round : BigInt} {oracles : List C.Address}
      → Answers "allocatedFunds" s.world (big allocated ∷ []) w
      → Answers "availableFunds" w (big available ∷ []) v
      → Answers "latestRoundData" v
          (big round_id ∷ big answer ∷ big started_at ∷ big updated_at ∷ big answered_in_round ∷ [])
          u
      → Answers "getOracles" u (addresses oracles ∷ []) t
      → flux_get_contract_data c s ≡ (
        ok (record {
          allocated_funds = allocated;
          available_funds = available;
          latest_round_data = record {
            round_id = round_id;
            answer = answer;
            started_at = started_at;
            updated_at = updated_at;
            answered_in_round = answered_in_round;
          };
          oracles = oracles;
        }),
        record s { world = t },
      )
  unfolding flux_get_contract_data Aggregators.allocated_funds Aggregators.available_funds
      Aggregators.latest_round_data Aggregators.get_oracles call_one ◌>>=◌
  flux_get_contract_data_lem s a b d e = rw (a, b, d, e)
