-- ===== src/Tests/Contracts.antt =====
-- Funding and deploying contracts.
use chainlink_polkadot.Prelude.{
  ◌+◌, map, if◌then◌else◌, List, String, ◌≡◌, refl, none, some, inr, [], ◌∷◌,
}
use chainlink_polkadot.Prelude.Int.{pos}
use chainlink_polkadot.Errors.{foreign, invalid_private_key}
use chainlink_polkadot.Program.{ok, fail, ◌>>=◌, ◌>>◌}
use chainlink_polkadot.Config.{Heap}
use chainlink_polkadot.Node.{header, timer}
use chainlink_polkadot.Network
use chainlink_polkadot.Network.{EthereumNetwork}
use chainlink_polkadot.Ethereum.Frame.{Keeps}
use chainlink_polkadot.Ethereum.Wait.{is_tx_confirmed, on_header, wait_loop, wait_for_transaction}
use chainlink_polkadot.Ethereum.Messages.{private_key, transaction_call_message, transaction_opts}
use chainlink_polkadot.Ethereum.Sending.{send_transaction, deploy_contract}
use chainlink_polkadot.Bindings.Bound.{Value, big, addresses, Bind, deploy}
use chainlink_polkadot.Bindings.LinkToken.{deploy_link_token}
use chainlink_polkadot.Contracts.Defs.{Contract, needed, fund}
use chainlink_polkadot.Contracts.Funding.{fund_eth, fund_link}
use chainlink_polkadot.Contracts.Deployments.{deploy_link_token_contract}
use chainlink_polkadot.Contracts.Deployments.Link.{deploy_link_token_contract_lem}
use chainlink_polkadot.Prelude.Text.{str_eq}
use chainlink_polkadot.Contracts.Methods.{flux_get_contract_data}
use chainlink_polkadot.Contracts.Methods.Values.{flux_get_contract_data_lem}
use chainlink_polkadot.Contracts.Methods.Frame.{Keeps-fund}
use chainlink_polkadot.Tests.Fixtures.{
  node, bind, artifacts, network_config, kovan, client, wallet, bad_wallet, state,
}

-- With a bad key no LINK is sent either.
fund_eth_example :
    fund bind artifacts client bad_wallet "0xto" (some (pos 1)) (some (pos 2)) (state 8 [])
    ≡ (fail (invalid_private_key (foreign "bad key")), state 9 [])
unfolding needed send_transaction transaction_call_message private_key Network.config ◌>>=◌ ◌>>◌
fund_eth_example =
    fund_eth bind artifacts client bad_wallet "0xto" (some (pos 1)) (some (pos 2)) (state 8 []) refl

fund_link_example :
    fund bind artifacts client wallet "0xto" none (some (pos 2)) (state 8 (timer ∷ []))
    ≡ wait_for_transaction node client 9 (state 11 (timer ∷ []))
unfolding needed transaction_opts transaction_call_message private_key Network.config
    Network.chain_id ◌>>=◌ ◌>>◌
fund_link_example =
    fund_link bind artifacts client wallet "0xto" none (some (pos 2)) (state 8 (timer ∷ []))
      (state 10 (timer ∷ [])) refl refl refl refl refl refl

Keeps-fund_example : Keeps (fund bind artifacts client wallet "0xto" (some (pos 1)) (some (pos 2)))
Keeps-fund_example = Keeps-fund bind artifacts client wallet "0xto" (some (pos 1)) (some (pos 2))

deployed :
    deploy_contract node client wallet
      (deploy_link_token node bind artifacts.link_token)
      (state 8 (header 1 ∷ header 2 ∷ []))
    ≡ (
      ok ("0xlink", 8, record { caller = "bound"; transactor = "bound"; filterer = "bound" }),
      state 116 [],
    )
unfolding deploy_contract deploy_link_token deploy transaction_opts transaction_call_message
    private_key wait_for_transaction wait_loop on_header is_tx_confirmed Network.config
    Network.chain_id ◌>>=◌ ◌>>◌
deployed = refl

deploy_link_token_contract_lem_example :
    (h : Heap) × (deploy_link_token_contract bind artifacts client wallet
        (state 8 (header 1 ∷ header 2 ∷ []))
      ≡ (
        ok (record {
          client = client;
          instance_ = record { caller = "bound"; transactor = "bound"; filterer = "bound" };
          caller_wallet = wallet;
          address = "0xlink";
        }),
        record { world = 116; heap = h; schedule = [] },
      ))
    × (Network.config kovan h ≡ ok (record network_config { link_token_address = "0xlink" }))
deploy_link_token_contract_lem_example =
    deploy_link_token_contract_lem bind artifacts client wallet (state 8 (header 1 ∷ header 2 ∷ []))
      (state 116 []) kovan network_config deployed refl

-- A contract that answers each method with values of its own.
abbrev answer_to : String → List (Value String)
answer_to method =
    if str_eq method "getOracles"
    then addresses ("0xo" ∷ []) ∷ []
    else (if str_eq method "latestRoundData"
        then map (λ n. big (some (pos n))) (1 ∷ 2 ∷ 3 ∷ 4 ∷ 5 ∷ [])
        else big (some (pos 9)) ∷ [])

abbrev answering : Bind node
answering = record bind { call = λ contract opts method params w. (inr (answer_to method), w + 1) }

abbrev aggregator : Contract answering
aggregator = record {
  client = client;
  instance_ = record { caller = "bound"; transactor = "bound"; filterer = "bound" };
  caller_wallet = wallet;
  address = "0xflux";
}

flux_get_contract_data_lem_example : flux_get_contract_data aggregator (state 0 []) ≡ (
  ok (record {
    allocated_funds = some (pos 9);
    available_funds = some (pos 9);
    latest_round_data = record {
      round_id = some (pos 1);
      answer = some (pos 2);
      started_at = some (pos 3);
      updated_at = some (pos 4);
      answered_in_round = some (pos 5);
    };
    oracles = "0xo" ∷ [];
  }),
  state 4 [],
)
flux_get_contract_data_lem_example =
    flux_get_contract_data_lem aggregator (state 0 []) refl refl refl refl
