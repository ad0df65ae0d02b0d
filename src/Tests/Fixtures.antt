-- ===== src/Tests/Fixtures.antt =====
-- A small world for the tests: texts as keys and addresses, a node that counts its calls and
-- confirms a transaction after a while, a library `bind` over it, and a server.
use chainlink_polkadot.Prelude.{
  ℕ, ◌+◌, String, ◌<>◌, none, some, List, [], ◌∷◌, ◌⊎◌, inl, inr, ltb, if◌then◌else◌,
}
use chainlink_polkadot.Prelude.Int.{pos}
use chainlink_polkadot.Prelude.Text.{str_eq}
use chainlink_polkadot.Errors.{Error, foreign}
use chainlink_polkadot.Config.{NetworkConfig, Heap, Config}
use chainlink_polkadot.Crypto.{Crypto}
use chainlink_polkadot.Wallets.{Wallet}
use chainlink_polkadot.Node.{Node, Wake}
use chainlink_polkadot.Network.{EthereumNetwork}
use chainlink_polkadot.Ethereum.Defs.{State, EthereumClient}
use chainlink_polkadot.Bindings.Bound.{Bind, big, Artifact}
use chainlink_polkadot.Contracts.Defs.{Artifacts}

abbrev pub parse_key : String → Error ⊎ String
parse_key key = if str_eq key "bad" then inl (foreign "bad key") else inr key

abbrev pub crypto : Crypto
crypto = record {
  Address = String;
  Key = String;
  hex_to_ecdsa = parse_key;
  pubkey_to_address = λ key. "0x" <> key;
  address_hex = λ a. a;
  hex_to_address = λ a. a;
  zero_address = "0x0";
}

-- The world is the number of calls so far. A transaction is pending until there were ten.
abbrev pub node : Node crypto
node = record {
  World = ℕ;
  Client = String;
  Hash = ℕ;
  Tx = ℕ;
  Signer = String;
  sign_new_tx = λ key chain tx. inr tx.nonce;
  tx_hash = λ tx. tx;
  new_keyed_transactor = λ key chain. inr (record {
    from = "";
    nonce = none;
    signer = key;
    value = none;
    gas_price = none;
    gas_limit = 0;
  });
  dial = λ url w. (inr url, w + 1);
  suggest_gas_price = λ cl w. (inr (pos 7), w + 1);
  pending_nonce_at = λ cl a w. (inr 5, w + 1);
  send_transaction = λ cl tx w. (none, w + 1);
  subscribe_new_head = λ cl w. (none, w + 1);
  unsubscribe = λ cl w. w + 100;
  block_by_number = λ cl number w. (none, w + 1);
  transaction_by_hash = λ cl hash w. (inr (ltb w 10), w + 1);
}

abbrev pub bind : Bind node
bind = record {
  Abi = String;
  BoundContract = String;
  abi_json = λ text. inr text;
  from_hex = λ text. text;
  deploy_contract = λ auth abi bin cl params w. (inr ("0xlink", 8, "bound"), w + 1);
  new_bound_contract = λ at abi a b c. at;
  call = λ contract opts method params w. (inr (big (some (pos 3)) ∷ []), w + 1);
  transact = λ contract opts method params w. (inr 9, w + 1);
}

abbrev pub artifact : Artifact
artifact = record { abi = "[]"; bin = "0x60" }

abbrev pub artifacts : Artifacts
artifacts = record {
  flux_aggregator = artifact;
  link_token = artifact;
  offchain_aggregator = artifact;
  store = artifact;
  vrf = artifact;
}

abbrev pub network_config : NetworkConfig
network_config = record {
  name = "Kovan";
  url = "ws://kovan";
  chain_id = pos 42;
  private_keys = some (" ab " ∷ []);
  transaction_limit = 1000000;
  timeout = pos 300;
  link_token_address = "0xold";
  minimum_confirmations = pos 2;
  gas_estimation_buffer = 10000;
  private_key_store = none;
}

abbrev pub heap : Heap
heap = network_config ∷ (record network_config { name = "Goerli" }) ∷ []

abbrev pub config : Config
config = record {
  networks = ("ethereum_kovan", 0) ∷ ("ethereum_goerli", 1) ∷ [];
  default_key_store = "";
}

abbrev pub kovan : EthereumNetwork
kovan = record { network_id = "ethereum_kovan"; network_config = 0 }

abbrev pub client : EthereumClient String
client = record { client = "cl"; network = kovan }

abbrev pub wallet : Wallet crypto
wallet = record { private_key = "ab"; address = "0xab" }

abbrev pub bad_wallet : Wallet crypto
bad_wallet = record { private_key = "bad"; address = "0xbad" }

-- A state with the number of calls so far and the selects to come.
abbrev pub state : ℕ → List Wake → State ℕ
state w ws = record { world = w; heap = heap; schedule = ws }
