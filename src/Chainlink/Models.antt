-- ===== src/Chainlink/Models.antt =====
-- The models of fm-demo/go-scripts/client/chainlink_models.go, and their zero values. A JSON
-- object of unknown shape, `map[string]interface{}`, is a parameter.
use chainlink_polkadot.Prelude.{String, List}
use chainlink_polkadot.Prelude.Int.{ℤ, pos}

pub record ChainlinkConfig : Type 0 where
  pub url : String
  pub email : String
  pub password : String

pub record ResponseSlice (Object : Type 0) : Type 0 where
  pub objects : List Object

pub record Response (Object : Type 0) : Type 0 where
  pub object : Object

pub record BridgeTypeAttributes : Type 0 where
  pub name : String
  pub url : String

pub record BridgeTypeData : Type 0 where
  pub attributes : BridgeTypeAttributes

pub record BridgeType : Type 0 where
  pub bridge : BridgeTypeData

pub record Session : Type 0 where
  pub email : String
  pub password : String

pub record OcrKeyAttributes : Type 0 where
  pub id : String
  pub config_public_key : String
  pub off_chain_public_key : String
  pub on_chain_signing_address : String

pub record OcrKeyData : Type 0 where
  pub attributes : OcrKeyAttributes

pub record OcrKeys : Type 0 where
  pub keys : List OcrKeyData

pub record OcrKey : Type 0 where
  pub key : OcrKeyData

pub record P2pKeyAttributes : Type 0 where
  pub id : ℤ
  pub peer_id : String
  pub public_key : String

pub record P2pKeyData : Type 0 where
  pub attributes : P2pKeyAttributes

pub record P2pKeys : Type 0 where
  pub keys : List P2pKeyData

pub record P2pKey : Type 0 where
  pub key : P2pKeyData

pub record EthKeyAttributes : Type 0 where
  pub address : String

pub record EthKeyData : Type 0 where
  pub attributes : EthKeyAttributes

pub record EthKeys : Type 0 where
  pub keys : List EthKeyData

pub record EthKey : Type 0 where
  pub key : EthKeyData

pub record SpecForm : Type 0 where
  pub toml : String

pub record SpecData : Type 0 where
  pub id : String

pub record Spec : Type 0 where
  pub spec : SpecData

pub record JobForm : Type 0 where
  pub toml : String

pub record JobData : Type 0 where
  pub id : String

pub record Job : Type 0 where
  pub job : JobData

abbrev pub zero_bridge_type : BridgeType
zero_bridge_type = record { bridge = record { attributes = record { name = ""; url = "" } } }

abbrev pub zero_ocr_key : OcrKey
zero_ocr_key = record {
  key = record {
    attributes = record {
      id = "";
      config_public_key = "";
      off_chain_public_key = "";
      on_chain_signing_address = "";
    };
  };
}

abbrev pub zero_p2p_key : P2pKey
zero_p2p_key = record {
  key = record { attributes = record { id = pos 0; peer_id = ""; public_key = "" } };
}

abbrev pub zero_spec : Spec
zero_spec = record { spec = record { id = "" } }

abbrev pub zero_job : Job
zero_job = record { job = record { id = "" } }
