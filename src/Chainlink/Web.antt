-- ===== src/Chainlink/Web.antt =====
-- What fm-demo/go-scripts/client/chainlink.go calls of `net/http` and `encoding/json`, as a
-- parameter, with the state of the client. A `[]byte` is the text of its bytes.
use chainlink_polkadot.Prelude.{ℕ, String, Option, List, ◌⊎◌}
use chainlink_polkadot.Errors.{Error}
use chainlink_polkadot.Chainlink.Models.{
  ChainlinkConfig, Session, JobForm, BridgeTypeAttributes, BridgeType, OcrKey, OcrKeys, P2pKey,
  P2pKeys, EthKeys, Spec, Job, Response,
}

pub record Cookie : Type 0 where
  pub name : String
  pub value : String

-- A response, with what `ioutil.ReadAll` makes of its body: the bytes, and an error or nil.
pub record HttpResponse : Type 0 where
  pub status_code : ℕ
  pub cookies : List Cookie
  pub body : String
  pub read_error : Option Error

-- What is given to `json.Marshal`.
pub data Body : Type 0 where
  nil : Body
  job_form : JobForm → Body
  bridge : BridgeTypeAttributes → Body
  session : Session → Body

-- `json.Unmarshal` into a value that is there: the value after it, and the error.
abbrev pub Decoder : Type 0 → Type 0
Decoder A = String → A → A × Option Error

pub record Web : Type 1 where
  pub World : Type 0
  pub HttpClient : Type 0
  pub Request : Type 0
  pub Object : Type 0
  pub zero_object : Object
  pub marshal : Body → String × Option Error
  -- `http.NewRequest` of a method, a URL and a body, and `AddCookie`
  pub new_request : String → String → String → Error ⊎ Request
  pub add_cookie : Request → Cookie → Request
  -- `Client.Do`, and `http.Post` of a URL, a content type and a body
  pub perform : HttpClient → Request → World → (Error ⊎ HttpResponse) × World
  pub post : String → String → String → World → (Error ⊎ HttpResponse) × World
  -- A pointer to a job is decoded too, so that it may become nil.
  pub decode_job : Decoder (Option Job)
  pub decode_spec : Decoder Spec
  pub decode_response : Decoder (Response Object)
  pub decode_bridge_type : Decoder BridgeType
  pub decode_ocr_key : Decoder OcrKey
  pub decode_ocr_keys : Decoder OcrKeys
  pub decode_p2p_key : Decoder P2pKey
  pub decode_p2p_keys : Decoder P2pKeys
  pub decode_eth_keys : Decoder EthKeys

-- `chainlink`, and the world behind it.
pub record Client (W : Web) : Type 0 where
  pub http : Option W.HttpClient
  pub config : ChainlinkConfig
  pub cookies : List Cookie
  pub world : W.World
