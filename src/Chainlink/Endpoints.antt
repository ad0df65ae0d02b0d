-- ===== src/Chainlink/Endpoints.antt =====
-- The calls of a Chainlink node in fm-demo/go-scripts/client/chainlink.go, each with the value that
-- comes back beside its error.
pub mod Fields
use chainlink_polkadot.Prelude.{ℕ, String, ◌<>◌, Option, none, some, List, []}
use chainlink_polkadot.Prelude.Int.{ℤ}
use chainlink_polkadot.Prelude.Decimal.{show_ℤ}
use chainlink_polkadot.Errors.{Error}
use chainlink_polkadot.Program.{Outcome, M, ◌>>=◌, pure}
use chainlink_polkadot.Chainlink.Models.{
  BridgeTypeAttributes, BridgeType, OcrKey, OcrKeys, P2pKey, P2pKeys, EthKeys, Spec, Job, Response,
  zero_bridge_type, zero_ocr_key, zero_p2p_key, zero_spec, zero_job,
}
use chainlink_polkadot.Chainlink.Web.{Web, Client, Body, nil, job_form, bridge}
use chainlink_polkadot.Chainlink.Requests.{do_raw, do_json}

-- The methods of the interface `Chainlink`, but for the login and the test's `SetClient`.
pub data Operation : Type 0 where
  op_create_job op_read_job op_delete_job op_create_spec op_read_spec : String → Operation
  op_delete_spec op_read_bridge op_delete_bridge op_delete_ocr_key : String → Operation
  op_create_bridge : BridgeTypeAttributes → Operation
  op_create_ocr_key op_read_ocr_keys op_create_p2p_key op_read_p2p_keys : Operation
  op_delete_p2p_key : ℤ → Operation
  op_read_eth_keys : Operation

module _ (W : Web) where
  abbrev pub Call : Type 0 → Type 0
  Call A = M (Client W) (A × Option Error)

  -- A call of `do` with a nil object, of which the error is returned.
  abbrev pub do_plain : String → String → Body → ℕ → M (Client W) (Option Error)
  do_plain method endpoint body expected = do
    (_, e) ← do_json W none expected tt method endpoint body
    pure e

  unfoldable pub create_job : String → Call (Option Job)
  create_job spec =
      do_json W (some W.decode_job) 200 (some zero_job) "POST" "/v2/jobs"
        (job_form (record { toml = spec }))

  unfoldable pub read_job : String → M (Client W) (Option Error)
  read_job id = do_plain "GET" ("/v2/jobs/" <> id) nil 200

  unfoldable pub delete_job : String → M (Client W) (Option Error)
  delete_job id = do_plain "DELETE" ("/v2/jobs/" <> id) nil 204

  unfoldable pub create_spec : String → Call Spec
  create_spec spec = do_raw W (some W.decode_spec) 200 zero_spec "POST" "/v2/specs" spec

  unfoldable pub read_spec : String → Call (Response W.Object)
  read_spec id =
      do_json W (some W.decode_response) 200 (record { object = W.zero_object }) "GET"
        ("/v2/specs/" <> id) nil

  unfoldable pub delete_spec : String → M (Client W) (Option Error)
  delete_spec id = do_plain "DELETE" ("/v2/specs/" <> id) nil 204

  unfoldable pub create_bridge : BridgeTypeAttributes → M (Client W) (Option Error)
  create_bridge bta = do_plain "POST" "/v2/bridge_types" (bridge bta) 200

  unfoldable pub read_bridge : String → Call BridgeType
  read_bridge name =
      do_json W (some W.decode_bridge_type) 200 zero_bridge_type "GET" ("/v2/bridge_types/" <> name)
        nil

  unfoldable pub delete_bridge : String → M (Client W) (Option Error)
  delete_bridge name = do_plain "DELETE" ("/v2/bridge_types/" <> name) nil 200

  unfoldable pub create_ocr_key : Call OcrKey
  create_ocr_key = do_json W (some W.decode_ocr_key) 200 zero_ocr_key "POST" "/v2/keys/ocr" nil

  unfoldable pub read_ocr_keys : Call OcrKeys
  read_ocr_keys =
      do_json W (some W.decode_ocr_keys) 200 (record { keys = [] }) "GET" "/v2/keys/ocr" nil

  unfoldable pub delete_ocr_key : String → M (Client W) (Option Error)
  delete_ocr_key id = do_plain "DELETE" ("/v2/keys/ocr/" <> id) nil 200

  unfoldable pub create_p2p_key : Call P2pKey
  create_p2p_key = do_json W (some W.decode_p2p_key) 200 zero_p2p_key "POST" "/v2/keys/p2p" nil

  unfoldable pub read_p2p_keys : Call P2pKeys
  read_p2p_keys =
      do_json W (some W.decode_p2p_keys) 200 (record { keys = [] }) "GET" "/v2/keys/p2p" nil

  unfoldable pub delete_p2p_key : ℤ → M (Client W) (Option Error)
  delete_p2p_key id = do_plain "DELETE" ("/v2/keys/p2p/" <> show_ℤ id) nil 200

  unfoldable pub read_eth_keys : Call EthKeys
  read_eth_keys =
      do_json W (some W.decode_eth_keys) 200 (record { keys = [] }) "GET" "/v2/keys/eth" nil

  -- The methods of the interface `Chainlink` that call the node, with the error that each returns.
  abbrev error_of : {A : Type 0} → Call A → M (Client W) (Option Error)
  error_of m = do (_, e) ← m; pure e

  unfoldable pub run : Operation → M (Client W) (Option Error)
  run (op_create_job spec) = error_of (create_job spec)
  run (op_read_job id) = read_job id
  run (op_delete_job id) = delete_job id
  run (op_create_spec spec) = error_of (create_spec spec)
  run (op_read_spec id) = error_of (read_spec id)
  run (op_delete_spec id) = delete_spec id
  run (op_create_bridge bta) = create_bridge bta
  run (op_read_bridge name) = error_of (read_bridge name)
  run (op_delete_bridge name) = delete_bridge name
  run op_create_ocr_key = error_of create_ocr_key
  run op_read_ocr_keys = error_of read_ocr_keys
  run (op_delete_ocr_key id) = delete_ocr_key id
  run op_create_p2p_key = error_of create_p2p_key
  run op_read_p2p_keys = error_of read_p2p_keys
  run (op_delete_p2p_key id) = delete_p2p_key id
  run op_read_eth_keys = error_of read_eth_keys
