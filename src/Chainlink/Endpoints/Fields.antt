-- ===== src/Chainlink/Endpoints/Fields.antt =====
-- What the calls of chainlink.go leave alone, and what they say of an unexpected code.
use mathlib.Core.List.{foldl}
use chainlink_polkadot.Prelude.{
  ℕ, ◌≢◌, ◌⊎◌, arith, ◌≡◌, refl, String, ◌<>◌, Option, none, some, inr,
}
use chainlink_polkadot.Prelude.Int.{ℤ}
use chainlink_polkadot.Prelude.Decimal.{show_ℤ}
use chainlink_polkadot.Errors.{Error, not_found, unprocessable_entity, unexpected_code}
use chainlink_polkadot.Program.{Outcome, ok, fail, panicked, blocked, proceed, pure, ◌>>=◌}
use chainlink_polkadot.Chainlink.Web.{Web, Client, HttpResponse, Decoder, Body, nil}
use chainlink_polkadot.Chainlink.Requests.{do_raw, do_json, check_status}
use chainlink_polkadot.Chainlink.Requests.Status.{do_raw-Same, do_json-Same}
use chainlink_polkadot.Chainlink.Endpoints.{
  do_plain, Operation, op_create_job, op_read_job, op_delete_job, op_create_spec, op_read_spec,
  op_delete_spec, op_create_bridge, op_read_bridge, op_delete_bridge, op_create_ocr_key,
  op_read_ocr_keys, op_delete_ocr_key, op_create_p2p_key, op_read_p2p_keys, op_delete_p2p_key,
  op_read_eth_keys, Call, error_of, run, create_job, read_job, delete_job, create_spec, read_spec,
  delete_spec, create_bridge, read_bridge, delete_bridge, create_ocr_key, read_ocr_keys,
  delete_ocr_key, create_p2p_key, read_p2p_keys, delete_p2p_key, read_eth_keys,
}

-- The calls that delete something.
pub data Deletion : Type 0 where
  deletes_job deletes_spec deletes_bridge deletes_ocr_key : String → Deletion
  deletes_p2p_key : ℤ → Deletion

abbrev pub op_of : Deletion → Operation
op_of (deletes_job id) = op_delete_job id
op_of (deletes_spec id) = op_delete_spec id
op_of (deletes_bridge name) = op_delete_bridge name
op_of (deletes_ocr_key id) = op_delete_ocr_key id
op_of (deletes_p2p_key id) = op_delete_p2p_key id

-- Where a deletion is sent.
abbrev pub path_of : Deletion → String
path_of (deletes_job id) = "/v2/jobs/" <> id
path_of (deletes_spec id) = "/v2/specs/" <> id
path_of (deletes_bridge name) = "/v2/bridge_types/" <> name
path_of (deletes_ocr_key id) = "/v2/keys/ocr/" <> id
path_of (deletes_p2p_key id) = "/v2/keys/p2p/" <> show_ℤ id

-- The code that says that it was done.
abbrev pub code_of : Deletion → ℕ
code_of (deletes_job id) = 204
code_of (deletes_spec id) = 204
code_of (deletes_bridge name) = 200
code_of (deletes_ocr_key id) = 200
code_of (deletes_p2p_key id) = 200

module _ (W : Web) where
  -- The client's own fields are as before.
  abbrev pub Kept : Client W → Client W → Type 0
  Kept c d = (d.http ≡ c.http) × (d.config ≡ c.config) × (d.cookies ≡ c.cookies)

  error_of-client : {A : Type 0} (m : Call W A) (c : Client W) → (error_of W m c).1 ≡ (m c).1
  unfolding ◌>>=◌
  error_of-client m c = first_of_pair (m c)
    where
      first_of_pair :
          {A : Type 0} (r : Outcome (A × Option Error) × Client W)
          → (proceed r (λ (_, e). pure e)).1 ≡ r.1
      first_of_pair (ok a, d) = refl
      first_of_pair (fail e, d) = refl
      first_of_pair (panicked, d) = refl
      first_of_pair (blocked, d) = refl

  json-Kept :
      {A : Type 0} (decoder : Option (Decoder A)) (expected : ℕ) (obj : A)
      (method endpoint : String) (body : Body) (c : Client W)
      → Kept c (error_of W (do_json W decoder expected obj method endpoint body) c).1
  json-Kept decoder expected obj method endpoint body c =
      rw (error_of-client (do_json W decoder expected obj method endpoint body) c)
        (do_json-Same W decoder expected obj method endpoint body c)

  -- No call of the node changes the client's HTTP client, configuration or cookies, however it
  -- ends: only a login changes the cookies.
  pub run-Kept : (op : Operation) (c : Client W) → Kept c (run W op c).1
  unfolding run create_job read_job delete_job create_spec read_spec delete_spec create_bridge
      read_bridge delete_bridge create_ocr_key read_ocr_keys delete_ocr_key create_p2p_key
      read_p2p_keys delete_p2p_key read_eth_keys
  run-Kept (op_create_spec spec) c =
      rw (error_of-client (create_spec W spec) c)
        (do_raw-Same W (some W.decode_spec) 200 _ "POST" "/v2/specs" spec c)
  run-Kept (op_create_job spec) c = json-Kept _ _ _ _ _ _ c
  run-Kept (op_read_job id) c = json-Kept _ _ _ _ _ _ c
  run-Kept (op_delete_job id) c = json-Kept _ _ _ _ _ _ c
  run-Kept (op_read_spec id) c = json-Kept _ _ _ _ _ _ c
  run-Kept (op_delete_spec id) c = json-Kept _ _ _ _ _ _ c
  run-Kept (op_create_bridge bta) c = json-Kept _ _ _ _ _ _ c
  run-Kept (op_read_bridge name) c = json-Kept _ _ _ _ _ _ c
  run-Kept (op_delete_bridge name) c = json-Kept _ _ _ _ _ _ c
  run-Kept op_create_ocr_key c = json-Kept _ _ _ _ _ _ c
  run-Kept op_read_ocr_keys c = json-Kept _ _ _ _ _ _ c
  run-Kept (op_delete_ocr_key id) c = json-Kept _ _ _ _ _ _ c
  run-Kept op_create_p2p_key c = json-Kept _ _ _ _ _ _ c
  run-Kept op_read_p2p_keys c = json-Kept _ _ _ _ _ _ c
  run-Kept (op_delete_p2p_key id) c = json-Kept _ _ _ _ _ _ c
  run-Kept op_read_eth_keys c = json-Kept _ _ _ _ _ _ c

  plain_answered :
      (path : String) (code : ℕ) (c : Client W) {http : W.HttpClient} {req : W.Request}
      {resp : HttpResponse} {w : W.World}
      → W.new_request "DELETE" (c.config.url <> path) (W.marshal nil).0 ≡ inr req
      → c.http ≡ some http
      → W.perform http (foldl W.add_cookie req c.cookies) c.world ≡ (inr resp, w)
      → resp.read_error ≡ none
      → let result = do_plain W "DELETE" path nil code c in
        let d = record c { world = w } in
        ((resp.status_code ≡ 404) × (result ≡ (ok (some not_found), d)))
        ⊎ ((resp.status_code ≡ 422) × (result ≡ (ok (some unprocessable_entity), d)))
        ⊎ ((resp.status_code ≢ 404)
            × (resp.status_code ≢ 422)
            × (resp.status_code ≢ code)
            × (result
                ≡ (ok (some (unexpected_code resp.status_code 200 c.config.url resp.body)), d)))
        ⊎ ((resp.status_code ≡ code) × (result ≡ (ok none, d)))
  unfolding do_json do_raw check_status ◌>>=◌
  plain_answered path code c r h p e = rw (r, h, p, e) (ground arith)

  run-deletion :
      (x : Deletion) (c : Client W)
      → run W (op_of x) c ≡ do_plain W "DELETE" (path_of x) nil (code_of x) c
  unfolding run delete_job delete_spec delete_bridge delete_ocr_key delete_p2p_key
  run-deletion (deletes_job id) c = refl
  run-deletion (deletes_spec id) c = refl
  run-deletion (deletes_bridge name) c = refl
  run-deletion (deletes_ocr_key id) c = refl
  run-deletion (deletes_p2p_key id) c = refl

  -- How the five deletions end where the client's HTTP client is set, the DELETE request for the
  -- deletion's own path can be made, and its answer is readable. nil is returned where the answer has
  -- the code for the deletion, 204 for a job and a spec and 200 for the others. 404 and 422 have
  -- errors of their own, and the error for any other code says that 200 was expected, also where the
  -- code was 200. The client keeps all but the world.
  pub delete_answered :
      (x : Deletion) (c : Client W) {http : W.HttpClient} {req : W.Request} {resp : HttpResponse}
      {w : W.World}
      → W.new_request "DELETE" (c.config.url <> path_of x) (W.marshal nil).0 ≡ inr req
      → c.http ≡ some http
      → W.perform http (foldl W.add_cookie req c.cookies) c.world ≡ (inr resp, w)
      → resp.read_error ≡ none
      → let result = run W (op_of x) c in
        let d = record c { world = w } in
        ((resp.status_code ≡ 404) × (result ≡ (ok (some not_found), d)))
        ⊎ ((resp.status_code ≡ 422) × (result ≡ (ok (some unprocessable_entity), d)))
        ⊎ ((resp.status_code ≢ 404)
            × (resp.status_code ≢ 422)
            × (resp.status_code ≢ code_of x)
            × (result
                ≡ (ok (some (unexpected_code resp.status_code 200 c.config.url resp.body)), d)))
        ⊎ ((resp.status_code ≡ code_of x) × (result ≡ (ok none, d)))
  delete_answered x c r h p e =
      rw (run-deletion x c) (plain_answered (path_of x) (code_of x) c r h p e)
