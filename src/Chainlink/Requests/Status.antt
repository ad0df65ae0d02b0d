-- ===== src/Chainlink/Requests/Status.antt =====
-- What a call of `doRaw` or `do` of chainlink.go does to the client, and what it returns for each
-- status of the response.
use mathlib.Core.List.{foldl}
use chainlink_polkadot.Prelude.{
  ℕ, String, ◌<>◌, ◌≡◌, ◌≢◌, refl, Option, none, some, ◌⊎◌, inl, inr, arith,
}
use chainlink_polkadot.Errors.{Error, not_found, unprocessable_entity, unexpected_code}
use chainlink_polkadot.Program.{Outcome, ok}
use chainlink_polkadot.Chainlink.Web.{
  Web, Client, HttpResponse, Body, nil, job_form, bridge, session, Decoder,
}
use chainlink_polkadot.Chainlink.Requests.{
  check_status, decode_body, requested, sent, answered, marshaled, do_raw, do_json,
}

module _ (W : Web) {A : Type 0} (decoder : Option (Decoder A)) (expected : ℕ) (obj : A) where
  check_status_cases :
      (url : String) (resp : HttpResponse) (d : Client W)
      {result : Outcome (A × Option Error) × Client W}
      → result ≡ (ok (check_status W decoder expected obj url resp), d)
      → ((resp.status_code ≡ 404) × (result ≡ (ok (obj, some not_found), d)))
        ⊎ ((resp.status_code ≡ 422) × (result ≡ (ok (obj, some unprocessable_entity), d)))
        ⊎ ((resp.status_code ≢ 404)
            × (resp.status_code ≢ 422)
            × (resp.status_code ≢ expected)
            × (result ≡ (ok (obj, some (unexpected_code resp.status_code 200 url resp.body)), d)))
        ⊎ ((resp.status_code ≢ 404)
            × (resp.status_code ≢ 422)
            × (resp.status_code ≡ expected)
            × (result ≡ (ok (decode_body W decoder expected obj decoder url resp.body), d)))
  unfolding check_status
  check_status_cases url resp d e = ground arith

  -- How `doRaw` ends for a request that is built, sent with the client's cookies in their order,
  -- and answered with a readable body. Either the code is 404 or 422, which gives that code's error
  -- even where it is the expected one; or it is another code than the expected one, which gives an
  -- error that names 200 as expected, whatever was; or it is the expected one, and the body is
  -- decoded into the value. The value is as it was in the first two, and the client keeps all but
  -- the world.
  pub do_raw_answered :
      (method endpoint body : String) (c : Client W) {http : W.HttpClient} {req : W.Request}
      {resp : HttpResponse} {w : W.World}
      → W.new_request method (c.config.url <> endpoint) body ≡ inr req
      → c.http ≡ some http
      → W.perform http (foldl W.add_cookie req c.cookies) c.world ≡ (inr resp, w)
      → resp.read_error ≡ none
      → let result = do_raw W decoder expected obj method endpoint body c in
        let d = record c { world = w } in
        ((resp.status_code ≡ 404) × (result ≡ (ok (obj, some not_found), d)))
        ⊎ ((resp.status_code ≡ 422) × (result ≡ (ok (obj, some unprocessable_entity), d)))
        ⊎ ((resp.status_code ≢ 404)
            × (resp.status_code ≢ 422)
            × (resp.status_code ≢ expected)
            × (result ≡ (
              ok (obj, some (unexpected_code resp.status_code 200 c.config.url resp.body)),
              d,
            )))
        ⊎ ((resp.status_code ≢ 404)
            × (resp.status_code ≢ 422)
            × (resp.status_code ≡ expected)
            × (result
                ≡ (ok (decode_body W decoder expected obj decoder c.config.url resp.body), d)))
  unfolding do_raw
  do_raw_answered method endpoint body c {resp} {w} r h p e =
      check_status_cases c.config.url resp (record c { world = w }) (rw (r, h, p, e))

  -- The client's own fields.
  abbrev pub Same : Client W → Client W → Type 0
  Same c d = (d.http ≡ c.http) × (d.config ≡ c.config) × (d.cookies ≡ c.cookies)

  requested-Same :
      (c : Client W) (r : Error ⊎ W.Request) → Same c (requested W decoder expected obj c r).1
  requested-Same c (inl e) = (refl, refl, refl)
  requested-Same c (inr req) = sent-Same c.http
    where
      sent-Same : (h : Option W.HttpClient) → Same c (sent W decoder expected obj c h req).1
      sent-Same none = (refl, refl, refl)
      sent-Same (some http) = (refl, refl, refl)

  pub do_raw-Same :
      (method endpoint body : String) (c : Client W)
      → Same c (do_raw W decoder expected obj method endpoint body c).1
  unfolding do_raw
  do_raw-Same method endpoint body c =
      requested-Same c (W.new_request method (c.config.url <> endpoint) body)

  marshaled-Same :
      (method endpoint : String) (body : Body) (r : String × Option Error) (c : Client W)
      → Same c (marshaled W decoder expected obj method endpoint body r c).1
  marshaled-Same method endpoint nil (b, e) c = do_raw-Same method endpoint b c
  marshaled-Same method endpoint (job_form f) (b, none) c = do_raw-Same method endpoint b c
  marshaled-Same method endpoint (job_form f) (b, some e) c = (refl, refl, refl)
  marshaled-Same method endpoint (bridge f) (b, none) c = do_raw-Same method endpoint b c
  marshaled-Same method endpoint (bridge f) (b, some e) c = (refl, refl, refl)
  marshaled-Same method endpoint (session f) (b, none) c = do_raw-Same method endpoint b c
  marshaled-Same method endpoint (session f) (b, some e) c = (refl, refl, refl)

  -- No call of `do` changes the client's HTTP client, its configuration or its cookies, on any
  -- path.
  pub do_json-Same :
      (method endpoint : String) (body : Body) (c : Client W)
      → Same c (do_json W decoder expected obj method endpoint body c).1
  unfolding do_json
  do_json-Same method endpoint body c = marshaled-Same method endpoint body (W.marshal body) c

  answered_total :
      (c : Client W) (r : (Error ⊎ HttpResponse) × W.World)
      → (result : A × Option Error) × (d : Client W) × (answered W decoder expected obj c r
          ≡ (ok result, d))
  answered_total c (inl e, w) = ((obj, some e), record c { world = w }, refl)
  answered_total c (inr resp, w) = (_, record c { world = w }, refl)

  sent_total :
      (c : Client W) (h : Option W.HttpClient) (req : W.Request) {http : W.HttpClient}
      → h ≡ some http
      → (result : A × Option Error) × (d : Client W) × (sent W decoder expected obj c h req
          ≡ (ok result, d))
  sent_total c none req h = cc
  sent_total c (some http) req h =
      answered_total c (W.perform http (foldl W.add_cookie req c.cookies) c.world)

  requested_total :
      (c : Client W) {http : W.HttpClient} (r : Error ⊎ W.Request)
      → c.http ≡ some http
      → (result : A × Option Error) × (d : Client W) × (requested W decoder expected obj c r
          ≡ (ok result, d))
  requested_total c (inl e) h = ((obj, some e), c, refl)
  requested_total c (inr req) h = sent_total c c.http req h

  -- With an HTTP client set, a call returns, if with an error, and does not panic.
  pub do_raw_total :
      (method endpoint body : String) (c : Client W) {http : W.HttpClient}
      → c.http ≡ some http
      → (result : A × Option Error) × (d : Client W) × (do_raw W decoder expected obj method
            endpoint body c
          ≡ (ok result, d))
  unfolding do_raw
  do_raw_total method endpoint body c h =
      requested_total c (W.new_request method (c.config.url <> endpoint) body) h
