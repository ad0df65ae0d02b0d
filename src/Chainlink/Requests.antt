-- ===== src/Chainlink/Requests.antt =====
-- `doRaw` and `do` of fm-demo/go-scripts/client/chainlink.go. Their callers drop the response, so
-- the result is what was decoded, with the error.
pub mod Status
use chainlink_polkadot.Prelude.{
  ℕ, String, ◌<>◌, Bool, true, false, Option, none, some, List, ◌⊎◌, inl, inr, ◌==◌, if◌then◌else◌,
}
use mathlib.Core.List.{foldl}
use chainlink_polkadot.Errors.{
  Error, not_found, unprocessable_entity, unexpected_code, reading_response, unmarshaling_response,
}
use chainlink_polkadot.Program.{Outcome, ok, panicked, M}
use chainlink_polkadot.Chainlink.Web.{Web, Client, HttpResponse, Body, nil, Decoder}

-- The status that a nil error wants, and what is decoded into: nothing, if `obj` is nil.
module _ (W : Web) {A : Type 0} (decoder : Option (Decoder A)) (expected : ℕ) (obj : A) where
  abbrev decoded : String → String → A × Option Error → A × Option Error
  decoded url body (a, none) = (a, none)
  decoded url body (a, some e) = (a, some (unmarshaling_response e url body))

  abbrev decode_body : Option (Decoder A) → String → String → A × Option Error
  decode_body none url body = (obj, none)
  decode_body (some d) url body = decoded url body (d body obj)

  -- The tests of the response's code. The text of the third error says "expected 200".
  unfoldable pub check_status : String → HttpResponse → A × Option Error
  check_status url resp =
      if resp.status_code == 404
      then (obj, some not_found)
      else (if resp.status_code == 422
          then (obj, some unprocessable_entity)
          else (if resp.status_code == expected
              then decode_body decoder url resp.body
              else (obj, some (unexpected_code resp.status_code 200 url resp.body))))

  abbrev read_body : String → HttpResponse → Option Error → A × Option Error
  read_body url resp (some e) = (obj, some (reading_response e url resp.body))
  read_body url resp none = check_status url resp

  abbrev received : String → Error ⊎ HttpResponse → A × Option Error
  received url (inl e) = (obj, some e)
  received url (inr resp) = read_body url resp resp.read_error

  abbrev answered :
      Client W → (Error ⊎ HttpResponse) × W.World → Outcome (A × Option Error) × Client W
  answered c (r, w) = (ok (received c.config.url r), record c { world = w })

  -- A nil client panics in `Do`.
  abbrev sent : Client W → Option W.HttpClient → W.Request → Outcome (A × Option Error) × Client W
  sent c none req = (panicked, c)
  sent c (some http) req = answered c (W.perform http (foldl W.add_cookie req c.cookies) c.world)

  abbrev requested : Client W → Error ⊎ W.Request → Outcome (A × Option Error) × Client W
  requested c (inl e) = (ok (obj, some e), c)
  requested c (inr req) = sent c c.http req

  -- `doRaw`
  unfoldable pub do_raw : String → String → String → M (Client W) (A × Option Error)
  unfolding check_status
  do_raw method endpoint body c = requested c (W.new_request method (c.config.url <> endpoint) body)

  abbrev marshaled :
      String → String → Body → String × Option Error → M (Client W) (A × Option Error)
  marshaled method endpoint nil (b, e) = do_raw method endpoint b
  marshaled method endpoint body (b, none) = do_raw method endpoint b
  marshaled method endpoint body (b, some e) = λ c. (ok (obj, some e), c)

  -- `do`: an error in marshaling counts only if there is a body.
  unfoldable pub do_json : String → String → Body → M (Client W) (A × Option Error)
  unfolding do_raw
  do_json method endpoint body = marshaled method endpoint body (W.marshal body)
