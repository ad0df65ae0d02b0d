-- ===== src/Tests/Nodes.antt =====
-- The HTTP client of a Chainlink node, and the command that uses it.
use chainlink_polkadot.Prelude.{
  ℕ, ◌+◌, ◌≡◌, ◌≢◌, refl, String, ◌<>◌, none, some, ◌⊎◌, inl, inr, List, [], ◌∷◌,
}
use chainlink_polkadot.Prelude.Int.{negsuc}
use chainlink_polkadot.Prelude.Decimal.{show_ℤ}
use chainlink_polkadot.Errors.{
  no_cookie, foreign, not_found, unprocessable_entity, no_session_cookie, session_status,
  unexpected_code,
}
use chainlink_polkadot.Program.{ok, ◌>>=◌}
use chainlink_polkadot.Chainlink.Web.{Web, Client, Cookie, HttpResponse}
use chainlink_polkadot.Chainlink.Requests.{do_raw, do_json, check_status}
use chainlink_polkadot.Chainlink.Requests.Status.{do_raw_answered}
use chainlink_polkadot.Chainlink.Session.{set_session_cookie}
use chainlink_polkadot.Chainlink.Session.Cookies.{
  HasSession, set_session_cookie_answered, set_session_cookie-HasSession,
}
use chainlink_polkadot.Chainlink.Endpoints.{op_create_spec, op_delete_job, run, delete_job}
use chainlink_polkadot.Chainlink.Endpoints.Fields.{Kept, run-Kept, deletes_job, delete_answered}
use chainlink_polkadot.Chainlink.Main.{Line, main}
use chainlink_polkadot.Chainlink.Main.Report.{count_created, main_reports}

abbrev session_cookie : Cookie
session_cookie = record { name = "clsession"; value = "s" }

abbrev answer : HttpResponse
answer = record { status_code = 200; cookies = session_cookie ∷ []; body = "{}"; read_error = none }

-- A server that answers every request with 200 and a session cookie. A request is its text.
abbrev web : Web
web = record {
  World = ℕ;
  HttpClient = String;
  Request = String;
  Object = String;
  zero_object = "";
  marshal = λ body. ("null", none);
  new_request = λ method url body. inr (method <> " " <> url);
  add_cookie = λ req cookie. req <> ";" <> cookie.value;
  perform = λ http req w. (inr answer, w + 1);
  post = λ url kind body w. (inr answer, w + 1);
  decode_job = λ text a. (a, none);
  decode_spec = λ text a. (record { spec = record { id = text } }, none);
  decode_response = λ text a. (a, none);
  decode_bridge_type = λ text a. (a, none);
  decode_ocr_key = λ text a. (a, none);
  decode_ocr_keys = λ text a. (a, none);
  decode_p2p_key = λ text a. (a, none);
  decode_p2p_keys = λ text a. (a, none);
  decode_eth_keys = λ text a. (a, none);
}

abbrev client : Client web
client = record {
  http = some "http";
  config = record { url = "http://node"; email = "e"; password = "p" };
  cookies = [];
  world = 0;
}

decimals : show_ℤ (negsuc 41) ≡ "-42"
unfolding show_ℤ
decimals = refl

logged_in : (set_session_cookie web client).0 ≡ none
unfolding set_session_cookie
logged_in = refl

set_session_cookie-HasSession_example : HasSession (set_session_cookie web client).1.cookies
set_session_cookie-HasSession_example = set_session_cookie-HasSession web client logged_in

abbrev stranger : Cookie
stranger = record { name = "csrf"; value = "t" }

-- Servers that answer otherwise.
abbrev web_with : HttpResponse → Web
web_with resp = record web {
  perform = λ http req w. (inr resp, w + 1);
  post = λ url kind body w. (inr resp, w + 1);
}

abbrev client_of : (resp : HttpResponse) → Client (web_with resp)
client_of resp = record {
  http = some "http";
  config = record { url = "http://node"; email = "e"; password = "p" };
  cookies = [];
  world = 0;
}

abbrev strange : HttpResponse
strange = record answer { cookies = stranger ∷ [] }

set_session_cookie_answered_example :
    let result = set_session_cookie (web_with strange) (client_of strange) in
    ((strange.status_code ≢ 200)
      × (result ≡ (
        some (session_status 200 "http://node" "{}"),
        record (client_of strange) { world = 1 },
      )))
    ⊎ ((strange.status_code ≡ 200)
        × (strange.cookies ≡ [])
        × (result ≡ (some no_cookie, record (client_of strange) { world = 1 })))
    ⊎ ((strange.status_code ≡ 200)
        × HasSession strange.cookies
        × (result ≡ (none, record (client_of strange) { world = 1; cookies = strange.cookies })))
    ⊎ ((strange.status_code ≡ 200)
        × (¬ HasSession strange.cookies)
        × (result ≡ (
          some no_session_cookie,
          record (client_of strange) { world = 1; cookies = strange.cookies },
        )))
set_session_cookie_answered_example =
    set_session_cookie_answered (web_with strange) (client_of strange) refl refl refl

abbrev missing : HttpResponse
missing = record answer { status_code = 404 }

do_raw_answered_example :
    let result = do_raw (web_with missing) none 404 tt "GET" "/x" "" (client_of missing) in
    let d = record (client_of missing) { world = 1 } in
    ((missing.status_code ≡ 404) × (result ≡ (ok (tt, some not_found), d)))
    ⊎ ((missing.status_code ≡ 422) × (result ≡ (ok (tt, some unprocessable_entity), d)))
    ⊎ ((missing.status_code ≢ 404)
        × (missing.status_code ≢ 422)
        × (missing.status_code ≢ 404)
        × (result ≡ (ok (tt, some (unexpected_code 404 200 "http://node" "{}")), d)))
    ⊎ ((missing.status_code ≢ 404)
        × (missing.status_code ≢ 422)
        × (missing.status_code ≡ 404)
        × (result ≡ (ok (tt, none), d)))
do_raw_answered_example =
    do_raw_answered (web_with missing) none 404 tt "GET" "/x" "" (client_of missing) refl refl refl
      refl

run-Kept_example : Kept web client (run web (op_create_spec "{}") client).1
run-Kept_example = run-Kept web (op_create_spec "{}") client

-- A job's deletion that is answered with 200 instead of 204.
delete_answered_example :
    let result = run web (op_delete_job "1") client in
    let d = record client { world = 1 } in
    ((answer.status_code ≡ 404) × (result ≡ (ok (some not_found), d)))
    ⊎ ((answer.status_code ≡ 422) × (result ≡ (ok (some unprocessable_entity), d)))
    ⊎ ((answer.status_code ≢ 404)
        × (answer.status_code ≢ 422)
        × (answer.status_code ≢ 204)
        × (result ≡ (ok (some (unexpected_code answer.status_code 200 "http://node" "{}")), d)))
    ⊎ ((answer.status_code ≡ 204) × (result ≡ (ok none, d)))
delete_answered_example = delete_answered web (deletes_job "1") client refl refl refl refl

job_deletion_of_200 :
    run web (op_delete_job "1") client
    ≡ (ok (some (unexpected_code 200 200 "http://node" "{}")), record client { world = 1 })
unfolding run delete_job do_json do_raw check_status ◌>>=◌
job_deletion_of_200 = refl

main_reports_example :
    (lines : List Line) × (w : ℕ) × (main web "http" (inr (inr "{}" ∷ inl (foreign "gone") ∷ [])) 0
      ≡ (ok lines, w))
    × (count_created lines ≡ 2)
main_reports_example = main_reports web "http" (inr "{}" ∷ inl (foreign "gone") ∷ []) 0
