-- ===== src/Chainlink/Session.antt =====
-- `NewChainlink`, `SetClient` and `SetSessionCookie` of fm-demo/go-scripts/client/chainlink.go.
pub mod Cookies
use chainlink_polkadot.Prelude.{
  ℕ, String, ◌<>◌, Bool, true, false, ◌||◌, Option, none, some, List, [], ◌∷◌, ◌⊎◌, inl, inr, ◌==◌,
  if◌then◌else◌,
}
use chainlink_polkadot.Prelude.Text.{str_eq}
use chainlink_polkadot.Errors.{
  Error, reading_response, session_status, no_cookie, no_session_cookie,
}
use chainlink_polkadot.Chainlink.Models.{ChainlinkConfig}
use chainlink_polkadot.Chainlink.Web.{Web, Client, Cookie, HttpResponse, session}

-- The loop over the cookies; `found` is `sessionFound`.
unfoldable pub session_found : Bool → List Cookie → Bool
session_found found [] = found
session_found found (cookie ∷ cookies) =
    session_found (if str_eq cookie.name "clsession" then true else found) cookies

module _ (W : Web) where
  unfoldable pub new_chainlink : ChainlinkConfig → W.World → Client W
  new_chainlink config world = record { http = none; config = config; cookies = []; world = world }

  unfoldable pub set_client : W.HttpClient → Client W → Client W
  set_client http c = record c { http = some http }

  -- The cookies are stored before they are searched for the session's.
  abbrev store_cookies : List Cookie → Client W → Option Error × Client W
  store_cookies [] c = (some no_cookie, c)
  store_cookies (cookie ∷ cookies) c = (
    if session_found false (cookie ∷ cookies) then none else some no_session_cookie,
    record c { cookies = cookie ∷ cookies },
  )

  abbrev check_login : HttpResponse → Option Error → Client W → Option Error × Client W
  check_login resp (some e) c = (some (reading_response e c.config.url resp.body), c)
  check_login resp none c =
      if resp.status_code == 200
      then store_cookies resp.cookies c
      else (some (session_status resp.status_code c.config.url resp.body), c)

  abbrev logged_in : (Error ⊎ HttpResponse) × W.World → Client W → Option Error × Client W
  logged_in (inl e, w) c = (some e, record c { world = w })
  logged_in (inr resp, w) c = check_login resp resp.read_error (record c { world = w })

  abbrev post_session : String × Option Error → Client W → Option Error × Client W
  post_session (b, some e) c = (some e, c)
  post_session (b, none) c =
      logged_in (W.post (c.config.url <> "/sessions") "application/json" b c.world) c

  -- `SetSessionCookie`, with the package's own client and not `c.Client`.
  unfoldable pub set_session_cookie : Client W → Option Error × Client W
  unfolding session_found
  set_session_cookie c =
      post_session
        (W.marshal (session (record { email = c.config.email; password = c.config.password }))) c
