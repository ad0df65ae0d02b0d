-- ===== src/Chainlink/Session/Cookies.antt =====
-- Which cookies `SetSessionCookie` of chainlink.go stores.
use chainlink_polkadot.Prelude.{
  ◌≡◌, ◌≢◌, refl, String, ◌<>◌, true, false, Bool-cases, Option, none, some, List, [], ◌∷◌, ◌⊎◌,
  inl, inr, ◌==◌, arith,
}
use chainlink_polkadot.Prelude.Text.{str_eq, str_eq_iff}
use chainlink_polkadot.Errors.{Error, session_status, no_cookie, no_session_cookie}
use chainlink_polkadot.Chainlink.Web.{Web, Client, Cookie, HttpResponse, session}
use chainlink_polkadot.Chainlink.Session.{
  session_found, set_session_cookie, store_cookies, check_login, logged_in, post_session,
}

-- There is a session cookie among them.
pub data HasSession : List Cookie → Type 0 where
  first :
      {cookie : Cookie} {cookies : List Cookie}
      → cookie.name ≡ "clsession"
      → HasSession (cookie ∷ cookies)
  later :
      {cookie : Cookie} {cookies : List Cookie} → HasSession cookies → HasSession (cookie ∷ cookies)

session_found-true : (cookies : List Cookie) → session_found true cookies ≡ true
unfolding session_found
session_found-true [] = refl
session_found-true (cookie ∷ cookies) = ground (arith, session_found-true cookies)

session_found_sound :
    (cookies : List Cookie) → session_found false cookies ≡ true → HasSession cookies
unfolding session_found
session_found_sound [] h = cc
session_found_sound (cookie ∷ cookies) h = elim (Bool-cases (str_eq cookie.name "clsession")) [
  | inl e ↦ first ((str_eq_iff cookie.name "clsession").0 e)
  | inr n ↦ later (session_found_sound cookies (rw n at h))
]

session_found_complete :
    (cookies : List Cookie) → HasSession cookies → session_found false cookies ≡ true
unfolding session_found
session_found_complete [] h = elim h [ ]
session_found_complete (cookie ∷ cookies) (first e) =
    let same = (str_eq_iff cookie.name "clsession").1 e in rw same (session_found-true cookies)
session_found_complete (cookie ∷ cookies) (later h) =
    elim (Bool-cases (str_eq cookie.name "clsession")) [
      | inl e ↦ rw e (session_found-true cookies)
      | inr n ↦ rw n (session_found_complete cookies h)
    ]

module _ (W : Web) where
  store_cookies_sound :
      (l : List Cookie) (c : Client W)
      → (store_cookies W l c).0 ≡ none
      → HasSession (store_cookies W l c).1.cookies
  store_cookies_sound [] c h = cc
  store_cookies_sound (cookie ∷ l) c h = session_found_sound (cookie ∷ l) (ground arith)

  store_cookies_cases :
      (l : List Cookie) (c : Client W)
      → ((l ≡ []) × (store_cookies W l c ≡ (some no_cookie, c)))
        ⊎ (HasSession l × (store_cookies W l c ≡ (none, record c { cookies = l })))
        ⊎ ((¬ HasSession l)
            × (store_cookies W l c ≡ (some no_session_cookie, record c { cookies = l })))
  store_cookies_cases [] c = inl (refl, refl)
  store_cookies_cases (cookie ∷ l) c = elim (Bool-cases (session_found false (cookie ∷ l))) [
    | inl e ↦ inr (inl (session_found_sound (cookie ∷ l) e, rw e))
    | inr e ↦ inr (inr (λ h. cc (e, session_found_complete (cookie ∷ l) h), rw e))
  ]

  check_login_cases :
      (resp : HttpResponse) (c : Client W)
      → let result = check_login W resp none c in
        ((resp.status_code ≢ 200)
          × (result ≡ (some (session_status resp.status_code c.config.url resp.body), c)))
        ⊎ ((resp.status_code ≡ 200) × (resp.cookies ≡ []) × (result ≡ (some no_cookie, c)))
        ⊎ ((resp.status_code ≡ 200)
            × HasSession resp.cookies
            × (result ≡ (none, record c { cookies = resp.cookies })))
        ⊎ ((resp.status_code ≡ 200)
            × (¬ HasSession resp.cookies)
            × (result ≡ (some no_session_cookie, record c { cookies = resp.cookies })))
  check_login_cases resp c = elim (Bool-cases (resp.status_code == 200)) [
    | inl e ↦ rw e (elim (store_cookies_cases resp.cookies c) [
      | inl (l, r) ↦ inr (inl (ground arith, l, r))
      | inr (inl (l, r)) ↦ inr (inr (inl (ground arith, l, r)))
      | inr (inr (l, r)) ↦ inr (inr (inr (ground arith, l, r)))
    ])
    | inr e ↦ inl (ground arith, rw e)
  ]

  check_login_sound :
      (resp : HttpResponse) (x : Option Error) (c : Client W)
      → (check_login W resp x c).0 ≡ none
      → HasSession (check_login W resp x c).1.cookies
  check_login_sound resp (some e) c h = cc
  check_login_sound resp none c h = elim (Bool-cases (resp.status_code == 200)) [
    | inl e ↦ rw e (store_cookies_sound resp.cookies c (rw e at h))
    | inr e ↦ cc (rw e at h)
  ]

  logged_in_sound :
      (r : (Error ⊎ HttpResponse) × W.World) (c : Client W)
      → (logged_in W r c).0 ≡ none
      → HasSession (logged_in W r c).1.cookies
  logged_in_sound (inl e, w) c h = cc
  logged_in_sound (inr resp, w) c h = check_login_sound resp resp.read_error _ h

  post_session_sound :
      (b : String × Option Error) (c : Client W)
      → (post_session W b c).0 ≡ none
      → HasSession (post_session W b c).1.cookies
  post_session_sound (b, some e) c h = cc
  post_session_sound (b, none) c h =
      logged_in_sound (W.post (c.config.url <> "/sessions") "application/json" b c.world) c h

  store_cookies-http :
      (l : List Cookie) (c : Client W)
      → ((store_cookies W l c).1.http ≡ c.http) × ((store_cookies W l c).1.config ≡ c.config)
  store_cookies-http [] c = (refl, refl)
  store_cookies-http (cookie ∷ l) c = (refl, refl)

  post_session-http :
      (b : String × Option Error) (c : Client W)
      → ((post_session W b c).1.http ≡ c.http) × ((post_session W b c).1.config ≡ c.config)
  post_session-http (b, some e) c = (refl, refl)
  post_session-http (b, none) c =
      logged_in-http (W.post (c.config.url <> "/sessions") "application/json" b c.world)
    where
      check-http :
          (resp : HttpResponse) (x : Option Error) (d : Client W)
          → ((check_login W resp x d).1.http ≡ d.http)
            × ((check_login W resp x d).1.config ≡ d.config)
      check-http resp (some e) d = (refl, refl)
      check-http resp none d = ground (arith, store_cookies-http resp.cookies d)

      logged_in-http :
          (r : (Error ⊎ HttpResponse) × W.World)
          → ((logged_in W r c).1.http ≡ c.http) × ((logged_in W r c).1.config ≡ c.config)
      logged_in-http (inl e, w) = (refl, refl)
      logged_in-http (inr resp, w) = check-http resp resp.read_error (record c { world = w })

  -- A login leaves the HTTP client and the configuration alone, also when it fails.
  pub set_session_cookie-http :
      (c : Client W)
      → ((set_session_cookie W c).1.http ≡ c.http) × ((set_session_cookie W c).1.config ≡ c.config)
  unfolding set_session_cookie
  set_session_cookie-http c = post_session-http (W.marshal (session _)) c

  -- After a login without an error the client holds a session cookie.
  pub set_session_cookie-HasSession :
      (c : Client W)
      → (set_session_cookie W c).0 ≡ none
      → HasSession (set_session_cookie W c).1.cookies
  unfolding set_session_cookie
  set_session_cookie-HasSession c h = post_session_sound (W.marshal (session _)) c h

  -- How a login ends that is answered with a readable response. A code other than 200, or a 200
  -- without cookies, is an error, and the client's cookies are as they were. A 200 with cookies
  -- replaces the client's cookies by them: the login succeeds where a session cookie is among them,
  -- and where none is the error comes with the cookies already stored.
  pub set_session_cookie_answered :
      (c : Client W) {b : String} {resp : HttpResponse} {w : W.World}
      → W.marshal (session (record { email = c.config.email; password = c.config.password }))
        ≡ (b, none)
      → W.post (c.config.url <> "/sessions") "application/json" b c.world ≡ (inr resp, w)
      → resp.read_error ≡ none
      → let result = set_session_cookie W c in
        ((resp.status_code ≢ 200)
          × (result ≡ (
            some (session_status resp.status_code c.config.url resp.body),
            record c { world = w },
          )))
        ⊎ ((resp.status_code ≡ 200)
            × (resp.cookies ≡ [])
            × (result ≡ (some no_cookie, record c { world = w })))
        ⊎ ((resp.status_code ≡ 200)
            × HasSession resp.cookies
            × (result ≡ (none, record c { world = w; cookies = resp.cookies })))
        ⊎ ((resp.status_code ≡ 200)
            × (¬ HasSession resp.cookies)
            × (result ≡ (some no_session_cookie, record c { world = w; cookies = resp.cookies })))
  unfolding set_session_cookie
  set_session_cookie_answered c {resp} {w} m p e =
      rw (m, p, e) (check_login_cases resp (record c { world = w }))
