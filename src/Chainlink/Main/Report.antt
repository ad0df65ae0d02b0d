-- ===== src/Chainlink/Main/Report.antt =====
-- What the command of main.go prints.
use chainlink_polkadot.Prelude.{
  ℕ, suc, ◌+◌, ◌≡◌, refl, ◌∙◌, Option, none, some, List, [], ◌∷◌, ◌++◌, inl, inr, length, arith,
}
use chainlink_polkadot.Errors.{Error}
use chainlink_polkadot.Program.{ok, ◌>>=◌}
use chainlink_polkadot.Chainlink.Models.{Spec, zero_spec}
use chainlink_polkadot.Chainlink.Web.{Web}
use chainlink_polkadot.Chainlink.Requests.Status.{do_raw_total}
use chainlink_polkadot.Chainlink.Session.{set_client, set_session_cookie}
use chainlink_polkadot.Chainlink.Session.Cookies.{set_session_cookie-http}
use chainlink_polkadot.Chainlink.Endpoints.{create_spec}
use chainlink_polkadot.Chainlink.Main.{
  Line, problem, created, SpecFile, opening, contents, problems, new_default_client, post_file,
  main,
}

-- How many specs are reported as created.
abbrev pub count_created : List Line → ℕ
count_created [] = 0
count_created (problem e ∷ lines) = count_created lines
count_created (created s ∷ lines) = suc (count_created lines)

count_created-append :
    (xs ys : List Line) → count_created (xs ++ ys) ≡ count_created xs + count_created ys
count_created-append [] ys = omega arith
count_created-append (problem e ∷ xs) ys = count_created-append xs ys
count_created-append (created s ∷ xs) ys = omega (arith, count_created-append xs ys)

count_round :
    (file : SpecFile) (e : Option Error) (s : Spec)
    → count_created (opening file ++ (problems e ++ created s ∷ [])) ≡ 1
count_round (inl x) none s = refl
count_round (inl x) (some e) s = refl
count_round (inr t) none s = refl
count_round (inr t) (some e) s = refl

module _ (W : Web) (http : W.HttpClient) where
  post_file_lem :
      (file : SpecFile) (world : W.World)
      → (lines : List Line) × (w : W.World) × (post_file W http file world ≡ (ok lines, w))
        × (count_created lines ≡ 1)
  unfolding post_file create_spec set_client
  post_file_lem file world =
      let c = set_client W http (new_default_client W http "http://localhost:6688" world) in
      let d = (set_session_cookie W c).1 in
      let ((s, e), d', eq) =
        do_raw_total W (some W.decode_spec) 200 zero_spec "POST" "/v2/specs" (contents file) d
          ((set_session_cookie-http W c).0) in
      (opening file ++ (problems e ++ created s ∷ []), d'.world, rw eq, count_round file e s)

  -- The command goes through all files, and for every file it reports a spec as created: also
  -- where the file could not be opened, the login failed or the node refused the spec.
  pub main_reports :
      (files : List SpecFile) (world : W.World)
      → (lines : List Line) × (w : W.World) × (main W http (inr files) world ≡ (ok lines, w))
        × (count_created lines ≡ length files)
  unfolding main ◌>>=◌
  main_reports [] world = ([], world, refl, refl)
  main_reports (file ∷ files) world =
      let (lines, v, e, n) = post_file_lem file world in
      let (rest, w, f, m) = main_reports files v in
      (lines ++ rest, w, rw (e, f), count_created-append lines rest ∙ omega (arith, n, m))
