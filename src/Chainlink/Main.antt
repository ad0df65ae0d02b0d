-- ===== src/Chainlink/Main.antt =====
-- fm-demo/go-scripts/main.go: the command that posts a job spec for each file of a folder.
pub mod Report
use chainlink_polkadot.Prelude.{String, Option, none, some, List, [], ◌∷◌, ◌++◌, ◌⊎◌, inl, inr}
use chainlink_polkadot.Errors.{Error}
use chainlink_polkadot.Program.{Outcome, ok, fail, panicked, blocked, M, ◌>>=◌, pure, and_then}
use chainlink_polkadot.Chainlink.Models.{ChainlinkConfig, Spec}
use chainlink_polkadot.Chainlink.Web.{Web, Client}
use chainlink_polkadot.Chainlink.Session.{new_chainlink, set_client, set_session_cookie}
use chainlink_polkadot.Chainlink.Endpoints.{create_spec}

-- What is printed: an error, or "Job spec created" with the spec.
pub data Line : Type 0 where
  problem : Error → Line
  created : Spec → Line

-- A file that can be opened, with what is read of it, or the error of opening it. A file that
-- cannot be opened reads as nothing.
abbrev pub SpecFile : Type 0
SpecFile = Error ⊎ String

abbrev opening : SpecFile → List Line
opening (inl e) = problem e ∷ []
opening (inr spec) = []

abbrev contents : SpecFile → String
contents (inl e) = ""
contents (inr spec) = spec

abbrev problems : Option Error → List Line
problems none = []
problems (some e) = problem e ∷ []

abbrev pub default_config : String → ChainlinkConfig
default_config url = record { email = "notreal@fakeemail.ch"; password = "twochains"; url = url }

module _ (W : Web) (http : W.HttpClient) where
  -- `newDefaultClient`
  unfoldable pub new_default_client : String → W.World → Client W
  unfolding new_chainlink
  new_default_client url world = new_chainlink W (default_config url) world

  abbrev posted :
      List Line → Outcome (Spec × Option Error) × Client W → Outcome (List Line) × W.World
  posted lines (ok (s, e), c) = (ok (lines ++ (problems e ++ created s ∷ [])), c.world)
  posted lines (fail e, c) = (fail e, c.world)
  posted lines (panicked, c) = (panicked, c.world)
  posted lines (blocked, c) = (blocked, c.world)

  -- One round of the loop. The error of the login is dropped.
  unfoldable pub post_file : SpecFile → W.World → Outcome (List Line) × W.World
  unfolding new_default_client set_client
  post_file file world =
      let c = set_client W http (new_default_client "http://localhost:6688" world) in
      let (dropped, d) = set_session_cookie W c in
      posted (opening file) (create_spec W (contents file) d)

  unfoldable pub post_files : List SpecFile → M W.World (List Line)
  post_files [] = pure []
  post_files (file ∷ files) = do
    lines ← post_file file
    rest ← post_files files
    pure (lines ++ rest)

  -- `main`: a folder that cannot be read ends the program.
  unfoldable pub main : Error ⊎ List SpecFile → M W.World (List Line)
  unfolding post_files
  main (inl e) world = (fail e, world)
  main (inr files) world = post_files files world
