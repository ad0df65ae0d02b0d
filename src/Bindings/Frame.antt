-- ===== src/Bindings/Frame.antt =====
-- The generated methods leave the shared network records alone.
use chainlink_polkadot.Prelude.{ℕ, refl, String, Option, List}
use chainlink_polkadot.Program.{Outcome}
use chainlink_polkadot.Crypto.{Crypto}
use chainlink_polkadot.Node.{Node, TransactOpts}
use chainlink_polkadot.Ethereum.Frame.{Keeps, Keeps-pure, Keeps-call, Keeps-check, Keeps-bind}
use chainlink_polkadot.Bindings.Bound.{
  Value, CallOpts, Artifact, Bind, Instance, deploy, bind_contract, new_instance, field, call_one,
  transact,
}
use chainlink_polkadot.Bindings.Aggregators.{latest_round_data}

module _ {C : Crypto} (N : Node C) (B : Bind N) where
  pub Keeps-field :
      {A : Type 0} (as_type : Value C.Address → Outcome A) (i : ℕ) (out : List (Value C.Address))
      → Keeps (field N B as_type i out)
  Keeps-field as_type i out = record { at = λ s. refl }

  pub Keeps-call_one :
      {A : Type 0} (as_type : Value C.Address → Outcome A) (c : Instance B.BoundContract)
      (method : String) (params : List (Value C.Address)) (opts : CallOpts C.Address)
      → Keeps (call_one N B as_type c method params opts)
  unfolding call_one
  Keeps-call_one as_type c method params opts =
      Keeps-bind (Keeps-call _) λ out. Keeps-field as_type 0 out

  pub Keeps-transact :
      (c : Instance B.BoundContract) (method : String) (params : List (Value C.Address))
      (opts : TransactOpts C.Address N.Signer)
      → Keeps (transact N B c method params opts)
  unfolding transact
  Keeps-transact c method params opts = Keeps-call _

  pub Keeps-deploy :
      (art : Artifact) (params : List (Value C.Address)) (auth : TransactOpts C.Address N.Signer)
      (backend : N.Client)
      → Keeps (deploy N B art params auth backend)
  unfolding deploy
  Keeps-deploy art params auth backend =
      Keeps-bind (Keeps-check _) λ p. Keeps-bind (Keeps-call _) λ d. Keeps-pure _

  Keeps-bind_contract :
      (art : Artifact) (at : C.Address) (a b c : Option N.Client)
      → Keeps (bind_contract N B art at a b c)
  unfolding bind_contract
  Keeps-bind_contract art at a b c = Keeps-bind (Keeps-check _) λ p. Keeps-pure _

  pub Keeps-new_instance :
      (art : Artifact) (at : C.Address) (backend : N.Client)
      → Keeps (new_instance N B art at backend)
  unfolding new_instance
  Keeps-new_instance art at backend =
      Keeps-bind (Keeps-bind_contract art at _ _ _) λ c. Keeps-pure _

  pub Keeps-latest_round_data :
      (c : Instance B.BoundContract) (opts : CallOpts C.Address)
      → Keeps (latest_round_data N B c opts)
  unfolding latest_round_data
  Keeps-latest_round_data c opts = Keeps-bind (Keeps-call _) λ out.
      Keeps-bind (Keeps-field _ 0 out) λ a. Keeps-bind (Keeps-field _ 1 out) λ b.
        Keeps-bind (Keeps-field _ 2 out) λ d.
          Keeps-bind (Keeps-field _ 3 out) λ e. Keeps-bind (Keeps-field _ 4 out) λ f. Keeps-pure _
