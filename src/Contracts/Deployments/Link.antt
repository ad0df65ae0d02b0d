-- ===== src/Contracts/Deployments/Link.antt =====
-- `DeployLinkTokenContract` of ethereum_contracts.go writes the token's address through the
-- pointer that all networks of one name share.
use chainlink_polkadot.Prelude.{
  ℕ, ◌≡◌, ◌≢◌, sym, some, get_elem?, set, get_elem?-set_self, get_elem?-set_ne, lt_of_get_elem?,
  inl, inr, true, false, Bool-cases, ◌==◌, if◌then◌else◌, arith,
}
use chainlink_polkadot.Program.{ok, ◌>>=◌, ◌>>◌}
use chainlink_polkadot.Config.{NetworkConfig, Heap}
use chainlink_polkadot.Crypto.{Crypto}
use chainlink_polkadot.Node.{Node, TransactOpts}
use chainlink_polkadot.Wallets.{Wallet}
use chainlink_polkadot.Network
use chainlink_polkadot.Network.{EthereumNetwork}
use chainlink_polkadot.Ethereum.Defs.{State, EthereumClient}
use chainlink_polkadot.Ethereum.Frame.{Keeps, Keeps-deploy_contract}
use chainlink_polkadot.Ethereum.Sending.{deploy_contract}
use chainlink_polkadot.Bindings.Bound.{Bind, Instance}
use chainlink_polkadot.Bindings.LinkToken.{deploy_link_token}
use chainlink_polkadot.Bindings.Frame.{Keeps-deploy}
use chainlink_polkadot.Contracts.Defs.{Artifacts}
use chainlink_polkadot.Contracts.Deployments.{deploy_link_token_contract}

eq_of_test : (m n : ℕ) → (m == n) ≡ true → m ≡ n
eq_of_test m n h = ground arith

ne_of_test : (m n : ℕ) → (m == n) ≡ false → m ≢ n
ne_of_test m n h = ground arith

module _ {C : Crypto} {N : Node C} (B : Bind N) (art : Artifacts) (e : EthereumClient N.Client)
    (from : Wallet C) where
  Keeps-deploy_link_token :
      (auth : TransactOpts C.Address N.Signer)
      → Keeps (deploy_link_token N B art.link_token auth e.client)
  unfolding deploy_link_token
  Keeps-deploy_link_token auth = Keeps-deploy N B art.link_token _ auth e.client

  -- The settings of any network `n` after a successful deployment of the LINK token through the
  -- client: a network that shares the client's pointer names the deployed contract's address and is
  -- otherwise unchanged, and the settings behind every other pointer are as before. Nothing else of
  -- the state changes after the deployment.
  pub deploy_link_token_contract_lem :
      (s t : State N.World) (n : EthereumNetwork) {at : C.Address} {tx : N.Tx}
      {i : Instance B.BoundContract} (c : NetworkConfig)
      → deploy_contract N e from (deploy_link_token N B art.link_token) s ≡ (ok (at, tx, i), t)
      → get_elem? s.heap e.network.network_config ≡ some c
      → (h : Heap) × (deploy_link_token_contract B art e from s ≡ (
        ok (record { client = e; instance_ = i; caller_wallet = from; address = at }),
        record t { heap = h },
      ))
        × (Network.config n h ≡ (
            if n.network_config == e.network.network_config
            then ok (record c { link_token_address = C.address_hex at })
            else Network.config n s.heap))
  unfolding deploy_link_token_contract Network.config ◌>>=◌ ◌>>◌
  deploy_link_token_contract_lem s t n {at} c d g =
      let same : t.heap ≡ s.heap = rw d at (
        (Keeps-deploy_contract N e from (deploy_link_token N B art.link_token)
            Keeps-deploy_link_token).at
          s) in
      let p = e.network.network_config in
      let named = record c { link_token_address = C.address_hex at } in
      (
        set s.heap p named,
        rw (d, same, g),
        elim (Bool-cases (n.network_config == p)) [
          | inl q ↦ rw q (
              rw (
                eq_of_test n.network_config p q,
                get_elem?-set_self s.heap p named (lt_of_get_elem? s.heap p g),
              ))
          | inr q ↦
              rw q
                (rw (get_elem?-set_ne s.heap named (λ r. ne_of_test n.network_config p q (sym r))))
        ],
      )
