-- ===== src/Ethereum/Wait/Confirmed.antt =====
-- What a nil error of a whole call of `WaitForTransaction` of ethereum.go says.
use chainlink_polkadot.Prelude.{ℕ, ◌+◌, ◌≤◌, ◌≡◌, ap, Option, none, some, length}
use chainlink_polkadot.Prelude.Int.{pos, ◌≤ℤ◌}
use chainlink_polkadot.Errors.{Error}
use chainlink_polkadot.Program.{ok, fail, panicked, blocked, proceed, ◌>>=◌, ◌>>◌}
use chainlink_polkadot.Config.{NetworkConfig}
use chainlink_polkadot.Crypto.{Crypto}
use chainlink_polkadot.Node.{Node}
use chainlink_polkadot.Network
use chainlink_polkadot.Ethereum.Defs.{State, EthereumClient, lift_error}
use chainlink_polkadot.Ethereum.Wait.{
  Waited, wait_loop, resume, subscribed, unsubscribed, wait_for_transaction,
}
use chainlink_polkadot.Ethereum.Wait.Result.{OnlyHeaders, wait_loop-headers}

module _ {C : Crypto} (N : Node C) (e : EthereumClient N.Client) (hash : N.Hash) where
  resumed_ok :
      (s t : State N.World) (r : Waited N.World)
      → unsubscribed N e (resume N e s r) ≡ (ok tt, t)
      → (u : N.World) × (r ≡ (ok tt, t.schedule, u))
  resumed_ok s t (ok tt, rest, u) h = (u, ap (λ l. (ok tt, l, u)) (ap (λ p. p.1.schedule) h))
  resumed_ok s t (fail x, rest, u) h = cc
  resumed_ok s t (panicked, rest, u) h = cc
  resumed_ok s t (blocked, rest, u) h = cc

  subscribed_ok :
      (s t : State N.World) {conf : NetworkConfig} (r : Option Error × N.World)
      → Network.config e.network s.heap ≡ ok conf
      → proceed (lift_error r s) (λ _ s'. unsubscribed N e (subscribed N e hash s')) ≡ (ok tt, t)
      → (w u : N.World) × (wait_loop N e.client hash conf 0 s.schedule w ≡ (ok tt, t.schedule, u))
  unfolding ◌>>=◌ ◌>>◌
  subscribed_ok s t (some x, w) c h = cc
  subscribed_ok s t (none, w) c h =
      let (u, l) = resumed_ok (record s { world = w }) t _ (rw c at h) in (w, u, l)

  -- Where the selects receive headers only, a call that returns nil has received as many headers
  -- as the network's minimum of confirmations, and one at least.
  pub wait_for_transaction-headers :
      (s t : State N.World) {conf : NetworkConfig}
      → Network.config e.network s.heap ≡ ok conf
      → OnlyHeaders s.schedule
      → wait_for_transaction N e hash s ≡ (ok tt, t)
      → (k : ℕ) × (1 ≤ k)
        × (conf.minimum_confirmations ≤ℤ pos k)
        × (k + length t.schedule ≤ length s.schedule)
  unfolding wait_for_transaction ◌>>◌
  wait_for_transaction-headers s t {conf} c only h =
      let (w, u, l) = subscribed_ok s t (N.subscribe_new_head e.client s.world) c h in
      wait_loop-headers N e.client hash conf s.schedule t.schedule w u only l
