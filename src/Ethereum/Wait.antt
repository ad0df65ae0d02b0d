-- ===== src/Ethereum/Wait.antt =====
-- `WaitForTransaction` of fm-demo/go-scripts/client/ethereum.go. The outcomes of its selects are a
-- list; where the list ends, the loop still waits.
pub mod Loop
pub mod Progress
pub mod Confirmed
pub mod Result
use chainlink_polkadot.Prelude.{
  ℕ, suc, String, Bool, true, false, not, Option, none, some, List, [], ◌∷◌, ◌⊎◌, inl, inr,
  if◌then◌else◌,
}
use chainlink_polkadot.Prelude.Int.{ℤ, pos, ltb_ℤ}
use chainlink_polkadot.Errors.{Error, wait_timeout}
use chainlink_polkadot.Program.{Outcome, ok, fail, panicked, blocked, M, ◌>>=◌, ◌>>◌}
use chainlink_polkadot.Config.{NetworkConfig}
use chainlink_polkadot.Crypto.{Crypto}
use chainlink_polkadot.Node.{Node, Wake, sub_error, header, timer}
use chainlink_polkadot.Network
use chainlink_polkadot.Ethereum.Defs.{State, EthereumClient, attempt, read}

-- What the loop returns, what is left of the schedule, and the world.
abbrev pub Waited : Type 0 → Type 0
Waited World = Outcome (Unit {0}) × List Wake × World

module _ {C : Crypto} (N : Node C) (cl : N.Client) (hash : N.Hash) where
  abbrev negated : (Error ⊎ Bool) × N.World → (Error ⊎ Bool) × N.World
  negated (inl e, w) = (inl e, w)
  negated (inr pending, w) = (inr (not pending), w)

  -- `isTxConfirmed`
  unfoldable pub is_tx_confirmed : N.World → (Error ⊎ Bool) × N.World
  is_tx_confirmed w = negated (N.transaction_by_hash cl hash w)

  abbrev looked_up : Option Error × N.World → (Error ⊎ Bool) × N.World
  looked_up (some e, w) = (inl e, w)
  looked_up (none, w) = is_tx_confirmed w

  -- What a header's round finds out: an error, or whether the transaction is confirmed.
  unfoldable pub on_header : ℕ → N.World → (Error ⊎ Bool) × N.World
  unfolding is_tx_confirmed
  on_header number w = looked_up (N.block_by_number cl number w)

  -- The `else` of the timer's case has the error; nothing is returned but that or nil.
  abbrev timed_out : ℤ → List Wake → (Error ⊎ Bool) × N.World → Waited N.World
  timed_out timeout rest (inl e, w) = (fail e, rest, w)
  timed_out timeout rest (inr true, w) = (ok tt, rest, w)
  timed_out timeout rest (inr false, w) = (fail (wait_timeout timeout), rest, w)

  module _ (conf : NetworkConfig) where
    -- The rest of a header's round, after n confirmations: `go` is the next iteration.
    abbrev end_round :
        ℕ → List Wake → (ℕ → N.World → Waited N.World) → (Error ⊎ Bool) × N.World → Waited N.World
    end_round n rest go (inl e, w) = (fail e, rest, w)
    end_round n rest go (inr false, w) = go n w
    end_round n rest go (inr true, w) =
        if ltb_ℤ (pos (suc n)) conf.minimum_confirmations then go (suc n) w else (ok tt, rest, w)

    -- The `for` loop, after n confirmations. The network's record cannot change while it runs.
    unfoldable pub wait_loop : ℕ → List Wake → N.World → Waited N.World
    wait_loop n [] w = (blocked, [], w)
    wait_loop n (sub_error none ∷ rest) w = (ok tt, rest, w)
    wait_loop n (sub_error (some e) ∷ rest) w = (fail e, rest, w)
    wait_loop n (timer ∷ rest) w = timed_out conf.timeout rest (is_tx_confirmed w)
    wait_loop n (header number ∷ rest) w =
        end_round n rest (λ m v. wait_loop m rest v) (on_header number w)

module _ {C : Crypto} (N : Node C) (e : EthereumClient N.Client) where
  -- The deferred `Unsubscribe` runs when the function returns or panics.
  abbrev pub unsubscribed : Outcome (Unit {0}) × State N.World → Outcome (Unit {0}) × State N.World
  unsubscribed (blocked, s) = (blocked, s)
  unsubscribed (r, s) = (r, record s { world = N.unsubscribe e.client s.world })

  abbrev pub resume : State N.World → Waited N.World → Outcome (Unit {0}) × State N.World
  resume s (r, rest, w) = (r, record s { world = w; schedule = rest })

  abbrev pub subscribed : N.Hash → M (State N.World) (Unit {0})
  subscribed hash = do
    conf ← read (Network.config e.network)
    λ s. resume s (wait_loop N e.client hash conf 0 s.schedule s.world)

  -- `WaitForTransaction`
  unfoldable pub wait_for_transaction : N.Hash → M (State N.World) (Unit {0})
  wait_for_transaction hash = do
    attempt (N.subscribe_new_head e.client)
    λ s. unsubscribed (subscribed hash s)
