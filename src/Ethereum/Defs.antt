-- ===== src/Ethereum/Defs.antt =====
-- The client of fm-demo/go-scripts/client/ethereum.go, and the state that its methods pass on.
use chainlink_polkadot.Prelude.{Option, none, some, List, ◌⊎◌, inl, inr}
use chainlink_polkadot.Errors.{Error}
use chainlink_polkadot.Program.{Outcome, ok, fail, panicked, blocked, M, ◌>>=◌, pure}
use chainlink_polkadot.Config.{Heap}
use chainlink_polkadot.Crypto.{Crypto}
use chainlink_polkadot.Node.{Node, Wake}
use chainlink_polkadot.Network
use chainlink_polkadot.Network.{EthereumNetwork}

-- The node's world, the network records that the pointers share, and what the selects to come
-- will receive.
pub record State (World : Type 0) : Type 0 where
  pub world : World
  pub heap : Heap
  pub schedule : List Wake

module _ {W A : Type 0} where
  abbrev pub lift_result : (Error ⊎ A) × W → State W → Outcome A × State W
  lift_result (inl e, w) s = (fail e, record s { world = w })
  lift_result (inr a, w) s = (ok a, record s { world = w })

  -- A call of the node, followed by `if err != nil { return nil, err }`.
  abbrev pub call : (W → (Error ⊎ A) × W) → M (State W) A
  call f s = lift_result (f s.world) s

  -- The same for a call of a library, which has no state.
  abbrev pub check : Error ⊎ A → M (State W) A
  check (inl e) s = (fail e, s)
  check (inr a) s = (ok a, s)

  -- What only reads the network records.
  abbrev pub read : (Heap → Outcome A) → M (State W) A
  read f s = (f s.heap, s)

  abbrev pub caught : Outcome A × State W → Outcome (Option Error) × State W
  caught (ok a, s) = (ok none, s)
  caught (fail e, s) = (ok (some e), s)
  caught (panicked, s) = (panicked, s)
  caught (blocked, s) = (blocked, s)

  -- The error of a call as a value.
  abbrev pub catch : M (State W) A → M (State W) (Option Error)
  catch m s = caught (m s)

module _ {W : Type 0} where
  abbrev pub lift_error : Option Error × W → State W → Outcome (Unit {0}) × State W
  lift_error (none, w) s = (ok tt, record s { world = w })
  lift_error (some e, w) s = (fail e, record s { world = w })

  -- A call of the node that returns an error alone.
  abbrev pub attempt : (W → Option Error × W) → M (State W) (Unit {0})
  attempt f s = lift_error (f s.world) s

-- `EthereumClient`
pub record EthereumClient (Client : Type 0) : Type 0 where
  pub client : Client
  pub network : EthereumNetwork

module _ {C : Crypto} (N : Node C) where
  unfoldable pub new_ethereum_client : EthereumNetwork → M (State N.World) (EthereumClient N.Client)
  unfolding Network.url
  new_ethereum_client network = do
    u ← read (Network.url network)
    cl ← call (N.dial u)
    pure (record { client = cl; network = network })
