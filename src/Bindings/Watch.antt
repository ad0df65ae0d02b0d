-- ===== src/Bindings/Watch.antt =====
-- The watchers of fm-demo/go-scripts/contracts/ethereum/LinkToken.go: the goroutine that forwards
-- a subscription's logs to a sink.
pub mod Forwarding
use chainlink_polkadot.Prelude.{
  String, Bool, true, false, Option, none, some, List, [], ◌∷◌, ◌⊎◌, inl, inr,
}
use chainlink_polkadot.Errors.{Error}
use chainlink_polkadot.Program.{Outcome, ok, fail, blocked}
use chainlink_polkadot.Bindings.Events.{
  LinkTokenApproval, LinkTokenTransfer, LinkTokenTransfer0, Filterer, parse, approval_raw,
  transfer_raw, transfer0_raw,
}

-- Which case a `select` takes: a new log, the sink that receives the event, the subscription's
-- error, which is nil when it was closed, or the end of the watcher's own subscription.
pub data Case (Log : Type 0) : Type 0 where
  log_case : Log → Case Log
  sink_case : Case Log
  sub_case : Option Error → Case Log
  quit_case : Case Log

-- What the sink has received, what the goroutine has returned, and whether its deferred
-- `Unsubscribe` has run.
pub record Watched (Event : Type 0) : Type 0 where
  pub sent : List Event
  pub result : Outcome (Unit {0})
  pub unsubscribed : Bool

module _ {Log Event : Type 0} (unpack_log : Log → Event × Option Error)
    (with_raw : Event → Log → Event) where
  abbrev pub waiting : Watched Event
  waiting = record { sent = []; result = blocked; unsubscribed = false }

  abbrev pub returned : Outcome (Unit {0}) → Watched Event
  returned result = record { sent = []; result = result; unsubscribed = true }

  abbrev pub closed_with : Option Error → Watched Event
  closed_with none = returned (ok tt)
  closed_with (some e) = returned (fail e)

  abbrev pub sent_first : Event → Watched Event → Watched Event
  sent_first event watched = record watched { sent = event ∷ watched.sent }

  abbrev pub offer : Error ⊎ Event → (Event → Watched Event) → Watched Event
  offer (inl e) then_ = returned (fail e)
  offer (inr event) then_ = then_ event

  -- The `for` loop: it is at the outer select, or at the inner one with an event for the sink. A
  -- case that its select does not have cannot be taken.
  unfoldable pub watch_loop : Option Event → List (Case Log) → Watched Event
  unfolding parse
  watch_loop state [] = waiting
  watch_loop state (quit_case ∷ rest) = returned (ok tt)
  watch_loop state (sub_case e ∷ rest) = closed_with e
  watch_loop none (log_case log ∷ rest) =
      offer (parse unpack_log with_raw log) (λ event. watch_loop (some event) rest)
  watch_loop none (sink_case ∷ rest) = waiting
  watch_loop (some event) (log_case log ∷ rest) = waiting
  watch_loop (some event) (sink_case ∷ rest) = sent_first event (watch_loop none rest)

-- What a `Watch…` function makes of the answer of `WatchLogs`.
module _ {Log World : Type 0} where
  abbrev pub watching :
      {Event : Type 0}
      → (List (Case Log) → Watched Event)
      → (Error ⊎ List (Case Log)) × World
      → (Error ⊎ Watched Event) × World
  watching run (inl e, w) = (inl e, w)
  watching run (inr cases, w) = (inr (run cases), w)

module _ {Log Address World : Type 0} (f : Filterer Log Address World)
    (watch_logs : String → List (List Address) → World → (Error ⊎ List (Case Log)) × World) where
  -- `WatchApproval`, with what its goroutine comes to.
  unfoldable pub watch_approval :
      List Address
      → List Address
      → World
      → (Error ⊎ Watched (LinkTokenApproval Log Address)) × World
  unfolding watch_loop
  watch_approval owner spender w =
      watching (watch_loop f.unpack_approval (approval_raw f) none)
        (watch_logs "Approval" (owner ∷ spender ∷ []) w)

  unfoldable pub watch_transfer :
      List Address
      → List Address
      → World
      → (Error ⊎ Watched (LinkTokenTransfer Log Address)) × World
  unfolding watch_loop
  watch_transfer from to w =
      watching (watch_loop f.unpack_transfer (transfer_raw f) none)
        (watch_logs "Transfer" (from ∷ to ∷ []) w)

  unfoldable pub watch_transfer0 :
      List Address
      → List Address
      → World
      → (Error ⊎ Watched (LinkTokenTransfer0 Log Address)) × World
  unfolding watch_loop
  watch_transfer0 from to w =
      watching (watch_loop f.unpack_transfer0 (transfer0_raw f) none)
        (watch_logs "Transfer0" (from ∷ to ∷ []) w)
