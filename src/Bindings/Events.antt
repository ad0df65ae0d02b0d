-- ===== src/Bindings/Events.antt =====
-- The event iterators of fm-demo/go-scripts/contracts/ethereum/LinkToken.go, which are the same
-- code for each event, and the two events of the LINK token.
pub mod Delivery
use chainlink_polkadot.Prelude.{
  String, Bool, true, false, Option, none, some, List, [], ◌∷◌, map, ◌⊎◌, inl, inr, if◌then◌else◌,
}
use chainlink_polkadot.Errors.{Error}
use chainlink_polkadot.Program.{Outcome, ok, blocked}
use chainlink_polkadot.Node.{BigInt}

-- Which case a blocking `select` of `Next` takes: a log of the channel, or the end of the
-- subscription with its error.
pub data Select : Type 0 where
  log_ready : Select
  ended : Option Error → Select

-- `LinkToken…Iterator`: `logs` are the logs that the channel still delivers, and `selects` the
-- cases that the blocking selects to come take.
pub record Iterator (Log Event : Type 0) : Type 0 where
  pub event : Option Event
  pub logs : List Log
  pub selects : List Select
  pub done : Bool
  pub failure : Option Error

-- The library's `UnpackLog` fills in a new event, as far as it gets; `with_raw` sets the field
-- `Raw`.
module _ {Log Event : Type 0} (unpack_log : Log → Event × Option Error)
    (with_raw : Event → Log → Event) where
  abbrev unpacked :
      Iterator Log Event → Log → Event × Option Error → Outcome Bool × Iterator Log Event
  unpacked it log (event, some e) = (ok false, record it { event = some event; failure = some e })
  unpacked it log (event, none) = (ok true, record it { event = some (with_raw event log) })

  abbrev received : Iterator Log Event → Log → Outcome Bool × Iterator Log Event
  received it log = unpacked it log (unpack_log log)

  -- The `select` with a default, once the subscription has ended.
  abbrev poll : Iterator Log Event → List Log → Outcome Bool × Iterator Log Event
  poll it [] = (ok false, it)
  poll it (log ∷ rest) = received (record it { logs = rest }) log

  -- `Next` of an iterator that is done.
  abbrev next_done : Iterator Log Event → Option Error → Outcome Bool × Iterator Log Event
  next_done it (some e) = (ok false, it)
  next_done it none = poll it it.logs

  -- The blocking `select`; the case of a log cannot be taken where none comes.
  abbrev wait : Iterator Log Event → List Select → List Log → Outcome Bool × Iterator Log Event
  wait it [] logs = (blocked, it)
  wait it (log_ready ∷ rest) [] = (blocked, it)
  wait it (log_ready ∷ rest) (log ∷ logs) = received (record it { selects = rest; logs = logs }) log
  wait it (ended e ∷ rest) logs =
      next_done (record it { selects = rest; done = true; failure = e }) e

  abbrev next_unfailed : Iterator Log Event → Option Error → Outcome Bool × Iterator Log Event
  next_unfailed it (some e) = (ok false, it)
  next_unfailed it none = if it.done then poll it it.logs else wait it it.selects it.logs

  -- `Next`
  unfoldable pub next : Iterator Log Event → Outcome Bool × Iterator Log Event
  next it = next_unfailed it it.failure

  abbrev pub parsed : Log → Event × Option Error → Error ⊎ Event
  parsed log (event, some e) = inl e
  parsed log (event, none) = inr (with_raw event log)

  -- `Parse…`
  unfoldable pub parse : Log → Error ⊎ Event
  parse log = parsed log (unpack_log log)

-- What a `Filter…` function makes of the answer of `FilterLogs`.
module _ {Log World : Type 0} where
  abbrev pub iterator :
      {Event : Type 0}
      → (Error ⊎ (List Log × List Select)) × World
      → (Error ⊎ Iterator Log Event) × World
  iterator (inl e, w) = (inl e, w)
  iterator (inr (logs, selects), w) = (
    inr (record { event = none; logs = logs; selects = selects; done = false; failure = none }),
    w,
  )

-- `LinkTokenApproval`
pub record LinkTokenApproval (Log Address : Type 0) : Type 0 where
  pub owner : Address
  pub spender : Address
  pub value : BigInt
  pub raw : Option Log

-- `LinkTokenTransfer`
pub record LinkTokenTransfer (Log Address : Type 0) : Type 0 where
  pub from : Address
  pub to : Address
  pub value : BigInt
  pub payload : String
  pub raw : Option Log

-- `LinkTokenTransfer0`, the transfer of the ERC20 interface
pub record LinkTokenTransfer0 (Log Address : Type 0) : Type 0 where
  pub from : Address
  pub to : Address
  pub value : BigInt
  pub raw : Option Log

-- The generic contract behind a filterer: `FilterLogs` of `bind`, with the topics' rules, gives the
-- logs and what the selects on them and on the subscription will take.
pub record Filterer (Log Address World : Type 0) : Type 0 where
  pub filter_logs :
      String → List (List Address) → World → (Error ⊎ (List Log × List Select)) × World
  pub unpack_approval : Log → LinkTokenApproval Log Address × Option Error
  pub unpack_transfer : Log → LinkTokenTransfer Log Address × Option Error
  pub unpack_transfer0 : Log → LinkTokenTransfer0 Log Address × Option Error

module _ {Log Address World : Type 0} (f : Filterer Log Address World) where
  abbrev pub approval_raw : LinkTokenApproval Log Address → Log → LinkTokenApproval Log Address
  approval_raw event log = record event { raw = some log }

  abbrev pub transfer_raw : LinkTokenTransfer Log Address → Log → LinkTokenTransfer Log Address
  transfer_raw event log = record event { raw = some log }

  abbrev pub transfer0_raw : LinkTokenTransfer0 Log Address → Log → LinkTokenTransfer0 Log Address
  transfer0_raw event log = record event { raw = some log }

  unfoldable pub filter_approval :
      List Address
      → List Address
      → World
      → (Error ⊎ Iterator Log (LinkTokenApproval Log Address)) × World
  filter_approval owner spender w = iterator (f.filter_logs "Approval" (owner ∷ spender ∷ []) w)

  unfoldable pub filter_transfer :
      List Address
      → List Address
      → World
      → (Error ⊎ Iterator Log (LinkTokenTransfer Log Address)) × World
  filter_transfer from to w = iterator (f.filter_logs "Transfer" (from ∷ to ∷ []) w)

  unfoldable pub next_approval :
      Iterator Log (LinkTokenApproval Log Address)
      → Outcome Bool × Iterator Log (LinkTokenApproval Log Address)
  unfolding next
  next_approval = next f.unpack_approval approval_raw

  unfoldable pub next_transfer :
      Iterator Log (LinkTokenTransfer Log Address)
      → Outcome Bool × Iterator Log (LinkTokenTransfer Log Address)
  unfolding next
  next_transfer = next f.unpack_transfer transfer_raw

  unfoldable pub parse_approval : Log → Error ⊎ LinkTokenApproval Log Address
  unfolding parse
  parse_approval = parse f.unpack_approval approval_raw

  unfoldable pub parse_transfer : Log → Error ⊎ LinkTokenTransfer Log Address
  unfolding parse
  parse_transfer = parse f.unpack_transfer transfer_raw

  unfoldable pub filter_transfer0 :
      List Address
      → List Address
      → World
      → (Error ⊎ Iterator Log (LinkTokenTransfer0 Log Address)) × World
  filter_transfer0 from to w = iterator (f.filter_logs "Transfer0" (from ∷ to ∷ []) w)

  unfoldable pub next_transfer0 :
      Iterator Log (LinkTokenTransfer0 Log Address)
      → Outcome Bool × Iterator Log (LinkTokenTransfer0 Log Address)
  unfolding next
  next_transfer0 = next f.unpack_transfer0 transfer0_raw

  unfoldable pub parse_transfer0 : Log → Error ⊎ LinkTokenTransfer0 Log Address
  unfolding parse
  parse_transfer0 = parse f.unpack_transfer0 transfer0_raw
