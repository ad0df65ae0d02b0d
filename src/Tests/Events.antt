-- ===== src/Tests/Events.antt =====
-- Iterating over the events of the LINK token.
use chainlink_polkadot.Prelude.{
  ℕ, ◌≡◌, refl, String, true, false, Option, none, some, List, [], ◌∷◌, inl, inr, ltb,
  if◌then◌else◌,
}
use chainlink_polkadot.Prelude.Int.{pos}
use chainlink_polkadot.Errors.{Error, foreign}
use chainlink_polkadot.Program.{ok, fail}
use chainlink_polkadot.Bindings.Events.{
  log_ready, ended, Iterator, LinkTokenTransfer, Filterer, next, next_transfer, filter_transfer,
  parse,
}
use chainlink_polkadot.Bindings.Watch.{log_case, sink_case, watch_loop}
use chainlink_polkadot.Bindings.Watch.Forwarding.{unparsed, watch_loop_lem}
use chainlink_polkadot.Bindings.Events.Delivery.{
  Parsed, Delivers, running, next-Delivers, next_stops,
}

-- A log is the amount that it tells of, and does not parse from 100 on.
abbrev transfer_of : ℕ → LinkTokenTransfer ℕ String
transfer_of n = record { from = "0xa"; to = "0xb"; value = some (pos n); payload = ""; raw = none }

abbrev unpack : ℕ → LinkTokenTransfer ℕ String × Option Error
unpack n = (transfer_of n, if ltb n 100 then none else some (foreign "abi"))

abbrev with_log : LinkTokenTransfer ℕ String → ℕ → LinkTokenTransfer ℕ String
with_log event log = record event { raw = some log }

abbrev filterer : Filterer ℕ String ℕ
filterer = record {
  filter_logs = λ event rules w. (inr (5 ∷ 7 ∷ [], log_ready ∷ ended none ∷ []), w);
  unpack_approval =
      λ log. (record { owner = "0xa"; spender = "0xb"; value = none; raw = none }, none);
  unpack_transfer = unpack;
  unpack_transfer0 = λ log. (record { from = "0xa"; to = "0xb"; value = none; raw = none }, none);
}

abbrev at_start : Iterator ℕ (LinkTokenTransfer ℕ String)
at_start = running unpack with_log none (5 ∷ 7 ∷ []) (log_ready ∷ ended none ∷ []) false

filtered : filter_transfer filterer [] [] 0 ≡ (inr at_start, 0)
unfolding filter_transfer
filtered = refl

first_transfer : next_transfer filterer at_start ≡ (
  ok true,
  running unpack with_log (some (with_log (transfer_of 5) 5)) (7 ∷ []) (ended none ∷ []) false,
)
unfolding next_transfer next
first_transfer = refl

abbrev two_events : List (LinkTokenTransfer ℕ String)
two_events = with_log (transfer_of 5) 5 ∷ with_log (transfer_of 7) 7 ∷ []

two-Parsed : Parsed unpack with_log (5 ∷ 7 ∷ []) two_events
unfolding parse
two-Parsed = (refl, (refl, tt))

too_large : parse unpack with_log 100 ≡ inl (foreign "abi")
unfolding parse
too_large = refl

next-Delivers_example : Delivers unpack with_log at_start two_events none []
next-Delivers_example =
    next-Delivers unpack with_log none (5 ∷ 7 ∷ []) two_events (log_ready ∷ ended none ∷ [])
      two-Parsed tt

next_stops_example :
    Delivers unpack with_log
      (running unpack with_log none (5 ∷ 7 ∷ 100 ∷ 8 ∷ []) (log_ready ∷ ended none ∷ []) false)
      two_events
      (some (foreign "abi"))
      (8 ∷ [])
next_stops_example =
    next_stops unpack with_log none (5 ∷ 7 ∷ []) two_events 100 (8 ∷ []) (foreign "abi")
      (log_ready ∷ ended none ∷ []) two-Parsed too_large tt

watch_loop_lem_example :
    watch_loop unpack with_log none
      (log_case 5 ∷ sink_case ∷ log_case 7 ∷ sink_case ∷ log_case 100 ∷ sink_case ∷ [])
    ≡ record { sent = two_events; result = fail (foreign "abi"); unsubscribed = true }
watch_loop_lem_example =
    watch_loop_lem unpack with_log (5 ∷ 7 ∷ []) two_events (log_case 100 ∷ sink_case ∷ [])
      (fail (foreign "abi")) two-Parsed (unparsed too_large)
