-- ===== src/Bindings/Watch/Forwarding.antt =====
-- What the watchers of LinkToken.go forward to their sink.
use chainlink_polkadot.Prelude.{
  ◌≡◌, refl, ◌∙◌, ap, true, Option, none, some, List, [], ◌∷◌, inl, inr,
}
use chainlink_polkadot.Errors.{Error}
use chainlink_polkadot.Program.{Outcome, ok, fail}
use chainlink_polkadot.Bindings.Events.{parse}
use chainlink_polkadot.Bindings.Events.Delivery.{Parsed}
use chainlink_polkadot.Bindings.Watch.{
  Case, log_case, sink_case, sub_case, quit_case, Watched, watch_loop, sent_first,
}

-- Each log is received, and its event taken by the sink.
abbrev pub rounds : {Log : Type 0} → List Log → List (Case Log) → List (Case Log)
rounds [] cases = cases
rounds (log ∷ logs) cases = log_case log ∷ sink_case ∷ rounds logs cases

module _ {Log Event : Type 0} (unpack_log : Log → Event × Option Error)
    (with_raw : Event → Log → Event) where
  -- How the loop ends after whole rounds, and what it returns. In the last three a log has been
  -- received whose event the sink does not take.
  pub data Finishes : List (Case Log) → Outcome (Unit {0}) → Type 0 where
    quits : {rest : List (Case Log)} → Finishes (quit_case ∷ rest) (ok tt)
    closes : {rest : List (Case Log)} → Finishes (sub_case none ∷ rest) (ok tt)
    breaks : {e : Error} {rest : List (Case Log)} → Finishes (sub_case (some e) ∷ rest) (fail e)
    unparsed :
        {log : Log} {e : Error} {rest : List (Case Log)}
        → parse unpack_log with_raw log ≡ inl e
        → Finishes (log_case log ∷ rest) (fail e)
    drops_quit :
        {log : Log} {event : Event} {rest : List (Case Log)}
        → parse unpack_log with_raw log ≡ inr event
        → Finishes (log_case log ∷ quit_case ∷ rest) (ok tt)
    drops_closed :
        {log : Log} {event : Event} {rest : List (Case Log)}
        → parse unpack_log with_raw log ≡ inr event
        → Finishes (log_case log ∷ sub_case none ∷ rest) (ok tt)
    drops_broken :
        {log : Log} {event : Event} {e : Error} {rest : List (Case Log)}
        → parse unpack_log with_raw log ≡ inr event
        → Finishes (log_case log ∷ sub_case (some e) ∷ rest) (fail e)

  abbrev pub forwarded : List Event → Outcome (Unit {0}) → Watched Event
  forwarded events result = record { sent = events; result = result; unsubscribed = true }

  last_round :
      {cases : List (Case Log)} {result : Outcome (Unit {0})}
      → Finishes cases result
      → watch_loop unpack_log with_raw none cases ≡ forwarded [] result
  unfolding watch_loop
  last_round quits = refl
  last_round closes = refl
  last_round breaks = refl
  last_round (unparsed p) = rw p
  last_round (drops_quit p) = rw p
  last_round (drops_closed p) = rw p
  last_round (drops_broken p) = rw p

  one_round :
      (log : Log) (rest : List (Case Log)) {event : Event}
      → parse unpack_log with_raw log ≡ inr event
      → watch_loop unpack_log with_raw none (log_case log ∷ sink_case ∷ rest)
        ≡ sent_first unpack_log with_raw event (watch_loop unpack_log with_raw none rest)
  unfolding watch_loop
  one_round log rest p = rw p

  -- A watcher forwards the events of the logs that it receives in their order and once each, and
  -- when it ends, with the error that its last round gives or none, it has given up the library's
  -- subscription, and the sink has exactly the events of the whole rounds before.
  pub watch_loop_lem :
      (logs : List Log) (events : List Event) (cases : List (Case Log))
      (result : Outcome (Unit {0}))
      → Parsed unpack_log with_raw logs events
      → Finishes cases result
      → watch_loop unpack_log with_raw none (rounds logs cases) ≡ forwarded events result
  watch_loop_lem [] [] cases result h last = last_round last
  watch_loop_lem [] (event ∷ events) cases result h last = absurd h
  watch_loop_lem (log ∷ logs) [] cases result h last = absurd h
  watch_loop_lem (log ∷ logs) (event ∷ events) cases result (p, h) last =
      one_round log (rounds logs cases) p
      ∙ ap (sent_first unpack_log with_raw event) (watch_loop_lem logs events cases result h last)
