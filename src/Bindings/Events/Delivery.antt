-- ===== src/Bindings/Events/Delivery.antt =====
-- What the iterators of LinkToken.go deliver.
use chainlink_polkadot.Prelude.{
  ◌≡◌, refl, Bool, true, false, Option, none, some, List, [], ◌∷◌, ◌++◌, inl, inr,
}
use chainlink_polkadot.Errors.{Error}
use chainlink_polkadot.Program.{ok}
use chainlink_polkadot.Bindings.Events.{Select, log_ready, ended, Iterator, next, parse, parsed}

-- The selects find the subscription's end, without an error, after no more rounds than there are
-- logs.
abbrev pub EndsWithin : {Log : Type 0} → List Log → List Select → Type 0
EndsWithin logs [] = ⊥
EndsWithin logs (ended none ∷ rest) = Unit
EndsWithin logs (ended (some e) ∷ rest) = ⊥
EndsWithin [] (log_ready ∷ rest) = ⊥
EndsWithin (log ∷ logs) (log_ready ∷ rest) = EndsWithin logs rest

module _ {Log Event : Type 0} (unpack_log : Log → Event × Option Error)
    (with_raw : Event → Log → Event) where
  -- The loop `for it.Next() { … it.Event … }` of a caller sees these events, and leaves the
  -- iterator so.
  pub data Yields : Iterator Log Event → List Event → Iterator Log Event → Type 0 where
    stops :
        {it end : Iterator Log Event}
        → next unpack_log with_raw it ≡ (ok false, end)
        → Yields it [] end
    gives :
        {it advanced end : Iterator Log Event} {event : Event} {events : List Event}
        → next unpack_log with_raw it ≡ (ok true, advanced)
        → advanced.event ≡ some event
        → Yields advanced events end
        → Yields it (event ∷ events) end

  -- Each log parses to its event.
  abbrev pub Parsed : List Log → List Event → Type 0
  Parsed [] [] = Unit
  Parsed [] (event ∷ events) = ⊥
  Parsed (log ∷ logs) [] = ⊥
  Parsed (log ∷ logs) (event ∷ events) =
      (parse unpack_log with_raw log ≡ inr event) × Parsed logs events

  -- An iterator that has not failed.
  abbrev pub running : Option Event → List Log → List Select → Bool → Iterator Log Event
  running event logs selects done = record {
    event = event;
    logs = logs;
    selects = selects;
    done = done;
    failure = none;
  }

  parsed-inr :
      (log : Log) (r : Event × Option Error) {event : Event}
      → parsed unpack_log with_raw log r ≡ inr event
      → (x : Event) × (r ≡ (x, none)) × (with_raw x log ≡ event)
  parsed-inr log (x, none) e = (x, refl, cc)
  parsed-inr log (x, some y) e = cc

  parsed-inl :
      (log : Log) (r : Event × Option Error) {y : Error}
      → parsed unpack_log with_raw log r ≡ inl y
      → (x : Event) × (r ≡ (x, some y))
  parsed-inl log (x, none) e = cc
  parsed-inl log (x, some y) e = (x, cc)

  next_drained :
      (event : Option Event) (log : Log) (logs : List Log) (selects : List Select) {found : Event}
      → parse unpack_log with_raw log ≡ inr found
      → next unpack_log with_raw (running event (log ∷ logs) selects true)
        ≡ (ok true, running (some found) logs selects true)
  unfolding next parse
  next_drained event log logs selects e =
      let (x, u, r) = parsed-inr log (unpack_log log) e in rw (u, r)

  next_received :
      (event : Option Event) (log : Log) (logs : List Log) (selects : List Select) {found : Event}
      → parse unpack_log with_raw log ≡ inr found
      → next unpack_log with_raw (running event (log ∷ logs) (log_ready ∷ selects) false)
        ≡ (ok true, running (some found) logs selects false)
  unfolding next parse
  next_received event log logs selects e =
      let (x, u, r) = parsed-inr log (unpack_log log) e in rw (u, r)

  next_ended :
      (event : Option Event) (logs : List Log) (selects : List Select)
      → next unpack_log with_raw (running event logs (ended none ∷ selects) false)
        ≡ next unpack_log with_raw (running event logs selects true)
  unfolding next
  next_ended event logs selects = refl

  next_empty :
      (event : Option Event) (selects : List Select)
      → next unpack_log with_raw (running event [] selects true)
        ≡ (ok false, running event [] selects true)
  unfolding next
  next_empty event selects = refl

  next_drained_bad :
      (event : Option Event) (log : Log) (logs : List Log) (selects : List Select) {y : Error}
      → parse unpack_log with_raw log ≡ inl y
      → (x : Event) × (next unpack_log with_raw (running event (log ∷ logs) selects true)
          ≡ (ok false, record (running (some x) logs selects true) { failure = some y }))
  unfolding next parse
  next_drained_bad event log logs selects e =
      let (x, u) = parsed-inl log (unpack_log log) e in (x, rw u)

  next_received_bad :
      (event : Option Event) (log : Log) (logs : List Log) (selects : List Select) {y : Error}
      → parse unpack_log with_raw log ≡ inl y
      → (x : Event) × (next unpack_log with_raw
            (running event (log ∷ logs) (log_ready ∷ selects) false)
          ≡ (ok false, record (running (some x) logs selects false) { failure = some y }))
  unfolding next parse
  next_received_bad event log logs selects e =
      let (x, u) = parsed-inl log (unpack_log log) e in (x, rw u)

  -- The caller's loop sees these events, and then `Error()` and the logs left are those.
  abbrev pub Delivers : Iterator Log Event → List Event → Option Error → List Log → Type 0
  Delivers it events failure rest =
      (end : Iterator Log Event) × Yields it events end
      × (end.failure ≡ failure)
      × (end.logs ≡ rest)

  same_next :
      {it it' : Iterator Log Event} {events : List Event} {failure : Option Error} {rest : List Log}
      → next unpack_log with_raw it ≡ next unpack_log with_raw it'
      → Delivers it' events failure rest
      → Delivers it events failure rest
  same_next p (end, stops e, f, l) = (end, stops (rw p e), f, l)
  same_next p (end, gives e v y, f, l) = (end, gives (rw p e) v y, f, l)

  drain :
      (event : Option Event) (logs : List Log) (events : List Event) (selects : List Select)
      → Parsed logs events
      → Delivers (running event logs selects true) events none []
  drain event [] [] selects h =
      (running event [] selects true, stops (next_empty event selects), refl, refl)
  drain event [] (x ∷ events) selects h = absurd h
  drain event (log ∷ logs) [] selects h = absurd h
  drain event (log ∷ logs) (x ∷ events) selects (p, h) =
      let (end, y, f, l) = drain (some x) logs events selects h in
      (end, gives (next_drained event log logs selects p) refl y, f, l)

  drain_bad :
      (event : Option Event) (logs : List Log) (events : List Event) (selects : List Select)
      (bad : Log) (rest : List Log) {y : Error}
      → Parsed logs events
      → parse unpack_log with_raw bad ≡ inl y
      → Delivers (running event (logs ++ bad ∷ rest) selects true) events (some y) rest
  drain_bad event [] [] selects bad rest h b =
      let (x, e) = next_drained_bad event bad rest selects b in (_, stops e, refl, refl)
  drain_bad event [] (x ∷ events) selects bad rest h b = absurd h
  drain_bad event (log ∷ logs) [] selects bad rest h b = absurd h
  drain_bad event (log ∷ logs) (x ∷ events) selects bad rest (p, h) b =
      let (end, y, f, l) = drain_bad (some x) logs events selects bad rest h b in
      (end, gives (next_drained event log (logs ++ bad ∷ rest) selects p) refl y, f, l)

  -- An iterator over logs that all parse delivers every log's event, in the order of the logs and
  -- once each, and ends without an error, wherever between the logs its selects find the end of
  -- the subscription.
  pub next-Delivers :
      (event : Option Event) (logs : List Log) (events : List Event) (selects : List Select)
      → Parsed logs events
      → EndsWithin logs selects
      → Delivers (running event logs selects false) events none []
  next-Delivers event logs events [] h w = absurd w
  next-Delivers event logs events (ended none ∷ selects) h w =
      same_next (next_ended event logs selects) (drain event logs events selects h)
  next-Delivers event logs events (ended (some e) ∷ selects) h w = absurd w
  next-Delivers event [] events (log_ready ∷ selects) h w = absurd w
  next-Delivers event (log ∷ logs) [] (log_ready ∷ selects) h w = absurd h
  next-Delivers event (log ∷ logs) (x ∷ events) (log_ready ∷ selects) (p, h) w =
      let (end, y, f, l) = next-Delivers (some x) logs events selects h w in
      (end, gives (next_received event log logs selects p) refl y, f, l)

  -- A log that does not parse ends the iteration: the events of the logs before it are delivered,
  -- in order and once each, the error is the one that parsing that log gives, and the logs after
  -- it are not delivered, wherever between the logs the selects find the end of the subscription.
  pub next_stops :
      (event : Option Event) (logs : List Log) (events : List Event) (bad : Log) (rest : List Log)
      (y : Error) (selects : List Select)
      → Parsed logs events
      → parse unpack_log with_raw bad ≡ inl y
      → EndsWithin (logs ++ bad ∷ rest) selects
      → Delivers (running event (logs ++ bad ∷ rest) selects false) events (some y) rest
  next_stops event logs events bad rest y [] h b w = absurd w
  next_stops event logs events bad rest y (ended none ∷ selects) h b w =
      same_next (next_ended event (logs ++ bad ∷ rest) selects)
        (drain_bad event logs events selects bad rest h b)
  next_stops event logs events bad rest y (ended (some e) ∷ selects) h b w = absurd w
  next_stops event [] [] bad rest y (log_ready ∷ selects) h b w =
      let (x, e) = next_received_bad event bad rest selects b in (_, stops e, refl, refl)
  next_stops event [] (x ∷ events) bad rest y (log_ready ∷ selects) h b w = absurd h
  next_stops event (log ∷ logs) [] bad rest y (log_ready ∷ selects) h b w = absurd h
  next_stops event (log ∷ logs) (x ∷ events) bad rest y (log_ready ∷ selects) (p, h) b w =
      let (end, z, f, l) = next_stops (some x) logs events bad rest y selects h b w in
      (end, gives (next_received event log (logs ++ bad ∷ rest) selects p) refl z, f, l)
