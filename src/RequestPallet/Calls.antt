-- ===== src/RequestPallet/Calls.antt =====
-- The calls and the hook of pallet-chainlink/src/lib.rs. What a call has written stays where it
-- ends with an error: the pallet has no transactional calls.
use chainlink_polkadot.Prelude.{
  ℕ, ◌+◌, ◌%◌, ◌^◌, String, Bool, true, false, not, Option, none, some, List, [], ◌∷◌, ◌++◌, ◌⊎◌,
  inl, inr, ◌==◌, ltb, if◌then◌else◌,
}
use chainlink_polkadot.RequestPallet.Runtime.{
  AccountId, Error, unknown_operator, unknown_request, wrong_operator, operator_already_registered,
  unknown_callback, insufficient_fee, bad_origin, foreign, Event, oracle_request, oracle_answer,
  operator_registered, operator_unregistered, kill_request, Request, Chain, Config, lookup, remove,
  insert, DispatchResult, done, failed, panicked, Origin, signed, root, unsigned,
}

module _ (T : Config) where
  abbrev pub Storage : Type 0
  Storage = Chain T.Callback T.World

  abbrev pub Call : Type 0
  Call = Storage → DispatchResult T.Foreign × Storage

  abbrev pub deposit_event : Event → Storage → Storage
  deposit_event e s = record s { events = s.events ++ e ∷ [] }

  abbrev pub ensure_signed : Origin → (AccountId → Call) → Call
  ensure_signed (signed who) call s = call who s
  ensure_signed root call s = (failed bad_origin, s)
  ensure_signed unsigned call s = (failed bad_origin, s)

  abbrev pub ensure : Bool → Error T.Foreign → Call → Call
  ensure true e call s = call s
  ensure false e call s = (failed e, s)

  abbrev pub assign : AccountId → Bool → (AccountId → Bool) → AccountId → Bool
  assign who b operators a = if who == a then b else operators a

  abbrev pub register : AccountId → Call
  register who s = (
    done,
    deposit_event (operator_registered who) (record s { operators = assign who true s.operators }),
  )

  unfoldable pub register_operator : Origin → Call
  register_operator origin =
      ensure_signed origin
        λ who s. ensure (not (s.operators who)) operator_already_registered (register who) s

  abbrev pub unregister : AccountId → Bool → Call
  unregister who true s = (done, deposit_event (operator_unregistered who) s)
  unregister who false s = (failed unknown_operator, s)

  -- `take` removes the entry also where it was not set.
  unfoldable pub unregister_operator : Origin → Call
  unregister_operator origin = ensure_signed origin λ who s.
      unregister who (s.operators who) (record s { operators = assign who false s.operators })

  module _ (operator : AccountId) (spec_index : String) (data_version : ℕ) (payload : String)
      (fee : ℕ) (callback : T.Callback) where
    -- The identifier after the next is taken modulo 2^64.
    abbrev pub store_request : AccountId → Call
    store_request who s =
        let id = s.next_request_identifier in
        (
          done,
          deposit_event
              (oracle_request operator spec_index id who data_version payload "Chainlink.callback"
                fee)
              (record s {
                next_request_identifier = (id + 1) % 2 ^ 64;
                requests =
                    insert id
                      (record {
                        operator = operator;
                        callbacks = callback ∷ [];
                        block = s.block_number;
                        fee = fee;
                      })
                      s.requests;
              }),
        )

    abbrev pub reserved_then : AccountId → T.Foreign ⊎ T.World → Call
    reserved_then who (inl e) s = (failed (foreign e), s)
    reserved_then who (inr w) s = store_request who (record s { world = w })

    unfoldable pub initiate_request : Origin → Call
    unfolding insert
    initiate_request origin = ensure_signed origin λ who s.
        ensure (s.operators operator) unknown_operator
          (ensure (ltb 0 fee) insufficient_fee λ t. reserved_then who (T.reserve who fee t.world) t)
          s

  module _ (request_id : ℕ) (result : String) where
    abbrev pub dispatched : AccountId → Request T.Callback → Option T.Callback → Call
    dispatched who r none s = (failed unknown_callback, s)
    dispatched who r (some call) s = (
      done,
      deposit_event (oracle_answer r.operator request_id who result r.fee) (T.dispatch call s),
    )

    -- `callback[0]`
    abbrev pub dispatch_first : AccountId → Request T.Callback → List T.Callback → Call
    dispatch_first who r [] s = (panicked, s)
    dispatch_first who r (c ∷ cs) s = dispatched who r (T.with_result c result) s

    abbrev pub repatriated : AccountId → Request T.Callback → (T.Foreign ⊎ ℕ) × T.World → Call
    repatriated who r (inl e, w) s = (failed (foreign e), record s { world = w })
    repatriated who r (inr rest, w) s = dispatch_first who r r.callbacks (record s { world = w })

    -- The fee is moved from the caller's reserve to the operator, who is the caller.
    abbrev pub answer : AccountId → Option (Request T.Callback) → Call
    answer who none s = (failed unknown_request, s)
    answer who (some r) s =
        ensure (r.operator == who) wrong_operator
          (λ t. repatriated who r (T.repatriate_reserved who r.operator r.fee t.world) t) s

    unfoldable pub callback : Origin → Call
    unfolding lookup
    callback origin = ensure_signed origin λ who s. answer who (lookup request_id s.requests) s

  -- `n > block_number + ValidityPeriod`
  abbrev pub expired : ℕ → Request T.Callback → Bool
  expired n r = ltb ((r.block + T.validity_period) % T.block_modulus) n

  abbrev pub kill : ℕ → Storage → Storage
  kill id s = deposit_event (kill_request id) (record s { requests = remove id s.requests })

  -- The loop of `on_finalize` over the entries.
  unfoldable pub kill_expired : ℕ → List (ℕ × Request T.Callback) → Storage → Storage
  unfolding remove
  kill_expired n [] s = s
  kill_expired n ((id, r) ∷ entries) s =
      kill_expired n entries (if expired n r then kill id s else s)

  unfoldable pub on_finalize : ℕ → Storage → Storage
  unfolding kill_expired
  on_finalize n s = kill_expired n s.requests s
