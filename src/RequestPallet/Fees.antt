-- ===== src/RequestPallet/Fees.antt =====
-- Where the fees of pallet-chainlink/src/lib.rs go.
use chainlink_polkadot.Prelude.{
  ℕ, ◌+◌, ◌≤◌, ◌≡◌, ◌≢◌, refl, String, Bool-cases, Option, none, some, List, [], ◌∷◌, ◌⊎◌, inl, inr,
  ◌==◌, ltb, if◌then◌else◌, arith,
}
use chainlink_polkadot.RequestPallet.Runtime.{
  AccountId, Request, Config, lookup, done, Origin, signed, root, unsigned,
}
use chainlink_polkadot.RequestPallet.Calls.{
  Storage, on_finalize, register_operator, unregister_operator, initiate_request, reserved_then,
  callback, dispatched, dispatch_first, repatriated, answer,
}
use chainlink_polkadot.RequestPallet.Expiry.{kill_expired-Else}
use chainlink_polkadot.RequestPallet.Initiation.{initiate_request_lem}
use chainlink_polkadot.RequestPallet.Moves.{
  Move, registers, unregisters, initiates, answers, finalizes, begins, step, run,
}

-- Not an answer that `who` sends.
abbrev pub NotAnswer : {Callback : Type 0} → AccountId → Move Callback → Type 0
NotAnswer who (answers id result (signed a)) = a ≢ who
NotAnswer who (answers id result root) = Unit
NotAnswer who (answers id result unsigned) = Unit
NotAnswer who (registers o) = Unit
NotAnswer who (unregisters o) = Unit
NotAnswer who (initiates operator spec_index data_version payload fee c o) = Unit
NotAnswer who (finalizes n) = Unit
NotAnswer who (begins n) = Unit

abbrev pub NoAnswers : {Callback : Type 0} → AccountId → List (Move Callback) → Type 0
NoAnswers who [] = Unit
NoAnswers who (m ∷ moves) = NotAnswer who m × NoAnswers who moves

-- What the currency documents of `reserve` and `repatriate_reserved`, for the balance that is
-- reserved from an account, and that the callbacks release nobody's reserve.
pub record Reserves (T : Config) (reserved : T.World → AccountId → ℕ) : Type 0 where
  pub reserve :
      (a who : AccountId) (fee : ℕ) (w v : T.World)
      → T.reserve a fee w ≡ inr v
      → reserved v who ≡ (if a == who then reserved w who + fee else reserved w who)
  pub repatriate :
      (from to who : AccountId) (fee : ℕ) (w : T.World)
      → from ≢ who
      → reserved w who ≤ reserved (T.repatriate_reserved from to fee w).1 who
  pub dispatch :
      (c : T.Callback) (s : Storage T) (who : AccountId)
      → reserved s.world who ≤ reserved (T.dispatch c s).world who

module _ (T : Config) (reserved : T.World → AccountId → ℕ) (laws : Reserves T reserved)
    (who : AccountId) where
  -- Nothing of the reserve is released.
  abbrev Holds : Storage T → Storage T → Type 0
  Holds s t = reserved s.world who ≤ reserved t.world who

  register_operator-Holds : (o : Origin) (s : Storage T) → Holds s (register_operator T o s).1
  unfolding register_operator
  register_operator-Holds (signed a) s = ground arith
  register_operator-Holds root s = omega arith
  register_operator-Holds unsigned s = omega arith

  unregister_operator-Holds : (o : Origin) (s : Storage T) → Holds s (unregister_operator T o s).1
  unfolding unregister_operator
  unregister_operator-Holds (signed a) s = ground arith
  unregister_operator-Holds root s = omega arith
  unregister_operator-Holds unsigned s = omega arith

  module _ (operator : AccountId) (spec_index : String) (data_version : ℕ) (payload : String)
      (fee : ℕ) (c : T.Callback) where
    reserved_then-Holds :
        (a : AccountId) (s : Storage T) (r : T.Foreign ⊎ T.World)
        → T.reserve a fee s.world ≡ r
        → Holds s (reserved_then T operator spec_index data_version payload fee c a r s).1
    reserved_then-Holds a s (inl e) p = omega arith
    reserved_then-Holds a s (inr w) p = ground (arith, laws.reserve a who fee s.world w p)

    initiate_request-Holds :
        (o : Origin) (s : Storage T)
        → Holds s (initiate_request T operator spec_index data_version payload fee c o s).1
    unfolding initiate_request
    initiate_request-Holds root s = omega arith
    initiate_request-Holds unsigned s = omega arith
    initiate_request-Holds (signed a) s = elim (Bool-cases (s.operators operator)) [
      | inr n ↦ rw n (omega arith)
      | inl o ↦ elim (Bool-cases (ltb 0 fee)) [
        | inr n ↦ rw (o, n) (omega arith)
        | inl l ↦ rw (o, l) (reserved_then-Holds a s (T.reserve a fee s.world) refl)
      ]
    ]

  module _ (id : ℕ) (result : String) where
    dispatched-Holds :
        (a : AccountId) (r : Request T.Callback) (o : Option T.Callback) (s : Storage T)
        → Holds s (dispatched T id result a r o s).1
    dispatched-Holds a r none s = omega arith
    dispatched-Holds a r (some call) s = laws.dispatch call s who

    dispatch_first-Holds :
        (a : AccountId) (r : Request T.Callback) (cs : List T.Callback) (s : Storage T)
        → Holds s (dispatch_first T id result a r cs s).1
    dispatch_first-Holds a r [] s = omega arith
    dispatch_first-Holds a r (c ∷ cs) s = dispatched-Holds a r (T.with_result c result) s

    repatriated-Holds :
        (a : AccountId) (r : Request T.Callback) (m : (T.Foreign ⊎ ℕ) × T.World) (s : Storage T)
        → reserved s.world who ≤ reserved m.1 who
        → Holds s (repatriated T id result a r m s).1
    repatriated-Holds a r (inl e, w) s l = l
    repatriated-Holds a r (inr rest, w) s l =
        omega (arith, l, dispatch_first-Holds a r r.callbacks (record s { world = w }))

    answer-Holds :
        (a : AccountId) (o : Option (Request T.Callback)) (s : Storage T)
        → a ≢ who
        → Holds s (answer T id result a o s).1
    answer-Holds a none s n = omega arith
    answer-Holds a (some r) s n = elim (Bool-cases (r.operator == a)) [
      | inr e ↦ rw e (omega arith)
      | inl e ↦ rw e (
          repatriated-Holds a r (T.repatriate_reserved a r.operator r.fee s.world) s
            (laws.repatriate a r.operator who r.fee s.world n))
    ]

  step-Holds : (m : Move T.Callback) (s : Storage T) → NotAnswer who m → Holds s (step T m s)
  unfolding step on_finalize callback
  step-Holds (registers o) s n = register_operator-Holds o s
  step-Holds (unregisters o) s n = unregister_operator-Holds o s
  step-Holds (initiates operator spec_index data_version payload fee c o) s n =
      initiate_request-Holds operator spec_index data_version payload fee c o s
  step-Holds (answers id result (signed a)) s n =
      answer-Holds id result a (lookup id s.requests) s n
  step-Holds (answers id result root) s n = omega arith
  step-Holds (answers id result unsigned) s n = omega arith
  step-Holds (finalizes m) s n = rw (kill_expired-Else T m s.requests s).3 (omega arith)
  step-Holds (begins m) s n = omega arith

  run-Holds :
      (moves : List (Move T.Callback)) (s : Storage T)
      → NoAnswers who moves
      → Holds s (run T moves s)
  unfolding run
  run-Holds [] s n = omega arith
  run-Holds (m ∷ moves) s (n, h) = omega (arith, step-Holds m s n, run-Holds moves (step T m s) h)

  -- A requester that answers no requests itself never gets the fee of a request back and never
  -- pays it out: in every history after the request, answers to it and its expiry included, at
  -- least the fee stays reserved on top of what was reserved before. The hypotheses are the
  -- currency's documented laws, and that callbacks release no reserve.
  pub fee_stays_reserved :
      (operator : AccountId) (spec_index : String) (data_version : ℕ) (payload : String) (fee : ℕ)
      (c : T.Callback) (s t : Storage T) (moves : List (Move T.Callback))
      → initiate_request T operator spec_index data_version payload fee c (signed who) s ≡ (done, t)
      → NoAnswers who moves
      → reserved s.world who + fee ≤ reserved (run T moves t).world who
  fee_stays_reserved operator spec_index data_version payload fee c s t moves h n =
      let taken = initiate_request_lem T operator spec_index data_version payload fee c who s t h in
      ground (arith, laws.reserve who who fee s.world t.world taken.2, run-Holds moves t n)
