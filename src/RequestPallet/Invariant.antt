-- ===== src/RequestPallet/Invariant.antt =====
-- What the storage of pallet-chainlink/src/lib.rs always satisfies.
use chainlink_polkadot.Prelude.{
  ℕ, ◌^◌, ◌<◌, ◌≡◌, refl, String, Bool-cases, Option, none, some, List, [], ◌∷◌, ◌⊎◌, inl, inr,
  ◌==◌, ltb, arith,
}
use chainlink_polkadot.RequestPallet.Runtime.{
  AccountId, Request, Chain, Config, lookup, remove, insert, Origin, signed, root, unsigned,
}
use chainlink_polkadot.RequestPallet.Maps.{lt_of_test, lookup-remove, Distinct, remove-Distinct}
use chainlink_polkadot.RequestPallet.Calls.{
  Storage, expired, kill, kill_expired, on_finalize, register_operator, unregister_operator,
  initiate_request, reserved_then, callback, dispatched, dispatch_first, repatriated, answer,
}
use chainlink_polkadot.RequestPallet.Moves.{
  Move, registers, unregisters, initiates, answers, finalizes, begins, step, run,
}

-- A stored request has one callback, a fee, and an identifier of 64 bits.
abbrev pub Sound : {Callback : Type 0} → ℕ → Request Callback → Type 0
Sound {Callback} id r = ((c : Callback) × (r.callbacks ≡ c ∷ [])) × (0 < r.fee) × (id < 2 ^ 64)

abbrev pub AllSound : {Callback : Type 0} → List (ℕ × Request Callback) → Type 0
AllSound [] = Unit
AllSound ((id, r) ∷ m) = Sound id r × AllSound m

-- The next identifier fits in 64 bits, no identifier is used twice, and every request is sound.
pub record IsValid {Callback World : Type 0} (s : Chain Callback World) : Type 0 where
  pub numbered : s.next_request_identifier < 2 ^ 64
  pub distinct : Distinct s.requests
  pub sound : AllSound s.requests

remove-AllSound :
    {Callback : Type 0} (k : ℕ) (m : List (ℕ × Request Callback))
    → AllSound m
    → AllSound (remove k m)
unfolding remove
remove-AllSound k [] h = tt
remove-AllSound k ((id, r) ∷ m) (a, h) = elim (Bool-cases (id == k)) [
  | inl e ↦ rw e (remove-AllSound k m h)
  | inr e ↦ rw e (a, remove-AllSound k m h)
]

insert-AllSound :
    {Callback : Type 0} (k : ℕ) (r : Request Callback) (m : List (ℕ × Request Callback))
    → Sound k r
    → AllSound m
    → AllSound (insert k r m)
unfolding insert
insert-AllSound k r m a h = (a, remove-AllSound k m h)

insert-Distinct :
    {V : Type 0} (k : ℕ) (v : V) (m : List (ℕ × V)) → Distinct m → Distinct (insert k v m)
unfolding insert
insert-Distinct k v m d = (rw (lookup-remove k k m) (ground arith), remove-Distinct k m d)

pub lookup-Sound :
    {Callback : Type 0} (k : ℕ) (m : List (ℕ × Request Callback)) {r : Request Callback}
    → AllSound m
    → lookup k m ≡ some r
    → (c : Callback) × (r.callbacks ≡ c ∷ [])
unfolding lookup
lookup-Sound k [] h e = cc
lookup-Sound k ((id, r) ∷ m) (a, h) e = elim (Bool-cases (id == k)) [
  | inl t ↦ let (c, p) = a.0 in (c, ground arith)
  | inr t ↦ lookup-Sound k m h (rw t at e)
]

module _ (T : Config)
    (dispatch-IsValid : (c : T.Callback) (s : Storage T)
      → IsValid s
      → IsValid (T.dispatch c s)) where
  kill_expired-IsValid :
      (n : ℕ) (entries : List (ℕ × Request T.Callback)) (s : Storage T)
      → IsValid s
      → IsValid (kill_expired T n entries s)
  unfolding kill_expired
  kill_expired-IsValid n [] s v = v
  kill_expired-IsValid n ((id, r) ∷ entries) s v = elim (Bool-cases (expired T n r)) [
    | inr e ↦ rw e (kill_expired-IsValid n entries s v)
    | inl e ↦ rw e (
        kill_expired-IsValid n entries (kill T id s) (record {
          numbered = v.numbered;
          distinct = remove-Distinct id s.requests v.distinct;
          sound = remove-AllSound id s.requests v.sound;
        }))
  ]

  register_operator-IsValid :
      (o : Origin) (s : Storage T) → IsValid s → IsValid (register_operator T o s).1
  unfolding register_operator
  register_operator-IsValid (signed who) s v = ground arith
  register_operator-IsValid root s v = v
  register_operator-IsValid unsigned s v = v

  unregister_operator-IsValid :
      (o : Origin) (s : Storage T) → IsValid s → IsValid (unregister_operator T o s).1
  unfolding unregister_operator
  unregister_operator-IsValid (signed who) s v = ground arith
  unregister_operator-IsValid root s v = v
  unregister_operator-IsValid unsigned s v = v

  module _ (operator : AccountId) (spec_index : String) (data_version : ℕ) (payload : String)
      (fee : ℕ) (c : T.Callback) where
    reserved_then-IsValid :
        (who : AccountId) (s : Storage T) (r : T.Foreign ⊎ T.World)
        → 0 < fee
        → IsValid s
        → IsValid (reserved_then T operator spec_index data_version payload fee c who r s).1
    reserved_then-IsValid who s (inl e) l v = v
    reserved_then-IsValid who s (inr w) l v = record {
      numbered = omega arith;
      distinct = insert-Distinct _ _ s.requests v.distinct;
      sound = insert-AllSound _ _ s.requests ((c, refl), l, v.numbered) v.sound;
    }

    initiate_request-IsValid :
        (o : Origin) (s : Storage T)
        → IsValid s
        → IsValid (initiate_request T operator spec_index data_version payload fee c o s).1
    unfolding initiate_request
    initiate_request-IsValid root s v = v
    initiate_request-IsValid unsigned s v = v
    initiate_request-IsValid (signed who) s v = elim (Bool-cases (s.operators operator)) [
      | inr n ↦ rw n v
      | inl o ↦ elim (Bool-cases (ltb 0 fee)) [
        | inr n ↦ rw (o, n) v
        | inl l ↦
            rw (o, l)
              (reserved_then-IsValid who s (T.reserve who fee s.world) (lt_of_test 0 fee l) v)
      ]
    ]

  module _ (id : ℕ) (result : String) where
    dispatch_first-IsValid :
        (who : AccountId) (r : Request T.Callback) (cs : List T.Callback) (s : Storage T)
        → IsValid s
        → IsValid (dispatch_first T id result who r cs s).1
    dispatch_first-IsValid who r [] s v = v
    dispatch_first-IsValid who r (c ∷ cs) s v = dispatched-IsValid (T.with_result c result)
      where
        dispatched-IsValid : (o : Option T.Callback) → IsValid (dispatched T id result who r o s).1
        dispatched-IsValid none = v
        dispatched-IsValid (some call) =
            let d = dispatch-IsValid call s v in
            record { numbered = d.numbered; distinct = d.distinct; sound = d.sound }

    repatriated-IsValid :
        (who : AccountId) (r : Request T.Callback) (m : (T.Foreign ⊎ ℕ) × T.World) (s : Storage T)
        → IsValid s
        → IsValid (repatriated T id result who r m s).1
    repatriated-IsValid who r (inl e, w) s v = record {
      numbered = v.numbered;
      distinct = v.distinct;
      sound = v.sound;
    }
    repatriated-IsValid who r (inr rest, w) s v =
        dispatch_first-IsValid who r r.callbacks (record s { world = w })
          (record { numbered = v.numbered; distinct = v.distinct; sound = v.sound })

    answer-IsValid :
        (who : AccountId) (o : Option (Request T.Callback)) (s : Storage T)
        → IsValid s
        → IsValid (answer T id result who o s).1
    answer-IsValid who none s v = v
    answer-IsValid who (some r) s v = elim (Bool-cases (r.operator == who)) [
      | inr n ↦ rw n v
      | inl e ↦
          rw e (repatriated-IsValid who r (T.repatriate_reserved who r.operator r.fee s.world) s v)
    ]

    callback-IsValid :
        (o : Origin) (s : Storage T) → IsValid s → IsValid (callback T id result o s).1
    unfolding callback
    callback-IsValid root s v = v
    callback-IsValid unsigned s v = v
    callback-IsValid (signed who) s v = answer-IsValid who (lookup id s.requests) s v

  step-IsValid : (m : Move T.Callback) (s : Storage T) → IsValid s → IsValid (step T m s)
  unfolding step on_finalize
  step-IsValid (registers o) s v = register_operator-IsValid o s v
  step-IsValid (unregisters o) s v = unregister_operator-IsValid o s v
  step-IsValid (initiates operator spec_index data_version payload fee c o) s v =
      initiate_request-IsValid operator spec_index data_version payload fee c o s v
  step-IsValid (answers id result o) s v = callback-IsValid id result o s v
  step-IsValid (finalizes n) s v = kill_expired-IsValid n s.requests s v
  step-IsValid (begins n) s v = record {
    numbered = v.numbered;
    distinct = v.distinct;
    sound = v.sound;
  }

  -- If the callbacks that are dispatched keep the storage valid, then every history of calls,
  -- finalizations and new blocks does: the identifiers fit in 64 bits and are distinct, and every
  -- stored request has exactly one callback and a fee above 0.
  pub run-IsValid :
      (moves : List (Move T.Callback)) (s : Storage T) → IsValid s → IsValid (run T moves s)
  unfolding run
  run-IsValid [] s v = v
  run-IsValid (m ∷ moves) s v = run-IsValid moves (step T m s) (step-IsValid m s v)
