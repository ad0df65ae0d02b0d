-- ===== src/Tests/Requests.antt =====
-- The pallet of pallet-chainlink/src/lib.rs on a small chain.
use chainlink_polkadot.Prelude.{
  ◌++◌, ℕ, ◌+◌, ◌-◌, ◌≤◌, ◌<◌, ◌≡◌, ◌≢◌, refl, String, true, false, Bool-cases, ap, sym, ◌∙◌, none,
  some, List, [], ◌∷◌, ◌⊎◌, inl, inr, ◌==◌, leb, if◌then◌else◌, ◌%◌, ◌^◌, arith,
}
use chainlink_polkadot.RequestPallet.Runtime.{
  remove, AccountId, Request, Chain, Config, lookup, remove, insert, done, failed, panicked,
  unknown_operator, insufficient_fee, wrong_operator, operator_already_registered, foreign, signed,
}
use chainlink_polkadot.RequestPallet.Calls.{
  kill_expired, on_finalize, register_operator, initiate_request, callback,
}
use chainlink_polkadot.RequestPallet.Moves.{
  Move, registers, initiates, answers, finalizes, step, run,
}
use chainlink_polkadot.RequestPallet.Initiation.{initiate_request_lem}
use chainlink_polkadot.RequestPallet.Expiry.{Expires, Else, kill_events, on_finalize_lem}
use chainlink_polkadot.RequestPallet.Invariant.{IsValid, run-IsValid}
use chainlink_polkadot.RequestPallet.Answers.{callback-no_panic, callback_lem, Answered}
use chainlink_polkadot.RequestPallet.Fees.{Reserves, fee_stays_reserved}

-- The balance reserved from each account, of at most 100. A callback is a text that the result
-- replaces, and its dispatch changes nothing.
abbrev Reserved : Type 0
Reserved = AccountId → ℕ

abbrev put : AccountId → ℕ → Reserved → Reserved
put a n w who = if a == who then n else w who

abbrev reserve : AccountId → ℕ → Reserved → String ⊎ Reserved
reserve a fee w =
    if leb (w a + fee) 100 then inr (put a (w a + fee) w) else inl "InsufficientBalance"

abbrev repatriate_reserved : AccountId → AccountId → ℕ → Reserved → (String ⊎ ℕ) × Reserved
repatriate_reserved from to fee w = (inr (fee - w from), put from (w from - fee) w)

abbrev runtime : Config
runtime = record {
  World = Reserved;
  Callback = String;
  Foreign = String;
  validity_period = 10;
  block_modulus = 2 ^ 32;
  reserve = reserve;
  repatriate_reserved = repatriate_reserved;
  with_result = λ c result. some result;
  dispatch = λ c s. s;
}

abbrev empty : Chain String Reserved
empty = record {
  operators = λ a. false;
  next_request_identifier = 0;
  requests = [];
  block_number = 1;
  events = [];
  world = λ a. 0;
}

-- Account 7 is an operator.
abbrev registered : Chain String Reserved
unfolding register_operator
registered = (register_operator runtime (signed 7) empty).1

-- Account 3 requests an answer of account 7 for a fee of 20.
abbrev requested : Chain String Reserved
unfolding register_operator initiate_request insert remove
requested = (initiate_request runtime 7 "spec" 1 "data" 20 "callback" (signed 3) registered).1

requested_taken :
    initiate_request runtime 7 "spec" 1 "data" 20 "callback" (signed 3) registered
    ≡ (done, requested)
unfolding register_operator initiate_request insert remove
requested_taken = refl

requested_reserves : requested.world 3 ≡ 20
unfolding requested
requested_reserves = refl

-- Only a registered operator can be asked, for a fee above 0 that the requester has.
refusals :
    ((initiate_request runtime 8 "spec" 1 "data" 20 "callback" (signed 3) registered).0
      ≡ failed unknown_operator)
    × ((initiate_request runtime 7 "spec" 1 "data" 0 "callback" (signed 3) registered).0
        ≡ failed insufficient_fee)
    × ((initiate_request runtime 7 "spec" 1 "data" 101 "callback" (signed 3) registered).0
        ≡ failed (foreign "InsufficientBalance"))
    × ((register_operator runtime (signed 7) registered).0 ≡ failed operator_already_registered)
    × ((callback runtime 0 "42" (signed 3) requested).0 ≡ failed wrong_operator)
unfolding register_operator initiate_request callback lookup insert remove
refusals = (refl, refl, refl, refl, refl)

-- The answer of account 7, which leaves the fee of account 3 reserved and the request stored.
abbrev answered : Chain String Reserved
unfolding register_operator initiate_request callback lookup insert remove
answered = (callback runtime 0 "42" (signed 7) requested).1

answered_taken : callback runtime 0 "42" (signed 7) requested ≡ (done, answered)
unfolding register_operator initiate_request callback lookup insert remove
answered_taken = refl

answered_reserves : answered.world 3 ≡ 20
unfolding answered requested
answered_reserves = refl

initiate_request_lem_example :
    (registered.operators 7 ≡ true)
    × (0 < 20)
    × (reserve 3 20 registered.world ≡ inr requested.world)
    × ((j : ℕ)
        → lookup j requested.requests ≡ (
            if 0 == j
            then some (record { operator = 7; callbacks = "callback" ∷ []; block = 1; fee = 20 })
            else lookup j registered.requests))
    × (requested.next_request_identifier ≡ (0 + 1) % 2 ^ 64)
unfolding registered
initiate_request_lem_example =
    initiate_request_lem runtime 7 "spec" 1 "data" 20 "callback" 3 registered requested
      requested_taken

-- The request of block 1 is still there at the end of block 11, and not at the end of block 12.
on_finalize_lem_example :
    (((lookup 0 requested.requests ≡ none)
        × (lookup 0 (on_finalize runtime 12 requested).requests ≡ none))
      ⊎ ((r : Request String) × (lookup 0 requested.requests ≡ some r)
          × Expires runtime 12 r (lookup 0 (on_finalize runtime 12 requested).requests)))
    × ((on_finalize runtime 12 requested).events
        ≡ requested.events ++ kill_events runtime 12 requested.requests)
    × Else runtime 12 requested (on_finalize runtime 12 requested)
unfolding requested lookup
on_finalize_lem_example = on_finalize_lem runtime 12 requested 0 (refl, tt)

finalized :
    (lookup 0 (on_finalize runtime 11 requested).requests ≡ lookup 0 requested.requests)
    × (lookup 0 (on_finalize runtime 12 requested).requests ≡ none)
unfolding lookup requested on_finalize kill_expired remove
finalized = (refl, refl)

empty-IsValid : IsValid empty
empty-IsValid = record { numbered = omega arith; distinct = tt; sound = tt }

abbrev history : List (Move String)
history =
    registers (signed 7)
    ∷ initiates 7 "spec" 1 "data" 20 "callback" (signed 3)
    ∷ answers 0 "42" (signed 7)
    ∷ finalizes 12
    ∷ []

run-IsValid_example : IsValid (run runtime history empty)
run-IsValid_example = run-IsValid runtime (λ c s v. v) history empty empty-IsValid

requested-IsValid : IsValid requested
unfolding requested registered step run
requested-IsValid =
    run-IsValid runtime (λ c s v. v)
      (registers (signed 7) ∷ initiates 7 "spec" 1 "data" 20 "callback" (signed 3) ∷ []) empty
      empty-IsValid

callback-no_panic_example : (callback runtime 0 "42" (signed 7) requested).0 ≢ panicked
callback-no_panic_example = callback-no_panic runtime 0 "42" (signed 7) requested requested-IsValid

callback_lem_example :
    (r : Request String) × (lookup 0 requested.requests ≡ some r)
    × (r.operator ≡ 7)
    × Answered runtime 0 "42" 7 requested answered r
callback_lem_example = callback_lem runtime 0 "42" 7 requested answered answered_taken

reserve_law :
    (a who : AccountId) (fee : ℕ) (w v : Reserved)
    → reserve a fee w ≡ inr v
    → v who ≡ (if a == who then w who + fee else w who)
reserve_law a who fee w v h = elim (Bool-cases (leb (w a + fee) 100)) [
  | inr e ↦ cc (rw e at h)
  | inl e ↦
      let p : put a (w a + fee) w ≡ v = cc (rw e at h) in sym (ap (λ f. f who) p) ∙ ground arith
]

runtime-Reserves : Reserves runtime (λ w a. w a)
runtime-Reserves = record {
  reserve = reserve_law;
  repatriate = λ from to who fee w n. ground arith;
  dispatch = λ c s who. omega arith;
}

fee_stays_reserved_example :
    registered.world 3 + 20
    ≤ (run runtime (answers 0 "42" (signed 7) ∷ finalizes 12 ∷ []) requested).world 3
fee_stays_reserved_example =
    fee_stays_reserved runtime (λ w a. w a) runtime-Reserves 3 7 "spec" 1 "data" 20 "callback"
      registered requested (answers 0 "42" (signed 7) ∷ finalizes 12 ∷ []) requested_taken
      ((λ e. omega arith), (tt, tt))
