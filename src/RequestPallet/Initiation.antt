-- ===== src/RequestPallet/Initiation.antt =====
-- What `initiate_request` of pallet-chainlink/src/lib.rs stores.
use chainlink_polkadot.Prelude.{
  ℕ, ◌+◌, ◌%◌, ◌^◌, ◌<◌, ◌≡◌, ◌∙◌, sym, ap, String, true, Bool-cases, some, [], ◌∷◌, ◌⊎◌, inl, inr,
  ◌==◌, ltb, if◌then◌else◌,
}
use chainlink_polkadot.RequestPallet.Runtime.{AccountId, Config, lookup, done, signed}
use chainlink_polkadot.RequestPallet.Calls.{Storage, initiate_request, reserved_then}
use chainlink_polkadot.RequestPallet.Maps.{lt_of_test, lookup-insert}

module _ (T : Config) (operator : AccountId) (spec_index : String) (data_version : ℕ)
    (payload : String) (fee : ℕ) (callback : T.Callback) where
  abbrev Stored : Storage T → Storage T → Type 0
  Stored s t =
      ((j : ℕ)
        → lookup j t.requests ≡ (
            if s.next_request_identifier == j
            then some (record {
              operator = operator;
              callbacks = callback ∷ [];
              block = s.block_number;
              fee = fee;
            })
            else lookup j s.requests))
      × (t.next_request_identifier ≡ (s.next_request_identifier + 1) % 2 ^ 64)

  taken :
      (who : AccountId) (s t : Storage T) (r : T.Foreign ⊎ T.World)
      → reserved_then T operator spec_index data_version payload fee callback who r s ≡ (done, t)
      → (r ≡ inr t.world) × Stored s t
  taken who s t (inl e) h = cc
  taken who s t (inr w) h =
      let p = ap (λ q. q.1) h in
      (
        ap (λ (x : Storage T). inr x.world) p,
        (
          λ j.
              sym (ap (λ (x : Storage T). lookup j x.requests) p)
              ∙ lookup-insert j s.next_request_identifier _ s.requests,
          sym (ap (λ (x : Storage T). x.next_request_identifier) p),
        ),
      )

  -- A request that is taken has a registered operator and a fee above 0 that is now reserved from
  -- the caller. It is stored under the next identifier with its operator, its one callback, the
  -- present block and the fee; what is stored under every other identifier stays, and the next
  -- identifier goes up by one, modulo 2^64. The caller is not stored.
  pub initiate_request_lem :
      (who : AccountId) (s t : Storage T)
      → initiate_request T operator spec_index data_version payload fee callback (signed who) s
        ≡ (done, t)
      → (s.operators operator ≡ true)
        × (0 < fee)
        × (T.reserve who fee s.world ≡ inr t.world)
        × ((j : ℕ)
            → lookup j t.requests ≡ (
                if s.next_request_identifier == j
                then some (record {
                  operator = operator;
                  callbacks = callback ∷ [];
                  block = s.block_number;
                  fee = fee;
                })
                else lookup j s.requests))
        × (t.next_request_identifier ≡ (s.next_request_identifier + 1) % 2 ^ 64)
  unfolding initiate_request
  initiate_request_lem who s t h = elim (Bool-cases (s.operators operator)) [
    | inr n ↦ cc (rw n at h)
    | inl o ↦ elim (Bool-cases (ltb 0 fee)) [
      | inr n ↦ cc (rw (o, n) at h)
      | inl l ↦
          let (r, (stored, next)) = taken who s t (T.reserve who fee s.world) (rw (o, l) at h) in
          (o, lt_of_test 0 fee l, r, stored, next)
    ]
  ]
