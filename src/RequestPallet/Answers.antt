-- ===== src/RequestPallet/Answers.antt =====
-- Who can answer a request of pallet-chainlink/src/lib.rs, and how often.
use chainlink_polkadot.Prelude.{
  true, arith, ℕ, ◌≡◌, ◌≢◌, refl, ◌∙◌, sym, ap, String, Bool-cases, Option, none, some, List, [],
  ◌∷◌, ◌⊎◌, inl, inr, ◌==◌,
}
use chainlink_polkadot.RequestPallet.Runtime.{
  AccountId, oracle_answer, Request, Config, lookup, done, failed, unknown_request, wrong_operator,
  panicked, Origin, signed, root, unsigned,
}
use chainlink_polkadot.RequestPallet.Maps.{eq_of_test}
use chainlink_polkadot.RequestPallet.Calls.{
  Storage, deposit_event, callback, dispatched, dispatch_first, repatriated, answer,
}
use chainlink_polkadot.RequestPallet.Invariant.{IsValid, lookup-Sound}

module _ (T : Config) (id : ℕ) (result : String) where
  dispatched-no_panic :
      (who : AccountId) (r : Request T.Callback) (o : Option T.Callback) (s : Storage T)
      → (dispatched T id result who r o s).0 ≢ panicked
  dispatched-no_panic who r none s h = cc
  dispatched-no_panic who r (some c) s h = cc

  repatriated-no_panic :
      (who : AccountId) (r : Request T.Callback) (m : (T.Foreign ⊎ ℕ) × T.World) (s : Storage T)
      {c : T.Callback}
      → r.callbacks ≡ c ∷ []
      → (repatriated T id result who r m s).0 ≢ panicked
  repatriated-no_panic who r (inl e, w) s p h = cc
  repatriated-no_panic who r (inr rest, w) s {c} p h =
      dispatched-no_panic who r (T.with_result c result) (record s { world = w }) (rw p at h)

  answer-no_panic :
      (who : AccountId) (s : Storage T) (o : Option (Request T.Callback))
      → ((r : Request T.Callback) → o ≡ some r → (c : T.Callback) × (r.callbacks ≡ c ∷ []))
      → (answer T id result who o s).0 ≢ panicked
  answer-no_panic who s none single h = cc
  answer-no_panic who s (some r) single h = elim (Bool-cases (r.operator == who)) [
    | inr n ↦ cc (rw n at h)
    | inl e ↦
        let (c, p) = single r refl in
        repatriated-no_panic who r (T.repatriate_reserved who r.operator r.fee s.world) s p
          (rw e at h)
  ]

  -- In a valid storage no answer panics, whoever sends it: the first callback that the code takes
  -- is there.
  pub callback-no_panic :
      (o : Origin) (s : Storage T) → IsValid s → (callback T id result o s).0 ≢ panicked
  unfolding callback
  callback-no_panic (signed who) s v h =
      answer-no_panic who s (lookup id s.requests) (λ r e. lookup-Sound id s.requests v.sound e) h
  callback-no_panic root s v h = cc
  callback-no_panic unsigned s v h = cc

  -- What an answer that is taken does: the currency was called to move the fee from the sender's
  -- reserve to the operator, and reported that `rest` of it could not be moved; the first callback
  -- took the result, and `t` is what its dispatch leaves, with the event.
  pub record Answered (who : AccountId) (s t : Storage T) (r : Request T.Callback) : Type 0 where
    pub rest : ℕ
    pub after : T.World
    pub moved : T.repatriate_reserved who r.operator r.fee s.world ≡ (inr rest, after)
    pub stored : T.Callback
    pub others : List T.Callback
    pub first : r.callbacks ≡ stored ∷ others
    pub call : T.Callback
    pub injected : T.with_result stored result ≡ some call
    pub left :
        t
        ≡ deposit_event T
            (oracle_answer r.operator id who result r.fee)
            (T.dispatch call (record s { world = after }))

  dispatched_taken :
      (who : AccountId) (u t : Storage T) (r : Request T.Callback) (o : Option T.Callback)
      → dispatched T id result who r o u ≡ (done, t)
      → (call : T.Callback) × (o ≡ some call)
        × (t ≡ deposit_event T (oracle_answer r.operator id who result r.fee) (T.dispatch call u))
  dispatched_taken who u t r none h = cc
  dispatched_taken who u t r (some call) h = (call, refl, sym (ap (λ q. q.1) h))

  first_taken :
      (who : AccountId) (s t : Storage T) (r : Request T.Callback) (rest : ℕ) (w : T.World)
      (cs : List T.Callback)
      → T.repatriate_reserved who r.operator r.fee s.world ≡ (inr rest, w)
      → r.callbacks ≡ cs
      → dispatch_first T id result who r cs (record s { world = w }) ≡ (done, t)
      → Answered who s t r
  first_taken who s t r rest w [] p q h = cc
  first_taken who s t r rest w (c ∷ cs) p q h =
      let (call, e, l) =
        dispatched_taken who (record s { world = w }) t r (T.with_result c result) h in
      record {
        rest = rest;
        after = w;
        moved = p;
        stored = c;
        others = cs;
        first = q;
        call = call;
        injected = e;
        left = l;
      }

  moved_taken :
      (who : AccountId) (s t : Storage T) (r : Request T.Callback) (m : (T.Foreign ⊎ ℕ) × T.World)
      → T.repatriate_reserved who r.operator r.fee s.world ≡ m
      → repatriated T id result who r m s ≡ (done, t)
      → Answered who s t r
  moved_taken who s t r (inl e, w) p h = cc
  moved_taken who s t r (inr rest, w) p h = first_taken who s t r rest w r.callbacks p refl h

  answer_taken :
      (who : AccountId) (s t : Storage T) (o : Option (Request T.Callback))
      → answer T id result who o s ≡ (done, t)
      → (r : Request T.Callback) × (o ≡ some r) × (r.operator ≡ who) × Answered who s t r
  answer_taken who s t none h = cc
  answer_taken who s t (some r) h = elim (Bool-cases (r.operator == who)) [
    | inr n ↦ cc (rw n at h)
    | inl e ↦ (
      r,
      refl,
      eq_of_test r.operator who e,
      moved_taken who s t r (T.repatriate_reserved who r.operator r.fee s.world) refl (rw e at h),
    )
  ]

  -- An answer that is taken comes from the operator of a stored request. The currency is called
  -- once, to move up to the request's fee from the sender's own reserve to the operator, who is the
  -- sender, and does not fail, whatever it could move. The first stored callback is dispatched with
  -- the result, in the storage as it was but for this call, the request still in it; what the
  -- dispatch leaves is left, with one more event.
  pub callback_lem :
      (who : AccountId) (s t : Storage T)
      → callback T id result (signed who) s ≡ (done, t)
      → (r : Request T.Callback) × (lookup id s.requests ≡ some r)
        × (r.operator ≡ who)
        × Answered who s t r
  unfolding callback
  callback_lem who s t h = answer_taken who s t (lookup id s.requests) h

  refuses_no_more :
      (who : AccountId) (r : Request T.Callback) (m : (T.Foreign ⊎ ℕ) × T.World) (s : Storage T)
      → ((repatriated T id result who r m s).0 ≢ failed unknown_request)
        × ((repatriated T id result who r m s).0 ≢ failed wrong_operator)
  refuses_no_more who r (inl e, w) s = ((λ h. cc), (λ h. cc))
  refuses_no_more who r (inr rest, w) s = first_refuses r.callbacks
    where
      taken_refuses :
          (o : Option T.Callback) (u : Storage T)
          → ((dispatched T id result who r o u).0 ≢ failed unknown_request)
            × ((dispatched T id result who r o u).0 ≢ failed wrong_operator)
      taken_refuses none u = ((λ h. cc), (λ h. cc))
      taken_refuses (some c) u = ((λ h. cc), (λ h. cc))

      first_refuses :
          (cs : List T.Callback)
          → let u = dispatch_first T id result who r cs (record s { world = w }) in
            (u.0 ≢ failed unknown_request) × (u.0 ≢ failed wrong_operator)
      first_refuses [] = ((λ h. cc), (λ h. cc))
      first_refuses (c ∷ cs) = taken_refuses (T.with_result c result) (record s { world = w })

module _ (T : Config) (id : ℕ) where
  -- If the dispatched callbacks leave the stored requests alone, then an answered request stays
  -- stored as it is, and the operator's next answer to it, whatever its result, is refused neither
  -- as one to an unknown request nor as one of a wrong operator.
  callback_again :
      (result next : String) (who : AccountId) (s t : Storage T)
      → ((c : T.Callback) (u : Storage T) → (T.dispatch c u).requests ≡ u.requests)
      → callback T id result (signed who) s ≡ (done, t)
      → (lookup id t.requests ≡ lookup id s.requests)
        × ((callback T id next (signed who) t).0 ≢ failed unknown_request)
        × ((callback T id next (signed who) t).0 ≢ failed wrong_operator)
  unfolding callback
  callback_again result next who s t quiet h =
      let (r, found, own, a) = answer_taken T id result who s t (lookup id s.requests) h in
      let same : lookup id t.requests ≡ lookup id s.requests =
        ap (λ (x : Storage T). lookup id x.requests) a.left
        ∙ ap (lookup id) (quiet a.call (record s { world = a.after })) in
      let mine : (r.operator == who) ≡ true = ground arith in
      let (unknown, wrong) =
        refuses_no_more T id next who r (T.repatriate_reserved who r.operator r.fee t.world) t in
      (same, rw (same ∙ found, mine) unknown, rw (same ∙ found, mine) wrong)
