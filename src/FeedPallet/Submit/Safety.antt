-- ===== src/FeedPallet/Submit/Safety.antt =====
-- `submit` of pallet-chainlink-feed/src/lib.rs does not panic.
use chainlink_polkadot.Prelude.{
  ◌<◌, Option, none, some, List, [], ◌∷◌, ◌++◌, inl, inr, ◌≡◌, ◌≢◌, ap, leb, length, length-append,
  Option-cases, arith,
}
use chainlink_polkadot.FeedPallet.Types.{
  AccountId, FeedId, RoundId, Value, Balance, FeedConfig, RoundDetails, OracleStatus, Chain, Config,
  Origin, signed, root, unsigned,
}
use chainlink_polkadot.FeedPallet.Types
use chainlink_polkadot.FeedPallet.Effects.{
  Outcome, ok, failed, panicked, ok_or, ensure, proceed, rollback, with_transaction_result,
}
use chainlink_polkadot.FeedPallet.Effects.Inversion.{
  proceed-no_panic, ok_or-no_panic, ensure-no_panic,
}
use chainlink_polkadot.FeedPallet.Median.Bounds.{median-defined}
use chainlink_polkadot.FeedPallet.Feed.{
  load_from, sync_to_storage, ensure_valid_round, initialize_round, close_timed_out_round,
  prune_oldest,
}
use chainlink_polkadot.FeedPallet.Submit.{
  submit, submitted, settled, start_round, record_submission, update_answer, pay, reward,
  keep_details,
}

loaded : {World : Type 0} (id : FeedId) (s : Chain World) → (load_from id s).0 ≢ panicked
unfolding load_from
loaded id s = ok_or-no_panic Types.feed_not_found (s.feeds id) s

module _ (T : Config) (id : FeedId) where
  ensure_valid_round-no_panic :
      (config : FeedConfig) (oracle : AccountId) (r : RoundId) (s : Chain T.World)
      → (ensure_valid_round T id config oracle r s).0 ≢ panicked
  unfolding ensure_valid_round
  ensure_valid_round-no_panic config oracle r s h = ground arith

  start_round-no_panic :
      (r : RoundId) (oracle : AccountId) (config : FeedConfig) (status : OracleStatus)
      (s : Chain T.World)
      → (start_round T id r oracle config status s).0 ≢ panicked
  unfolding start_round initialize_round close_timed_out_round
  start_round-no_panic r oracle config status s h = ground arith

  record_submission-no_panic :
      (r : RoundId) (v : Value) (oracle : AccountId) (status : OracleStatus) (s : Chain T.World)
      → (record_submission T id r v oracle status s).0 ≢ panicked
  unfolding record_submission
  record_submission-no_panic r v oracle status s h = ground arith

  recorded :
      (r : RoundId) (v : Value) (oracle : AccountId) (status : OracleStatus) (s t : Chain T.World)
      (d : RoundDetails)
      → record_submission T id r v oracle status s ≡ (ok d, t)
      → 0 < length d.submissions
  unfolding record_submission
  recorded r v oracle status s t d h = elim (Option-cases (s.details id r)) [
    | inl e ↦ cc (rw e at h)
    | inr (old, e) ↦
        let p : some (old.submissions ++ v ∷ []) ≡ some d.submissions =
          ap submissions_of (rw e at h) in
        omega (arith, longer (old.submissions) d.submissions p)
  ]
    where
      submissions_of : Outcome RoundDetails × Chain T.World → Option (List Value)
      submissions_of (ok x, u) = some x.submissions
      submissions_of (failed x, u) = none
      submissions_of (panicked, u) = none

      longer : (xs ys : List Value) → some (xs ++ v ∷ []) ≡ some ys → 0 < length ys
      longer xs ys p =
          let q : xs ++ v ∷ [] ≡ ys = cc in omega (arith, length-append xs (v ∷ []), ap length q)

  update_answer-no_panic :
      (r : RoundId) (config : FeedConfig) (d : RoundDetails) (s : Chain T.World)
      → 0 < length d.submissions
      → (update_answer T id r config d s).0 ≢ panicked
  unfolding update_answer prune_oldest
  update_answer-no_panic r config d s pos h =
      let (v, p) = median-defined T.value_max d.submissions pos in ground (arith, p)

  settled-no_panic :
      (r : RoundId) (oracle : AccountId) (config : FeedConfig) (d : RoundDetails)
      (s : Chain T.World)
      → 0 < length d.submissions
      → (settled T id r oracle config d s).0 ≢ panicked
  unfolding settled pay reward keep_details sync_to_storage
  settled-no_panic r oracle config d s pos =
      proceed-no_panic (update_answer T id r config d s) _ (update_answer-no_panic r config d s pos)
        λ c u e h. ground arith

  -- From the start of the round on.
  started-no_panic :
      (r : RoundId) (v : Value) (oracle : AccountId) (config : FeedConfig) (status : OracleStatus)
      (s : Chain T.World)
      → (proceed (start_round T id r oracle config status s) λ started. λ u.
          proceed
            (record_submission T id r v oracle started.1 u)
            λ d. settled T id r oracle started.0 d).0
        ≢ panicked
  started-no_panic r v oracle config status s =
      proceed-no_panic (start_round T id r oracle config status s) _
        (start_round-no_panic r oracle config status s)
        λ started s1 _.
          proceed-no_panic (record_submission T id r v oracle started.1 s1) _
            (record_submission-no_panic r v oracle started.1 s1)
            λ d s2 e.
              settled-no_panic r oracle started.0 d s2 (recorded r v oracle started.1 s1 s2 d e)

  submitted-no_panic :
      (r : RoundId) (v : Value) (oracle : AccountId) (s : Chain T.World)
      → (submitted T id r v oracle s).0 ≢ panicked
  unfolding submitted
  submitted-no_panic r v oracle s = proceed-no_panic (load_from id s) _ (loaded id s) λ config s1 _.
      proceed-no_panic (ok_or Types.not_oracle (s1.oracle_statuses id oracle) s1) _
        (ok_or-no_panic Types.not_oracle (s1.oracle_statuses id oracle) s1)
        λ status s2 _.
          proceed-no_panic (ensure_valid_round T id config oracle r s2) _
            (ensure_valid_round-no_panic config oracle r s2)
            λ _ s3 _.
              proceed-no_panic
                (ensure (leb config.submission_value_bounds.0 v) Types.submission_below_minimum s3)
                _ (ensure-no_panic _ _ s3)
                λ _ s4 _.
                  proceed-no_panic
                    (ensure (leb v config.submission_value_bounds.1) Types.submission_above_maximum
                      s4)
                    _ (ensure-no_panic _ _ s4)
                    λ _ s5 _. started-no_panic r v oracle config status s5

  -- No submission panics, in whatever storage: the median is only taken of one value or more.
  pub submit-no_panic :
      (r : RoundId) (v : Value) (o : Origin) (s : Chain T.World)
      → (submit T id r v o s).0 ≢ panicked
  unfolding submit with_transaction_result
  submit-no_panic r v root s = λ h. cc
  submit-no_panic r v unsigned s = λ h. cc
  submit-no_panic r v (signed oracle) s =
      kept (submitted T id r v oracle s) (submitted-no_panic r v oracle s)
    where
      kept : (q : Outcome Unit × Chain T.World) → q.0 ≢ panicked → (rollback s q).0 ≢ panicked
      kept (ok a, t) n = n
      kept (failed e, t) n = n
      kept (panicked, t) n = n
