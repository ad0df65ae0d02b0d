-- ===== src/FeedPallet/Submit/Once.antt =====
-- What `submit` of pallet-chainlink-feed/src/lib.rs does to the statuses of oracles, and how it
-- refuses an oracle by its status.
use chainlink_polkadot.Prelude.{
  ◌≤◌, true, false, Option, none, some, inl, inr, ◌≡◌, refl, sym, ap, ◌∙◌, leb, ltb, Bool-cases,
  Option-cases, arith,
}
use chainlink_polkadot.FeedPallet.Types
use chainlink_polkadot.FeedPallet.Types.{
  AccountId, FeedId, RoundId, Value, Balance, FeedConfig, Error, RoundData, RoundDetails,
  OracleStatus, Chain, Config, Origin, signed,
}
use chainlink_polkadot.FeedPallet.Effects.{
  Outcome, ok, failed, ok_or, ensure, map_or, rollback, with_transaction_result,
}
use chainlink_polkadot.FeedPallet.Effects.Inversion.{
  ok_pair, proceed_ok, ok_or_ok, ensure_ok, rollback_ok,
}
use chainlink_polkadot.FeedPallet.Feed.{put_at, load_from, sync_to_storage, ensure_valid_round}
use chainlink_polkadot.FeedPallet.Submit.{
  submit, submitted, settled, start_round, record_submission, update_answer, pay, reward,
  keep_details,
}
use chainlink_polkadot.FeedPallet.Submit.Statuses.{
  KeepsStatuses, statuses, kept, update_answer-statuses, pay-statuses, reward-statuses,
  keep_details-statuses, start_round-statuses, ensure_valid_round_ok, ensure_valid_round_after,
}

module _ (T : Config) (quiet : KeepsStatuses T) (id : FeedId) where
  module _ (round_id : RoundId) (submission : Value) (oracle : AccountId) where
    abbrev reported : OracleStatus → OracleStatus
    reported status = record status {
      last_reported_round = some round_id;
      latest_submission = some submission;
    }

    record_submission-status :
        (status : OracleStatus) (s t : Chain T.World) {d : RoundDetails}
        → record_submission T id round_id submission oracle status s ≡ (ok d, t)
        → statuses T quiet id t ≡ put_at id oracle (some (reported status)) (statuses T quiet id s)
    unfolding record_submission
    record_submission-status status s t h = elim (Option-cases (s.details id round_id)) [
      | inl e ↦ cc (rw e at h)
      | inr (d, e) ↦ sym (ap (λ (x : Chain T.World). statuses T quiet id x) (ok_pair (rw e at h)).1)
    ]

    settled-status :
        (config : FeedConfig) (d : RoundDetails) (s t : Chain T.World)
        → settled T id round_id oracle config d s ≡ (ok tt, t)
        → statuses T quiet id t ≡ statuses T quiet id s
    unfolding settled sync_to_storage
    settled-status config d s t h =
        let (c, s1, p1, h1) = proceed_ok (update_answer T id round_id config d s) _ h in
        let (e, s2, p2, h2) = proceed_ok (pay T id d.payment c s1) _ h1 in
        let (_, s3, p3, h3) = proceed_ok (reward T id oracle d.payment s2) _ h2 in
        let (_, s4, p4, h4) = proceed_ok (keep_details T id round_id d s3) _ h3 in
        sym (ap (λ (q : Outcome Unit × Chain T.World). statuses T quiet id q.1) h4)
        ∙ kept T quiet id p4 (keep_details-statuses T quiet id round_id d s3)
        ∙ kept T quiet id p3 (reward-statuses T quiet id oracle d.payment s2)
        ∙ kept T quiet id p2 (pay-statuses T quiet id d.payment c s1)
        ∙ kept T quiet id p1 (update_answer-statuses T quiet id round_id config d s)

    -- The oracle has not submitted to the round or a later one before, and it has now; no other
    -- status changes.
    abbrev pub Takes : Chain T.World → Chain T.World → Type 0
    Takes s t =
        (status : OracleStatus) × (next : OracleStatus) × (s.oracle_statuses id oracle
          ≡ some status)
        × (map_or true (λ l. ltb l round_id) status.last_reported_round ≡ true)
        × (next.last_reported_round ≡ some round_id)
        × (t.oracle_statuses ≡ put_at id oracle (some next) s.oracle_statuses)

    pub submitted-Takes :
        (s t : Chain T.World) → submitted T id round_id submission oracle s ≡ (ok tt, t) → Takes s t
    unfolding submitted load_from
    submitted-Takes s t h =
        let (config, s1, p1, h1) = proceed_ok (load_from id s) _ h in
        let (status, s2, p2, h2) =
          proceed_ok (ok_or Types.not_oracle (s1.oracle_statuses id oracle) s1) _ h1 in
        let (_, s3, p3, h3) = proceed_ok (ensure_valid_round T id config oracle round_id s2) _ h2 in
        let (_, s4, p4, h4) =
          proceed_ok
            (ensure (leb config.submission_value_bounds.0 submission) Types.submission_below_minimum
              s3)
            _ h3 in
        let (_, s5, p5, h5) =
          proceed_ok
            (ensure (leb submission config.submission_value_bounds.1) Types.submission_above_maximum
              s4)
            _ h4 in
        let (started, s6, p6, h6) =
          proceed_ok (start_round T id round_id oracle config status s5) _ h5 in
        let (d, s7, p7, h7) =
          proceed_ok (record_submission T id round_id submission oracle started.1 s6) _ h6 in
        let (listed, e2) = ok_or_ok Types.not_oracle (s1.oracle_statuses id oracle) s1 p2 in
        let e1 : s ≡ s1 = (ok_or_ok Types.feed_not_found (s.feeds id) s p1).1 in
        let e3 : s2 ≡ s3 =
          sym (ensure_valid_round_ok T quiet id config oracle round_id s2)
          ∙ ap (λ (q : Outcome Unit × Chain T.World). q.1) p3 in
        let e5 : s3 ≡ s5 = (ensure_ok _ _ s3 p4).1 ∙ (ensure_ok _ _ s4 p5).1 in
        let same : statuses T quiet id s6 ≡ statuses T quiet id s =
          kept T quiet id p6 (start_round-statuses T quiet id round_id oracle config status s5)
          ∙ sym (ap (λ (x : Chain T.World). statuses T quiet id x) (e1 ∙ e2 ∙ e3 ∙ e5)) in
        (
          status,
          reported started.1,
          ap (λ (x : Chain T.World). x.oracle_statuses id oracle) e1 ∙ listed,
          ensure_valid_round_after T quiet id config oracle round_id status s2 s3
              (ap (λ (x : Chain T.World). x.oracle_statuses id oracle) (sym e2) ∙ listed) p3,
          refl,
          settled-status started.0 d s7 t h7
              ∙ record_submission-status started.1 s6 s7 p7
              ∙ ap (put_at id oracle (some (reported started.1))) same,
        )

    pub submit-Takes :
        (s t : Chain T.World)
        → submit T id round_id submission (signed oracle) s ≡ (ok tt, t)
        → Takes s t
    unfolding submit with_transaction_result
    submit-Takes s t h =
        submitted-Takes s t (rollback_ok s (submitted T id round_id submission oracle s) h)

  too_late :
      (config : FeedConfig) (oracle : AccountId) (status : OracleStatus) (last round_id : RoundId)
      (s : Chain T.World)
      → s.oracle_statuses id oracle ≡ some status
      → status.last_reported_round ≡ some last
      → round_id ≤ last
      → (e : Error) × (ensure_valid_round T id config oracle round_id s ≡ (failed e, s))
  unfolding ensure_valid_round
  too_late config oracle status last round_id s p q l =
      elim (Bool-cases (leb status.starting_round round_id)) [
        | inr a ↦ (Types.oracle_not_enabled, rw (p, a) refl)
        | inl a ↦ elim (Bool-cases (map_or true (λ e. leb round_id e) status.ending_round)) [
          | inr b ↦ (Types.oracle_disabled, rw (p, a, b) refl)
          | inl b ↦
              let late : ltb last round_id ≡ false = ground arith in
              (Types.reporting_order, rw (p, a, b, q, late) refl)
        ]
      ]

  refused :
      (earlier : RoundId) (other : Value) (oracle : AccountId) (t : Chain T.World)
      (status : OracleStatus) (last : RoundId) (o : Option FeedConfig)
      → t.feeds id ≡ o
      → t.oracle_statuses id oracle ≡ some status
      → status.last_reported_round ≡ some last
      → earlier ≤ last
      → (e : Error) × (submitted T id earlier other oracle t ≡ (failed e, t))
  unfolding submitted load_from
  refused earlier other oracle t status last none fed found p l =
      (Types.feed_not_found, rw fed refl)
  refused earlier other oracle t status last (some config) fed found p l =
      let (e, q) = too_late config oracle status last earlier t found p l in
      (e, rw (fed, found, q) refl)

  -- An oracle that has submitted to a round cannot submit to it or to an earlier one.
  pub submit_refused :
      (earlier : RoundId) (other : Value) (oracle : AccountId) (t : Chain T.World)
      (status : OracleStatus) (last : RoundId)
      → t.oracle_statuses id oracle ≡ some status
      → status.last_reported_round ≡ some last
      → earlier ≤ last
      → (e : Error) × (submit T id earlier other (signed oracle) t ≡ (failed e, t))
  unfolding submit with_transaction_result
  submit_refused earlier other oracle t status last found p l =
      let (e, q) = refused earlier other oracle t status last (t.feeds id) refl found p l in
      (e, ap (rollback t) q)
