-- ===== src/FeedPallet/Submit/Payment/Starting.antt =====
-- How a submission starts a round in pallet-chainlink-feed/src/lib.rs, and what it pays from then on.
use chainlink_polkadot.Prelude.{
  ℕ, ◌+◌, ◌-◌, Bool, true, false, none, some, ◌⊎◌, inl, inr, ◌≡◌, refl, sym, ap, ◌∙◌, leb, not,
  ◌&&◌, ◌||◌, ◌==◌, is_some, Bool-cases, Option-cases, arith,
}
use chainlink_polkadot.FeedPallet.Types.{
  AccountId, FeedId, RoundId, FeedConfig, RoundDetails, OracleStatus, Chain, Config,
}
use chainlink_polkadot.FeedPallet.Effects.{ok, saturating_add}
use chainlink_polkadot.FeedPallet.Effects.Inversion.{ok_pair, proceed_ok}
use chainlink_polkadot.FeedPallet.Feed.{
  round_max, put_at, is_timed_out, initialize_round, close_timed_out_round,
}
use chainlink_polkadot.FeedPallet.Submit.{or_zero, start_round, start_if}
use chainlink_polkadot.FeedPallet.Submit.Payment.Steps.{Unpaid, Same, unpaid}

module _ (T : Config) (id : FeedId) where
  -- The details that a round starts with are those of the feed.
  abbrev pub Started : RoundId → FeedConfig → Chain T.World → Type 0
  Started r config t =
      (old : RoundDetails) × (t.details id r ≡ some old) × (old.payment ≡ config.payment)

  put_at_same : {V : Type 0} (k : ℕ) (v : V) (m : ℕ → ℕ → V) → put_at id k v m id k ≡ v
  put_at_same k v m = ground arith

  initialize_round_ok :
      (r : RoundId) (config c : FeedConfig) (n : ℕ) (s t : Chain T.World)
      → initialize_round T id config r s ≡ (ok (c, n), t)
      → Unpaid T id (Same T id) config c s t × Started r config t
  unfolding initialize_round close_timed_out_round
  initialize_round_ok r config c n s t h = elim (Bool-cases (is_timed_out T id s (r - 1))) [
    | inr b ↦
        let k = rw b at h in
        (
          unpaid T id (Same T id) (λ x. x.0) config s k (refl, refl, refl, refl),
          (
            _,
            sym (ap (λ (x : Chain T.World). x.details id r) (ok_pair k).1)
                ∙ put_at_same r _ s.details,
            refl,
          ),
        )
    | inl b ↦ elim (Option-cases (s.rounds id (r - 1 - 1))) [
      | inl e ↦ cc (rw (b, e) at h)
      | inr (prev, e) ↦ elim (Option-cases (s.rounds id (r - 1))) [
        | inl f ↦ cc (rw (b, e, f) at h)
        | inr (round, f) ↦
            let k = rw (b, e, f) at h in
            (
              unpaid T id (Same T id) (λ x. x.0) config s k (refl, refl, refl, refl),
              (
                _,
                sym (ap (λ (x : Chain T.World). x.details id r) (ok_pair k).1)
                    ∙ put_at_same r _ (put_at id (r - 1) none s.details),
                refl,
              ),
            )
      ]
    ]
  ]

  -- Where the round starts here, its details are new; else they stay.
  abbrev pub DetailsFrom : Bool → RoundId → FeedConfig → Chain T.World → Chain T.World → Type 0
  DetailsFrom b r config s t =
      ((b ≡ true) × Started r config t) ⊎ ((b ≡ false) × (t.details ≡ s.details))

  start_if_ok :
      (b : Bool) (r : RoundId) (oracle : AccountId) (config : FeedConfig) (status : OracleStatus)
      (s t : Chain T.World) (m : FeedConfig × OracleStatus)
      → start_if T id b r oracle config status s ≡ (ok m, t)
      → Unpaid T id (Same T id) config m.0 s t × DetailsFrom b r config s t
  start_if_ok false r oracle config status s t m h = (
    unpaid T id (Same T id) (λ x. x.0) config s h (refl, refl, refl, refl),
    inr (refl, sym (ap (λ (x : Chain T.World). x.details) (ok_pair h).1)),
  )
  start_if_ok true r oracle config status s t m h =
      let ((c, n), u, p, k) = proceed_ok (initialize_round T id config r s) _ h in
      let (kept, (old, q, same)) = initialize_round_ok r config c n s u p in
      (
        unpaid T id (Same T id) (λ x. x.0) config s k kept,
        inl (refl, (old, sym (ap (λ (x : Chain T.World). x.details id r) (ok_pair k).1) ∙ q, same)),
      )

  -- The round is the feed's next one, and the restart delay of the oracle is over.
  abbrev pub starts : FeedConfig → OracleStatus → RoundId → Bool
  starts config status r =
      r == saturating_add round_max config.reporting_round 1
      && (leb (or_zero status.last_started_round + config.restart_delay + 1) r
          || not (is_some status.last_started_round))

  pub start_round_ok :
      (r : RoundId) (oracle : AccountId) (config : FeedConfig) (status : OracleStatus)
      (s t : Chain T.World) (m : FeedConfig × OracleStatus)
      → start_round T id r oracle config status s ≡ (ok m, t)
      → Unpaid T id (Same T id) config m.0 s t
        × DetailsFrom
            (starts config status r)
            (saturating_add round_max config.reporting_round 1)
            config
            s
            t
  unfolding start_round
  start_round_ok r oracle config status s t m h =
      elim (Bool-cases (leb (or_zero status.last_started_round + config.restart_delay) round_max)) [
        | inr a ↦ cc (rw a at h)
        | inl a ↦
            elim (Bool-cases
              (leb (or_zero status.last_started_round + config.restart_delay + 1) round_max)) [
                | inr b ↦ cc (rw (a, b) at h)
                | inl b ↦ start_if_ok _ _ oracle config status s t m (rw (a, b) at h)
              ]
      ]
