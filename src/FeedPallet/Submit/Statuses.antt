-- ===== src/FeedPallet/Submit/Statuses.antt =====
-- What the parts of `submit` of pallet-chainlink-feed/src/lib.rs do to the statuses of oracles.
use chainlink_polkadot.Prelude.{
  ◌+◌, ◌-◌, Bool, true, false, Option, some, inl, inr, ◌≡◌, refl, sym, ap, ◌∙◌, leb, ltb,
  Bool-cases, Option-cases, length, arith,
}
use chainlink_polkadot.FeedPallet.Types.{
  AccountId, FeedId, RoundId, Balance, FeedConfig, RoundData, RoundDetails, OracleStatus, Chain,
  Config,
}
use chainlink_polkadot.FeedPallet.Effects.{Outcome, ok, map_or}
use chainlink_polkadot.FeedPallet.Effects.Inversion.{Keeps, proceed-Keeps}
use chainlink_polkadot.FeedPallet.Median.{median}
use chainlink_polkadot.FeedPallet.Feed.{
  round_max, initialize_round, close_timed_out_round, ensure_valid_round, prune_oldest, prune_if,
}
use chainlink_polkadot.FeedPallet.Submit.{
  or_zero, start_if, start_round, update_answer, pay, reward, keep_details, answer_data,
}

-- The handler of answers leaves the status of every oracle alone.
abbrev pub KeepsStatuses : Config → Type 0
KeepsStatuses T =
    (id : FeedId) (d : RoundData) (s : Chain T.World)
    → (T.on_answer id d s).oracle_statuses ≡ s.oracle_statuses

module _ (T : Config) (quiet : KeepsStatuses T) (id : FeedId) where
  abbrev pub statuses : Chain T.World → FeedId → AccountId → Option OracleStatus
  statuses s = s.oracle_statuses

  prune_oldest-statuses : (config : FeedConfig) → Keeps statuses (prune_oldest T id config)
  unfolding prune_oldest
  prune_oldest-statuses config = prune_if-statuses (leb config.pruning_window _)
    where
      prune_if-statuses : (b : Bool) → Keeps statuses (prune_if T id b config)
      prune_if-statuses true s = refl
      prune_if-statuses false s = refl

  pub kept :
      {A : Type 0} {r : Outcome A × Chain T.World} {a : A} {t : Chain T.World}
      {before : FeedId → AccountId → Option OracleStatus}
      → r ≡ (ok a, t)
      → statuses r.1 ≡ before
      → statuses t ≡ before
  kept {A} p k = sym (ap (λ (q : Outcome A × Chain T.World). statuses q.1) p) ∙ k

  abbrev prunes : RoundId → FeedConfig → Bool
  prunes r config = leb config.pruning_window (r - config.next_round_to_prune)

  pub update_answer-statuses :
      (r : RoundId) (config : FeedConfig) (details : RoundDetails)
      → Keeps statuses (update_answer T id r config details)
  unfolding update_answer prune_oldest
  update_answer-statuses r config details s =
      elim (Bool-cases (leb details.submission_count_bounds.0 (length details.submissions))) [
        | inr b ↦ rw b refl
        | inl b ↦ elim (Option-cases (median T.value_max details.submissions)) [
          | inl e ↦ rw (b, e) refl
          | inr (v, e) ↦ elim (Option-cases (s.rounds id r)) [
            | inl f ↦ rw (b, e, f) refl
            | inr (round, f) ↦ elim (Bool-cases (ltb 0 (r - 1))) [
              | inl c ↦ elim (Bool-cases (prunes r config)) [
                | inl p ↦
                    rw (b, e, f, c, p) (quiet id (answer_data T id r round v s.block_number) _)
                | inr p ↦
                    rw (b, e, f, c, p) (quiet id (answer_data T id r round v s.block_number) _)
              ]
              | inr c ↦ elim (Bool-cases (prunes r config)) [
                | inl p ↦
                    rw (b, e, f, c, p) (quiet id (answer_data T id r round v s.block_number) _)
                | inr p ↦
                    rw (b, e, f, c, p) (quiet id (answer_data T id r round v s.block_number) _)
              ]
            ]
          ]
        ]
      ]

  pub pay-statuses :
      (payment : Balance) (config : FeedConfig) → Keeps statuses (pay T id payment config)
  unfolding pay
  pay-statuses payment config s = ground arith

  pub reward-statuses :
      (oracle : AccountId) (payment : Balance) → Keeps statuses (reward T id oracle payment)
  unfolding reward
  reward-statuses oracle payment s = ground arith

  pub keep_details-statuses :
      (r : RoundId) (details : RoundDetails) → Keeps statuses (keep_details T id r details)
  unfolding keep_details
  keep_details-statuses r details s = ground arith

  initialize_round-statuses :
      (r : RoundId) (config : FeedConfig) → Keeps statuses (initialize_round T id config r)
  unfolding initialize_round close_timed_out_round
  initialize_round-statuses r config s = ground arith

  start_if-statuses :
      (b : Bool) (r : RoundId) (oracle : AccountId) (config : FeedConfig) (status : OracleStatus)
      → Keeps statuses (start_if T id b r oracle config status)
  start_if-statuses false r oracle config status s = refl
  start_if-statuses true r oracle config status s =
      proceed-Keeps statuses (initialize_round T id config r s) _ {s = s}
        (initialize_round-statuses r config s) λ m u. refl

  pub start_round-statuses :
      (r : RoundId) (oracle : AccountId) (config : FeedConfig) (status : OracleStatus)
      → Keeps statuses (start_round T id r oracle config status)
  unfolding start_round
  start_round-statuses r oracle config status s =
      elim (Bool-cases (leb (or_zero status.last_started_round + config.restart_delay) round_max)) [
        | inr a ↦ rw a refl
        | inl a ↦
            elim (Bool-cases
              (leb (or_zero status.last_started_round + config.restart_delay + 1) round_max)) [
                | inr b ↦ rw (a, b) refl
                | inl b ↦ rw (a, b) (start_if-statuses _ _ oracle config status s)
              ]
      ]

  pub ensure_valid_round_ok :
      (config : FeedConfig) (oracle : AccountId) (r : RoundId) (s : Chain T.World)
      → (ensure_valid_round T id config oracle r s).1 ≡ s
  unfolding ensure_valid_round
  ensure_valid_round_ok config oracle r s = ground arith

  -- A round that the oracle may submit to comes after the last one it has submitted to.
  pub ensure_valid_round_after :
      (config : FeedConfig) (oracle : AccountId) (r : RoundId) (status : OracleStatus)
      (s t : Chain T.World)
      → s.oracle_statuses id oracle ≡ some status
      → ensure_valid_round T id config oracle r s ≡ (ok tt, t)
      → map_or true (λ l. ltb l r) status.last_reported_round ≡ true
  unfolding ensure_valid_round
  ensure_valid_round_after config oracle r status s t p h =
      elim (Bool-cases (leb status.starting_round r)) [
        | inr a ↦ cc (rw (p, a) at h)
        | inl a ↦ elim (Bool-cases (map_or true (λ e. leb r e) status.ending_round)) [
          | inr b ↦ cc (rw (p, a, b) at h)
          | inl b ↦ elim (Bool-cases (map_or true (λ l. ltb l r) status.last_reported_round)) [
            | inl c ↦ c
            | inr c ↦ cc (rw (p, a, b, c) at h)
          ]
        ]
      ]
