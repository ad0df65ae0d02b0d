-- ===== src/FeedPallet/Calls/Statuses.antt =====
-- The calls of pallet-chainlink-feed/src/lib.rs that leave the statuses of oracles alone.
use chainlink_polkadot.Prelude.{
  ℕ, suc, zero, String, Option, ◌⊎◌, inl, inr, ◌≡◌, refl, Bool-cases, Option-cases, ◌==◌, ltb, leb,
  arith,
}
use chainlink_polkadot.FeedPallet.Types.{
  AccountId, FeedId, RoundId, Balance, BlockNumber, FeedConfig, Requester, OracleStatus, Chain,
  Config, Origin, signed, root, unsigned,
}
use chainlink_polkadot.FeedPallet.Effects.{
  Outcome, ok, failed, panicked, rollback, with_transaction_result,
}
use chainlink_polkadot.FeedPallet.Effects.Inversion.{Keeps, proceed-Keeps}
use chainlink_polkadot.FeedPallet.Feed
use chainlink_polkadot.FeedPallet.Feed.{load_from, sync_to_storage, initialize_round, prune_oldest}
use chainlink_polkadot.FeedPallet.Owners.{
  transfer_ownership, accept_ownership, set_requester, remove_requester, transfer_admin,
  accept_admin, transfer_pallet_admin, accept_pallet_admin, set_feed_creator, remove_feed_creator,
  requested, request_new_round,
}
use chainlink_polkadot.FeedPallet.Funds.{withdraw_payment, withdraw_funds, reduced, reduce_debt}
use chainlink_polkadot.FeedPallet.Feeds.{
  future_rounds_updated, update_future_rounds, prune_all, set_pruning_window,
}

module _ {World : Type 0} where
  abbrev pub statuses : Chain World → FeedId → AccountId → Option OracleStatus
  statuses s = s.oracle_statuses

  rollback-statuses :
      {A : Type 0} (s : Chain World) (r : Outcome A × Chain World)
      → statuses r.1 ≡ statuses s
      → statuses (rollback s r).1 ≡ statuses s
  rollback-statuses s (ok a, t) h = h
  rollback-statuses s (failed e, t) h = refl
  rollback-statuses s (panicked, t) h = refl

  module _ (id : FeedId) where
    pub transfer_ownership-statuses :
        (who : AccountId) (o : Origin)
        → Keeps statuses (transfer_ownership {World = World} id who o)
    unfolding transfer_ownership load_from sync_to_storage
    transfer_ownership-statuses who o s = ground arith

    pub accept_ownership-statuses :
        (o : Origin) → Keeps statuses (accept_ownership {World = World} id o)
    unfolding accept_ownership load_from sync_to_storage
    accept_ownership-statuses o s = ground arith

    pub set_requester-statuses :
        (who : AccountId) (delay : RoundId) (o : Origin)
        → Keeps statuses (set_requester {World = World} id who delay o)
    unfolding set_requester load_from
    set_requester-statuses who delay o s = ground arith

    pub remove_requester-statuses :
        (who : AccountId) (o : Origin) → Keeps statuses (remove_requester {World = World} id who o)
    unfolding remove_requester load_from
    remove_requester-statuses who o s = ground arith

  pub transfer_admin-statuses :
      (oracle who : AccountId) (o : Origin)
      → Keeps statuses (transfer_admin {World = World} oracle who o)
  unfolding transfer_admin
  transfer_admin-statuses oracle who o s = ground arith

  pub accept_admin-statuses :
      (oracle : AccountId) (o : Origin) → Keeps statuses (accept_admin {World = World} oracle o)
  unfolding accept_admin
  accept_admin-statuses oracle o s = ground arith

  pub transfer_pallet_admin-statuses :
      (who : AccountId) (o : Origin) → Keeps statuses (transfer_pallet_admin {World = World} who o)
  unfolding transfer_pallet_admin
  transfer_pallet_admin-statuses who o s = ground arith

  pub accept_pallet_admin-statuses :
      (o : Origin) → Keeps statuses (accept_pallet_admin {World = World} o)
  unfolding accept_pallet_admin
  accept_pallet_admin-statuses o s = ground arith

  pub set_feed_creator-statuses :
      (who : AccountId) (o : Origin) → Keeps statuses (set_feed_creator {World = World} who o)
  unfolding set_feed_creator
  set_feed_creator-statuses who o s = ground arith

  pub remove_feed_creator-statuses :
      (who : AccountId) (o : Origin) → Keeps statuses (remove_feed_creator {World = World} who o)
  unfolding remove_feed_creator
  remove_feed_creator-statuses who o s = ground arith

module _ (T : Config) where
  pub withdraw_payment-statuses :
      (oracle to : AccountId) (amount : Balance) (o : Origin)
      → Keeps statuses (withdraw_payment T oracle to amount o)
  unfolding withdraw_payment
  withdraw_payment-statuses oracle to amount o s = ground arith

  pub withdraw_funds-statuses :
      (to : AccountId) (amount : Balance) (o : Origin)
      → Keeps statuses (withdraw_funds T to amount o)
  unfolding withdraw_funds
  withdraw_funds-statuses to amount o s = ground arith

  reduced-statuses :
      (id : FeedId) (amount : Balance) (feed : FeedConfig) (r : String ⊎ T.World)
      → Keeps statuses (reduced T id amount feed r)
  unfolding reduced sync_to_storage
  reduced-statuses id amount feed (inl e) s = refl
  reduced-statuses id amount feed (inr w) s = refl

  pub reduce_debt-statuses :
      (id : FeedId) (amount : Balance) (o : Origin) → Keeps statuses (reduce_debt T id amount o)
  unfolding reduce_debt load_from
  reduce_debt-statuses id amount root s = refl
  reduce_debt-statuses id amount unsigned s = refl
  reduce_debt-statuses id amount (signed who) s = elim (Option-cases (s.feeds id)) [
    | inl e ↦ rw e refl
    | inr (feed, e) ↦ rw e (reduced-statuses id amount feed _ s)
  ]

  module _ (id : FeedId) where
    pub initialize_round-statuses :
        (config : FeedConfig) (r : RoundId) → Keeps statuses (initialize_round T id config r)
    unfolding initialize_round Feed.close_timed_out_round
    initialize_round-statuses config r s = ground arith

    requested-statuses :
        (who : AccountId) (requester : Requester) → Keeps statuses (requested T id who requester)
    unfolding requested load_from sync_to_storage Feed.request_new_round initialize_round
        Feed.close_timed_out_round
    requested-statuses who requester s = ground arith

    pub request_new_round-statuses : (o : Origin) → Keeps statuses (request_new_round T id o)
    unfolding request_new_round with_transaction_result
    request_new_round-statuses root s = refl
    request_new_round-statuses unsigned s = refl
    request_new_round-statuses (signed who) s = elim (Option-cases (s.requesters id who)) [
      | inl e ↦ rw e refl
      | inr (requester, e) ↦ rw e (
          rollback-statuses s (requested T id who requester s) (requested-statuses who requester s))
    ]

    pub updated-statuses :
        (feed : FeedConfig) (payment : Balance) (counts : ℕ × ℕ) (delay : RoundId)
        (timeout : BlockNumber)
        → Keeps statuses (Feed.update_future_rounds T id feed payment counts delay timeout)
    unfolding Feed.update_future_rounds
    updated-statuses feed payment counts delay timeout s = ground arith

    future_rounds_updated-statuses :
        (who : AccountId) (payment : Balance) (counts : ℕ × ℕ) (delay : RoundId)
        (timeout : BlockNumber)
        → Keeps statuses (future_rounds_updated T id who payment counts delay timeout)
    unfolding future_rounds_updated load_from sync_to_storage Feed.update_future_rounds
    future_rounds_updated-statuses who payment counts delay timeout s = ground arith

    pub update_future_rounds-statuses :
        (payment : Balance) (counts : ℕ × ℕ) (delay : RoundId) (timeout : BlockNumber) (o : Origin)
        → Keeps statuses (update_future_rounds T id payment counts delay timeout o)
    unfolding update_future_rounds with_transaction_result
    update_future_rounds-statuses payment counts delay timeout root s = refl
    update_future_rounds-statuses payment counts delay timeout unsigned s = refl
    update_future_rounds-statuses payment counts delay timeout (signed who) s =
        rollback-statuses s (future_rounds_updated T id who payment counts delay timeout s)
          (future_rounds_updated-statuses who payment counts delay timeout s)

    prune_all-statuses : (n : ℕ) (config : FeedConfig) → Keeps statuses (prune_all T id n config)
    unfolding prune_all prune_oldest
    prune_all-statuses zero config s = refl
    prune_all-statuses (suc n) config s =
        elim (Bool-cases (leb config.pruning_window (Feed.current_window T id config))) [
          | inl b ↦ rw b (prune_all-statuses n _ _)
          | inr b ↦ rw b refl
        ]

    pub set_pruning_window-statuses :
        (window : RoundId) (o : Origin) → Keeps statuses (set_pruning_window T id window o)
    unfolding set_pruning_window load_from sync_to_storage
    set_pruning_window-statuses window root s = refl
    set_pruning_window-statuses window unsigned s = refl
    set_pruning_window-statuses window (signed who) s = elim (Bool-cases (ltb 0 window)) [
      | inr b ↦ rw b refl
      | inl b ↦ elim (Option-cases (s.feeds id)) [
        | inl e ↦ rw (b, e) refl
        | inr (feed, e) ↦ elim (Bool-cases (feed.owner == who)) [
          | inr c ↦ rw (b, e, c) refl
          | inl c ↦
              let config : FeedConfig = record feed { pruning_window = window } in
              let n = Feed.current_window T id feed in
              rw (b, e, c)
                (proceed-Keeps statuses (prune_all T id n config s) _ {s = s}
                  (prune_all-statuses n config s) λ pruned u. refl)
        ]
      ]
    ]
