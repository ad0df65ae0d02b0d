-- ===== src/FeedPallet/Calls/Changes.antt =====
-- The calls of pallet-chainlink-feed/src/lib.rs that change the statuses of oracles, other than
-- `submit`.
use chainlink_polkadot.Prelude.{
  ℕ, Option, some, List, inl, inr, ◌≡◌, refl, sym, ap, ◌∙◌, Bool-cases, leb, ltb,
}
use chainlink_polkadot.FeedPallet.Types
use chainlink_polkadot.FeedPallet.Types.{
  AccountId, FeedId, RoundId, Balance, BlockNumber, Value, FeedConfig, OracleMeta, OracleStatus,
  Chain, Config, Origin, signed, root, unsigned,
}
use chainlink_polkadot.FeedPallet.Effects.{
  ok, ok_or, ensure, map_or, checked_add, saturating_add, with_transaction_result,
}
use chainlink_polkadot.FeedPallet.Effects.Inversion.{ok_pair, proceed_ok, ok_or_ok, ensure_ok}
use chainlink_polkadot.FeedPallet.Feed
use chainlink_polkadot.FeedPallet.Feed.{round_max, put_at, load_from, sync_to_storage}
use chainlink_polkadot.FeedPallet.Feeds.{
  count_u32, new_config, add_each, add_oracles, disable_each, disable_oracles, oracles_changed,
  change_oracles, feed_created_by, create_feed,
}
use chainlink_polkadot.FeedPallet.Funds.{checked_sub}
use chainlink_polkadot.FeedPallet.Calls.Statuses.{statuses, updated-statuses}
use chainlink_polkadot.FeedPallet.Calls.Oracles.{
  Remembers, same-Remembers, then-Remembers, rollback-Remembers, after, add_each-Remembers,
  disable_each-Remembers,
}

module _ (T : Config) (id : FeedId) where
  add_oracles-Remembers :
      (config c : FeedConfig) (to_add : List (AccountId × AccountId)) (s t : Chain T.World)
      → add_oracles T id config to_add s ≡ (ok c, t)
      → Remembers (statuses s) (statuses t)
  unfolding add_oracles
  add_oracles-Remembers config c to_add s t h =
      let count = saturating_add round_max config.oracle_count (count_u32 to_add) in
      let (_, s1, p1, h1) =
        proceed_ok (ensure (leb count T.oracle_count_limit) Types.oracles_limit_exceeded s) _ h in
      let (_, s2, p2, h2) = proceed_ok (add_each T id config.reporting_round to_add s1) _ h1 in
      then-Remembers
        (same-Remembers (
          sym (
            ap (λ (x : Chain T.World). statuses x)
              (ensure_ok (leb count T.oracle_count_limit) _ s p1).1)))
        (then-Remembers (add_each-Remembers T id config.reporting_round to_add s1 s2 p2)
          (same-Remembers (sym (ap (λ (x : Chain T.World). statuses x) (ok_pair h2).1))))

  disable_oracles-Remembers :
      (config c : FeedConfig) (to_disable : List AccountId) (s t : Chain T.World)
      → disable_oracles T id config to_disable s ≡ (ok c, t)
      → Remembers (statuses s) (statuses t)
  unfolding disable_oracles
  disable_oracles-Remembers config c to_disable s t h =
      let count = checked_sub config.oracle_count (count_u32 to_disable) in
      let (_, s1, p1, h1) = proceed_ok (ok_or Types.not_enough_oracles count s) _ h in
      let (_, s2, p2, h2) =
        proceed_ok (disable_each T id config.reporting_round to_disable s1) _ h1 in
      then-Remembers
        (same-Remembers (sym (ap (λ (x : Chain T.World). statuses x) (ok_or_ok _ count s p1).1)))
        (then-Remembers (disable_each-Remembers T id config.reporting_round to_disable s1 s2 p2)
          (same-Remembers (sym (ap (λ (x : Chain T.World). statuses x) (ok_pair h2).1))))

  oracles_changed-Remembers :
      (owner : AccountId) (to_disable : List AccountId) (to_add : List (AccountId × AccountId))
      (s t : Chain T.World)
      → oracles_changed T id owner to_disable to_add s ≡ (ok tt, t)
      → Remembers (statuses s) (statuses t)
  unfolding oracles_changed load_from sync_to_storage
  oracles_changed-Remembers owner to_disable to_add s t h =
      let (feed, s1, p1, h1) = proceed_ok (load_from id s) _ h in
      let (_, s2, p2, h2) = proceed_ok (Feed.ensure_owner id feed owner s1) _ h1 in
      let (c, s3, p3, h3) = proceed_ok (disable_oracles T id feed to_disable s2) _ h2 in
      let (d, s4, p4, h4) = proceed_ok (add_oracles T id c to_add s3) _ h3 in
      let e : s ≡ s2 =
        (ok_or_ok Types.feed_not_found (s.feeds id) s p1).1 ∙ (ensure_ok _ _ s1 p2).1 in
      then-Remembers (same-Remembers (sym (ap (λ (x : Chain T.World). statuses x) e))) (
        then-Remembers (disable_oracles-Remembers feed c to_disable s2 s3 p3) (
          then-Remembers (add_oracles-Remembers c d to_add s3 s4 p4)
            (same-Remembers (sym (ap (λ (x : Chain T.World). statuses x) (ok_pair h4).1)))))

  pub change_oracles-Remembers :
      (to_disable : List AccountId) (to_add : List (AccountId × AccountId)) (o : Origin)
      (s : Chain T.World)
      → Remembers (statuses s) (statuses (change_oracles T id to_disable to_add o s).1)
  unfolding change_oracles with_transaction_result
  change_oracles-Remembers to_disable to_add root s = same-Remembers refl
  change_oracles-Remembers to_disable to_add unsigned s = same-Remembers refl
  change_oracles-Remembers to_disable to_add (signed who) s =
      rollback-Remembers s (oracles_changed T id who to_disable to_add s)
        (oracles_changed-Remembers who to_disable to_add s)

module _ (T : Config) (payment : Balance) (timeout : BlockNumber)
    (submission_value_bounds : Value × Value) (min_submissions decimals : ℕ) (description : List ℕ)
    (restart_delay : RoundId) (oracles : List (AccountId × AccountId))
    (max_debt : Option Balance) where
  feed_created_by-Remembers :
      (owner : AccountId) (pruning_window : RoundId) (s t : Chain T.World)
      → feed_created_by T payment timeout submission_value_bounds min_submissions decimals
          description restart_delay oracles max_debt owner pruning_window s
        ≡ (ok tt, t)
      → Remembers (statuses s) (statuses t)
  unfolding feed_created_by sync_to_storage
  feed_created_by-Remembers owner pruning_window s t h =
      let id = s.feed_counter in
      let (_, s1, p1, h1) =
        proceed_ok (ensure (ltb id T.feed_limit) Types.feed_limit_reached s) _ h in
      let (n, s2, p2, h2) =
        proceed_ok (ok_or Types.overflow (checked_add T.feed_id_max id 1) s1) _ h1 in
      let now = s2.block_number in
      let seeded : Chain T.World = record s2 {
        feed_counter = n;
        rounds =
            put_at id 0
              (some (record {
                started_at = now;
                answer = some 0;
                updated_at = some now;
                answered_in_round = some 0;
              }))
              s2.rounds;
      } in
      let config =
        new_config T payment timeout submission_value_bounds min_submissions decimals description
          restart_delay oracles max_debt owner pruning_window in
      let (c, s3, p3, h3) = proceed_ok (add_oracles T id config oracles seeded) _ h2 in
      let (d, s4, p4, h4) =
        proceed_ok
          (Feed.update_future_rounds T id c payment (min_submissions, count_u32 oracles)
            restart_delay timeout s3)
          _ h3 in
      let e : s ≡ s2 = (ensure_ok _ _ s p1).1 ∙ (ok_or_ok _ _ s1 p2).1 in
      then-Remembers (same-Remembers (sym (ap (λ (x : Chain T.World). statuses x) e))) (
        then-Remembers (add_oracles-Remembers T id config c oracles seeded s3 p3) (
          then-Remembers
            (after p4 (
              updated-statuses T id c payment (min_submissions, count_u32 oracles) restart_delay
                timeout s3))
            (same-Remembers (sym (ap (λ (x : Chain T.World). statuses x) (ok_pair h4).1)))))

  pub create_feed-Remembers :
      (pruning_window : Option RoundId) (o : Origin) (s : Chain T.World)
      → Remembers (statuses s) (
          statuses
            (create_feed T payment timeout submission_value_bounds min_submissions decimals
              description restart_delay oracles pruning_window max_debt o s).1)
  unfolding create_feed with_transaction_result
  create_feed-Remembers pruning_window root s = same-Remembers refl
  create_feed-Remembers pruning_window unsigned s = same-Remembers refl
  create_feed-Remembers pruning_window (signed who) s = elim (Bool-cases (s.feed_creators who)) [
    | inr a ↦ rw a (same-Remembers refl)
    | inl a ↦ elim (Bool-cases (leb (count_u32 description) T.string_limit)) [
      | inr b ↦ rw (a, b) (same-Remembers refl)
      | inl b ↦
          let window = map_or round_max (λ w. w) pruning_window in
          elim (Bool-cases (ltb 0 window)) [
            | inr c ↦ rw (a, b, c) (same-Remembers refl)
            | inl c ↦
                rw (a, b, c)
                  (rollback-Remembers s
                    (feed_created_by T payment timeout submission_value_bounds min_submissions
                      decimals description restart_delay oracles max_debt who window s)
                    (feed_created_by-Remembers who window s))
          ]
    ]
  ]
