-- ===== src/Tests/Feeds.antt =====
-- The pallet of pallet-chainlink-feed/src/lib.rs on a small chain.
use chainlink_polkadot.Prelude.{
  ℕ, ◌+◌, ◌-◌, ◌^◌, ◌≤◌, ◌≡◌, ◌≢◌, refl, sym, ap, subst, String, none, some, [], ◌∷◌, ◌⊎◌, inl, inr,
  ◌==◌, leb, if◌then◌else◌, arith,
}
use chainlink_polkadot.FeedPallet.Types.{
  AccountId, FeedConfig, OracleMeta, Error, foreign, Chain, Config, signed,
}
use chainlink_polkadot.FeedPallet.Effects.{Outcome, ok, failed, panicked, with_transaction_result}
use chainlink_polkadot.FeedPallet.Median.{median, sort_unstable}
use chainlink_polkadot.FeedPallet.Median.Bounds.{median_lem}
use chainlink_polkadot.FeedPallet.Feed
use chainlink_polkadot.FeedPallet.Feed.{
  load_from, sync_to_storage, ensure_valid_round, close_timed_out_round, initialize_round,
  prune_oldest, put,
}
use chainlink_polkadot.FeedPallet.Submit.{
  submit, submitted, settled, start_round, record_submission, update_answer, pay, reward,
  keep_details,
}
use chainlink_polkadot.FeedPallet.Calls
use chainlink_polkadot.FeedPallet.Calls.{Later, now, called, elsewhere}
use chainlink_polkadot.FeedPallet.Calls.Once.{submit_once}
use chainlink_polkadot.FeedPallet.Submit.Safety.{submit-no_panic}
use chainlink_polkadot.FeedPallet.Feeds.{
  create_feed, feed_created_by, add_oracles, add_each, add_oracle, set_pruning_window,
}
use chainlink_polkadot.FeedPallet.Feeds.Pruning.{PrunedTo, set_pruning_window_lem}
use chainlink_polkadot.FeedPallet.Funds.{to_reserve, reduce_debt, withdraw_payment}
use chainlink_polkadot.FeedPallet.Funds.Accounts.{reduce_debt_lem, withdraw_payment_failed}
use chainlink_polkadot.FeedPallet.Owners.{
  transfer_ownership, accept_ownership, transfer_admin, accept_admin, transfer_pallet_admin,
  accept_pallet_admin,
}
use chainlink_polkadot.FeedPallet.Owners.Handover.{
  offer, take, Implements, feed_post, oracle_post, pallet_post, handover_refines,
}
use chainlink_polkadot.FeedPallet.Interface.{data_at, try_from}

-- What the pallet's account has, free and reserved. A transfer of more than 50 is refused.
abbrev Balances : Type 0
Balances = ℕ × ℕ

abbrev reserve : AccountId → ℕ → Balances → String ⊎ Balances
reserve a n (free, reserved) =
    if leb n free then inr (free - n, reserved + n) else inl "InsufficientBalance"

abbrev transfer : AccountId → AccountId → ℕ → Balances → String ⊎ Balances
transfer from to n (free, reserved) =
    if leb n 50 then inr (free - n, reserved) else inl "LiquidityRestrictions"

abbrev runtime : Config
runtime = record {
  World = Balances;
  balance_max = 2 ^ 64 - 1;
  block_max = 2 ^ 32 - 1;
  value_max = 2 ^ 64 - 1;
  feed_id_max = 2 ^ 32 - 1;
  fund = 99;
  minimum_reserve = 5;
  string_limit = 15;
  oracle_count_limit = 10;
  feed_limit = 4;
  free_balance = λ w who. w.0;
  reserved_balance = λ w who. w.1;
  reserve = reserve;
  unreserve = λ who n w. (w.0 + n, w.1 - n);
  transfer = transfer;
  on_answer = λ id d s. s;
}

abbrev genesis : Chain Balances
genesis = record {
  pallet_admin = 1;
  pending_pallet_admin = none;
  feed_counter = 0;
  feeds = λ id. none;
  feed_creators = λ a. a == 2;
  rounds = λ id r. none;
  details = λ id r. none;
  oracles = λ a. none;
  oracle_statuses = λ id a. none;
  requesters = λ id a. none;
  block_number = 1;
  events = [];
  world = (15, 0);
}

-- Account 2 creates a feed of three oracles, two of which have to submit.
abbrev created : Chain Balances
unfolding create_feed with_transaction_result feed_created_by add_oracles add_each add_oracle
    Feed.update_future_rounds sync_to_storage
created =
    (create_feed runtime 10 10 (1, 100) 2 8 [] 0 ((5, 15) ∷ (6, 16) ∷ (7, 17) ∷ []) none (some 25)
      (signed 2) genesis).1

abbrev submit_to : ℕ → ℕ → AccountId → Chain Balances → Outcome Unit × Chain Balances
unfolding submit
submit_to round v oracle s = submit runtime 0 round v (signed oracle) s

abbrev first : Chain Balances
unfolding submit_to created submit with_transaction_result submitted load_from ensure_valid_round
    start_round initialize_round close_timed_out_round record_submission settled update_answer
    median sort_unstable prune_oldest pay reward keep_details sync_to_storage
first = (submit_to 1 42 5 created).1

abbrev second : Chain Balances
unfolding submit_to first submit with_transaction_result submitted load_from ensure_valid_round
    start_round initialize_round close_timed_out_round record_submission settled update_answer
    median sort_unstable prune_oldest pay reward keep_details sync_to_storage
second = (submit_to 1 44 6 first).1

-- The second submission gives the answer, and its payment is a debt.
second_answer :
    (data_at 0 1 second
      ≡ some (record { started_at = 1; answer = 43; updated_at = 1; answered_in_round = 1 }))
    × (second.world ≡ (5, 10))
unfolding second first created data_at try_from
second_answer = (refl, refl)

abbrev second_feed : FeedConfig
second_feed = record {
  owner = 2;
  pending_owner = none;
  payment = 10;
  timeout = 10;
  submission_value_bounds = (1, 100);
  submission_count_bounds = (2, 3);
  decimals = 8;
  description = [];
  restart_delay = 0;
  latest_round = 1;
  reporting_round = 1;
  first_valid_round = some 1;
  oracle_count = 3;
  pruning_window = 4294967295;
  next_round_to_prune = 1;
  debt = 10;
  max_debt = some 25;
}

second_feeds : second.feeds 0 ≡ some second_feed
unfolding second first created
second_feeds = refl

second_taken : submit runtime 0 1 44 (signed 6) first ≡ (ok tt, second)
unfolding second first submit_to submit
second_taken = refl

first_taken : submit runtime 0 1 42 (signed 5) created ≡ (ok tt, first)
unfolding first created submit_to submit
first_taken = refl

-- Another oracle submits, and a block starts.
abbrev next_block : Chain Balances
next_block = record second { block_number = 2 }

first_to_next_block : Later runtime first next_block
first_to_next_block = called {s = first} {t = next_block} (Calls.submit 0 1 44) (signed 6) (
    subst (λ x. Later runtime x next_block)
      (sym (ap (λ (q : Outcome Unit × Chain Balances). q.1) second_taken))
      (elsewhere {s = second} {t = next_block} next_block refl now))

-- The first oracle again.
submit_once_example :
    (e : Error) × (submit runtime 0 1 45 (signed 5) next_block ≡ (failed e, next_block))
submit_once_example =
    submit_once runtime (λ id d s. refl) 0 1 1 42 45 5 created first next_block first_taken
      first_to_next_block (omega arith)

submit-no_panic_example : (submit runtime 0 1 44 (signed 7) second).0 ≢ panicked
submit-no_panic_example = submit-no_panic runtime 0 1 44 (signed 7) second

median_lem_example : (v : ℕ) × (median 255 (42 ∷ 44 ∷ []) ≡ some v) × (40 ≤ v) × (v ≤ 50)
median_lem_example =
    median_lem 255 40 50 (42 ∷ 44 ∷ []) (omega arith) (omega arith)
      (omega arith, omega arith, (omega arith, omega arith, tt))

-- Where the sum saturates, the median of two equal values is another one.
saturated : median 255 (200 ∷ 200 ∷ []) ≡ some 127
unfolding median sort_unstable
saturated = refl

second_reserve : reserve 99 3 second.world ≡ inr (2, 13)
unfolding second first created
second_reserve = refl

reduce_debt_lem_example :
    (debt : ℕ) × (reduce_debt runtime 0 3 (signed 8) second ≡ (
      ok tt,
      record second {
        world = (2, 13);
        feeds = put 0 (some (record second_feed { debt = debt })) second.feeds;
      },
    ))
    × (debt + to_reserve runtime 3 second_feed ≡ 10)
reduce_debt_lem_example =
    reduce_debt_lem runtime 0 3 8 second second_feed (2, 13) second_feeds second_reserve

set_pruning_window_lem_example :
    (c : FeedConfig) × (t : Chain Balances) × (set_pruning_window runtime 0 1 (signed 2) second
      ≡ (ok tt, t))
    × (t.feeds 0 ≡ some c)
    × PrunedTo runtime 0 (record second_feed { pruning_window = 1 }) c second t
set_pruning_window_lem_example =
    set_pruning_window_lem runtime 0 1 second second_feed second_feeds (omega arith) (omega arith)

-- The pallet has more reserved than it can pay out.
abbrev earned : OracleMeta
earned = record { withdrawable = 60; admin = 15; pending_admin = none }

abbrev rich : Chain Balances
rich = record genesis { oracles = λ a. some earned; world = (0, 70) }

withdraw_payment_failed_example :
    withdraw_payment runtime 5 20 60 (signed 15) rich
    ≡ (failed (foreign "LiquidityRestrictions"), record rich { world = (60, 10) })
withdraw_payment_failed_example =
    withdraw_payment_failed runtime 5 20 60 rich earned "LiquidityRestrictions" refl (omega arith)
      (omega arith) refl

abbrev paid_oracle : OracleMeta
paid_oracle = record { withdrawable = 10; admin = 15; pending_admin = none }

second_oracle : second.oracles 5 ≡ some paid_oracle
unfolding second first created
second_oracle = refl

handover_refines_example :
    (Implements
        (feed_post 0)
        second
        (offer 2 8 (record { holder = 2; candidate = none }))
        (transfer_ownership 0 8 (signed 2))
      × Implements
          (feed_post 0)
          second
          (take 2 (record { holder = 2; candidate = none }))
          (accept_ownership 0 (signed 2)))
    × (Implements
          (oracle_post 5)
          second
          (offer 2 8 (record { holder = 15; candidate = none }))
          (transfer_admin 5 8 (signed 2))
        × Implements
            (oracle_post 5)
            second
            (take 2 (record { holder = 15; candidate = none }))
            (accept_admin 5 (signed 2)))
    × (Implements pallet_post second
          (offer 2 8
            (record { holder = second.pallet_admin; candidate = second.pending_pallet_admin }))
          (transfer_pallet_admin 8 (signed 2))
        × Implements pallet_post second
            (take 2
              (record { holder = second.pallet_admin; candidate = second.pending_pallet_admin }))
            (accept_pallet_admin (signed 2)))
handover_refines_example =
    handover_refines 0 5 2 8 second second_feed paid_oracle second_feeds second_oracle
