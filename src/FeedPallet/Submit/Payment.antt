-- ===== src/FeedPallet/Submit/Payment.antt =====
-- What a submission earns in pallet-chainlink-feed/src/lib.rs, and who owes it.
pub mod Steps
pub mod Settling
pub mod Starting
use chainlink_polkadot.Prelude.{
  ℕ, ◌≤◌, ◌<◌, ◌+◌, ◌-◌, String, Bool, true, false, Option, none, some, List, ◌⊎◌, ◌≡◌, refl, ltb,
  ◌==◌, if◌then◌else◌, Bool-cases, Option-cases, is_some, length,
}
use chainlink_polkadot.FeedPallet.Types
use chainlink_polkadot.FeedPallet.Types.{
  AccountId, FeedId, RoundId, Balance, FeedConfig, Error, Round, RoundData, RoundDetails,
  OracleMeta, OracleStatus, Chain, Config,
}
use chainlink_polkadot.FeedPallet.Effects.{failed, panicked, M, map_or, rollback, checked_add}
use chainlink_polkadot.FeedPallet.Effects.Inversion.{ok_pair}
use chainlink_polkadot.FeedPallet.Median.{median}
use chainlink_polkadot.FeedPallet.Feed.{
  put, is_timed_out, sync_to_storage, initialize_round, close_timed_out_round, prune_oldest,
  prune_if,
}
use chainlink_polkadot.FeedPallet.Submit.{
  or_panic, or_zero, start_if, update_answer, answer_if, pay, reserve_or_owe, reward, keep_details,
  within_max_debt, close_previous, answered, answer_data,
}
use chainlink_polkadot.FeedPallet.Submit.Payment.Steps.{
  Notified, Paid, reserve_or_owe-Paid, reward_ok, update_answer_ok,
}
use chainlink_polkadot.FeedPallet.Submit.Payment.Starting.{starts}
use chainlink_polkadot.FeedPallet.Submit.Payment.Settling.{Earned}

module _ (T : Config) (id : FeedId) where
  -- What a submission to round `r` is paid: what the feed pays where the round starts here, else
  -- what the round has paid since it started.
  abbrev pub Due : Chain T.World → FeedConfig → OracleStatus → RoundId → Balance → Type 0
  Due s feed status r payment =
      ((starts T id feed status r ≡ true) × (payment ≡ feed.payment))
      ⊎ ((starts T id feed status r ≡ false)
          × ((old : RoundDetails) × (s.details id r ≡ some old) × (payment ≡ old.payment)))

  -- What a submission pays, and how.
  abbrev Settles :
      FeedConfig → OracleStatus → RoundId → AccountId → Chain T.World → Chain T.World → Type 0
  Settles feed status r oracle s t =
      (next : FeedConfig) × (payment : Balance) × (w : T.World) × (t.feeds id ≡ some next)
      × Due s feed status r payment
      × Notified T id r s.world w
      × Earned T id oracle payment s t
      × Paid T id payment feed next w t.world
