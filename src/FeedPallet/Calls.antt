-- ===== src/FeedPallet/Calls.antt =====
-- The calls of pallet-chainlink-feed/src/lib.rs as data, and the histories of the chain that they
-- and everything else make.
pub mod Statuses
pub mod Oracles
pub mod Changes
pub mod Once
use chainlink_polkadot.Prelude.{ℕ, Option, List, ◌≡◌}
use chainlink_polkadot.FeedPallet.Types.{
  AccountId, FeedId, RoundId, Balance, BlockNumber, Value, Chain, Config, Origin,
}
use chainlink_polkadot.FeedPallet.Effects.{M}
use chainlink_polkadot.FeedPallet.Submit
use chainlink_polkadot.FeedPallet.Owners
use chainlink_polkadot.FeedPallet.Funds
use chainlink_polkadot.FeedPallet.Feeds

pub data Call : Type 0 where
  submit : FeedId → RoundId → Value → Call
  create_feed :
      Balance
      → BlockNumber
      → Value × Value
      → ℕ
      → ℕ
      → List ℕ
      → RoundId
      → List (AccountId × AccountId)
      → Option RoundId
      → Option Balance
      → Call
  change_oracles : FeedId → List AccountId → List (AccountId × AccountId) → Call
  update_future_rounds : FeedId → Balance → ℕ × ℕ → RoundId → BlockNumber → Call
  set_pruning_window : FeedId → RoundId → Call
  transfer_ownership : FeedId → AccountId → Call
  accept_ownership : FeedId → Call
  set_requester : FeedId → AccountId → RoundId → Call
  remove_requester : FeedId → AccountId → Call
  request_new_round : FeedId → Call
  transfer_admin : AccountId → AccountId → Call
  accept_admin : AccountId → Call
  transfer_pallet_admin : AccountId → Call
  accept_pallet_admin : Call
  set_feed_creator : AccountId → Call
  remove_feed_creator : AccountId → Call
  withdraw_payment : AccountId → AccountId → Balance → Call
  withdraw_funds : AccountId → Balance → Call
  reduce_debt : FeedId → Balance → Call

module _ (T : Config) where
  abbrev pub dispatch : Call → Origin → M T.World Unit
  dispatch (submit id r v) = Submit.submit T id r v
  dispatch (create_feed payment timeout values min decimals text delay oracles window debt) =
      Feeds.create_feed T payment timeout values min decimals text delay oracles window debt
  dispatch (change_oracles id to_disable to_add) = Feeds.change_oracles T id to_disable to_add
  dispatch (update_future_rounds id payment counts delay timeout) =
      Feeds.update_future_rounds T id payment counts delay timeout
  dispatch (set_pruning_window id window) = Feeds.set_pruning_window T id window
  dispatch (transfer_ownership id who) = Owners.transfer_ownership id who
  dispatch (accept_ownership id) = Owners.accept_ownership id
  dispatch (set_requester id who delay) = Owners.set_requester id who delay
  dispatch (remove_requester id who) = Owners.remove_requester id who
  dispatch (request_new_round id) = Owners.request_new_round T id
  dispatch (transfer_admin oracle who) = Owners.transfer_admin oracle who
  dispatch (accept_admin oracle) = Owners.accept_admin oracle
  dispatch (transfer_pallet_admin who) = Owners.transfer_pallet_admin who
  dispatch accept_pallet_admin = Owners.accept_pallet_admin
  dispatch (set_feed_creator who) = Owners.set_feed_creator who
  dispatch (remove_feed_creator who) = Owners.remove_feed_creator who
  dispatch (withdraw_payment oracle to amount) = Funds.withdraw_payment T oracle to amount
  dispatch (withdraw_funds to amount) = Funds.withdraw_funds T to amount
  dispatch (reduce_debt id amount) = Funds.reduce_debt T id amount

  -- The chain `s` becomes `t`: by calls of the pallet, whoever makes them and however they end, and
  -- by whatever else the chain does, which leaves the statuses of oracles alone.
  pub data Later : Chain T.World → Chain T.World → Type 0 where
    now : {s : Chain T.World} → Later s s
    called : {s t : Chain T.World} (c : Call) (o : Origin) → Later (dispatch c o s).1 t → Later s t
    elsewhere :
        {s t : Chain T.World} (u : Chain T.World)
        → u.oracle_statuses ≡ s.oracle_statuses
        → Later u t
        → Later s t
