-- ===== src/FeedPallet/Owners.antt =====
-- The calls of pallet-chainlink-feed/src/lib.rs that change who may do what: the owner of a feed,
-- the admin of an oracle and of the pallet, the creators of feeds and the requesters of rounds.
pub mod Handover
use chainlink_polkadot.Prelude.{
  Bool, true, false, Option, none, some, is_some, ◌==◌, ltb, ◌||◌, not,
}
use chainlink_polkadot.FeedPallet.Types
use chainlink_polkadot.FeedPallet.Types.{
  AccountId, FeedId, RoundId, FeedConfig, OracleMeta, Requester, Chain, Config, Origin,
  owner_update_requested, owner_updated, oracle_admin_update_requested, oracle_admin_updated,
  pallet_admin_update_requested, pallet_admin_updated, feed_creator, feed_creator_removed,
  requester_permissions_set,
}
use chainlink_polkadot.FeedPallet.Effects.{
  M, ◌>>=◌, ◌>>◌, ok_or, get, modify, ensure, ensure_signed, deposit_event, map_or, checked_add,
  with_transaction_result,
}
use chainlink_polkadot.FeedPallet.Feed
use chainlink_polkadot.FeedPallet.Feed.{
  round_max, put, put_at, load_from, sync_to_storage, ensure_owner,
}
use chainlink_polkadot.FeedPallet.Submit.{or_zero}

-- `filter(|p| p == who).is_some()`
abbrev pub is_account : AccountId → Option AccountId → Bool
is_account who pending = map_or false (λ p. p == who) pending

-- The round that a requester has started stays.
abbrev pub with_delay : RoundId → Option Requester → Requester
with_delay delay none = record { delay = delay; last_started_round = none }
with_delay delay (some r) = record r { delay = delay }

module _ {World : Type 0} where
  module _ (feed_id : FeedId) where
    unfoldable pub transfer_ownership : AccountId → Origin → M World Unit
    unfolding load_from sync_to_storage
    transfer_ownership new_owner origin = do
      old_owner ← ensure_signed origin
      feed ← load_from feed_id
      ensure (feed.owner == old_owner) Types.not_feed_owner
      sync_to_storage feed_id (record feed { pending_owner = some new_owner })
      deposit_event (owner_update_requested feed_id old_owner new_owner)

    unfoldable pub accept_ownership : Origin → M World Unit
    unfolding load_from sync_to_storage
    accept_ownership origin = do
      new_owner ← ensure_signed origin
      feed ← load_from feed_id
      ensure (is_account new_owner feed.pending_owner) Types.not_pending_owner
      sync_to_storage feed_id (record feed { pending_owner = none; owner = new_owner })
      deposit_event (owner_updated feed_id new_owner)

    abbrev pub put_requester : AccountId → Option Requester → M World Unit
    put_requester who v = modify λ s. record s { requesters = put_at feed_id who v s.requesters }

    unfoldable pub set_requester : AccountId → RoundId → Origin → M World Unit
    unfolding load_from
    set_requester requester delay origin = do
      owner ← ensure_signed origin
      feed ← load_from feed_id
      ensure (feed.owner == owner) Types.not_feed_owner
      old ← get (λ s. s.requesters feed_id requester)
      put_requester requester (some (with_delay delay old))
      deposit_event (requester_permissions_set feed_id requester true delay)

    unfoldable pub remove_requester : AccountId → Origin → M World Unit
    unfolding load_from
    remove_requester requester origin = do
      owner ← ensure_signed origin
      feed ← load_from feed_id
      ensure (feed.owner == owner) Types.not_feed_owner
      old ← get (λ s. s.requesters feed_id requester)
      old ← ok_or Types.requester_not_found old
      put_requester requester none
      deposit_event (requester_permissions_set feed_id requester false old.delay)

  abbrev pub put_oracle : AccountId → OracleMeta → M World Unit
  put_oracle oracle v = modify λ s. record s { oracles = put oracle (some v) s.oracles }

  unfoldable pub transfer_admin : AccountId → AccountId → Origin → M World Unit
  transfer_admin oracle new_admin origin = do
    old_admin ← ensure_signed origin
    meta ← get (λ s. s.oracles oracle)
    meta ← ok_or Types.oracle_not_found meta
    ensure (meta.admin == old_admin) Types.not_admin
    put_oracle oracle (record meta { pending_admin = some new_admin })
    deposit_event (oracle_admin_update_requested oracle old_admin new_admin)

  unfoldable pub accept_admin : AccountId → Origin → M World Unit
  accept_admin oracle origin = do
    new_admin ← ensure_signed origin
    meta ← get (λ s. s.oracles oracle)
    meta ← ok_or Types.oracle_not_found meta
    ensure (is_account new_admin meta.pending_admin) Types.not_pending_admin
    put_oracle oracle (record meta { pending_admin = none; admin = new_admin })
    deposit_event (oracle_admin_updated oracle new_admin)

  abbrev pub ensure_pallet_admin : AccountId → M World Unit
  ensure_pallet_admin who s = ensure (s.pallet_admin == who) Types.not_pallet_admin s

  unfoldable pub transfer_pallet_admin : AccountId → Origin → M World Unit
  transfer_pallet_admin new_pallet_admin origin = do
    old_admin ← ensure_signed origin
    ensure_pallet_admin old_admin
    modify (λ s. record s { pending_pallet_admin = some new_pallet_admin })
    deposit_event (pallet_admin_update_requested old_admin new_pallet_admin)

  unfoldable pub accept_pallet_admin : Origin → M World Unit
  accept_pallet_admin origin = do
    new_pallet_admin ← ensure_signed origin
    pending ← get (λ s. s.pending_pallet_admin)
    ensure (is_account new_pallet_admin pending) Types.not_pending_pallet_admin
    modify (λ s. record s { pending_pallet_admin = none; pallet_admin = new_pallet_admin })
    deposit_event (pallet_admin_updated new_pallet_admin)

  unfoldable pub set_feed_creator : AccountId → Origin → M World Unit
  set_feed_creator new_creator origin = do
    admin ← ensure_signed origin
    ensure_pallet_admin admin
    modify (λ s. record s { feed_creators = put new_creator true s.feed_creators })
    deposit_event (feed_creator new_creator)

  unfoldable pub remove_feed_creator : AccountId → Origin → M World Unit
  remove_feed_creator creator origin = do
    admin ← ensure_signed origin
    ensure_pallet_admin admin
    modify (λ s. record s { feed_creators = put creator false s.feed_creators })
    deposit_event (feed_creator_removed creator)

module _ (T : Config) (feed_id : FeedId) where
  abbrev pub may_request : Requester → RoundId → RoundId → Bool
  may_request requester new_round next_allowed =
      not (is_some requester.last_started_round) || ltb next_allowed new_round

  unfoldable pub requested : AccountId → Requester → M T.World Unit
  unfolding load_from sync_to_storage Feed.request_new_round
  requested sender requester = do
    feed ← load_from feed_id
    new_round ← ok_or Types.overflow (checked_add round_max feed.reporting_round 1)
    next_allowed ←
        ok_or Types.overflow
          (checked_add round_max (or_zero requester.last_started_round) requester.delay)
    ensure (may_request requester new_round next_allowed) Types.cannot_request_round_yet
    put_requester feed_id sender (some (record requester { last_started_round = some new_round }))
    feed ← Feed.request_new_round T feed_id feed sender
    sync_to_storage feed_id feed

  unfoldable pub request_new_round : Origin → M T.World Unit
  unfolding with_transaction_result requested
  request_new_round origin = do
    sender ← ensure_signed origin
    requester ← get (λ s. s.requesters feed_id sender)
    requester ← ok_or Types.not_authorized_requester requester
    with_transaction_result (requested sender requester)
