-- ===== src/FeedPallet/Calls/Once.antt =====
-- The order in which an oracle of pallet-chainlink-feed/src/lib.rs submits to rounds, over histories
-- of the chain.
use chainlink_polkadot.Prelude.{◌≤◌, ◌≡◌, refl}
use chainlink_polkadot.FeedPallet.Types.{
  AccountId, FeedId, RoundId, Value, Error, Chain, Config, Origin, signed, root, unsigned,
}
use chainlink_polkadot.FeedPallet.Effects.{ok, failed, with_transaction_result}
use chainlink_polkadot.FeedPallet.Submit.{submit, submitted}
use chainlink_polkadot.FeedPallet.Submit.Statuses.{KeepsStatuses}
use chainlink_polkadot.FeedPallet.Submit.Once.{submitted-Takes, submit-Takes, submit_refused}
use chainlink_polkadot.FeedPallet.Calls
use chainlink_polkadot.FeedPallet.Calls.{Call, dispatch, Later, now, called, elsewhere}
use chainlink_polkadot.FeedPallet.Calls.Statuses.{
  statuses, transfer_ownership-statuses, accept_ownership-statuses, set_requester-statuses,
  remove_requester-statuses, transfer_admin-statuses, accept_admin-statuses,
  transfer_pallet_admin-statuses, accept_pallet_admin-statuses, set_feed_creator-statuses,
  remove_feed_creator-statuses, withdraw_payment-statuses, withdraw_funds-statuses,
  reduce_debt-statuses, request_new_round-statuses, update_future_rounds-statuses,
  set_pruning_window-statuses,
}
use chainlink_polkadot.FeedPallet.Calls.Oracles.{
  Remembers, same-Remembers, then-Remembers, rollback-Remembers, Takes-Remembers, reported-Past,
}
use chainlink_polkadot.FeedPallet.Calls.Changes.{change_oracles-Remembers, create_feed-Remembers}

module _ (T : Config) (quiet : KeepsStatuses T) where
  submit-Remembers :
      (id : FeedId) (r : RoundId) (v : Value) (o : Origin) (s : Chain T.World)
      → Remembers (statuses s) (statuses (submit T id r v o s).1)
  unfolding submit with_transaction_result
  submit-Remembers id r v root s = same-Remembers refl
  submit-Remembers id r v unsigned s = same-Remembers refl
  submit-Remembers id r v (signed oracle) s =
      rollback-Remembers s (submitted T id r v oracle s) λ t p.
        Takes-Remembers T id r v oracle quiet s t (submitted-Takes T quiet id r v oracle s t p)

  dispatch-Remembers :
      (c : Call) (o : Origin) (s : Chain T.World)
      → Remembers (statuses s) (statuses (dispatch T c o s).1)
  dispatch-Remembers (Calls.submit id r v) o s = submit-Remembers id r v o s
  dispatch-Remembers
        (Calls.create_feed payment timeout values min decimals text delay oracles window debt) o s =
      create_feed-Remembers T payment timeout values min decimals text delay oracles debt window o s
  dispatch-Remembers (Calls.change_oracles id to_disable to_add) o s =
      change_oracles-Remembers T id to_disable to_add o s
  dispatch-Remembers (Calls.update_future_rounds id payment counts delay timeout) o s =
      same-Remembers (update_future_rounds-statuses T id payment counts delay timeout o s)
  dispatch-Remembers (Calls.set_pruning_window id window) o s =
      same-Remembers (set_pruning_window-statuses T id window o s)
  dispatch-Remembers (Calls.transfer_ownership id who) o s =
      same-Remembers (transfer_ownership-statuses id who o s)
  dispatch-Remembers (Calls.accept_ownership id) o s =
      same-Remembers (accept_ownership-statuses id o s)
  dispatch-Remembers (Calls.set_requester id who delay) o s =
      same-Remembers (set_requester-statuses id who delay o s)
  dispatch-Remembers (Calls.remove_requester id who) o s =
      same-Remembers (remove_requester-statuses id who o s)
  dispatch-Remembers (Calls.request_new_round id) o s =
      same-Remembers (request_new_round-statuses T id o s)
  dispatch-Remembers (Calls.transfer_admin oracle who) o s =
      same-Remembers (transfer_admin-statuses oracle who o s)
  dispatch-Remembers (Calls.accept_admin oracle) o s =
      same-Remembers (accept_admin-statuses oracle o s)
  dispatch-Remembers (Calls.transfer_pallet_admin who) o s =
      same-Remembers (transfer_pallet_admin-statuses who o s)
  dispatch-Remembers Calls.accept_pallet_admin o s =
      same-Remembers (accept_pallet_admin-statuses o s)
  dispatch-Remembers (Calls.set_feed_creator who) o s =
      same-Remembers (set_feed_creator-statuses who o s)
  dispatch-Remembers (Calls.remove_feed_creator who) o s =
      same-Remembers (remove_feed_creator-statuses who o s)
  dispatch-Remembers (Calls.withdraw_payment oracle to amount) o s =
      same-Remembers (withdraw_payment-statuses T oracle to amount o s)
  dispatch-Remembers (Calls.withdraw_funds to amount) o s =
      same-Remembers (withdraw_funds-statuses T to amount o s)
  dispatch-Remembers (Calls.reduce_debt id amount) o s =
      same-Remembers (reduce_debt-statuses T id amount o s)

  Later-Remembers : {s t : Chain T.World} → Later T s t → Remembers (statuses s) (statuses t)
  Later-Remembers now = same-Remembers refl
  Later-Remembers {s} (called c o h) = then-Remembers (dispatch-Remembers c o s) (Later-Remembers h)
  Later-Remembers (elsewhere u same h) = then-Remembers (same-Remembers same) (Later-Remembers h)

  -- If the handler of answers leaves the statuses of oracles alone, then an oracle submits to the
  -- rounds of a feed in ascending order, and to each at most once: once a submission of it has been
  -- taken, every later one of it to the same round or an earlier one fails and changes nothing,
  -- whatever calls of the pallet have been made in between, by whomever, and whatever else has
  -- happened that leaves the statuses alone.
  pub submit_once :
      (id : FeedId) (round_id earlier : RoundId) (submission other : Value) (oracle : AccountId)
      (s t u : Chain T.World)
      → submit T id round_id submission (signed oracle) s ≡ (ok tt, t)
      → Later T t u
      → earlier ≤ round_id
      → (e : Error) × (submit T id earlier other (signed oracle) u ≡ (failed e, u))
  submit_once id round_id earlier submission other oracle s t u h later l =
      let (status, found, (last, p, q)) = Later-Remembers later id oracle earlier (
        reported-Past T id round_id submission oracle earlier quiet s t l
          (submit-Takes T quiet id round_id submission oracle s t h)) in
      submit_refused T quiet id earlier other oracle u status last found p q
