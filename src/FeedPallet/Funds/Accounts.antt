-- ===== src/FeedPallet/Funds/Accounts.antt =====
-- What the calls of pallet-chainlink-feed/src/lib.rs that move funds do to the accounts.
use chainlink_polkadot.Prelude.{
  ◌+◌, ◌-◌, ◌≤◌, ◌≡◌, refl, String, true, some, inl, inr, ◌==◌, leb, arith,
}
use chainlink_polkadot.FeedPallet.Types.{
  AccountId, FeedId, Balance, FeedConfig, OracleMeta, Chain, Config, signed, foreign,
}
use chainlink_polkadot.FeedPallet.Effects.{ok, failed}
use chainlink_polkadot.FeedPallet.Feed.{put, load_from, sync_to_storage}
use chainlink_polkadot.FeedPallet.Funds.{to_reserve, reduced, reduce_debt, withdraw_payment}

module _ (T : Config) where
  -- Whoever signs the call: where the currency reserves the smaller of the amount and the debt, the
  -- debt goes down by what is reserved, and nothing else of the storage changes.
  pub reduce_debt_lem :
      (id : FeedId) (amount : Balance) (who : AccountId) (s : Chain T.World) (feed : FeedConfig)
      (w : T.World)
      → s.feeds id ≡ some feed
      → T.reserve T.fund (to_reserve T amount feed) s.world ≡ inr w
      → (debt : Balance) × (reduce_debt T id amount (signed who) s ≡ (
        ok tt,
        record s { world = w; feeds = put id (some (record feed { debt = debt })) s.feeds },
      ))
        × (debt + to_reserve T amount feed ≡ feed.debt)
  unfolding reduce_debt load_from reduced sync_to_storage
  reduce_debt_lem id amount who s feed w found reserved =
      (feed.debt - amount, rw (found, reserved) refl, ground arith)

  -- Where the admin of an oracle asks for no more than the oracle has earned and the pallet has
  -- reserved, but the transfer of the unreserved funds fails, the call fails and the funds stay
  -- unreserved; what the oracle can withdraw stays as it was.
  pub withdraw_payment_failed :
      (oracle recipient : AccountId) (amount : Balance) (s : Chain T.World) (meta : OracleMeta)
      (e : String)
      → s.oracles oracle ≡ some meta
      → amount ≤ meta.withdrawable
      → amount ≤ T.reserved_balance s.world T.fund
      → T.transfer T.fund recipient amount (T.unreserve T.fund amount s.world) ≡ inl e
      → withdraw_payment T oracle recipient amount (signed meta.admin) s
        ≡ (failed (foreign e), record s { world = T.unreserve T.fund amount s.world })
  unfolding withdraw_payment
  withdraw_payment_failed oracle recipient amount s meta e found earned reserved refused =
      let own : (meta.admin == meta.admin) ≡ true = ground arith in
      let a : leb amount meta.withdrawable ≡ true = ground arith in
      let b : leb amount (T.reserved_balance s.world T.fund) ≡ true = ground arith in
      rw (found, own, a, b, refused) refl
