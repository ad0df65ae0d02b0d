-- ===== src/FeedPallet/Funds.antt =====
-- The calls of pallet-chainlink-feed/src/lib.rs that move funds.
pub mod Accounts
use chainlink_polkadot.Prelude.{
  ℕ, ◌-◌, String, Option, none, some, ◌⊎◌, inl, inr, ◌==◌, leb, if◌then◌else◌,
}
use chainlink_polkadot.FeedPallet.Types
use chainlink_polkadot.FeedPallet.Types.{
  AccountId, FeedId, Balance, FeedConfig, OracleMeta, Chain, Config, Origin, foreign,
}
use chainlink_polkadot.FeedPallet.Effects.{
  Outcome, ok, failed, panicked, M, ◌>>=◌, ◌>>◌, pure, ok_or, get, modify, ensure, ensure_signed,
}
use chainlink_polkadot.FeedPallet.Feed.{load_from, sync_to_storage}
use chainlink_polkadot.FeedPallet.Owners.{put_oracle, ensure_pallet_admin}

abbrev pub checked_sub : ℕ → ℕ → Option ℕ
checked_sub m n = if leb n m then some (m - n) else none

module _ (T : Config) where
  -- A call of the currency that can fail.
  abbrev pub moved : String ⊎ T.World → M T.World Unit
  moved (inl e) s = (failed (foreign e), s)
  moved (inr w) s = (ok tt, record s { world = w })

  -- What is unreserved stays so where the transfer fails: the call is not in a transaction.
  unfoldable pub withdraw_payment : AccountId → AccountId → Balance → Origin → M T.World Unit
  withdraw_payment oracle recipient amount origin = do
    admin ← ensure_signed origin
    meta ← get (λ s. s.oracles oracle)
    meta ← ok_or Types.oracle_not_found meta
    ensure (meta.admin == admin) Types.not_admin
    withdrawable ← ok_or Types.insufficient_funds (checked_sub meta.withdrawable amount)
    reserved ← get (λ s. T.reserved_balance s.world T.fund)
    ensure (leb amount reserved) Types.insufficient_reserve
    modify (λ s. record s { world = T.unreserve T.fund amount s.world })
    transferred ← get (λ s. T.transfer T.fund recipient amount s.world)
    moved transferred
    put_oracle oracle (record meta { withdrawable = withdrawable })

  unfoldable pub withdraw_funds : AccountId → Balance → Origin → M T.World Unit
  withdraw_funds recipient amount origin = do
    sender ← ensure_signed origin
    ensure_pallet_admin sender
    balance ← get (λ s. T.free_balance s.world T.fund)
    new_reserve ← ok_or Types.insufficient_funds (checked_sub balance amount)
    ensure (leb T.minimum_reserve new_reserve) Types.insufficient_reserve
    transferred ← get (λ s. T.transfer T.fund recipient amount s.world)
    moved transferred

  abbrev pub to_reserve : Balance → FeedConfig → Balance
  to_reserve amount feed = if leb amount feed.debt then amount else feed.debt

  -- Where the reserve fails, the feed is dropped as it was loaded.
  unfoldable pub reduced : FeedId → Balance → FeedConfig → String ⊎ T.World → M T.World Unit
  unfolding sync_to_storage
  reduced id amount feed (inl e) = do sync_to_storage id feed; moved (inl e)
  reduced id amount feed (inr w) = do
    moved (inr w)
    sync_to_storage id (record feed { debt = feed.debt - amount })

  unfoldable pub reduce_debt : FeedId → Balance → Origin → M T.World Unit
  unfolding load_from reduced
  reduce_debt id amount origin = do
    ensure_signed origin
    feed ← load_from id
    reserved ← get (λ s. T.reserve T.fund (to_reserve amount feed) s.world)
    reduced id amount feed reserved
