-- ===== src/FeedPallet/Genesis.antt =====
-- What the genesis configuration of pallet-chainlink-feed/src/lib.rs writes.
use chainlink_polkadot.Prelude.{true, Option, none, some, List, [], ◌∷◌}
use chainlink_polkadot.FeedPallet.Types.{AccountId, Chain}
use chainlink_polkadot.FeedPallet.Feed.{put}

pub record GenesisConfig : Type 0 where
  pub pallet_admin : Option AccountId
  pub feed_creators : List AccountId

module _ {World : Type 0} where
  abbrev pub put_admin : Option AccountId → Chain World → Chain World
  put_admin none s = s
  put_admin (some admin) s = record s { pallet_admin = admin }

  unfoldable pub put_creators : List AccountId → Chain World → Chain World
  put_creators [] s = s
  put_creators (creator ∷ creators) s =
      put_creators creators (record s { feed_creators = put creator true s.feed_creators })

  unfoldable pub build : GenesisConfig → Chain World → Chain World
  unfolding put_creators
  build g s = put_creators g.feed_creators (put_admin g.pallet_admin s)
