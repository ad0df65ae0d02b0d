-- ===== src/FeedPallet/Interface.antt =====
-- `FeedInterface` of pallet-chainlink-feed/src/lib.rs, which other pallets read a feed through.
use chainlink_polkadot.Prelude.{ℕ, Option, none, some}
use chainlink_polkadot.FeedPallet.Types.{
  FeedId, RoundId, Balance, FeedConfig, Round, RoundData, Chain,
}

-- `RoundData::try_from`: all fields of a round have to be there.
unfoldable pub try_from : Round → Option RoundData
try_from r = filled r.answer r.updated_at r.answered_in_round
  where
    filled : Option ℕ → Option ℕ → Option ℕ → Option RoundData
    filled (some answer) (some updated_at) (some answered_in_round) = some (record {
      started_at = r.started_at;
      answer = answer;
      updated_at = updated_at;
      answered_in_round = answered_in_round;
    })
    filled none u a = none
    filled (some x) none a = none
    filled (some x) (some u) none = none

abbrev pub data_of : Option Round → Option RoundData
data_of none = none
data_of (some r) = try_from r

-- `RoundData::default`
abbrev pub default_data : RoundData
default_data = record { started_at = 0; answer = 0; updated_at = 0; answered_in_round = 0 }

abbrev pub or_default : Option RoundData → RoundData
or_default none = default_data
or_default (some d) = d

module _ {World : Type 0} (id : FeedId) where
  unfoldable pub data_at : RoundId → Chain World → Option RoundData
  unfolding try_from
  data_at round s = data_of (s.rounds id round)

  unfoldable pub latest_data : FeedConfig → Chain World → RoundData
  unfolding data_at
  latest_data config s = or_default (data_at config.latest_round s)

  unfoldable pub debt : Chain World → Option Balance
  debt s = debt_of (s.feeds id)
    where
      debt_of : Option FeedConfig → Option Balance
      debt_of none = none
      debt_of (some config) = some config.debt

  -- `feed` and `feed_mut` of the pallet, which differ in what the drop of the feed does.
  unfoldable pub feed : Chain World → Option FeedConfig
  feed s = s.feeds id

  unfoldable pub feed_mut : Chain World → Option FeedConfig
  feed_mut s = s.feeds id

-- The getters of a feed.
abbrev pub first_valid_round : FeedConfig → Option RoundId
first_valid_round config = config.first_valid_round

abbrev pub latest_round : FeedConfig → RoundId
latest_round config = config.latest_round

abbrev pub decimals : FeedConfig → ℕ
decimals config = config.decimals
