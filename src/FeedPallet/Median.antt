-- ===== src/FeedPallet/Median.antt =====
-- `median` of pallet-chainlink-feed/src/utils.rs.
pub mod Bounds
use chainlink_polkadot.Prelude.{
  ℕ, ◌-◌, ◌/◌, ◌%◌, Option, none, some, List, [], ◌∷◌, length, get_elem?, ◌==◌, leb, if◌then◌else◌,
}
use chainlink_polkadot.FeedPallet.Types.{Value}
use chainlink_polkadot.FeedPallet.Effects.{saturating_add}

-- `sort_unstable`. Equal numbers cannot be told apart, so any way of sorting gives this list.
abbrev pub insert : Value → List Value → List Value
insert v [] = v ∷ []
insert v (x ∷ xs) = let rest = insert v xs in if leb v x then v ∷ x ∷ xs else x ∷ rest

unfoldable pub sort_unstable : List Value → List Value
sort_unstable [] = []
sort_unstable (x ∷ xs) = insert x (sort_unstable xs)

-- The sum of the two in the middle saturates at `last`.
abbrev pub middle : Value → Option Value → Option Value → Option Value
middle last (some a) (some b) = some (saturating_add last a b / 2)
middle last (some a) none = none
middle last none b = none

-- `none` is the panic of an index out of range.
abbrev pub median_of_sorted : Value → List Value → Option Value
median_of_sorted last numbers =
    let mid = length numbers / 2 in
    if length numbers % 2 == 0
    then middle last (get_elem? numbers (mid - 1)) (get_elem? numbers mid)
    else get_elem? numbers mid

unfoldable pub median : Value → List Value → Option Value
unfolding sort_unstable
median last numbers = median_of_sorted last (sort_unstable numbers)
