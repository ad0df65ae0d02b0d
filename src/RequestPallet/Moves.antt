-- ===== src/RequestPallet/Moves.antt =====
-- Histories of pallet-chainlink/src/lib.rs: its calls, its hook and the start of a block.
use chainlink_polkadot.Prelude.{ℕ, String, List, [], ◌∷◌}
use chainlink_polkadot.RequestPallet.Runtime.{AccountId, Config, Origin}
use chainlink_polkadot.RequestPallet.Calls.{
  Storage, register_operator, unregister_operator, initiate_request, callback, on_finalize,
}

pub data Move (Callback : Type 0) : Type 0 where
  registers unregisters : Origin → Move Callback
  initiates : AccountId → String → ℕ → String → ℕ → Callback → Origin → Move Callback
  answers : ℕ → String → Origin → Move Callback
  finalizes begins : ℕ → Move Callback

module _ (T : Config) where
  unfoldable pub step : Move T.Callback → Storage T → Storage T
  unfolding register_operator unregister_operator initiate_request callback on_finalize
  step (registers o) s = (register_operator T o s).1
  step (unregisters o) s = (unregister_operator T o s).1
  step (initiates operator spec_index data_version payload fee c o) s =
      (initiate_request T operator spec_index data_version payload fee c o s).1
  step (answers id result o) s = (callback T id result o s).1
  step (finalizes n) s = on_finalize T n s
  step (begins n) s = record s { block_number = n }

  unfoldable pub run : List (Move T.Callback) → Storage T → Storage T
  unfolding step
  run [] s = s
  run (m ∷ moves) s = run moves (step m s)
