-- ===== src/Wallets/Index.antt =====
-- What the index test of the wallets lets through.
use chainlink_polkadot.Prelude.{
  ℕ, ◌≤◌, ◌<◌, ◌≡◌, ◌⊎◌, inl, inr, refl, none, some, List, length, get_elem?, get_elem?-eq-some,
  arith,
}
use chainlink_polkadot.Prelude.Int.{ℤ, pos, negsuc}
use chainlink_polkadot.Errors.{invalid_wallet_index}
use chainlink_polkadot.Program.{ok, fail, panicked}
use chainlink_polkadot.Wallets.{Wallets, wallet_slice_index_in_range, default, set_default, wallet}

lt_or_ge : (i n : ℕ) → (i < n) ⊎ (n ≤ i)
lt_or_ge i n = grind arith

module _ {ℓ} {A : Type ℓ} where
  -- The test admits the indices of the slice and every negative number.
  in_range_pos :
      (ws : List A) (i : ℕ) → i < length ws → wallet_slice_index_in_range ws (pos i) ≡ none
  unfolding wallet_slice_index_in_range
  in_range_pos ws i h = ground arith

  out_of_range :
      (ws : List A) (i : ℕ)
      → length ws ≤ i
      → wallet_slice_index_in_range ws (pos i) ≡ some invalid_wallet_index
  unfolding wallet_slice_index_in_range
  out_of_range ws i h = ground arith

  in_range_negative : (ws : List A) (i : ℕ) → wallet_slice_index_in_range ws (negsuc i) ≡ none
  unfolding wallet_slice_index_in_range
  in_range_negative ws i = ground arith

  test_cases :
      (ws : List A) (i : ℤ)
      → (wallet_slice_index_in_range ws i ≡ none)
        ⊎ (wallet_slice_index_in_range ws i ≡ some invalid_wallet_index)
  unfolding wallet_slice_index_in_range
  test_cases ws i = ground arith

  -- `Wallet(i)` gives the i-th wallet for an index of the slice.
  wallet_lem :
      (w : Wallets A) (i : ℕ)
      → i < length w.wallets
      → (a : A) × (get_elem? w.wallets i ≡ some a) × (wallet w (pos i) ≡ ok a)
  unfolding wallet
  wallet_lem w i h =
      let (a, e) = get_elem?-eq-some w.wallets i h in (a, e, rw (in_range_pos w.wallets i h, e))

  -- For an index past the end of the slice `Wallet` fails with the index error, and `SetDefault`
  -- fails with it and changes nothing.
  past_the_end :
      (w : Wallets A) (i : ℕ)
      → length w.wallets ≤ i
      → (wallet w (pos i) ≡ fail invalid_wallet_index)
        × (set_default w (pos i) ≡ (w, some invalid_wallet_index))
  unfolding wallet set_default
  past_the_end w i h = (rw (out_of_range w.wallets i h), rw (out_of_range w.wallets i h))

  -- The index test lets every negative number through: `Wallet` panics, while `SetDefault` succeeds
  -- and leaves wallets whose `Default` panics.
  pub negative_index :
      (w : Wallets A) (i : ℕ)
      → (wallet w (negsuc i) ≡ panicked)
        × ((set_default w (negsuc i)).1 ≡ none)
        × (default (set_default w (negsuc i)).0 ≡ panicked)
  unfolding wallet set_default default
  negative_index w i = ground arith

  -- For every number, `SetDefault` either returns nil and has only set the default, so that
  -- `Default` is now what `Wallet` gives for the number, also where that is a panic; or it changes
  -- nothing, and it and `Wallet` both fail with the index error.
  set_default_lem :
      (w : Wallets A) (i : ℤ)
      → ((set_default w i ≡ (record w { default_wallet = i }, none))
          × (default (set_default w i).0 ≡ wallet w i))
        ⊎ ((set_default w i ≡ (w, some invalid_wallet_index))
            × (wallet w i ≡ fail invalid_wallet_index))
  unfolding set_default default wallet
  set_default_lem w i = elim (test_cases w.wallets i) [
    | inl e ↦ inl (rw e (refl, refl))
    | inr e ↦ inr (rw e (refl, refl))
  ]

  -- The wallets have the default that they name.
  abbrev HasDefault : Wallets A → Type ℓ
  HasDefault w = (i : ℕ) × (a : A) × (w.default_wallet ≡ pos i) × (get_elem? w.wallets i ≡ some a)

  -- Where the default is a wallet, `Default` does not panic, and it stays so under `SetDefault` of
  -- any number that is not negative, whether that succeeds or fails.
  set_default-HasDefault :
      (w : Wallets A) (i : ℕ)
      → HasDefault w
      → HasDefault (set_default w (pos i)).0
        × ((a : A) × (default (set_default w (pos i)).0 ≡ ok a))
  unfolding set_default default
  set_default-HasDefault w i (j, a, e, g) = elim (lt_or_ge i (length w.wallets)) [
    | inl lt ↦
        let (b, f) = get_elem?-eq-some w.wallets i lt in
        rw (in_range_pos w.wallets i lt) ((i, b, refl, f), (b, rw f))
    | inr ge ↦ rw (out_of_range w.wallets i ge) ((j, a, e, g), (a, rw (e, g)))
  ]
