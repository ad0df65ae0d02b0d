-- ===== src/Ethereum/Wait/Progress.antt =====
-- That `WaitForTransaction` of ethereum.go comes to an end.
use chainlink_polkadot.Prelude.{
  ℕ, suc, ◌+◌, ◌≤◌, ◌≡◌, ap, inl, inr, true, false, Bool-cases, List, [], ◌∷◌, length, arith,
}
use chainlink_polkadot.Prelude.Int.{pos, ltb_ℤ, ◌≤ℤ◌}
use chainlink_polkadot.Program.{ok}
use chainlink_polkadot.Config.{NetworkConfig}
use chainlink_polkadot.Crypto.{Crypto}
use chainlink_polkadot.Node.{Node, Wake, sub_error, header, timer}
use chainlink_polkadot.Ethereum.Wait.{on_header, wait_loop}
use chainlink_polkadot.Ethereum.Wait.Result.{OnlyHeaders}

module _ {C : Crypto} (N : Node C) (cl : N.Client) (hash : N.Hash) (conf : NetworkConfig) where
  low_test :
      (k : ℕ)
      → ltb_ℤ (pos k) conf.minimum_confirmations ≡ true
      → ¬ (conf.minimum_confirmations ≤ℤ pos k)
  low_test k h l = ground arith

  -- The loop returns nil.
  abbrev pub Ends : ℕ → List Wake → N.World → Type 0
  Ends n ws w =
      (rest : List Wake) × (u : N.World) × (wait_loop N cl hash conf n ws w ≡ (ok tt, rest, u))

  enough_here :
      (n number : ℕ) (ws : List Wake) (w v : N.World)
      → on_header N cl hash number w ≡ (inr true, v)
      → ltb_ℤ (pos (suc n)) conf.minimum_confirmations ≡ false
      → Ends n (header number ∷ ws) w
  unfolding wait_loop
  enough_here n number ws w v e l = (ws, v, rw (e, l))

  one_more :
      (n number : ℕ) (ws : List Wake) (w v : N.World)
      → on_header N cl hash number w ≡ (inr true, v)
      → ltb_ℤ (pos (suc n)) conf.minimum_confirmations ≡ true
      → Ends (suc n) ws v
      → Ends n (header number ∷ ws) w
  unfolding wait_loop
  one_more n number ws w v e l (rest, u, h) = (rest, u, rw (e, l) h)

  with_world :
      (number : ℕ) (w : N.World)
      → (on_header N cl hash number w).0 ≡ inr true
      → (v : N.World) × (on_header N cl hash number w ≡ (inr true, v))
  with_world number w h = let (found, v) = on_header N cl hash number w in (v, ap (λ f. (f, v)) h)

  counted :
      (n : ℕ)
      → ((number : ℕ) (w : N.World) → (on_header N cl hash number w).0 ≡ inr true)
      → (ws : List Wake) (w : N.World) → OnlyHeaders ws
      → 1 ≤ length ws
      → conf.minimum_confirmations ≤ℤ pos (n + length ws)
      → Ends n ws w
  counted n confirming [] w only some_header enough = absurd (omega (arith, some_header))
  counted n confirming (sub_error x ∷ ws) w only some_header enough = absurd only
  counted n confirming (timer ∷ ws) w only some_header enough = absurd only
  counted n confirming (header number ∷ ws) w only some_header enough =
      let (v, e) = with_world number w (confirming number w) in
      elim (Bool-cases (ltb_ℤ (pos (suc n)) conf.minimum_confirmations)) [
        | inr met ↦ enough_here n number ws w v e met
        | inl low ↦ one_more n number ws w v e low (
            counted (suc n) confirming ws v only (ground (arith, low_test (suc n) low))
              (omega (arith, enough)))
      ]

  -- Where every header finds the transaction confirmed, a schedule of headers that is as long as
  -- the network's minimum of confirmations, and has one header at least, makes the loop return nil.
  pub wait_loop_returns :
      (ws : List Wake) (w : N.World)
      → ((number : ℕ) (v : N.World) → (on_header N cl hash number v).0 ≡ inr true)
      → OnlyHeaders ws
      → 1 ≤ length ws
      → conf.minimum_confirmations ≤ℤ pos (length ws)
      → Ends 0 ws w
  wait_loop_returns ws w confirming only some_header enough =
      counted 0 confirming ws w only some_header (omega (arith, enough))
