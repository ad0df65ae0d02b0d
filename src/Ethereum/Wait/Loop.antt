-- ===== src/Ethereum/Wait/Loop.antt =====
-- When `WaitForTransaction` of ethereum.go returns, and with what.
use chainlink_polkadot.Prelude.{
  ℕ, suc, ◌≡◌, refl, ◌∙◌, ap, ◌⊎◌, inl, inr, Bool, true, false, Bool-cases, none, some, List, [],
  ◌∷◌, ◌++◌,
}
use chainlink_polkadot.Prelude.Int.{pos, ltb_ℤ}
use chainlink_polkadot.Errors.{Error, wait_timeout}
use chainlink_polkadot.Program.{Outcome, ok, fail, blocked}
use chainlink_polkadot.Config.{NetworkConfig}
use chainlink_polkadot.Crypto.{Crypto}
use chainlink_polkadot.Node.{Node, Wake, sub_error, header, timer}
use chainlink_polkadot.Ethereum.Wait.{is_tx_confirmed, on_header, wait_loop}

module _ {C : Crypto} (N : Node C) (cl : N.Client) (hash : N.Hash) (conf : NetworkConfig) where
  -- The loop has gone through these headers and waits on: it began with the first number of
  -- confirmations and has reached the second, and no header before the last brought enough.
  pub data Waiting : ℕ → ℕ → List Wake → N.World → N.World → Type 0 where
    here : {n : ℕ} {w : N.World} → Waiting n n [] w w
    pending :
        {n m number : ℕ} {ws : List Wake} {w v u : N.World}
        → on_header N cl hash number w ≡ (inr false, v)
        → Waiting n m ws v u
        → Waiting n m (header number ∷ ws) w u
    confirmed :
        {n m number : ℕ} {ws : List Wake} {w v u : N.World}
        → on_header N cl hash number w ≡ (inr true, v)
        → ltb_ℤ (pos (suc n)) conf.minimum_confirmations ≡ true
        → Waiting (suc n) m ws v u
        → Waiting n m (header number ∷ ws) w u

  -- The last round: what the select receives after n confirmations, and what is returned.
  pub data Returns (n : ℕ) : Wake → N.World → Outcome (Unit {0}) → N.World → Type 0 where
    closed : {w : N.World} → Returns n (sub_error none) w (ok tt) w
    broken : {x : Error} {w : N.World} → Returns n (sub_error (some x)) w (fail x) w
    met :
        {number : ℕ} {w v : N.World}
        → on_header N cl hash number w ≡ (inr true, v)
        → ltb_ℤ (pos (suc n)) conf.minimum_confirmations ≡ false
        → Returns n (header number) w (ok tt) v
    lost :
        {number : ℕ} {x : Error} {w v : N.World}
        → on_header N cl hash number w ≡ (inl x, v)
        → Returns n (header number) w (fail x) v
    late_confirmed :
        {w v : N.World} → is_tx_confirmed N cl hash w ≡ (inr true, v) → Returns n timer w (ok tt) v
    late_pending :
        {w v : N.World}
        → is_tx_confirmed N cl hash w ≡ (inr false, v)
        → Returns n timer w (fail (wait_timeout conf.timeout)) v
    late_lost :
        {x : Error} {w v : N.World}
        → is_tx_confirmed N cl hash w ≡ (inl x, v)
        → Returns n timer w (fail x) v

  module _ (n number : ℕ) (w : N.World) {v : N.World} (rest : List Wake) where
    wait_loop-pending :
        on_header N cl hash number w ≡ (inr false, v)
        → wait_loop N cl hash conf n (header number ∷ rest) w ≡ wait_loop N cl hash conf n rest v
    unfolding wait_loop
    wait_loop-pending e = rw e

    wait_loop-confirmed :
        on_header N cl hash number w ≡ (inr true, v)
        → ltb_ℤ (pos (suc n)) conf.minimum_confirmations ≡ true
        → wait_loop N cl hash conf n (header number ∷ rest) w
          ≡ wait_loop N cl hash conf (suc n) rest v
    unfolding wait_loop
    wait_loop-confirmed e h = rw (e, h)

  Returns-wait_loop :
      {n : ℕ} {wake : Wake} {w v : N.World} {r : Outcome (Unit {0})} (rest : List Wake)
      → Returns n wake w r v
      → wait_loop N cl hash conf n (wake ∷ rest) w ≡ (r, rest, v)
  unfolding wait_loop
  Returns-wait_loop rest closed = refl
  Returns-wait_loop rest broken = refl
  Returns-wait_loop rest (met e h) = rw (e, h)
  Returns-wait_loop rest (lost e) = rw e
  Returns-wait_loop rest (late_confirmed e) = rw e
  Returns-wait_loop rest (late_pending e) = rw e
  Returns-wait_loop rest (late_lost e) = rw e

  -- A schedule that is worked off as `Waiting` says, and goes on with a last round, makes the loop
  -- return what that round says, with the rest of the schedule left.
  pub Waiting-wait_loop :
      {n m : ℕ} {pre : List Wake} {wake : Wake} {w v u : N.World} {r : Outcome (Unit {0})}
      (rest : List Wake)
      → Waiting n m pre w v
      → Returns m wake v r u
      → wait_loop N cl hash conf n (pre ++ wake ∷ rest) w ≡ (r, rest, u)
  Waiting-wait_loop rest here last = Returns-wait_loop rest last
  Waiting-wait_loop rest (pending e h) last =
      wait_loop-pending _ _ _ _ e ∙ Waiting-wait_loop rest h last
  Waiting-wait_loop rest (confirmed e l h) last =
      wait_loop-confirmed _ _ _ _ e l ∙ Waiting-wait_loop rest h last

  -- How far a schedule takes the loop: to a last round, or to its end with the loop still waiting.
  pub data Run (n : ℕ) (ws : List Wake) (w : N.World) : Type 0 where
    returned :
        {m : ℕ} {pre : List Wake} (rest : List Wake) {wake : Wake} {v u : N.World}
        {r : Outcome (Unit {0})}
        → ws ≡ pre ++ wake ∷ rest
        → Waiting n m pre w v
        → Returns m wake v r u
        → Run n ws w
    waits : {m : ℕ} {v : N.World} → Waiting n m ws w v → Run n ws w

  Run-pending :
      {n number : ℕ} {ws : List Wake} {w v : N.World}
      → on_header N cl hash number w ≡ (inr false, v)
      → Run n ws v
      → Run n (header number ∷ ws) w
  Run-pending {number} e (returned rest p h last) =
      returned rest (ap (λ l. header number ∷ l) p) (pending e h) last
  Run-pending e (waits h) = waits (pending e h)

  Run-confirmed :
      {n number : ℕ} {ws : List Wake} {w v : N.World}
      → on_header N cl hash number w ≡ (inr true, v)
      → ltb_ℤ (pos (suc n)) conf.minimum_confirmations ≡ true
      → Run (suc n) ws v
      → Run n (header number ∷ ws) w
  Run-confirmed {number} e l (returned rest p h last) =
      returned rest (ap (λ l. header number ∷ l) p) (confirmed e l h) last
  Run-confirmed e l (waits h) = waits (confirmed e l h)

  run_header :
      (n number : ℕ) (ws : List Wake) (w : N.World) (found : Error ⊎ Bool) (v : N.World)
      → on_header N cl hash number w ≡ (found, v)
      → Run n ws v
      → Run (suc n) ws v
      → Run n (header number ∷ ws) w
  run_header n number ws w (inl x) v e a b = returned {pre = []} ws refl here (lost e)
  run_header n number ws w (inr false) v e a b = Run-pending e a
  run_header n number ws w (inr true) v e a b =
      elim (Bool-cases (ltb_ℤ (pos (suc n)) conf.minimum_confirmations)) [
        | inl low ↦ Run-confirmed e low b
        | inr enough ↦ returned {pre = []} ws refl here (met e enough)
      ]

  run_timer :
      (n : ℕ) (ws : List Wake) (w : N.World) (found : Error ⊎ Bool) (v : N.World)
      → is_tx_confirmed N cl hash w ≡ (found, v)
      → Run n (timer ∷ ws) w
  run_timer n ws w (inl x) v e = returned {pre = []} ws refl here (late_lost e)
  run_timer n ws w (inr false) v e = returned {pre = []} ws refl here (late_pending e)
  run_timer n ws w (inr true) v e = returned {pre = []} ws refl here (late_confirmed e)

  -- Every schedule is one or the other.
  pub run : (n : ℕ) (ws : List Wake) (w : N.World) → Run n ws w
  run n [] w = waits here
  run n (sub_error none ∷ ws) w = returned {pre = []} ws refl here closed
  run n (sub_error (some x) ∷ ws) w = returned {pre = []} ws refl here broken
  run n (timer ∷ ws) w =
      let (found, v) = is_tx_confirmed N cl hash w in run_timer n ws w found v refl
  run n (header number ∷ ws) w =
      let (found, v) = on_header N cl hash number w in
      run_header n number ws w found v refl (run n ws v) (run (suc n) ws v)

  -- A schedule that `Waiting` works off whole leaves the loop waiting.
  pub Waiting-blocked :
      {n m : ℕ} {ws : List Wake} {w v : N.World}
      → Waiting n m ws w v
      → wait_loop N cl hash conf n ws w ≡ (blocked, [], v)
  unfolding wait_loop
  Waiting-blocked here = refl
  Waiting-blocked (pending e h) = wait_loop-pending _ _ _ _ e ∙ Waiting-blocked h
  Waiting-blocked (confirmed e l h) = wait_loop-confirmed _ _ _ _ e l ∙ Waiting-blocked h
