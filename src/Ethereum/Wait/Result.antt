-- ===== src/Ethereum/Wait/Result.antt =====
-- What a nil error of `WaitForTransaction` of ethereum.go says, and the whole call.
use chainlink_polkadot.Prelude.{
  ℕ, suc, ◌+◌, ◌≤◌, ◌≡◌, refl, ◌∙◌, sym, ap, subst, false, none, List, [], ◌∷◌, ◌++◌, length,
  length-append, arith,
}
use chainlink_polkadot.Prelude.Int.{pos, ltb_ℤ, ◌≤ℤ◌}
use chainlink_polkadot.Program.{Outcome, ok, ◌>>=◌, ◌>>◌}
use chainlink_polkadot.Config.{NetworkConfig}
use chainlink_polkadot.Crypto.{Crypto}
use chainlink_polkadot.Node.{Node, Wake, sub_error, header, timer}
use chainlink_polkadot.Network
use chainlink_polkadot.Ethereum.Defs.{State, EthereumClient}
use chainlink_polkadot.Ethereum.Wait.{wait_loop, unsubscribed, wait_for_transaction}
use chainlink_polkadot.Ethereum.Wait.Loop.{
  Waiting, here, pending, confirmed, Returns, closed, broken, met, lost, late_confirmed,
  late_pending, late_lost, Waiting-wait_loop, Run, returned, waits, run, Waiting-blocked,
}

-- The selects receive headers only.
abbrev pub OnlyHeaders : List Wake → Type 0
OnlyHeaders [] = Unit
OnlyHeaders (header number ∷ ws) = OnlyHeaders ws
OnlyHeaders (sub_error x ∷ ws) = ⊥
OnlyHeaders (timer ∷ ws) = ⊥

OnlyHeaders-last :
    (pre rest : List Wake) (wake : Wake)
    → OnlyHeaders (pre ++ wake ∷ rest)
    → OnlyHeaders (wake ∷ [])
OnlyHeaders-last [] rest (header number) h = tt
OnlyHeaders-last [] rest (sub_error x) h = h
OnlyHeaders-last [] rest timer h = h
OnlyHeaders-last (header number ∷ pre) rest wake h = OnlyHeaders-last pre rest wake h
OnlyHeaders-last (sub_error x ∷ pre) rest wake h = absurd h
OnlyHeaders-last (timer ∷ pre) rest wake h = absurd h

module _ {C : Crypto} (N : Node C) (cl : N.Client) (hash : N.Hash) (conf : NetworkConfig) where
  -- Each header brings one confirmation at most.
  Waiting-length :
      {n m : ℕ} {ws : List Wake} {w v : N.World}
      → Waiting N cl hash conf n m ws w v
      → m ≤ n + length ws
  Waiting-length here = omega arith
  Waiting-length (pending e h) = omega (arith, Waiting-length h)
  Waiting-length (confirmed e l h) = omega (arith, Waiting-length h)

  min-le :
      (k : ℕ)
      → ltb_ℤ (pos k) conf.minimum_confirmations ≡ false
      → conf.minimum_confirmations ≤ℤ pos k
  min-le k h = ground arith

  last_header :
      {m : ℕ} {wake : Wake} {v u : N.World}
      → OnlyHeaders (wake ∷ [])
      → Returns N cl hash conf m wake v (ok tt) u
      → conf.minimum_confirmations ≤ℤ pos (suc m)
  last_header h closed = absurd h
  last_header {m} h (met e l) = min-le (suc m) l
  last_header h (late_confirmed e) = absurd h

  enough :
      {m : ℕ} (pre rest : List Wake) {wake : Wake} (ws : List Wake) {w v u : N.World}
      → ws ≡ pre ++ wake ∷ rest
      → OnlyHeaders (pre ++ wake ∷ rest)
      → Waiting N cl hash conf 0 m pre w v
      → Returns N cl hash conf m wake v (ok tt) u
      → (k : ℕ) × (1 ≤ k) × (conf.minimum_confirmations ≤ℤ pos k) × (k + length rest ≤ length ws)
  enough {m} pre rest {wake} ws p only h last = (
    suc m,
    omega arith,
    last_header (OnlyHeaders-last pre rest wake only) last,
    omega (arith, Waiting-length h, ap length p, length-append {0} pre (wake ∷ rest)),
  )

  headers_of_run :
      (ws rest : List Wake) (w u : N.World)
      → OnlyHeaders ws
      → wait_loop N cl hash conf 0 ws w ≡ (ok tt, rest, u)
      → Run N cl hash conf 0 ws w
      → (k : ℕ) × (1 ≤ k) × (conf.minimum_confirmations ≤ℤ pos k) × (k + length rest ≤ length ws)
  headers_of_run ws rest w u only e (returned {m} {pre} rest' {wake} {v} {u = z} p h last) =
      let same = sym (Waiting-wait_loop N cl hash conf rest' h last) ∙ rw p at e in
      let r_ok = ap (λ t. t.0) same in
      rw (ap (λ t. t.1) same) at (
        enough pre rest' ws p (rw p at only) h
          (subst (λ r. Returns N cl hash conf m wake v r z) r_ok last))
  headers_of_run ws rest w u only e (waits h) = cc (sym (Waiting-blocked N cl hash conf h) ∙ e)

  -- Where the selects receive headers only, the loop returns nil no earlier than after as many
  -- headers as the network's minimum of confirmations, and never before the first header.
  pub wait_loop-headers :
      (ws rest : List Wake) (w u : N.World)
      → OnlyHeaders ws
      → wait_loop N cl hash conf 0 ws w ≡ (ok tt, rest, u)
      → (k : ℕ) × (1 ≤ k) × (conf.minimum_confirmations ≤ℤ pos k) × (k + length rest ≤ length ws)
  wait_loop-headers ws rest w u only e =
      headers_of_run ws rest w u only e (run N cl hash conf 0 ws w)

module _ {C : Crypto} (N : Node C) (e : EthereumClient N.Client) (hash : N.Hash) where
  Returns-unsubscribed :
      {conf : NetworkConfig} {m : ℕ} {wake : Wake} {v u : N.World} {r : Outcome (Unit {0})}
      (t : State N.World)
      → Returns N e.client hash conf m wake v r u
      → unsubscribed N e (r, t) ≡ (r, record t { world = N.unsubscribe e.client t.world })
  Returns-unsubscribed t closed = refl
  Returns-unsubscribed t broken = refl
  Returns-unsubscribed t (met e l) = refl
  Returns-unsubscribed t (lost e) = refl
  Returns-unsubscribed t (late_confirmed e) = refl
  Returns-unsubscribed t (late_pending e) = refl
  Returns-unsubscribed t (late_lost e) = refl

  -- The whole call, once the subscription stands: the headers that keep it waiting are worked off,
  -- the last round decides what it returns, the rest of the schedule is left, the network records
  -- are as before, and the subscription is given up also when the result is an error.
  pub wait_for_transaction_lem :
      (s : State N.World) {conf : NetworkConfig} {m : ℕ} {pre : List Wake} (rest : List Wake)
      {wake : Wake} {w v u : N.World} {r : Outcome (Unit {0})}
      → N.subscribe_new_head e.client s.world ≡ (none, w)
      → Network.config e.network s.heap ≡ ok conf
      → s.schedule ≡ pre ++ wake ∷ rest
      → Waiting N e.client hash conf 0 m pre w v
      → Returns N e.client hash conf m wake v r u
      → wait_for_transaction N e hash s
        ≡ (r, record s { world = N.unsubscribe e.client u; schedule = rest })
  unfolding ◌>>=◌ ◌>>◌ wait_for_transaction
  wait_for_transaction_lem s rest sub c p h last =
      rw (sub, c, p, Waiting-wait_loop N e.client hash _ rest h last) (Returns-unsubscribed _ last)
