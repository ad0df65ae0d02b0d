-- ===== src/Program.antt =====
-- The effects of the Go code: a computation passes a state on and ends in an `Outcome`.
use chainlink_polkadot.Prelude.{Option, none, some}
use chainlink_polkadot.Errors.{Error}

-- How a call ends: with its results, with a non-nil error, by a run-time panic, or not yet, since
-- it waits on a channel.
pub data Outcome {ℓ} (A : Type ℓ) : Type ℓ where
  ok : A → Outcome A
  fail : Error → Outcome A
  panicked : Outcome A
  blocked : Outcome A

abbrev pub M : Type 0 → Type 0 → Type 0
M S A = S → Outcome A × S

module _ {S A B : Type 0} where
  abbrev pub proceed : Outcome A × S → (A → M S B) → Outcome B × S
  proceed (ok a, s) f = f a s
  proceed (fail e, s) f = (fail e, s)
  proceed (panicked, s) f = (panicked, s)
  proceed (blocked, s) f = (blocked, s)

  infixl 5 ◌>>=◌ ◌>>◌
  unfoldable pub ◌>>=◌ : M S A → (A → M S B) → M S B
  ◌>>=◌ m f s = proceed (m s) f

  unfoldable pub ◌>>◌ : M S A → M S B → M S B
  ◌>>◌ m k s = proceed (m s) (λ _. k)

module _ {S A : Type 0} where
  abbrev pub pure : A → M S A
  pure a s = (ok a, s)

  abbrev pub throw : Error → M S A
  throw e s = (fail e, s)

  abbrev pub panic : M S A
  panic s = (panicked, s)

  -- `if err != nil { return nil, err }`
  abbrev pub or_throw : Option Error → A → M S A
  or_throw none a s = (ok a, s)
  or_throw (some e) a s = (fail e, s)

-- A call with no state.
module _ {ℓ} {A : Type ℓ} {B : Type ℓ} where
  abbrev pub and_then : Outcome A → (A → Outcome B) → Outcome B
  and_then (ok a) f = f a
  and_then (fail e) f = fail e
  and_then panicked f = panicked
  and_then blocked f = blocked
