-- ===== src/FeedPallet/Effects.antt =====
-- The effects of pallet-chainlink-feed/src/lib.rs: a call passes the storage on and ends in an
-- `Outcome`.
pub mod Inversion
use chainlink_polkadot.Prelude.{
  ℕ, ◌+◌, Bool, true, false, Option, none, some, List, [], ◌∷◌, ◌++◌, leb, if◌then◌else◌,
}
use chainlink_polkadot.FeedPallet.Types.{
  AccountId, Event, Error, bad_origin, overflow, Chain, Origin, signed, root, unsigned,
}

pub data Outcome (A : Type 0) : Type 0 where
  ok : A → Outcome A
  failed : Error → Outcome A
  panicked : Outcome A

abbrev pub M : Type 0 → Type 0 → Type 0
M World A = Chain World → Outcome A × Chain World

module _ {S A B : Type 0} where
  abbrev pub proceed : Outcome A × S → (A → S → Outcome B × S) → Outcome B × S
  proceed (ok a, s) f = f a s
  proceed (failed e, s) f = (failed e, s)
  proceed (panicked, s) f = (panicked, s)

module _ {World A B : Type 0} where
  infixl 5 ◌>>=◌ ◌>>◌
  abbrev pub ◌>>=◌ : M World A → (A → M World B) → M World B
  ◌>>=◌ m f s = proceed (m s) f

  abbrev pub ◌>>◌ : M World A → M World B → M World B
  ◌>>◌ m k s = proceed (m s) (λ _. k)

module _ {World A : Type 0} where
  abbrev pub pure : A → M World A
  pure a s = (ok a, s)

  abbrev pub throw : Error → M World A
  throw e s = (failed e, s)

  -- `ok_or`
  abbrev pub ok_or : Error → Option A → M World A
  ok_or e none s = (failed e, s)
  ok_or e (some a) s = (ok a, s)

  -- What the storage holds.
  abbrev pub get : (Chain World → A) → M World A
  get f s = (ok (f s), s)

  abbrev pub rollback : Chain World → Outcome A × Chain World → Outcome A × Chain World
  rollback s (ok a, t) = (ok a, t)
  rollback s (failed e, t) = (failed e, s)
  rollback s (panicked, t) = (panicked, s)

  unfoldable pub with_transaction_result : M World A → M World A
  with_transaction_result f s = rollback s (f s)

module _ {World : Type 0} where
  abbrev pub modify : (Chain World → Chain World) → M World Unit
  modify f s = (ok tt, f s)

  abbrev pub ensure : Bool → Error → M World Unit
  ensure true e s = (ok tt, s)
  ensure false e s = (failed e, s)

  abbrev pub ensure_signed : Origin → M World AccountId
  ensure_signed (signed who) s = (ok who, s)
  ensure_signed root s = (failed bad_origin, s)
  ensure_signed unsigned s = (failed bad_origin, s)

  abbrev pub deposit_event : Event → M World Unit
  deposit_event e s = (ok tt, record s { events = s.events ++ e ∷ [] })

-- `checked_add` and `saturating_add` of a type whose last value is `last`.
abbrev pub checked_add : ℕ → ℕ → ℕ → Option ℕ
checked_add last m n = if leb (m + n) last then some (m + n) else none

abbrev pub saturating_add : ℕ → ℕ → ℕ → ℕ
saturating_add last m n = if leb (m + n) last then m + n else last

module _ {A B : Type 0} where
  -- `map(f).unwrap_or(b)`
  abbrev pub map_or : B → (A → B) → Option A → B
  map_or b f none = b
  map_or b f (some a) = f a
