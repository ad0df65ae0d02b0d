-- ===== src/FeedPallet/Effects/Inversion.antt =====
-- What a call that has ended well went through, for the effects of
-- pallet-chainlink-feed/src/lib.rs, and what a call keeps however it ends.
use chainlink_polkadot.Prelude.{Bool, true, false, Option, none, some, ◌≡◌, ◌≢◌, refl, ap, ◌∙◌}
use chainlink_polkadot.FeedPallet.Types.{Error, Chain}
use chainlink_polkadot.FeedPallet.Effects.{
  Outcome, ok, failed, panicked, M, proceed, ok_or, ensure, rollback,
}

pub ok_pair :
    {S A : Type 0} {a b : A} {s t : S}
    → ◌≡◌ {A = Outcome A × S} (ok a, s) (ok b, t)
    → (a ≡ b) × (s ≡ t)
ok_pair {a} h = (cc, ap (λ q. q.1) h)

module _ {S A B : Type 0} where
  pub proceed_ok :
      (r : Outcome A × S) (f : A → S → Outcome B × S) {b : B} {t : S}
      → proceed r f ≡ (ok b, t)
      → (a : A) × (u : S) × (r ≡ (ok a, u)) × (f a u ≡ (ok b, t))
  proceed_ok (ok a, u) f h = (a, u, refl, h)
  proceed_ok (failed e, u) f h = cc
  proceed_ok (panicked, u) f h = cc

  pub proceed-no_panic :
      (r : Outcome A × S) (f : A → S → Outcome B × S)
      → r.0 ≢ panicked
      → ((a : A) (u : S) → r ≡ (ok a, u) → (f a u).0 ≢ panicked)
      → (proceed r f).0 ≢ panicked
  proceed-no_panic (ok a, u) f n k = k a u refl
  proceed-no_panic (failed e, u) f n k = λ h. cc
  proceed-no_panic (panicked, u) f n k = λ h. n refl

module _ {World A : Type 0} where
  pub ok_or_ok :
      (e : Error) (o : Option A) (s : Chain World) {a : A} {t : Chain World}
      → ok_or e o s ≡ (ok a, t)
      → (o ≡ some a) × (s ≡ t)
  ok_or_ok e none s h = cc
  ok_or_ok e (some x) s h = (cc, ap (λ q. q.1) h)

  pub ok_or-no_panic : (e : Error) (o : Option A) (s : Chain World) → (ok_or e o s).0 ≢ panicked
  ok_or-no_panic e none s h = cc
  ok_or-no_panic e (some x) s h = cc

  pub rollback_ok :
      (s : Chain World) (r : Outcome A × Chain World) {a : A} {t : Chain World}
      → rollback s r ≡ (ok a, t)
      → r ≡ (ok a, t)
  rollback_ok s (ok x, u) h = h
  rollback_ok s (failed e, u) h = cc
  rollback_ok s (panicked, u) h = cc

module _ {World : Type 0} where
  pub ensure_ok :
      (b : Bool) (e : Error) (s : Chain World) {a : Unit} {t : Chain World}
      → ensure b e s ≡ (ok a, t)
      → (b ≡ true) × (s ≡ t)
  ensure_ok true e s h = (refl, ap (λ q. q.1) h)
  ensure_ok false e s h = cc

  pub ensure-no_panic : (b : Bool) (e : Error) (s : Chain World) → (ensure b e s).0 ≢ panicked
  ensure-no_panic true e s h = cc
  ensure-no_panic false e s h = cc

-- A part of the storage that stays however a call ends.
module _ {World X : Type 0} (view : Chain World → X) where
  abbrev pub Keeps : {A : Type 0} → M World A → Type 0
  Keeps m = (s : Chain World) → view (m s).1 ≡ view s

  pub proceed-Keeps :
      {A B : Type 0} (r : Outcome A × Chain World) (f : A → M World B) {s : Chain World}
      → view r.1 ≡ view s
      → ((a : A) → Keeps (f a))
      → view (proceed r f).1 ≡ view s
  proceed-Keeps (ok a, u) f p k = k a u ∙ p
  proceed-Keeps (failed e, u) f p k = p
  proceed-Keeps (panicked, u) f p k = p

  pub ok_or-Keeps : {A : Type 0} (e : Error) (o : Option A) → Keeps (ok_or e o)
  ok_or-Keeps e none s = refl
  ok_or-Keeps e (some a) s = refl

  pub ensure-Keeps : (b : Bool) (e : Error) → Keeps (ensure b e)
  ensure-Keeps true e s = refl
  ensure-Keeps false e s = refl
