-- ===== src/FeedPallet/Submit/Payment/Steps.antt =====
-- What the steps of a submission keep and pay in pallet-chainlink-feed/src/lib.rs, and who owes it.
use chainlink_polkadot.Prelude.{
  ◌≤◌, ◌+◌, ◌-◌, String, true, some, ◌⊎◌, inl, inr, ◌≡◌, refl, sym, ap, ◌∙◌, leb, ltb, subst,
  Bool-cases, Option-cases, length, arith,
}
use chainlink_polkadot.FeedPallet.Types
use chainlink_polkadot.FeedPallet.Types.{
  AccountId, FeedId, RoundId, Value, Balance, FeedConfig, Error, Round, RoundData, RoundDetails,
  OracleMeta, OracleStatus, Chain, Config, signed,
}
use chainlink_polkadot.FeedPallet.Effects.{Outcome, ok}
use chainlink_polkadot.FeedPallet.Effects.Inversion.{ok_pair, ok_or_ok}
use chainlink_polkadot.FeedPallet.Median.{median}
use chainlink_polkadot.FeedPallet.Feed.{load_from, prune_oldest}
use chainlink_polkadot.FeedPallet.Submit.{
  record_submission, update_answer, reserve_or_owe, reward, within_max_debt, answer_data,
}

-- The handler of answers leaves what the oracles have earned alone.
abbrev pub KeepsOracles : Config → Type 0
KeepsOracles T =
    (id : FeedId) (d : RoundData) (s : Chain T.World) → (T.on_answer id d s).oracles ≡ s.oracles

pub loaded :
    {World : Type 0} (id : FeedId) (s : Chain World) {feed : FeedConfig} {t : Chain World}
    → load_from id s ≡ (ok feed, t)
    → (s.feeds id ≡ some feed) × (s ≡ t)
unfolding load_from
loaded id s h = ok_or_ok Types.feed_not_found (s.feeds id) s h

module _ (T : Config) (id : FeedId) where
  -- The payment is reserved, and `after` is the chain with the reserve; or it is added to the debt,
  -- which stays within its limit.
  abbrev pub Paid : Balance → FeedConfig → FeedConfig → T.World → T.World → Type 0
  Paid payment before config w after =
      ((T.reserve T.fund payment w ≡ inr after) × (config.debt ≡ before.debt))
      ⊎ ((e : String) × (T.reserve T.fund payment w ≡ inl e)
          × (after ≡ w)
          × (config.debt ≡ before.debt + payment)
          × (within_max_debt T id config.debt before.max_debt ≡ true))

  pub reserve_or_owe-Paid :
      (payment : Balance) (c e : FeedConfig) (r : String ⊎ T.World) (s t : Chain T.World)
      → T.reserve T.fund payment s.world ≡ r
      → reserve_or_owe T id payment c r s ≡ (ok e, t)
      → Paid payment c e s.world t.world × (t.oracles ≡ s.oracles)
  reserve_or_owe-Paid payment c e (inr w) s t p h =
      let (same, moved) = ok_pair h in
      (
        inl (p ∙ ap (λ (x : Chain T.World). inr x.world) moved, sym (ap (λ x. x.debt) same)),
        sym (ap (λ (x : Chain T.World). x.oracles) moved),
      )
  reserve_or_owe-Paid payment c e (inl x) s t p h =
      elim (Bool-cases (leb (c.debt + payment) T.balance_max)) [
        | inr b ↦ cc (rw b at h)
        | inl b ↦ elim (Bool-cases (within_max_debt T id (c.debt + payment) c.max_debt)) [
          | inr m ↦ cc (rw (b, m) at h)
          | inl m ↦
              let (same, stays) = ok_pair (rw (b, m) at h) in
              let owed : e.debt ≡ c.debt + payment = sym (ap (λ (x : FeedConfig). x.debt) same) in
              (
                inr (x, p, sym (ap (λ (y : Chain T.World). y.world) stays), owed, rw owed m),
                sym (ap (λ (y : Chain T.World). y.oracles) stays),
              )
        ]
      ]

  pub reward_ok :
      (oracle : AccountId) (payment : Balance) (s t : Chain T.World)
      → reward T id oracle payment s ≡ (ok tt, t)
      → (meta : OracleMeta) × (s.oracles oracle ≡ some meta)
        × (meta.withdrawable + payment ≤ T.balance_max)
        × (t.oracles oracle ≡ some (record meta { withdrawable = meta.withdrawable + payment }))
        × (t.world ≡ s.world)
  unfolding reward
  reward_ok oracle payment s t h = elim (Option-cases (s.oracles oracle)) [
    | inl e ↦ cc (rw e at h)
    | inr (meta, e) ↦ elim (Bool-cases (leb (meta.withdrawable + payment) T.balance_max)) [
      | inr b ↦ cc (rw (e, b) at h)
      | inl b ↦
          let k = ok_pair (rw (e, b) at h) in
          (
            meta,
            e,
            ground arith,
            sym (ap (λ (x : Chain T.World). x.oracles oracle) k.1) ∙ ground arith,
            sym (ap (λ (x : Chain T.World). x.world) k.1),
          )
    ]
  ]

  -- The world after the answer of round `r` has been handled, if there is one.
  abbrev pub Notified : RoundId → T.World → T.World → Type 0
  Notified r before after =
      (after ≡ before)
      ⊎ ((d : RoundData) × (u : Chain T.World) × (d.answered_in_round ≡ r)
          × (u.world ≡ before)
          × (after ≡ (T.on_answer id d u).world))

  -- A step that ends in `c` and `u` keeps the debt, its limit, and what the oracles have earned;
  -- and the world is then `P`.
  abbrev pub Unpaid :
      (T.World → T.World → Type 0)
      → FeedConfig
      → FeedConfig
      → Chain T.World
      → Chain T.World
      → Type 0
  Unpaid P config c s u =
      (c.debt ≡ config.debt)
      × (c.max_debt ≡ config.max_debt)
      × (u.oracles ≡ s.oracles)
      × P s.world u.world

  abbrev pub Same : T.World → T.World → Type 0
  Same before after = after ≡ before

  pub unpaid :
      (P : T.World → T.World → Type 0) {A : Type 0} (f : A → FeedConfig) (config : FeedConfig)
      (s : Chain T.World) {a b : A} {t u : Chain T.World}
      → ◌≡◌ {A = Outcome A × Chain T.World} (ok a, t) (ok b, u)
      → Unpaid P config (f a) s t
      → Unpaid P config (f b) s u
  unpaid P f config s h (p, q, r, w) =
      let (same, moved) = ok_pair h in
      (
        sym (ap (λ x. (f x).debt) same) ∙ p,
        sym (ap (λ x. (f x).max_debt) same) ∙ q,
        sym (ap (λ (x : Chain T.World). x.oracles) moved) ∙ r,
        subst (λ (x : Chain T.World). P s.world x.world) moved w,
      )

  pub update_answer_ok :
      KeepsOracles T
      → (r : RoundId) (config c : FeedConfig) (d : RoundDetails) (s u : Chain T.World)
      → update_answer T id r config d s ≡ (ok c, u)
      → Unpaid (Notified r) config c s u
  unfolding update_answer prune_oldest
  update_answer_ok quiet r config c d s u h =
      elim (Bool-cases (leb d.submission_count_bounds.0 (length d.submissions))) [
        | inr b ↦ unpaid (Notified r) (λ x. x) config s (rw b at h) (refl, refl, refl, inl refl)
        | inl b ↦ elim (Option-cases (median T.value_max d.submissions)) [
          | inl e ↦ cc (rw (b, e) at h)
          | inr (v, e) ↦ elim (Option-cases (s.rounds id r)) [
            | inl f ↦ cc (rw (b, e, f) at h)
            | inr (round, f) ↦
                let quiet_at = quiet id (answer_data T id r round v s.block_number) in
                elim (Bool-cases (ltb 0 (r - 1))) [
                  | inl p ↦
                      elim (Bool-cases
                        (leb config.pruning_window (r - config.next_round_to_prune))) [
                          | inl q ↦
                              unpaid (Notified r) (λ x. x) config s (rw (b, e, f, p, q) at h)
                                (refl, refl, quiet_at _, inr (_, _, refl, refl, refl))
                          | inr q ↦
                              unpaid (Notified r) (λ x. x) config s (rw (b, e, f, p, q) at h)
                                (refl, refl, quiet_at _, inr (_, _, refl, refl, refl))
                        ]
                  | inr p ↦
                      elim (Bool-cases
                        (leb config.pruning_window (r - config.next_round_to_prune))) [
                          | inl q ↦
                              unpaid (Notified r) (λ x. x) config s (rw (b, e, f, p, q) at h)
                                (refl, refl, quiet_at _, inr (_, _, refl, refl, refl))
                          | inr q ↦
                              unpaid (Notified r) (λ x. x) config s (rw (b, e, f, p, q) at h)
                                (refl, refl, quiet_at _, inr (_, _, refl, refl, refl))
                        ]
                ]
          ]
        ]
      ]

  pub record_submission_ok :
      (r : RoundId) (v : Value) (oracle : AccountId) (status : OracleStatus) (s t : Chain T.World)
      (d : RoundDetails)
      → record_submission T id r v oracle status s ≡ (ok d, t)
      → (old : RoundDetails) × (s.details id r ≡ some old)
        × (d.payment ≡ old.payment)
        × (t.oracles ≡ s.oracles)
        × (t.world ≡ s.world)
  unfolding record_submission
  record_submission_ok r v oracle status s t d h = elim (Option-cases (s.details id r)) [
    | inl e ↦ cc (rw e at h)
    | inr (old, e) ↦
        let (same, moved) = ok_pair (rw e at h) in
        (
          old,
          e,
          sym (ap (λ (x : RoundDetails). x.payment) same),
          sym (ap (λ (x : Chain T.World). x.oracles) moved),
          sym (ap (λ (x : Chain T.World). x.world) moved),
        )
  ]
