-- ===== src/FeedPallet/Submit/Payment/Settling.antt =====
-- How a submission pays and is stored, from the answer on, in pallet-chainlink-feed/src/lib.rs.
use chainlink_polkadot.Prelude.{
  subst, ◌≤◌, ◌+◌, true, some, inl, inr, ◌≡◌, refl, sym, ap, ◌∙◌, arith,
}
use chainlink_polkadot.FeedPallet.Types.{
  AccountId, FeedId, RoundId, Balance, FeedConfig, RoundDetails, OracleMeta, Chain, Config,
}
use chainlink_polkadot.FeedPallet.Effects.{Outcome, ok}
use chainlink_polkadot.FeedPallet.Effects.Inversion.{ok_pair, proceed_ok}
use chainlink_polkadot.FeedPallet.Feed.{sync_to_storage, ensure_valid_round}
use chainlink_polkadot.FeedPallet.Submit.{
  settled, update_answer, pay, reward, keep_details, within_max_debt,
}
use chainlink_polkadot.FeedPallet.Submit.Payment.Steps.{
  Notified, KeepsOracles, Paid, reserve_or_owe-Paid, reward_ok, update_answer_ok,
}

module _ (T : Config) (id : FeedId) where
  pub ensure_valid_round_ok :
      (config : FeedConfig) (oracle : AccountId) (r : RoundId) (s : Chain T.World)
      → (ensure_valid_round T id config oracle r s).1 ≡ s
  unfolding ensure_valid_round
  ensure_valid_round_ok config oracle r s = ground arith

  keep_details_ok :
      (r : RoundId) (d : RoundDetails) (s : Chain T.World)
      → ((keep_details T id r d s).1.oracles ≡ s.oracles)
        × ((keep_details T id r d s).1.world ≡ s.world)
  unfolding keep_details
  keep_details_ok r d s = ground arith

  -- The payment is added to what the oracle can withdraw, without an overflow.
  abbrev pub Earned : AccountId → Balance → Chain T.World → Chain T.World → Type 0
  Earned oracle payment s t =
      (meta : OracleMeta) × (s.oracles oracle ≡ some meta)
      × (meta.withdrawable + payment ≤ T.balance_max)
      × (t.oracles oracle ≡ some (record meta { withdrawable = meta.withdrawable + payment }))

  pub Earned-before :
      (oracle : AccountId) (payment : Balance) (s u t : Chain T.World)
      → u.oracles ≡ s.oracles
      → Earned oracle payment u t
      → Earned oracle payment s t
  Earned-before oracle payment s u t same (meta, had, fits, has) =
      (meta, sym (ap (λ f. f oracle) same) ∙ had, fits, has)

  pub Paid-before :
      (payment : Balance) (before c next : FeedConfig) (w after : T.World)
      → c.debt ≡ before.debt
      → c.max_debt ≡ before.max_debt
      → Paid T id payment c next w after
      → Paid T id payment before next w after
  Paid-before payment before c next w after p q (inl (a, b)) = inl (a, b ∙ p)
  Paid-before payment before c next w after p q (inr (e, a, b, d, m)) = inr (
    e,
    a,
    b,
    d ∙ ap (λ x. x + payment) p,
    subst (λ x. within_max_debt T id next.debt x ≡ true) q m,
  )

  pay_ok :
      (payment : Balance) (c e : FeedConfig) (s t : Chain T.World)
      → pay T id payment c s ≡ (ok e, t)
      → Paid T id payment c e s.world t.world × (t.oracles ≡ s.oracles)
  unfolding pay
  pay_ok payment c e s t h =
      reserve_or_owe-Paid T id payment c e (T.reserve T.fund payment s.world) s t refl h

  stored :
      (r : RoundId) (d : RoundDetails) (e : FeedConfig) (s u t : Chain T.World)
      → keep_details T id r d s ≡ (ok tt, u)
      → sync_to_storage id e u ≡ (ok tt, t)
      → (t.feeds id ≡ some e) × (t.oracles ≡ s.oracles) × (t.world ≡ s.world)
  unfolding sync_to_storage
  stored r d e s u t p h =
      let synced = (ok_pair h).1 in
      let (o, w) = keep_details_ok r d s in
      (
        sym (ap (λ (x : Chain T.World). x.feeds id) synced) ∙ ground arith,
        sym (ap (λ (x : Chain T.World). x.oracles) synced)
            ∙ sym (ap (λ (q : Outcome Unit × Chain T.World). q.1.oracles) p)
            ∙ o,
        sym (ap (λ (x : Chain T.World). x.world) synced)
            ∙ sym (ap (λ (q : Outcome Unit × Chain T.World). q.1.world) p)
            ∙ w,
      )

  pub settled_ok :
      KeepsOracles T
      → (r : RoundId) (oracle : AccountId) (config : FeedConfig) (d : RoundDetails)
        (s t : Chain T.World)
      → settled T id r oracle config d s ≡ (ok tt, t)
      → (next : FeedConfig) × (w : T.World) × (t.feeds id ≡ some next)
        × Notified T id r s.world w
        × Earned oracle d.payment s t
        × Paid T id d.payment config next w t.world
  unfolding settled sync_to_storage
  settled_ok quiet r oracle config d s t h =
      let (c, s1, p1, h1) = proceed_ok (update_answer T id r config d s) _ h in
      let (e, s2, p2, h2) = proceed_ok (pay T id d.payment c s1) _ h1 in
      let (_, s3, p3, h3) = proceed_ok (reward T id oracle d.payment s2) _ h2 in
      let (_, s4, p4, h4) = proceed_ok (keep_details T id r d s3) _ h3 in
      let (debt, max, o1, notified) = update_answer_ok T id quiet r config c d s s1 p1 in
      let (paid, o2) = pay_ok d.payment c e s1 s2 p2 in
      let (meta, had, fits, has, same) = reward_ok T id oracle d.payment s2 s3 p3 in
      let (fed, o4, w4) = stored r d e s3 s4 t p4 h4 in
      (
        e,
        s1.world,
        fed,
        notified,
        (meta, sym (ap (λ f. f oracle) (o2 ∙ o1)) ∙ had, fits, ap (λ f. f oracle) o4 ∙ has),
        Paid-before d.payment config c e s1.world t.world debt max
            (subst (λ x. Paid T id d.payment c e s1.world x) (sym (w4 ∙ same)) paid),
      )
