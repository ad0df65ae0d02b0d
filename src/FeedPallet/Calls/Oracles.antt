-- ===== src/FeedPallet/Calls/Oracles.antt =====
-- The parts of the calls of pallet-chainlink-feed/src/lib.rs that change the statuses of oracles, and
-- what a status remembers.
use chainlink_polkadot.Prelude.{
  ◌≤◌, true, false, Option, none, some, List, [], ◌∷◌, inl, inr, ◌≡◌, refl, sym, ap, subst, ◌∙◌,
  Bool-cases, ◌==◌, ltb, is_some, arith,
}
use chainlink_polkadot.FeedPallet.Types
use chainlink_polkadot.FeedPallet.Types.{
  AccountId, FeedId, RoundId, Balance, BlockNumber, Value, FeedConfig, OracleMeta, OracleStatus,
  Chain, Config, Origin, signed, root, unsigned,
}
use chainlink_polkadot.FeedPallet.Effects.{
  Outcome, ok, failed, panicked, ok_or, ensure, map_or, rollback,
}
use chainlink_polkadot.FeedPallet.Effects.Inversion.{
  ok_pair, proceed_ok, ok_or_ok, ensure_ok, Keeps,
}
use chainlink_polkadot.FeedPallet.Feed.{put_at}
use chainlink_polkadot.FeedPallet.Submit.Statuses.{KeepsStatuses}
use chainlink_polkadot.FeedPallet.Submit.Once.{Takes}
use chainlink_polkadot.FeedPallet.Feeds.{
  enabled, track_oracle, add_oracle, add_each, disable_oracle, disable_each,
}
use chainlink_polkadot.FeedPallet.Calls.Statuses.{statuses}

-- The oracle of this status has submitted to round `r` or to a later one.
abbrev pub Past : RoundId → Option OracleStatus → Type 0
Past r o =
    (status : OracleStatus) × (o ≡ some status)
    × ((last : RoundId) × (status.last_reported_round ≡ some last) × (r ≤ last))

abbrev Statuses : Type 0
Statuses = FeedId → AccountId → Option OracleStatus

-- What an oracle has submitted to in `m`, it has in `n`.
abbrev pub Remembers : Statuses → Statuses → Type 0
Remembers m n =
    (id : FeedId) (oracle : AccountId) (r : RoundId) → Past r (m id oracle) → Past r (n id oracle)

pub same-Remembers : {m n : Statuses} → n ≡ m → Remembers m n
same-Remembers {m} p = subst (Remembers m) (sym p) λ id oracle r h. h

pub then-Remembers : {m n k : Statuses} → Remembers m n → Remembers n k → Remembers m k
then-Remembers f g id oracle r h = g id oracle r (f id oracle r h)

put-Remembers :
    (id : FeedId) (oracle : AccountId) (status : OracleStatus) (m : Statuses)
    → ((r : RoundId) → Past r (m id oracle) → Past r (some status))
    → Remembers m (put_at id oracle (some status) m)
put-Remembers id oracle status m f i o r h = elim (Bool-cases (id == i)) [
  | inr b ↦ rw b h
  | inl b ↦ elim (Bool-cases (oracle == o)) [
    | inr c ↦ rw (b, c) h
    | inl c ↦
        let here : m i o ≡ m id oracle = ground arith in rw (b, c) (f r (subst (Past r) here h))
  ]
]

module _ {World : Type 0} where
  pub rollback-Remembers :
      (s : Chain World) (r : Outcome Unit × Chain World)
      → ((t : Chain World) → r ≡ (ok tt, t) → Remembers (statuses s) (statuses t))
      → Remembers (statuses s) (statuses (rollback s r).1)
  rollback-Remembers s (ok a, t) f = f t refl
  rollback-Remembers s (failed e, t) f = λ id oracle r h. h
  rollback-Remembers s (panicked, t) f = λ id oracle r h. h

  pub after :
      {A : Type 0} {r : Outcome A × Chain World} {a : A} {t : Chain World} {m : Statuses}
      → r ≡ (ok a, t)
      → statuses r.1 ≡ m
      → Remembers m (statuses t)
  after {A} p k = same-Remembers (sym (ap (λ (q : Outcome A × Chain World). statuses q.1) p) ∙ k)

module _ (T : Config) (id : FeedId) where
  pub Takes-Remembers :
      (r : RoundId) (v : Value) (oracle : AccountId) (quiet : KeepsStatuses T) (s t : Chain T.World)
      → Takes T quiet id r v oracle s t
      → Remembers (statuses s) (statuses t)
  Takes-Remembers r v oracle quiet s t (status, next, found, earlier, reported, now) =
      subst (Remembers (statuses s)) (sym now) (
        put-Remembers id oracle next (statuses s) λ q (old, had, (last, p, l)).
          let same : old ≡ status = cc in
          let known : status.last_reported_round ≡ some last =
            sym (ap (λ (x : OracleStatus). x.last_reported_round) same) ∙ p in
          let before : ltb last r ≡ true = rw known at earlier in
          (next, refl, (r, reported, ground arith)))

  pub reported-Past :
      (r : RoundId) (v : Value) (oracle : AccountId) (earlier : RoundId) (quiet : KeepsStatuses T)
      (s t : Chain T.World)
      → earlier ≤ r
      → Takes T quiet id r v oracle s t
      → Past earlier (t.oracle_statuses id oracle)
  reported-Past r v oracle earlier quiet s t l (status, next, found, before, reported, now) =
      (next, ap (λ f. f id oracle) now ∙ ground arith, (r, reported, l))

  track_oracle-statuses :
      (oracle admin : AccountId) (o : Option OracleMeta)
      → Keeps statuses (track_oracle T id oracle admin o)
  track_oracle-statuses oracle admin o s = ground arith

  enabled-Past :
      (reporting_round r : RoundId) (o : Option OracleStatus)
      → Past r o
      → Past r (some (enabled reporting_round o))
  enabled-Past reporting_round r none (status, had, rest) = cc
  enabled-Past reporting_round r (some old) (status, had, (last, p, l)) =
      let same : old ≡ status = cc in
      (_, refl, (last, ap (λ (x : OracleStatus). x.last_reported_round) same ∙ p, l))

  add_oracle-Remembers :
      (reporting_round : RoundId) (oracle admin : AccountId) (s t : Chain T.World)
      → add_oracle T id reporting_round oracle admin s ≡ (ok tt, t)
      → Remembers (statuses s) (statuses t)
  unfolding add_oracle
  add_oracle-Remembers reporting_round oracle admin s t h =
      let (_, s1, p1, h1) = proceed_ok (track_oracle T id oracle admin (s.oracles oracle) s) _ h in
      let (_, s2, p2, h2) =
        proceed_ok
          (ensure
            (map_or true (λ (o : OracleStatus). is_some o.ending_round)
              (s1.oracle_statuses id oracle))
            Types.already_enabled s1)
          _ h1 in
      let e2 : statuses s2 ≡ statuses s1 =
        sym (ap (λ (x : Chain T.World). statuses x) (ensure_ok _ _ s1 p2).1) in
      let stored = sym (ap (λ (x : Chain T.World). statuses x) (ok_pair h2).1) in
      then-Remembers (after p1 (track_oracle-statuses oracle admin (s.oracles oracle) s)) (
        then-Remembers
          (put-Remembers id oracle (enabled reporting_round (s1.oracle_statuses id oracle))
            (statuses s1) λ r. enabled-Past reporting_round r (s1.oracle_statuses id oracle))
          (same-Remembers (
            stored
            ∙ ap (put_at id oracle (some (enabled reporting_round (s1.oracle_statuses id oracle))))
                e2)))

  pub add_each-Remembers :
      (reporting_round : RoundId) (to_add : List (AccountId × AccountId)) (s t : Chain T.World)
      → add_each T id reporting_round to_add s ≡ (ok tt, t)
      → Remembers (statuses s) (statuses t)
  unfolding add_each
  add_each-Remembers reporting_round [] s t h =
      same-Remembers (sym (ap (λ (x : Chain T.World). statuses x) (ok_pair h).1))
  add_each-Remembers reporting_round ((oracle, admin) ∷ to_add) s t h =
      let (_, s1, p1, h1) = proceed_ok (add_oracle T id reporting_round oracle admin s) _ h in
      then-Remembers (add_oracle-Remembers reporting_round oracle admin s s1 p1)
        (add_each-Remembers reporting_round to_add s1 t h1)

  disabled-Past :
      (reporting_round r : RoundId) (status : OracleStatus)
      → Past r (some status)
      → Past r (some (record status { ending_round = some reporting_round }))
  disabled-Past reporting_round r status (old, had, (last, p, l)) =
      let same : status ≡ old = cc in
      (_, refl, (last, ap (λ (x : OracleStatus). x.last_reported_round) same ∙ p, l))

  disable_oracle-Remembers :
      (reporting_round : RoundId) (oracle : AccountId) (s t : Chain T.World)
      → disable_oracle T id reporting_round oracle s ≡ (ok tt, t)
      → Remembers (statuses s) (statuses t)
  unfolding disable_oracle
  disable_oracle-Remembers reporting_round oracle s t h =
      let (status, s1, p1, h1) =
        proceed_ok (ok_or Types.oracle_not_found (s.oracle_statuses id oracle) s) _ h in
      let (_, s2, p2, h2) =
        proceed_ok (ensure (map_or true (λ e. false) status.ending_round) Types.oracle_disabled s1)
          _ h1 in
      let (found, e1) = ok_or_ok _ _ s p1 in
      let e2 : statuses s2 ≡ statuses s =
        sym (ap (λ (x : Chain T.World). statuses x) (e1 ∙ (ensure_ok _ _ s1 p2).1)) in
      let next : OracleStatus = record status { ending_round = some reporting_round } in
      let stored = sym (ap (λ (x : Chain T.World). statuses x) (ok_pair h2).1) in
      then-Remembers
        (put-Remembers id oracle next (statuses s)
          λ r past. disabled-Past reporting_round r status (subst (Past r) found past))
        (same-Remembers (stored ∙ ap (put_at id oracle (some next)) e2))

  pub disable_each-Remembers :
      (reporting_round : RoundId) (to_disable : List AccountId) (s t : Chain T.World)
      → disable_each T id reporting_round to_disable s ≡ (ok tt, t)
      → Remembers (statuses s) (statuses t)
  unfolding disable_each
  disable_each-Remembers reporting_round [] s t h =
      same-Remembers (sym (ap (λ (x : Chain T.World). statuses x) (ok_pair h).1))
  disable_each-Remembers reporting_round (oracle ∷ to_disable) s t h =
      let (_, s1, p1, h1) = proceed_ok (disable_oracle T id reporting_round oracle s) _ h in
      then-Remembers (disable_oracle-Remembers reporting_round oracle s s1 p1)
        (disable_each-Remembers reporting_round to_disable s1 t h1)
