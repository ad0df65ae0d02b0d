-- ===== src/FeedPallet/Owners/Handover.antt =====
-- The three handovers of pallet-chainlink-feed/src/lib.rs, of a feed, an oracle and the pallet, and
-- the one abstract handover that they implement.
use chainlink_polkadot.Prelude.{
  ◌≡◌, refl, Bool-cases, Option, none, some, inl, inr, ◌==◌, if◌then◌else◌, arith,
}
use chainlink_polkadot.FeedPallet.Types
use chainlink_polkadot.FeedPallet.Types.{
  AccountId, FeedId, FeedConfig, OracleMeta, Error, Chain, signed,
}
use chainlink_polkadot.FeedPallet.Effects.{ok, failed, M}
use chainlink_polkadot.FeedPallet.Feed.{load_from, sync_to_storage}
use chainlink_polkadot.FeedPallet.Owners.{
  is_account, transfer_ownership, accept_ownership, transfer_admin, accept_admin,
  transfer_pallet_admin, accept_pallet_admin,
}

-- Who holds a post, and to whom it is offered.
pub record Post : Type 0 where
  pub holder : AccountId
  pub candidate : Option AccountId

-- The holder offers the post.
abbrev pub offer : AccountId → AccountId → Post → Option Post
offer who new p =
    if p.holder == who then some (record { holder = p.holder; candidate = some new }) else none

-- The candidate takes it.
abbrev pub take : AccountId → Post → Option Post
take who p =
    if is_account who p.candidate then some (record { holder = who; candidate = none }) else none

module _ {World : Type 0} where
  -- Where the step can be taken the call ends well and takes it; where it cannot, the call fails
  -- and changes nothing.
  abbrev pub Implements :
      (Chain World → Option Post) → Chain World → Option Post → M World Unit → Type 0
  Implements post s none call = (e : Error) × (call s ≡ (failed e, s))
  Implements post s (some q) call = (t : Chain World) × (call s ≡ (ok tt, t)) × (post t ≡ some q)

  abbrev pub feed_post : FeedId → Chain World → Option Post
  feed_post id s = of_feed (s.feeds id)
    where
      of_feed : Option FeedConfig → Option Post
      of_feed none = none
      of_feed (some f) = some (record { holder = f.owner; candidate = f.pending_owner })

  abbrev pub oracle_post : AccountId → Chain World → Option Post
  oracle_post oracle s = of_oracle (s.oracles oracle)
    where
      of_oracle : Option OracleMeta → Option Post
      of_oracle none = none
      of_oracle (some m) = some (record { holder = m.admin; candidate = m.pending_admin })

  abbrev pub pallet_post : Chain World → Option Post
  pallet_post s = some (record { holder = s.pallet_admin; candidate = s.pending_pallet_admin })

  feed_handover :
      (id : FeedId) (who new : AccountId) (s : Chain World) (f : FeedConfig)
      → s.feeds id ≡ some f
      → Implements
          (feed_post id)
          s
          (offer who new (record { holder = f.owner; candidate = f.pending_owner }))
          (transfer_ownership id new (signed who))
        × Implements
            (feed_post id)
            s
            (take who (record { holder = f.owner; candidate = f.pending_owner }))
            (accept_ownership id (signed who))
  unfolding transfer_ownership accept_ownership load_from sync_to_storage
  feed_handover id who new s f e = (
    elim (Bool-cases (f.owner == who)) [
      | inl b ↦
          rw b
            ((transfer_ownership id new (signed who) s).1, rw (e, b) refl, rw (e, b) (ground arith))
      | inr b ↦ rw b (Types.not_feed_owner, rw (e, b) refl)
    ],
    elim (Bool-cases (is_account who f.pending_owner)) [
      | inl b ↦
          rw b ((accept_ownership id (signed who) s).1, rw (e, b) refl, rw (e, b) (ground arith))
      | inr b ↦ rw b (Types.not_pending_owner, rw (e, b) refl)
    ],
  )

  oracle_handover :
      (oracle who new : AccountId) (s : Chain World) (m : OracleMeta)
      → s.oracles oracle ≡ some m
      → Implements
          (oracle_post oracle)
          s
          (offer who new (record { holder = m.admin; candidate = m.pending_admin }))
          (transfer_admin oracle new (signed who))
        × Implements
            (oracle_post oracle)
            s
            (take who (record { holder = m.admin; candidate = m.pending_admin }))
            (accept_admin oracle (signed who))
  unfolding transfer_admin accept_admin
  oracle_handover oracle who new s m e = (
    elim (Bool-cases (m.admin == who)) [
      | inl b ↦
          rw b
            ((transfer_admin oracle new (signed who) s).1, rw (e, b) refl, rw (e, b) (ground arith))
      | inr b ↦ rw b (Types.not_admin, rw (e, b) refl)
    ],
    elim (Bool-cases (is_account who m.pending_admin)) [
      | inl b ↦
          rw b ((accept_admin oracle (signed who) s).1, rw (e, b) refl, rw (e, b) (ground arith))
      | inr b ↦ rw b (Types.not_pending_admin, rw (e, b) refl)
    ],
  )

  pallet_handover :
      (who new : AccountId) (s : Chain World)
      → Implements pallet_post s
          (offer who new (record { holder = s.pallet_admin; candidate = s.pending_pallet_admin }))
          (transfer_pallet_admin new (signed who))
        × Implements pallet_post s
            (take who (record { holder = s.pallet_admin; candidate = s.pending_pallet_admin }))
            (accept_pallet_admin (signed who))
  unfolding transfer_pallet_admin accept_pallet_admin
  pallet_handover who new s = (
    elim (Bool-cases (s.pallet_admin == who)) [
      | inl b ↦ rw b ((transfer_pallet_admin new (signed who) s).1, rw b refl, rw b refl)
      | inr b ↦ rw b (Types.not_pallet_admin, rw b refl)
    ],
    elim (Bool-cases (is_account who s.pending_pallet_admin)) [
      | inl b ↦ rw b ((accept_pallet_admin (signed who) s).1, rw b refl, rw b refl)
      | inr b ↦ rw b (Types.not_pending_pallet_admin, rw b refl)
    ],
  )

  -- The owner of a feed, the admin of an oracle that is tracked and the admin of the pallet change
  -- hands in the same two steps: only the holder offers the post and only the one it was offered to
  -- last takes it. A call that cannot take its step fails and changes nothing.
  pub handover_refines :
      (id : FeedId) (oracle who new : AccountId) (s : Chain World) (f : FeedConfig) (m : OracleMeta)
      → s.feeds id ≡ some f
      → s.oracles oracle ≡ some m
      → (Implements
            (feed_post id)
            s
            (offer who new (record { holder = f.owner; candidate = f.pending_owner }))
            (transfer_ownership id new (signed who))
          × Implements
              (feed_post id)
              s
              (take who (record { holder = f.owner; candidate = f.pending_owner }))
              (accept_ownership id (signed who)))
        × (Implements
              (oracle_post oracle)
              s
              (offer who new (record { holder = m.admin; candidate = m.pending_admin }))
              (transfer_admin oracle new (signed who))
            × Implements
                (oracle_post oracle)
                s
                (take who (record { holder = m.admin; candidate = m.pending_admin }))
                (accept_admin oracle (signed who)))
        × (Implements pallet_post s
              (offer who new
                (record { holder = s.pallet_admin; candidate = s.pending_pallet_admin }))
              (transfer_pallet_admin new (signed who))
            × Implements pallet_post s
                (take who (record { holder = s.pallet_admin; candidate = s.pending_pallet_admin }))
                (accept_pallet_admin (signed who)))
  handover_refines id oracle who new s f m e g = (
    feed_handover id who new s f e,
    oracle_handover oracle who new s m g,
    pallet_handover who new s,
  )
