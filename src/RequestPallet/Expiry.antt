-- ===== src/RequestPallet/Expiry.antt =====
-- Which requests `on_finalize` of pallet-chainlink/src/lib.rs removes.
use chainlink_polkadot.Prelude.{
  sym, ap, ◌++◌, ◌+◌, ◌%◌, ◌<◌, ◌≤◌, ◌⊎◌, ltb, true, Option-cases, ℕ, ◌≡◌, refl, ◌∙◌, subst, Bool,
  false, Bool-cases, ◌&&◌, ◌||◌, Option, none, some, List, [], ◌∷◌, inl, inr, ◌==◌, if◌then◌else◌,
  arith,
}
use chainlink_polkadot.RequestPallet.Runtime.{Event, kill_request, Request, Config, lookup}
use chainlink_polkadot.RequestPallet.Calls.{Storage, kill, expired, kill_expired, on_finalize}
use chainlink_polkadot.RequestPallet.Maps.{eq_of_test, lt_of_test, lookup-remove, Distinct}

module _ (T : Config) (n : ℕ) where
  -- An entry of this key among these has expired.
  abbrev killed : ℕ → List (ℕ × Request T.Callback) → Bool
  killed j [] = false
  killed j ((id, r) ∷ entries) = id == j && expired T n r || killed j entries

  lookup-kill_expired :
      (j : ℕ) (entries : List (ℕ × Request T.Callback)) (s : Storage T)
      → lookup j (kill_expired T n entries s).requests
        ≡ (if killed j entries then none else lookup j s.requests)
  unfolding kill_expired
  lookup-kill_expired j [] s = refl
  lookup-kill_expired j ((id, r) ∷ entries) s = elim (Bool-cases (expired T n r)) [
    | inl e ↦ rw (lookup-kill_expired j entries _, e, lookup-remove j id s.requests) (ground arith)
    | inr e ↦ rw (lookup-kill_expired j entries _, e) (ground arith)
  ]

  -- What is kept of the value of a key.
  abbrev unexpired : Option (Request T.Callback) → Option (Request T.Callback)
  unexpired none = none
  unexpired (some r) = if expired T n r then none else some r

  not_killed :
      (j : ℕ) (entries : List (ℕ × Request T.Callback))
      → lookup j entries ≡ none
      → killed j entries ≡ false
  unfolding lookup
  not_killed j [] h = refl
  not_killed j ((id, r) ∷ entries) h = ground (arith, not_killed j entries)

  killed-unexpired :
      (j : ℕ) (entries : List (ℕ × Request T.Callback))
      → Distinct entries
      → (if killed j entries then none else lookup j entries) ≡ unexpired (lookup j entries)
  unfolding lookup
  killed-unexpired j [] d = refl
  killed-unexpired j ((id, r) ∷ entries) (k, d) = elim (Bool-cases (id == j)) [
    | inl e ↦
        rw (e, not_killed j entries (subst (λ i. lookup i entries ≡ none) (eq_of_test id j e) k))
          (ground arith)
    | inr e ↦ rw e (killed-unexpired j entries d)
  ]

  -- What is stored of a request `r` by `o`: nothing if block `n` is past the block it was made in
  -- and the period of validity, in the arithmetic of block numbers, and `r` if not.
  abbrev pub Expires : Request T.Callback → Option (Request T.Callback) → Type 0
  Expires r o =
      (((r.block + T.validity_period) % T.block_modulus < n) × (o ≡ none))
      ⊎ ((n ≤ (r.block + T.validity_period) % T.block_modulus) × (o ≡ some r))

  unexpired-Expires : (r : Request T.Callback) → Expires r (unexpired (some r))
  unexpired-Expires r = elim (Bool-cases (expired T n r)) [
    | inl e ↦ rw e (inl (lt_of_test _ n e, refl))
    | inr e ↦ rw e (inr (ground arith, refl))
  ]

  -- The events of the removed entries.
  abbrev pub kill_events : List (ℕ × Request T.Callback) → List Event
  kill_events [] = []
  kill_events ((id, r) ∷ entries) =
      let rest = kill_events entries in
      if ltb ((r.block + T.validity_period) % T.block_modulus) n
      then kill_request id ∷ rest
      else rest

  -- All but the requests and the events stays.
  abbrev pub Else : Storage T → Storage T → Type 0
  Else s t =
      (t.operators ≡ s.operators)
      × (t.next_request_identifier ≡ s.next_request_identifier)
      × (t.block_number ≡ s.block_number)
      × (t.world ≡ s.world)

  Else-step :
      (b : Bool) (id : ℕ) (s t : Storage T) → Else (if b then kill T id s else s) t → Else s t
  Else-step true id s t h = h
  Else-step false id s t h = h

  pub kill_expired-Else :
      (entries : List (ℕ × Request T.Callback)) (s : Storage T)
      → Else s (kill_expired T n entries s)
  unfolding kill_expired
  kill_expired-Else [] s = (refl, refl, refl, refl)
  kill_expired-Else ((id, r) ∷ entries) s =
      let u = if expired T n r then kill T id s else s in
      Else-step (expired T n r) id s (kill_expired T n entries u) (kill_expired-Else entries u)

  append_assoc : (xs ys zs : List Event) → (xs ++ ys) ++ zs ≡ xs ++ (ys ++ zs)
  append_assoc [] ys zs = refl
  append_assoc (x ∷ xs) ys zs = ap (λ l. x ∷ l) (append_assoc xs ys zs)

  append_nil : (xs : List Event) → xs ≡ xs ++ []
  append_nil [] = refl
  append_nil (x ∷ xs) = ap (λ l. x ∷ l) (append_nil xs)

  events-step :
      (b : Bool) (id : ℕ) (rest : List Event) (s : Storage T)
      → (if b then kill T id s else s).events ++ rest
        ≡ s.events ++ (if b then kill_request id ∷ rest else rest)
  events-step true id rest s = append_assoc s.events (kill_request id ∷ []) rest
  events-step false id rest s = refl

  kill_expired-events :
      (entries : List (ℕ × Request T.Callback)) (s : Storage T)
      → (kill_expired T n entries s).events ≡ s.events ++ kill_events entries
  unfolding kill_expired
  kill_expired-events [] s = append_nil s.events
  kill_expired-events ((id, r) ∷ entries) s =
      kill_expired-events entries _ ∙ events-step (expired T n r) id (kill_events entries) s

  -- At the end of block `n`, where no identifier is stored twice: a request is removed if `n` is
  -- past the sum of its block and the period of validity, taken modulo the size of block numbers,
  -- and stays as it is if not. An event is added for each removed one, in the order of the storage.
  -- The operators, the next identifier, the block number and the rest of the chain stay, so that
  -- the fee of a removed request stays reserved.
  pub on_finalize_lem :
      (s : Storage T) (j : ℕ)
      → Distinct s.requests
      → (((lookup j s.requests ≡ none) × (lookup j (on_finalize T n s).requests ≡ none))
          ⊎ ((r : Request T.Callback) × (lookup j s.requests ≡ some r)
              × Expires r (lookup j (on_finalize T n s).requests)))
        × ((on_finalize T n s).events ≡ s.events ++ kill_events s.requests)
        × Else s (on_finalize T n s)
  unfolding on_finalize
  on_finalize_lem s j d =
      let kept = lookup-kill_expired j s.requests s ∙ killed-unexpired j s.requests d in
      (
        elim (Option-cases (lookup j s.requests)) [
          | inl e ↦ inl (e, kept ∙ ap unexpired e)
          | inr (r, e) ↦
              inr (r, e, subst (Expires r) (sym (kept ∙ ap unexpired e)) (unexpired-Expires r))
        ],
        kill_expired-events s.requests s,
        kill_expired-Else s.requests s,
      )
