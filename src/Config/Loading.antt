-- ===== src/Config/Loading.antt =====
-- What loading a configuration (`NewWithPath` of config.go) does to the shared network records.
use chainlink_polkadot.Prelude.{
  ℕ, zero, suc, ◌<◌, ◌≡◌, refl, ◌∙◌, sym, ap, String, Bool, true, false, ◌||◌, Option, none, some,
  List, [], ◌∷◌, length, get_elem?, set, list_ext, length-set, get_elem?-eq-some, if◌then◌else◌,
  ◌==◌, arith,
}
use chainlink_polkadot.Prelude.Text.{lookup}
use chainlink_polkadot.Program.{ok}
use chainlink_polkadot.Config.{
  ConfigurationType, NetworkConfig, Heap, Viper, Decoded, new_private_key_store, assign_store,
  assign_stores, new_with_path, path_or_default,
}

-- The record that the loop leaves in place of `c`.
abbrev pub with_store : ConfigurationType → NetworkConfig → NetworkConfig
with_store t c = record c { private_key_store = new_private_key_store t c }

abbrev pub with_store? : ConfigurationType → Option NetworkConfig → Option NetworkConfig
with_store? t none = none
with_store? t (some c) = some (with_store t c)

-- Whether an entry of the map points to `p`.
abbrev pub mentions : ℕ → List (String × ℕ) → Bool
mentions p [] = false
mentions p ((_, q) ∷ ns) = q == p || mentions p ns

-- No pointer of the map is nil.
abbrev pub IsAllocated : Heap → List (String × ℕ) → Type 0
IsAllocated h [] = Unit
IsAllocated h ((_, q) ∷ ns) = (q < length h) × IsAllocated h ns

IsAllocated-length :
    (h k : Heap) (ns : List (String × ℕ))
    → length k ≡ length h
    → IsAllocated h ns
    → IsAllocated k ns
IsAllocated-length h k [] e a = tt
IsAllocated-length h k ((_, q) ∷ ns) e (l, a) = (omega arith, IsAllocated-length h k ns e a)

with_store-with_store :
    (t : ConfigurationType) (c : NetworkConfig) → with_store t (with_store t c) ≡ with_store t c
unfolding new_private_key_store
with_store-with_store t c = refl

with_store?-with_store? :
    (t : ConfigurationType) (o : Option NetworkConfig)
    → with_store? t (with_store? t o) ≡ with_store? t o
with_store?-with_store? t none = refl
with_store?-with_store? t (some c) = ap some (with_store-with_store t c)

set_store-get_elem? :
    (t : ConfigurationType) (h : Heap) (q p : ℕ) {c : NetworkConfig}
    → get_elem? h q ≡ some c
    → get_elem? (set h q (with_store t c)) p
      ≡ (if q == p then with_store? t (get_elem? h p) else get_elem? h p)
set_store-get_elem? t [] q p e = cc
set_store-get_elem? t (x ∷ h) zero zero e = cc
set_store-get_elem? t (x ∷ h) zero (suc p) e = ground arith
set_store-get_elem? t (x ∷ h) (suc q) zero e = ground arith
set_store-get_elem? t (x ∷ h) (suc q) (suc p) e = ground (arith, set_store-get_elem? t h q p e)

-- One round succeeds at an allocated pointer, and gives exactly that record its store.
assign_store_lem :
    (t : ConfigurationType) (q : ℕ) (h : Heap)
    → q < length h
    → (k : Heap) × (assign_store t q h ≡ ok k)
      × (length k ≡ length h)
      × ((p : ℕ)
          → get_elem? k p ≡ (if q == p then with_store? t (get_elem? h p) else get_elem? h p))
unfolding assign_store
assign_store_lem t q h l =
    let (c, e) = get_elem?-eq-some h q l in
    (
      set h q (with_store t c),
      rw e,
      length-set h q (with_store t c),
      λ p. set_store-get_elem? t h q p e,
    )

combine :
    (t : ConfigurationType) (a b : Bool) (o : Option NetworkConfig)
    → (if b
        then with_store? t (if a then with_store? t o else o)
        else if a
        then with_store? t o
        else o)
      ≡ (if a || b then with_store? t o else o)
combine t true true o = with_store?-with_store? t o
combine t true false o = refl
combine t false true o = refl
combine t false false o = refl

-- The loop succeeds when no pointer is nil. Then the records that the map points to have the store
-- of their type, all else is as before, and so it is for every order of the map's entries.
pub assign_stores_lem :
    (t : ConfigurationType) (ns : List (String × ℕ)) (h : Heap)
    → IsAllocated h ns
    → (k : Heap) × (assign_stores t ns h ≡ ok k)
      × ((p : ℕ)
          → get_elem? k p
            ≡ (if mentions p ns then with_store? t (get_elem? h p) else get_elem? h p))
unfolding assign_stores
assign_stores_lem t [] h a = (h, refl, λ p. refl)
assign_stores_lem t ((n, q) ∷ ns) h (l, a) =
    let (k, ek, lk, gk) = assign_store_lem t q h l in
    let (m, em, gm) = assign_stores_lem t ns k (IsAllocated-length h k ns lk a) in
    (m, rw ek em, λ p. gm p ∙ rw (gk p) (combine t (q == p) (mentions p ns) (get_elem? h p)))

-- The result of the loop over the map depends on which records the map points to, and not on the
-- order in which Go visits its entries: two maps with the same pointers, none of them nil, lead to
-- the same heap.
assign_stores_order :
    (t : ConfigurationType) (ns ms : List (String × ℕ)) (h : Heap)
    → IsAllocated h ns
    → IsAllocated h ms
    → ((p : ℕ) → mentions p ns ≡ mentions p ms)
    → assign_stores t ns h ≡ assign_stores t ms h
assign_stores_order t ns ms h a b same =
    let (k, ek, gk) = assign_stores_lem t ns h a in
    let (l, el, gl) = assign_stores_lem t ms h b in
    ek ∙ ap ok (list_ext k l (λ i. gk i ∙ rw (same i) (sym (gl i)))) ∙ sym el

lookup-mentions :
    (name : String) (ns : List (String × ℕ)) {p : ℕ}
    → lookup name ns ≡ some p
    → mentions p ns ≡ true
lookup-mentions name [] e = cc
lookup-mentions name ((j, q) ∷ ns) {p} e = ground (arith, lookup-mentions name ns {p = p})

-- A file that is read, and decodes to a map without nil pointers, loads. Each network of the
-- configuration is then the decoded record with the key store of the configuration's type, and the
-- error returned is that of the decoding.
pub new_with_path-lookup :
    (v : Viper) (t : ConfigurationType) (path name : String) (p : ℕ) (c : NetworkConfig)
    {d : Decoded}
    → v.read_in_config (path_or_default path) ≡ none
    → v.unmarshal (path_or_default path) ≡ d
    → IsAllocated d.heap d.conf.networks
    → lookup name d.conf.networks ≡ some p
    → get_elem? d.heap p ≡ some c
    → (h : Heap) × (new_with_path v t path ≡ ok (d.conf, h, d.error))
      × (get_elem? h p ≡ some (with_store t c))
unfolding new_with_path
new_with_path-lookup v t path name p c {d} r u a e g =
    let (h, eh, gh) = assign_stores_lem t d.conf.networks d.heap a in
    (h, rw (r, u, eh), gh p ∙ rw (lookup-mentions name d.conf.networks e, g))
