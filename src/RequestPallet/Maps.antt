-- ===== src/RequestPallet/Maps.antt =====
-- The storage maps of pallet-chainlink/src/lib.rs.
use chainlink_polkadot.Prelude.{
  ℕ, ◌<◌, ◌≡◌, true, Bool-cases, none, some, List, [], ◌∷◌, inl, inr, ◌==◌, ltb, if◌then◌else◌,
  arith,
}
use chainlink_polkadot.RequestPallet.Runtime.{lookup, remove, insert}

pub eq_of_test : (m n : ℕ) → (m == n) ≡ true → m ≡ n
eq_of_test m n h = ground arith

pub lt_of_test : (m n : ℕ) → ltb m n ≡ true → m < n
lt_of_test m n h = ground arith

module _ {V : Type 0} where
  pub lookup-remove :
      (j k : ℕ) (m : List (ℕ × V)) → lookup j (remove k m) ≡ (if k == j then none else lookup j m)
  unfolding lookup remove
  lookup-remove j k [] = ground arith
  lookup-remove j k ((i, v) ∷ m) = ground (arith, lookup-remove j k m)

  pub lookup-insert :
      (j k : ℕ) (v : V) (m : List (ℕ × V))
      → lookup j (insert k v m) ≡ (if k == j then some v else lookup j m)
  unfolding lookup insert
  lookup-insert j k v m = ground (arith, lookup-remove j k m)

  -- No key stands twice.
  abbrev pub Distinct : List (ℕ × V) → Type 0
  Distinct [] = Unit
  Distinct ((k, v) ∷ m) = (lookup k m ≡ none) × Distinct m

  pub remove-Distinct : (k : ℕ) (m : List (ℕ × V)) → Distinct m → Distinct (remove k m)
  unfolding remove
  remove-Distinct k [] d = tt
  remove-Distinct k ((j, v) ∷ m) (n, d) = elim (Bool-cases (j == k)) [
    | inl e ↦ rw e (remove-Distinct k m d)
    | inr e ↦ rw e (rw (lookup-remove j k m) (ground (arith, n)), remove-Distinct k m d)
  ]
