-- ===== src/FeedPallet/Median/Bounds.antt =====
-- Where the median of pallet-chainlink-feed/src/utils.rs lies.
use chainlink_polkadot.Prelude.{
  ℕ, suc, zero, ◌+◌, ◌-◌, ◌/◌, ◌%◌, ◌≤◌, ◌<◌, ◌≡◌, refl, ap, Bool-cases, true, inl, inr, some, List,
  [], ◌∷◌, length, get_elem?, get_elem?-eq-some, leb, ◌==◌, arith,
}
use chainlink_polkadot.FeedPallet.Types.{Value}
use chainlink_polkadot.FeedPallet.Effects.{saturating_add}
use chainlink_polkadot.FeedPallet.Median.{insert, sort_unstable, median_of_sorted, median}

-- All the numbers lie between `low` and `high`.
abbrev pub AllWithin : Value → Value → List Value → Type 0
AllWithin low high [] = Unit
AllWithin low high (x ∷ xs) = (low ≤ x) × (x ≤ high) × AllWithin low high xs

insert-AllWithin :
    (low high v : Value) (xs : List Value)
    → low ≤ v
    → v ≤ high
    → AllWithin low high xs
    → AllWithin low high (insert v xs)
insert-AllWithin low high v [] l h a = (l, h, a)
insert-AllWithin low high v (x ∷ xs) l h (p, q, a) = elim (Bool-cases (leb v x)) [
  | inl e ↦ rw e (l, h, (p, q, a))
  | inr e ↦ rw e (p, q, insert-AllWithin low high v xs l h a)
]

pub sort-AllWithin :
    (low high : Value) (xs : List Value)
    → AllWithin low high xs
    → AllWithin low high (sort_unstable xs)
unfolding sort_unstable
sort-AllWithin low high [] a = a
sort-AllWithin low high (x ∷ xs) (p, q, a) =
    insert-AllWithin low high x (sort_unstable xs) p q (sort-AllWithin low high xs a)

length-insert : (v : Value) (xs : List Value) → length (insert v xs) ≡ suc (length xs)
length-insert v [] = refl
length-insert v (x ∷ xs) = elim (Bool-cases (leb v x)) [
  | inl e ↦ rw e refl
  | inr e ↦ rw e (ap suc (length-insert v xs))
]

pub length-sort_unstable : (xs : List Value) → length (sort_unstable xs) ≡ length xs
unfolding sort_unstable
length-sort_unstable [] = refl
length-sort_unstable (x ∷ xs) =
    omega (arith, length-insert x (sort_unstable xs), length-sort_unstable xs)

within_at :
    (low high : Value) (xs : List Value) (i : ℕ) {v : Value}
    → AllWithin low high xs
    → get_elem? xs i ≡ some v
    → (low ≤ v) × (v ≤ high)
within_at low high [] i a e = cc
within_at low high (x ∷ xs) zero (p, q, a) e = ground (arith, p, q)
within_at low high (x ∷ xs) (suc i) (p, q, a) e = within_at low high xs i a e

-- The median of a list that is not empty exists, and lies between any bounds of the numbers.
pub median_of_sorted_lem :
    (last low high : Value) (xs : List Value)
    → 0 < length xs
    → high + high ≤ last
    → AllWithin low high xs
    → (v : Value) × (median_of_sorted last xs ≡ some v) × (low ≤ v) × (v ≤ high)
median_of_sorted_lem last low high xs pos h a = elim (Bool-cases (length xs % 2 == 0)) [
  | inr e ↦
      let (v, p) = get_elem?-eq-some xs (length xs / 2) (omega arith) in
      let (l, u) = within_at low high xs (length xs / 2) a p in rw e (v, p, l, u)
  | inl e ↦
      let (v, p) = get_elem?-eq-some xs (length xs / 2 - 1) (omega arith) in
      let (w, q) = get_elem?-eq-some xs (length xs / 2) (omega arith) in
      let (l, u) = within_at low high xs (length xs / 2 - 1) a p in
      let (m, k) = within_at low high xs (length xs / 2) a q in
      let fits : leb (v + w) last ≡ true = ground arith in
      rw (e, p, q, fits) ((v + w) / 2, refl, omega arith, omega arith)
]

-- The median of one submission or more exists, and lies between any two bounds between which they
-- all lie, if twice the upper one fits in the type of values: then the sum of the two submissions
-- in the middle does not saturate.
pub median_lem :
    (last low high : Value) (xs : List Value)
    → 0 < length xs
    → high + high ≤ last
    → AllWithin low high xs
    → (v : Value) × (median last xs ≡ some v) × (low ≤ v) × (v ≤ high)
unfolding median
median_lem last low high xs pos h a =
    median_of_sorted_lem last low high (sort_unstable xs) (omega (arith, length-sort_unstable xs)) h
      (sort-AllWithin low high xs a)

pub median-defined :
    (last : Value) (xs : List Value) → 0 < length xs → (v : Value) × (median last xs ≡ some v)
unfolding median
median-defined last xs pos =
    let n = length-sort_unstable xs in
    elim (Bool-cases (length (sort_unstable xs) % 2 == 0)) [
      | inr e ↦
          let (v, p) =
            get_elem?-eq-some (sort_unstable xs) (length (sort_unstable xs) / 2) (omega arith) in
          (v, rw e p)
      | inl e ↦
          let (v, p) =
            get_elem?-eq-some (sort_unstable xs) (length (sort_unstable xs) / 2 - 1)
              (omega arith) in
          let (w, q) =
            get_elem?-eq-some (sort_unstable xs) (length (sort_unstable xs) / 2) (omega arith) in
          (saturating_add last v w / 2, rw (e, p, q) refl)
    ]
