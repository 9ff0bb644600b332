-- ===== src/Metrics/Percentile.antt =====
-- `percentile` of pkg/metrics/metrics.go. The index `int(float64(n-1) * p)` is a float computation:
-- it is a parameter, of which the proofs use that it does not pass n - 1.
use mathlib.Core.List.{Permᴰ}
use mathlib.Core.Logic.{∥∥₁_elim}
use native.Mathlib.Nat.{ℕ_set}
use firecracker_shim.Base.{
  ℕ, zero, suc, ◌+◌, ◌-◌, ◌≤◌, ◌<◌, ◌≡◌, refl, ◌∙◌, ap, List, [], ◌∷◌, arith, length, leb,
  if◌then◌else◌, All,
}
use firecracker_shim.Metrics.Sort.{
  get_or, insertion_sort, Sorted, insertion_sort-Sorted, insertion_sort-perm,
}

-- The index for a slice of n values is given by `index (n - 1)`.
unfoldable pub percentile : (ℕ → ℕ) → List ℕ → ℕ
percentile index [] = 0
percentile index (x ∷ xs) = get_or (insertion_sort (x ∷ xs)) (index (length (x ∷ xs) - 1)) 0

-- How many values of a slice are at most `v`, and at least `v`.
unfoldable pub at_most : ℕ → List ℕ → ℕ
at_most v [] = 0
at_most v (x ∷ xs) = (if leb x v then 1 else 0) + at_most v xs

unfoldable pub at_least : ℕ → List ℕ → ℕ
at_least v [] = 0
at_least v (x ∷ xs) = (if leb v x then 1 else 0) + at_least v xs

at_most-permᴰ : (v : ℕ) {xs ys : List ℕ} → Permᴰ xs ys → at_most v xs ≡ at_most v ys
unfolding at_most
at_most-permᴰ v Permᴰ.nil = refl
at_most-permᴰ v (Permᴰ.cons e p) = rw (e, at_most-permᴰ v p) refl
at_most-permᴰ v (Permᴰ.swap e d) = rw (e, d) (omega arith)
at_most-permᴰ v (Permᴰ.trans p q) = at_most-permᴰ v p ∙ at_most-permᴰ v q

at_least-permᴰ : (v : ℕ) {xs ys : List ℕ} → Permᴰ xs ys → at_least v xs ≡ at_least v ys
unfolding at_least
at_least-permᴰ v Permᴰ.nil = refl
at_least-permᴰ v (Permᴰ.cons e p) = rw (e, at_least-permᴰ v p) refl
at_least-permᴰ v (Permᴰ.swap e d) = rw (e, d) (omega arith)
at_least-permᴰ v (Permᴰ.trans p q) = at_least-permᴰ v p ∙ at_least-permᴰ v q

length-permᴰ : {xs ys : List ℕ} → Permᴰ xs ys → length xs ≡ length ys
length-permᴰ Permᴰ.nil = refl
length-permᴰ (Permᴰ.cons e p) = omega (arith, length-permᴰ p)
length-permᴰ (Permᴰ.swap e d) = refl
length-permᴰ (Permᴰ.trans p q) = length-permᴰ p ∙ length-permᴰ q

at_least-All : (v : ℕ) (xs : List ℕ) → All (λ y. v ≤ y) xs → at_least v xs ≡ length xs
unfolding at_least
at_least-All v [] a = refl
at_least-All v (x ∷ xs) a = ground (arith, a.0, at_least-All v xs a.1)

All-get_or : (x : ℕ) (xs : List ℕ) (i : ℕ) → All (λ y. x ≤ y) xs → i < length xs → x ≤ get_or xs i 0
All-get_or x [] i a h = absurd (omega arith)
All-get_or x (y ∷ ys) zero a h = a.0
All-get_or x (y ∷ ys) (suc i) a h = All-get_or x ys i a.1 (omega arith)

-- In a sorted slice, the element at an index has its rank from below and from above.
Sorted-rank :
    (xs : List ℕ) (i : ℕ)
    → Sorted xs
    → i < length xs
    → (suc i ≤ at_most (get_or xs i 0) xs) × (length xs - i ≤ at_least (get_or xs i 0) xs)
unfolding at_most at_least
Sorted-rank [] i s h = absurd (omega arith)
Sorted-rank (x ∷ xs) zero s h =
    let all = at_least-All x xs s.0 in (ground arith, ground (arith, all))
Sorted-rank (x ∷ xs) (suc i) s h =
    let rest = Sorted-rank xs i s.1 (omega arith) in
    let above = All-get_or x xs i s.0 (omega arith) in
    (ground (arith, rest.0, above), ground (arith, rest.1))

Sorted-mono :
    (xs : List ℕ) (i j : ℕ) → Sorted xs → i ≤ j → j < length xs → get_or xs i 0 ≤ get_or xs j 0
Sorted-mono [] i j s le h = absurd (omega arith)
Sorted-mono (x ∷ xs) zero zero s le h = omega arith
Sorted-mono (x ∷ xs) zero (suc j) s le h = All-get_or x xs j s.0 (omega arith)
Sorted-mono (x ∷ xs) (suc i) zero s le h = absurd (omega arith)
Sorted-mono (x ∷ xs) (suc i) (suc j) s le h = Sorted-mono xs i j s.1 (omega arith) (omega arith)

length-insertion_sort : (a : List ℕ) → length (insertion_sort a) ≡ length a
length-insertion_sort a = ∥∥₁_elim (insertion_sort-perm a) (ℕ_set _ _) length-permᴰ

percentile-cons :
    (index : ℕ → ℕ) (x : ℕ) (xs : List ℕ)
    → percentile index (x ∷ xs) ≡ get_or (insertion_sort (x ∷ xs)) (index (length xs)) 0
unfolding percentile
percentile-cons index x xs = ap (λ n. get_or (insertion_sort (x ∷ xs)) (index n) 0) (omega arith)

-- For a slice x ∷ xs of n values and an index function that stays within the slice, `percentile`
-- returns the value of that rank: more than `index (n - 1)` of the values are at most the result, and
-- at least n - index (n - 1) of them are at least the result.
pub percentile_rank :
    (index : ℕ → ℕ) (x : ℕ) (xs : List ℕ)
    → ((n : ℕ) → index n ≤ n)
    → (suc (index (length xs)) ≤ at_most (percentile index (x ∷ xs)) (x ∷ xs))
      × (suc (length xs) - index (length xs) ≤ at_least (percentile index (x ∷ xs)) (x ∷ xs))
percentile_rank index x xs bound =
    let a = x ∷ xs in
    let i = index (length xs) in
    let v = get_or (insertion_sort a) i 0 in
    let size = length-insertion_sort a in
    let here : i < length (insertion_sort a) = omega (arith, bound (length xs), size) in
    let rank = Sorted-rank (insertion_sort a) i (insertion_sort-Sorted a) here in
    let below : at_most v (insertion_sort a) ≡ at_most v a =
      ∥∥₁_elim (insertion_sort-perm a) (ℕ_set _ _) (at_most-permᴰ v) in
    let above : at_least v (insertion_sort a) ≡ at_least v a =
      ∥∥₁_elim (insertion_sort-perm a) (ℕ_set _ _) (at_least-permᴰ v) in
    rw (percentile-cons index x xs)
      (omega (arith, rank.0, below), omega (arith, rank.1, above, size))

-- Percentiles are monotone: of two index functions that stay within the slice, of which the first is
-- nowhere above the second, the first gives a result that is at most the second's, for every slice.
pub percentile_mono :
    (low high : ℕ → ℕ) (slice : List ℕ)
    → ((n : ℕ) → low n ≤ high n)
    → ((n : ℕ) → high n ≤ n)
    → percentile low slice ≤ percentile high slice
unfolding percentile
percentile_mono low high [] le bound = omega arith
percentile_mono low high (x ∷ xs) le bound =
    let a = x ∷ xs in
    rw (percentile-cons low x xs, percentile-cons high x xs)
      (Sorted-mono (insertion_sort a) (low (length xs)) (high (length xs)) (insertion_sort-Sorted a)
        (le (length xs)) (omega (arith, bound (length xs), length-insertion_sort a)))
