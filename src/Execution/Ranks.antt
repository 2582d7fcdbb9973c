-- ===== src/Execution/Ranks.antt =====
-- `nearest_rank` picks the value that the nearest-rank definition of a percentile names.
use benchplane.Base.{
  some, ℕ, zero, suc, ◌+◌, ◌-◌, ◌*◌, ◌≤◌, ◌<◌, ◌≡◌, refl, List, [], ◌∷◌, length, leb, ltb, All,
  arith,
}
use benchplane.Execution.Stats.{sort, index, rank, nearest_rank}
use benchplane.Execution.Sort.{IsSorted, count_if, sort-IsSorted, length-sort, count_if-sort}

mul_le : (p n : ℕ) → p ≤ 100 → p * n ≤ 100 * n
mul_le p n h = grind arith

mul_pos : (p n : ℕ) → 0 < p → 0 < n → 0 < p * n
mul_pos p n hp hn = grind arith

-- The rank of a percentile up to 100 among `count` values is at most `count`, and is the least
-- number k with 100 * k at least percentile * count.
pub rank_bounds :
    (percentile count : ℕ)
    → percentile ≤ 100
    → (rank percentile count ≤ count)
      × (percentile * count ≤ 100 * rank percentile count)
      × (100 * rank percentile count < percentile * count + 100)
unfolding rank
rank_bounds p n h = ground (arith, mul_le p n h)

-- The index that `nearest_rank` uses lies inside a non-empty list.
pub rank_in_list :
    (percentile count : ℕ)
    → 0 < count
    → 0 < percentile
    → percentile ≤ 100
    → (0 < rank percentile count) × (rank percentile count - 1 < count)
rank_in_list p n hn hp h = omega (arith, rank_bounds p n h, mul_pos p n hp hn)

-- The value at an index inside a list, which has what all values have.
pub All-index :
    (P : ℕ → Type 0) (xs : List ℕ) (i : ℕ)
    → All P xs
    → i < length xs
    → (x : ℕ) × (index xs i ≡ some x) × P x
All-index P [] i h lt = absurd (omega arith)
All-index P (x ∷ xs) zero h lt = (x, refl, h.0)
All-index P (x ∷ xs) (suc i) h lt = All-index P xs i h.1 (omega arith)

count_below_none :
    (k x : ℕ) (xs : List ℕ) → k ≤ x → All (λ y. x ≤ y) xs → count_if (λ y. ltb y k) xs ≡ 0
count_below_none k x [] h hs = refl
count_below_none k x (y ∷ ys) h hs = ground (arith, count_below_none k x ys)

-- In a sorted list at most i values are smaller than the one at i, and at least i + 1 are not greater.
count_at_index :
    (xs : List ℕ) (i : ℕ)
    → IsSorted xs
    → i < length xs
    → (v : ℕ) × (index xs i ≡ some v)
      × (count_if (λ y. ltb y v) xs ≤ i)
      × (suc i ≤ count_if (λ y. leb y v) xs)
count_at_index [] i s lt = absurd (omega arith)
count_at_index (x ∷ xs) zero s lt =
    (x, refl, ground (arith, count_below_none x x xs), ground (arith, count_below_none x x xs))
count_at_index (x ∷ xs) (suc i) s lt =
    let (v, found, below, upto) = count_at_index xs i s.1 (omega arith) in
    let (w, again, least) = All-index (λ y. x ≤ y) xs i s.0 (omega arith) in
    let same : x ≤ v = ground arith in (v, found, ground arith, ground arith)

-- In a non-empty list, sorted, there is a value for every percentile from 1 to 100: at least
-- `percentile` in a hundred of the values are not greater than it, and fewer are smaller than it,
-- so that it is the least such value. Looking it up does not panic.
pub nearest_rank_lem :
    (xs : List ℕ) (percentile : ℕ)
    → 0 < length xs
    → 0 < percentile
    → percentile ≤ 100
    → (r : ℕ) × (nearest_rank (sort xs) percentile ≡ some r)
      × (percentile * length xs ≤ 100 * count_if (λ y. leb y r) xs)
      × (100 * count_if (λ y. ltb y r) xs < percentile * length xs)
unfolding nearest_rank
nearest_rank_lem xs p n pos h =
    let i : ℕ = rank p (length (sort xs)) - 1 in
    let len : length (sort xs) ≡ length xs = length-sort xs in
    let inside : (0 < rank p (length (sort xs))) × (i < length (sort xs)) =
      rank_in_list p (length (sort xs)) (omega (arith, len)) pos h in
    let (r, found, few, many) = count_at_index (sort xs) i (sort-IsSorted xs) inside.1 in
    let bounds : (p * length xs ≤ 100 * rank p (length (sort xs)))
        × (100 * rank p (length (sort xs)) < p * length xs + 100) =
      rw len (let b = rank_bounds p (length xs) h in (b.1, b.2)) in
    let below : count_if (λ y. ltb y r) (sort xs) ≡ count_if (λ y. ltb y r) xs =
      count_if-sort (λ y. ltb y r) xs in
    let upto : count_if (λ y. leb y r) (sort xs) ≡ count_if (λ y. leb y r) xs =
      count_if-sort (λ y. leb y r) xs in
    (r, found, omega arith, omega arith)
