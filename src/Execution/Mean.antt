-- ===== src/Execution/Mean.antt =====
-- The mean and the latency summary are defined for every non-empty list of u64 values, stay
-- between the least and the greatest value, and do not depend on the order of the values.
use benchplane.Base.{
  and_then, Option-cases, inl, inr, ℕ, zero, suc, ◌+◌, ◌-◌, ◌*◌, ◌/◌, ◌≤◌, ◌<◌, ◌≡◌, refl, sym,
  subst, ap, ◌∙◌, Option, none, some, List, [], ◌∷◌, length, All, arith, u64_mod,
}
use benchplane.Schema.Measurement.{LatencySummary}
use benchplane.Execution.Stats.{
  sort, sum, index, rank, nearest_rank, mean_u64, describe_micros, describe_sorted,
}
use benchplane.Execution.Sort.{
  IsSorted, sort-IsSorted, length-sort, sum-sort, All-sort, sort-eq_of_perm, sort-cons,
}
use mathlib.Core.List.{Perm}
use benchplane.Execution.Ranks.{rank_bounds, rank_in_list, All-index}

abbrev pub Between : ℕ → ℕ → List ℕ → Type 0
Between lo hi xs = All (λ x. (lo ≤ x) × (x ≤ hi)) xs

sum-Between :
    (lo hi : ℕ) (xs : List ℕ)
    → Between lo hi xs
    → (lo * length xs ≤ sum xs) × (sum xs ≤ hi * length xs)
sum-Between lo hi [] h = omega arith
sum-Between lo hi (x ∷ xs) h = omega (arith, sum-Between lo hi xs h.1)

div_between : (lo hi s n : ℕ) → 0 < n → lo * n ≤ s → s ≤ hi * n → (lo ≤ s / n) × (s / n ≤ hi)
div_between lo hi s n pos h k = grind arith

div_floor : (s n : ℕ) → 0 < n → (s / n * n ≤ s) × (s < (s / n + 1) * n)
div_floor s n pos = grind arith

index_mono :
    (xs : List ℕ) (i j a b : ℕ)
    → IsSorted xs
    → i ≤ j
    → index xs i ≡ some a
    → index xs j ≡ some b
    → a ≤ b
index_mono [] i j a b s h first second = absurd (ground arith)
index_mono (x ∷ xs) zero zero a b s h first second = ground arith
index_mono (x ∷ xs) zero (suc j) a b s h first second =
    let (y, found, least) = All-index (λ y. x ≤ y) xs j s.0 (index_inside xs j b second) in
    ground arith
  where
    index_inside : (ys : List ℕ) (k v : ℕ) → index ys k ≡ some v → k < length ys
    index_inside [] k v h = absurd (ground arith)
    index_inside (y ∷ ys) zero v h = omega arith
    index_inside (y ∷ ys) (suc k) v h = omega (arith, index_inside ys k v h)
index_mono (x ∷ xs) (suc i) zero a b s h first second = absurd (omega arith)
index_mono (x ∷ xs) (suc i) (suc j) a b s h first second =
    index_mono xs i j a b s.1 (omega arith) first second

-- The mean of a non-empty list of values up to hi, itself a u64, is the exact mean rounded down,
-- and lies between the bounds of the values.
pub mean_u64_lem :
    (xs : List ℕ) (lo hi : ℕ)
    → 0 < length xs
    → hi < u64_mod
    → Between lo hi xs
    → (m : ℕ) × (mean_u64 xs ≡ some m)
      × (lo ≤ m)
      × (m ≤ hi)
      × (m * length xs ≤ sum xs)
      × (sum xs < (m + 1) * length xs)
unfolding mean_u64
mean_u64_lem [] lo hi pos fits h = absurd (omega arith)
mean_u64_lem (x ∷ xs) lo hi pos fits h =
    let n = length (x ∷ xs) in
    let s = sum (x ∷ xs) in
    let sums = sum-Between lo hi (x ∷ xs) h in
    let d = div_between lo hi s n pos sums.0 sums.1 in
    let f = div_floor s n pos in (s / n, ground arith, d.0, d.1, f.0, f.1)

rank_mono : (p q n : ℕ) → p ≤ q → q ≤ 100 → rank p n ≤ rank q n
rank_mono p q n h k =
    omega (arith, rank_bounds p n (omega arith), rank_bounds q n k, mul_mono p q n h)
  where
    mul_mono : (a b c : ℕ) → a ≤ b → a * c ≤ b * c
    mul_mono a b c h = grind arith

nearest_rank_mono :
    (xs : List ℕ) (p q a b : ℕ)
    → IsSorted xs
    → p ≤ q
    → q ≤ 100
    → nearest_rank xs p ≡ some a
    → nearest_rank xs q ≡ some b
    → a ≤ b
unfolding nearest_rank
nearest_rank_mono xs p q a b s h k first second =
    index_mono xs (rank p (length xs) - 1) (rank q (length xs) - 1) a b s
      (omega (arith, rank_mono p q (length xs) h k)) first second

nearest_rank-Between :
    (lo hi : ℕ) (xs : List ℕ) (p : ℕ)
    → Between lo hi xs
    → 0 < length xs
    → 0 < p
    → p ≤ 100
    → (r : ℕ) × (nearest_rank xs p ≡ some r) × (lo ≤ r) × (r ≤ hi)
unfolding nearest_rank
nearest_rank-Between lo hi xs p h n pos k =
    let (r, found, inside) =
      All-index (λ x. (lo ≤ x) × (x ≤ hi)) xs (rank p (length xs) - 1) h
        (rank_in_list p (length xs) n pos k).1 in
    (r, found, inside.0, inside.1)

describe_cons :
    (x : ℕ) (xs : List ℕ) (m p50 p95 : ℕ)
    → mean_u64 (sort (x ∷ xs)) ≡ some m
    → nearest_rank (sort (x ∷ xs)) 50 ≡ some p50
    → nearest_rank (sort (x ∷ xs)) 95 ≡ some p95
    → describe_micros (x ∷ xs)
      ≡ some (some (record { mean_micros = m; p50_micros = p50; p95_micros = p95 }))
unfolding describe_micros
describe_cons x xs m p50 p95 h k l = ground arith

-- The latency summary of a list, whatever its values, is computed without a panic.
pub describe_micros_total :
    (xs : List ℕ) → (o : Option LatencySummary) × (describe_micros xs ≡ some o)
unfolding describe_micros nearest_rank
describe_micros_total [] = (none, refl)
describe_micros_total (x ∷ xs) =
    let sorted : List ℕ = sort (x ∷ xs) in
    let some_left : 0 < length sorted = omega (arith, length-sort (x ∷ xs)) in
    let (a, low, _) =
      All-index (λ y. 0 ≤ y) sorted (rank 50 (length sorted) - 1) (everything sorted)
        (rank_in_list 50 (length sorted) some_left (omega arith) (omega arith)).1 in
    let (b, high, _) =
      All-index (λ y. 0 ≤ y) sorted (rank 95 (length sorted) - 1) (everything sorted)
        (rank_in_list 95 (length sorted) some_left (omega arith) (omega arith)).1 in
    elim (Option-cases (mean_u64 sorted)) [
      | inl large ↦ (none, ground arith)
      | inr (m, mean) ↦
          (some (record { mean_micros = m; p50_micros = a; p95_micros = b }), ground arith)
    ]
  where
    everything : (ys : List ℕ) → All (λ y. 0 ≤ y) ys
    everything [] = tt
    everything (y ∷ ys) = (omega arith, everything ys)

-- A non-empty list of values between lo and hi, hi a u64, has a summary, whose mean is the exact
-- mean rounded down; all three statistics lie between lo and hi, and p50 is at most p95.
pub describe_micros_lem :
    (xs : List ℕ) (lo hi : ℕ)
    → 0 < length xs
    → hi < u64_mod
    → Between lo hi xs
    → (s : LatencySummary) × (describe_micros xs ≡ some (some s))
      × (lo ≤ s.mean_micros)
      × (s.mean_micros ≤ hi)
      × (s.mean_micros * length xs ≤ sum xs)
      × (sum xs < (s.mean_micros + 1) * length xs)
      × (lo ≤ s.p50_micros)
      × (s.p50_micros ≤ s.p95_micros)
      × (s.p95_micros ≤ hi)
describe_micros_lem [] lo hi pos fits h = absurd (omega arith)
describe_micros_lem (x ∷ xs) lo hi pos fits h =
    let sorted : List ℕ = sort (x ∷ xs) in
    let n : length sorted ≡ suc (length xs) = length-sort (x ∷ xs) in
    let within : Between lo hi sorted = All-sort (λ x. (lo ≤ x) × (x ≤ hi)) (x ∷ xs) h in
    let some_left : 0 < length sorted = omega (arith, n) in
    let (m, mean, l, u, below, above) = mean_u64_lem sorted lo hi some_left fits within in
    let (a, p50, low, _) =
      nearest_rank-Between lo hi sorted 50 within some_left (omega arith) (omega arith) in
    let (b, p95, _, high) =
      nearest_rank-Between lo hi sorted 95 within some_left (omega arith) (omega arith) in
    (
      record { mean_micros = m; p50_micros = a; p95_micros = b },
      describe_cons x xs m a b mean p50 p95,
      l,
      u,
      rw (← n, ← sum-sort (x ∷ xs)) below,
      rw (← n, ← sum-sort (x ∷ xs)) above,
      low,
      nearest_rank_mono sorted 50 95 a b (sort-IsSorted (x ∷ xs)) (omega arith) (omega arith) p50
          p95,
      high,
    )

summary_with_mean : List ℕ → Option (Option LatencySummary)
summary_with_mean l = elim (mean_u64 l) [
  | none ↦ some none
  | some mean ↦ and_then (describe_sorted l mean) λ summary. some (some summary)
]

-- the summary as a function of the sorted list
abbrev describe_ascending : List ℕ → Option (Option LatencySummary)
describe_ascending [] = some none
describe_ascending (x ∷ xs) = elim (mean_u64 (x ∷ xs)) [
  | none ↦ some none
  | some mean ↦ and_then (describe_sorted (x ∷ xs) mean) λ summary. some (some summary)
]

describe_micros-eq-describe_ascending :
    (xs : List ℕ) → describe_micros xs ≡ describe_ascending (sort xs)
unfolding describe_micros sort summary_with_mean
describe_micros-eq-describe_ascending [] = refl
describe_micros-eq-describe_ascending (x ∷ xs) =
    let (y, ys, e) = sort-cons x xs in
    subst (λ l. summary_with_mean l ≡ describe_ascending l) (sym e) refl

-- Two lists that are permutations of each other have the same latency summary.
pub describe_micros-eq_of_perm :
    {xs ys : List ℕ} → Perm xs ys → describe_micros xs ≡ describe_micros ys
describe_micros-eq_of_perm {xs} {ys} p =
    describe_micros-eq-describe_ascending xs
    ∙ ap describe_ascending (sort-eq_of_perm p)
    ∙ sym (describe_micros-eq-describe_ascending ys)
