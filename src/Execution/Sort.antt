-- ===== src/Execution/Sort.antt =====
-- `sort` arranges its input: it is ascending, keeps length, sum and the number of the values that
-- pass any test, and does not depend on the order of its input.
use benchplane.Base.{
  inl, inr, Bool-cases, ℕ, suc, ◌+◌, ◌≤◌, ◌≡◌, refl, ap, ◌∙◌, Bool, List, [], ◌∷◌, length, leb,
  if◌then◌else◌, All, arith,
}
use benchplane.Execution.Stats.{insert, sort, sum}
use mathlib.Core.List
use mathlib.Core.List.{Perm, Permᴰ}
use mathlib.Core.Logic.{∥∥₁_elim}
use native.Mathlib.Nat.{ℕ_set}

abbrev pub IsSorted : List ℕ → Type 0
IsSorted [] = Unit
IsSorted (x ∷ xs) = All (λ y. x ≤ y) xs × IsSorted xs

-- how many values pass a test
abbrev pub count_if : (ℕ → Bool) → List ℕ → ℕ
count_if p [] = 0
count_if p (x ∷ xs) = (if p x then 1 else 0) + count_if p xs

All-insert : (P : ℕ → Type 0) (x : ℕ) (xs : List ℕ) → P x → All P xs → All P (insert x xs)
All-insert P x [] h hs = (h, tt)
All-insert P x (y ∷ ys) h hs = ground (arith, All-insert P x ys h)

pub All-sort : (P : ℕ → Type 0) (xs : List ℕ) → All P xs → All P (sort xs)
unfolding sort
All-sort P [] hs = tt
All-sort P (x ∷ xs) hs = All-insert P x (sort xs) hs.0 (All-sort P xs hs.1)

All-le_trans : (x y : ℕ) (ys : List ℕ) → x ≤ y → All (λ z. y ≤ z) ys → All (λ z. x ≤ z) ys
All-le_trans x y [] h hs = tt
All-le_trans x y (z ∷ zs) h hs = (omega arith, All-le_trans x y zs h hs.1)

insert-IsSorted : (x : ℕ) (xs : List ℕ) → IsSorted xs → IsSorted (insert x xs)
insert-IsSorted x [] h = (tt, tt)
insert-IsSorted x (y ∷ ys) h =
    ground (arith, insert-IsSorted x ys, All-insert (λ z. y ≤ z) x ys, All-le_trans x y ys)

pub sort-IsSorted : (xs : List ℕ) → IsSorted (sort xs)
unfolding sort
sort-IsSorted [] = tt
sort-IsSorted (x ∷ xs) = insert-IsSorted x (sort xs) (sort-IsSorted xs)

length-insert : (x : ℕ) (xs : List ℕ) → length (insert x xs) ≡ suc (length xs)
length-insert x [] = refl
length-insert x (y ∷ ys) = ground (arith, length-insert x ys)

pub length-sort : (xs : List ℕ) → length (sort xs) ≡ length xs
unfolding sort
length-sort [] = refl
length-sort (x ∷ xs) = omega (arith, length-insert x (sort xs), length-sort xs)

sum-insert : (x : ℕ) (xs : List ℕ) → sum (insert x xs) ≡ x + sum xs
sum-insert x [] = refl
sum-insert x (y ∷ ys) = ground (arith, sum-insert x ys)

pub sum-sort : (xs : List ℕ) → sum (sort xs) ≡ sum xs
unfolding sort
sum-sort [] = refl
sum-sort (x ∷ xs) = omega (arith, sum-insert x (sort xs), sum-sort xs)

count_if-insert :
    (p : ℕ → Bool) (x : ℕ) (xs : List ℕ) → count_if p (insert x xs) ≡ count_if p (x ∷ xs)
count_if-insert p x [] = refl
count_if-insert p x (y ∷ ys) = ground (arith, count_if-insert p x ys)

pub count_if-sort : (p : ℕ → Bool) (xs : List ℕ) → count_if p (sort xs) ≡ count_if p xs
unfolding sort
count_if-sort p [] = refl
count_if-sort p (x ∷ xs) =
    count_if-insert p x (sort xs) ∙ ap (λ n. (if p x then 1 else 0) + n) (count_if-sort p xs)

insert_comm : (x y : ℕ) (xs : List ℕ) → insert x (insert y xs) ≡ insert y (insert x xs)
insert_comm x y [] = ground arith
insert_comm x y (z ∷ zs) = ground (arith, insert_comm x y zs)

sort-eq_of_permᴰ : {xs ys : List ℕ} → Permᴰ xs ys → sort xs ≡ sort ys
unfolding sort
sort-eq_of_permᴰ Permᴰ.nil = refl
sort-eq_of_permᴰ (Permᴰ.cons e d) = cc (sort-eq_of_permᴰ d)
sort-eq_of_permᴰ (Permᴰ.swap {a = a} {b = b} {l = l} e f) = cc (insert_comm a b (sort l))
sort-eq_of_permᴰ (Permᴰ.trans d₁ d₂) = sort-eq_of_permᴰ d₁ ∙ sort-eq_of_permᴰ d₂

pub sort-eq_of_perm : {xs ys : List ℕ} → Perm xs ys → sort xs ≡ sort ys
sort-eq_of_perm p = ∥∥₁_elim p (List.is_set ℕ_set _ _) sort-eq_of_permᴰ

insert-ne_nil : (x : ℕ) (xs : List ℕ) → (y : ℕ) × (ys : List ℕ) × (insert x xs ≡ y ∷ ys)
insert-ne_nil x [] = (x, [], refl)
insert-ne_nil x (y ∷ ys) = elim (Bool-cases (leb x y)) [
  | inl h ↦ (x, y ∷ ys, rw h)
  | inr h ↦ (y, insert x ys, rw h)
]

pub sort-cons : (x : ℕ) (xs : List ℕ) → (y : ℕ) × (ys : List ℕ) × (sort (x ∷ xs) ≡ y ∷ ys)
unfolding sort
sort-cons x xs = insert-ne_nil x (sort xs)
