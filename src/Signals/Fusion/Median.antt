-- ===== src/Signals/Fusion/Median.antt =====
-- The median of `robustMedian` splits its input in halves, whatever its order.
use etf.Base.{
  ℕ, zero, suc, ◌+◌, ◌-◌, ◌*◌, ◌/◌, ◌%◌, ◌≤◌, ◌<◌, ◌≡◌, ◌≢◌, refl, subst, Bool, List, [], ◌∷◌,
  arith, ◌&&◌, leb, ◌==◌, length, get_or, count_by, All, Bool-cases, inl, inr,
}
use etf.Base.Results.{ok}
use etf.Signals.Fusion.{insert, sort, middle, robust_median}

abbrev pub at_most : ℕ → List ℕ → ℕ
at_most m = count_by (λ x. leb x m)

abbrev pub at_least : ℕ → List ℕ → ℕ
at_least m = count_by (λ x. leb m x)

abbrev IsSorted : List ℕ → Type 0
IsSorted [] = Unit
IsSorted (x ∷ xs) = All (λ y. x ≤ y) xs × IsSorted xs

count-insert : (p : ℕ → Bool) (x : ℕ) (xs : List ℕ) → count_by p (insert x xs) ≡ count_by p (x ∷ xs)
unfolding insert
count-insert p x [] = refl
count-insert p x (y ∷ ys) = ground (arith, count-insert p x ys)

count-sort : (p : ℕ → Bool) (xs : List ℕ) → count_by p (sort xs) ≡ count_by p xs
unfolding sort
count-sort p [] = refl
count-sort p (x ∷ xs) = omega (arith, count-insert p x (sort xs), count-sort p xs)

length-insert : (x : ℕ) (xs : List ℕ) → length (insert x xs) ≡ suc (length xs)
unfolding insert
length-insert x [] = refl
length-insert x (y ∷ ys) = ground (arith, length-insert x ys)

length-sort : (xs : List ℕ) → length (sort xs) ≡ length xs
unfolding sort
length-sort [] = refl
length-sort (x ∷ xs) = omega (arith, length-insert x (sort xs), length-sort xs)

All-insert : (m x : ℕ) (xs : List ℕ) → m ≤ x → All (λ y. m ≤ y) xs → All (λ y. m ≤ y) (insert x xs)
unfolding insert
All-insert m x [] h k = (h, tt)
All-insert m x (y ∷ ys) h k = ground (arith, All-insert m x ys h k.1)

All-le_trans : (m n : ℕ) (xs : List ℕ) → m ≤ n → All (λ y. n ≤ y) xs → All (λ y. m ≤ y) xs
All-le_trans m n [] h k = tt
All-le_trans m n (y ∷ ys) h k = (omega arith, All-le_trans m n ys h k.1)

insert-IsSorted : (x : ℕ) (xs : List ℕ) → IsSorted xs → IsSorted (insert x xs)
unfolding insert
insert-IsSorted x [] h = (tt, tt)
insert-IsSorted x (y ∷ ys) h = elim (Bool-cases (leb x y)) [
  | inl e ↦ rw e ((ground arith, All-le_trans x y ys (ground arith) h.0), h)
  | inr e ↦ rw e (All-insert y x ys (ground arith) h.0, insert-IsSorted x ys h.1)
]

sort-IsSorted : (xs : List ℕ) → IsSorted (sort xs)
unfolding sort
sort-IsSorted [] = tt
sort-IsSorted (x ∷ xs) = insert-IsSorted x (sort xs) (sort-IsSorted xs)

head-le : (x : ℕ) (s : List ℕ) (i : ℕ) → All (λ y. x ≤ y) s → i < length s → x ≤ get_or s i 0
head-le x [] i h l = absurd (omega arith)
head-le x (y ∷ s) zero h l = h.0
head-le x (y ∷ s) (suc i) h l = head-le x s i h.1 (omega arith)

-- In a sorted list the elements before place i are at most the one there, those after at least it.
at_most-sorted :
    (s : List ℕ) (i m : ℕ) → IsSorted s → i < length s → get_or s i 0 ≤ m → suc i ≤ at_most m s
at_most-sorted [] i m h l k = absurd (omega arith)
at_most-sorted (x ∷ s) zero m h l k = ground arith
at_most-sorted (x ∷ s) (suc i) m h l k = ground (arith, at_most-sorted s i m h.1, head-le x s i h.0)

at_least-all : (s : List ℕ) (m : ℕ) → All (λ y. m ≤ y) s → at_least m s ≡ length s
at_least-all [] m h = refl
at_least-all (x ∷ s) m h = ground (arith, at_least-all s m h.1)

at_least-sorted :
    (s : List ℕ) (i m : ℕ)
    → IsSorted s
    → i < length s
    → m ≤ get_or s i 0
    → length s ≤ at_least m s + i
at_least-sorted [] i m h l k = absurd (omega arith)
at_least-sorted (x ∷ s) zero m h l k = ground (arith, at_least-all s m (All-le_trans m x s k h.0))
at_least-sorted (x ∷ s) (suc i) m h l k = ground (arith, at_least-sorted s i m h.1)

get_or_mono :
    (s : List ℕ) (i : ℕ) → IsSorted s → suc i < length s → get_or s i 0 ≤ get_or s (suc i) 0
get_or_mono [] i h l = absurd (omega arith)
get_or_mono (x ∷ s) zero h l = head-le x s 0 h.0 (omega arith)
get_or_mono (x ∷ s) (suc i) h l = get_or_mono s i h.1 (omega arith)

get_or-mono_at :
    (s : List ℕ) (i j : ℕ) → IsSorted s → j ≡ suc i → j < length s → get_or s i 0 ≤ get_or s j 0
get_or-mono_at s i j h e l = rw e (get_or_mono s i h (omega arith))

middle_halves :
    (s : List ℕ)
    → IsSorted s
    → 0 < length s
    → (length s ≤ 2 * at_most (middle s) s) × (length s ≤ 2 * at_least (middle s) s)
unfolding middle
middle_halves s h k = elim (Bool-cases (length s % 2 == 1)) [
  | inl odd ↦
      let mid = length s / 2 in
      let r : length s ≡ 2 * mid + 1 = ground arith in
      rw odd (
        omega (arith, at_most-sorted s mid (get_or s mid 0) h (omega arith) (omega arith)),
        omega (arith, at_least-sorted s mid (get_or s mid 0) h (omega arith) (omega arith)),
      )
  | inr even ↦
      let mid = length s / 2 in
      let r : length s ≡ 2 * mid = ground arith in
      let m = (get_or s (mid - 1) 0 + get_or s mid 0) / 2 in
      let step : get_or s (mid - 1) 0 ≤ get_or s mid 0 =
        get_or-mono_at s (mid - 1) mid h (omega arith) (omega arith) in
      rw even (
        omega (arith, at_most-sorted s (mid - 1) m h (omega arith) (omega arith)),
        omega (arith, at_least-sorted s mid m h (omega arith) (omega arith)),
      )
]

median_halves :
    (xs : List ℕ) (m : ℕ)
    → robust_median xs ≡ ok m
    → (length xs ≤ 2 * at_most m xs) × (length xs ≤ 2 * at_least m xs)
unfolding robust_median
median_halves [] m e = cc
median_halves (x ∷ xs) m e =
    let s = sort (x ∷ xs) in
    let q : middle s ≡ m = cc in
    let l : length s ≡ length (x ∷ xs) = length-sort (x ∷ xs) in
    let (below, above) = middle_halves s (sort-IsSorted (x ∷ xs)) (omega arith) in
    let halves : (length (x ∷ xs) ≤ 2 * at_most (middle s) (x ∷ xs))
        × (length (x ∷ xs) ≤ 2 * at_least (middle s) (x ∷ xs)) =
      (
        omega (arith, count-sort (λ y. leb y (middle s)) (x ∷ xs)),
        omega (arith, count-sort (λ y. leb (middle s) y) (x ∷ xs)),
      ) in
    subst
      (λ t.
        (length (x ∷ xs) ≤ 2 * at_most t (x ∷ xs)) × (length (x ∷ xs) ≤ 2 * at_least t (x ∷ xs)))
      q halves

abbrev pub IsHalved : List ℕ → ℕ → Type 0
IsHalved xs m = (length xs ≤ 2 * at_most m xs) × (length xs ≤ 2 * at_least m xs)

-- Readings have a median exactly when there is at least one of them, whatever their number and order.
-- At least half of them are at or below it, and at least half at or above it.
pub robust_median_halves :
    (xs : List ℕ)
    → (xs ≢ [] → (m : ℕ) × (robust_median xs ≡ ok m) × IsHalved xs m)
      × ((m : ℕ) → robust_median xs ≡ ok m → xs ≢ [])
unfolding robust_median
robust_median_halves [] = ((λ h. absurd (h refl)), (λ m e h. cc))
robust_median_halves (x ∷ xs) =
    let m = middle (sort (x ∷ xs)) in
    ((λ h. (m, refl, median_halves (x ∷ xs) m refl)), (λ m e h. cc))

-- How many readings lie in a range.
abbrev pub within : ℕ → ℕ → List ℕ → ℕ
within lo hi = count_by (λ x. leb lo x && leb x hi)

within-below : (lo hi m : ℕ) (xs : List ℕ) → m < lo → at_most m xs + within lo hi xs ≤ length xs
within-below lo hi m [] h = omega arith
within-below lo hi m (x ∷ xs) h = ground (arith, within-below lo hi m xs h)

within-above : (lo hi m : ℕ) (xs : List ℕ) → hi < m → at_least m xs + within lo hi xs ≤ length xs
within-above lo hi m [] h = omega arith
within-above lo hi m (x ∷ xs) h = ground (arith, within-above lo hi m xs h)

-- If more than half of the prices lie in a range, the median does, whatever the others are.
pub robust_median_majority :
    (xs : List ℕ) (lo hi m : ℕ)
    → robust_median xs ≡ ok m
    → length xs < 2 * within lo hi xs
    → (lo ≤ m) × (m ≤ hi)
robust_median_majority xs lo hi m e k =
    let (below, above) = median_halves xs m e in
    (ground (arith, within-below lo hi m xs), ground (arith, within-above lo hi m xs))
