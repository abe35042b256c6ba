-- ===== src/Netcheck/Stats/Order.antt =====
-- Sorted lists of samples: `slices.Sort` orders them and keeps each sample as often as it was.
use pyck_debug_worker.Prelude.{
  ℕ, zero, suc, ◌+◌, ◌≤◌, List, [], ◌∷◌, some, Bool, ◌≡◌, refl, arith, leb, ltb, length, get_elem?,
  count_if,
}
use pyck_debug_worker.Netcheck.Stats.{insert_sorted, sort}

-- Every later sample is at least the first.
abbrev pub IsSorted : List ℕ → Type 0
IsSorted [] = Unit {0}
IsSorted (x ∷ []) = Unit {0}
IsSorted (x ∷ y ∷ ys) = (x ≤ y) × IsSorted (y ∷ ys)

insert_sorted-IsSorted : (x : ℕ) (ys : List ℕ) → IsSorted ys → IsSorted (insert_sorted x ys)
unfolding insert_sorted
insert_sorted-IsSorted x [] s = tt
insert_sorted-IsSorted x (y ∷ []) s = ground arith
insert_sorted-IsSorted x (y ∷ z ∷ zs) s = ground (arith, insert_sorted-IsSorted x (z ∷ zs) s.1)

pub sort-IsSorted : (xs : List ℕ) → IsSorted (sort xs)
unfolding sort
sort-IsSorted [] = tt
sort-IsSorted (x ∷ xs) = insert_sorted-IsSorted x (sort xs) (sort-IsSorted xs)

count_if-insert_sorted :
    (p : ℕ → Bool) (x : ℕ) (ys : List ℕ) → count_if p (insert_sorted x ys) ≡ count_if p (x ∷ ys)
unfolding insert_sorted
count_if-insert_sorted p x [] = refl
count_if-insert_sorted p x (y ∷ ys) = ground (arith, count_if-insert_sorted p x ys)

pub count_if-sort : (p : ℕ → Bool) (xs : List ℕ) → count_if p (sort xs) ≡ count_if p xs
unfolding sort
count_if-sort p [] = refl
count_if-sort p (x ∷ xs) = ground (arith, count_if-insert_sorted p x (sort xs), count_if-sort p xs)

length-insert_sorted : (x : ℕ) (ys : List ℕ) → length (insert_sorted x ys) ≡ suc (length ys)
unfolding insert_sorted
length-insert_sorted x [] = refl
length-insert_sorted x (y ∷ ys) = ground (arith, length-insert_sorted x ys)

pub length-sort : (xs : List ℕ) → length (sort xs) ≡ length xs
unfolding sort
length-sort [] = refl
length-sort (x ∷ xs) = omega (arith, length-insert_sorted x (sort xs), length-sort xs)

head_le : (x i : ℕ) (ys : List ℕ) {b : ℕ} → IsSorted (x ∷ ys) → get_elem? ys i ≡ some b → x ≤ b
head_le x i [] s e = cc
head_le x zero (y ∷ ys) s e = ground arith
head_le x (suc i) (y ∷ ys) {b} s e = let rest : y ≤ b = head_le y i ys s.1 e in omega (arith, s.0)

-- Positions further on hold samples that are no smaller.
pub get_elem?_mono :
    (xs : List ℕ) (i j : ℕ) {a b : ℕ}
    → IsSorted xs
    → i ≤ j
    → get_elem? xs i ≡ some a
    → get_elem? xs j ≡ some b
    → a ≤ b
get_elem?_mono [] i j s h p q = cc
get_elem?_mono (x ∷ xs) zero zero s h p q = ground arith
get_elem?_mono (x ∷ xs) zero (suc j) {a} {b} s h p q =
    let low : x ≤ b = head_le x j xs s q in ground arith
get_elem?_mono (x ∷ xs) (suc i) zero s h p q = absurd (omega arith)
get_elem?_mono (x ∷ []) (suc i) (suc j) s h p q = cc
get_elem?_mono (x ∷ y ∷ ys) (suc i) (suc j) s h p q =
    get_elem?_mono (y ∷ ys) i j s.1 (omega arith) p q

-- A sample at position `i` of a sorted list has at least `i + 1` samples that are no larger.
pub count-le-rank :
    (xs : List ℕ) (i : ℕ) {a : ℕ}
    → IsSorted xs
    → get_elem? xs i ≡ some a
    → i + 1 ≤ count_if (λ x. leb x a) xs
count-le-rank [] i s e = cc
count-le-rank (x ∷ xs) zero s e = ground arith
count-le-rank (x ∷ []) (suc i) s e = cc
count-le-rank (x ∷ y ∷ ys) (suc i) {a} s e =
    let rest : i + 1 ≤ count_if (λ z. leb z a) (y ∷ ys) = count-le-rank (y ∷ ys) i s.1 e in
    let low : x ≤ a = head_le x i (y ∷ ys) s e in ground (arith, rest)

none_below : (a x : ℕ) (ys : List ℕ) → IsSorted (x ∷ ys) → a ≤ x → count_if (λ y. ltb y a) ys ≡ 0
none_below a x [] s h = refl
none_below a x (y ∷ ys) s h = ground (arith, none_below a y ys s.1)

-- At most `i` samples of a sorted list are smaller than the one at position `i`.
pub count-lt-rank :
    (xs : List ℕ) (i : ℕ) {a : ℕ}
    → IsSorted xs
    → get_elem? xs i ≡ some a
    → count_if (λ x. ltb x a) xs ≤ i
count-lt-rank [] i s e = cc
count-lt-rank (x ∷ xs) zero {a} s e = ground (arith, none_below a x xs s)
count-lt-rank (x ∷ []) (suc i) s e = cc
count-lt-rank (x ∷ y ∷ ys) (suc i) {a} s e =
    let rest : count_if (λ z. ltb z a) (y ∷ ys) ≤ i = count-lt-rank (y ∷ ys) i s.1 e in ground arith
