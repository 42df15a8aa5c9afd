-- ===== src/Timer/Sort.antt =====
-- Sorted lists, for the measurements that LAB6_malloclab/fcyc.c keeps.
use cmu_15_213_intro_to_comp.Prelude.{
  ℕ, zero, suc, ◌≤◌, ◌<◌, ◌≡◌, refl, ap, List, [], ◌∷◌, ◌++◌, ltb, if◌then◌else◌, length, get_or,
  set, take, arith,
}

-- Insertion sort, the description of what is kept.
abbrev pub insert : ℕ → List ℕ → List ℕ
insert x [] = x ∷ []
insert x (y ∷ ys) = if ltb x y then x ∷ y ∷ ys else y ∷ insert x ys

-- The measurements, the first one last, in order.
abbrev pub sorted : List ℕ → List ℕ
sorted [] = []
sorted (x ∷ xs) = insert x (sorted xs)

-- No member is above the bound.
abbrev pub AtMost : ℕ → List ℕ → Type 0
AtMost k [] = Unit
AtMost k (x ∷ xs) = (x ≤ k) × AtMost k xs

abbrev pub IsSorted : List ℕ → Type 0
IsSorted [] = Unit
IsSorted (x ∷ []) = Unit
IsSorted (x ∷ y ∷ ys) = (x ≤ y) × IsSorted (y ∷ ys)

pub length-insert : (x : ℕ) (xs : List ℕ) → length (insert x xs) ≡ suc (length xs)
length-insert x [] = refl
length-insert x (y ∷ ys) = ground (arith, length-insert x ys)

-- A sample below the last member does not move it.
pub insert-snoc : (x y : ℕ) (xs : List ℕ) → x < y → insert x (xs ++ y ∷ []) ≡ insert x xs ++ y ∷ []
insert-snoc x y [] h = ground arith
insert-snoc x y (z ∷ zs) h = ground (arith, insert-snoc x y zs)

-- A sample that is at least every member comes last.
pub insert-AtMost : (x : ℕ) (xs : List ℕ) → AtMost x xs → insert x xs ≡ xs ++ x ∷ []
insert-AtMost x [] h = refl
insert-AtMost x (y ∷ ys) h = ground (arith, insert-AtMost x ys)

pub IsSorted-AtMost : (y : ℕ) (xs : List ℕ) → IsSorted (xs ++ y ∷ []) → AtMost y (xs ++ y ∷ [])
IsSorted-AtMost y [] h = (omega arith, tt)
IsSorted-AtMost y (x ∷ []) h = (h.0, (omega arith, tt))
IsSorted-AtMost y (x ∷ z ∷ zs) h = let rest = IsSorted-AtMost y (z ∷ zs) h.1 in (omega arith, rest)

pub IsSorted-init : (y : ℕ) (xs : List ℕ) → IsSorted (xs ++ y ∷ []) → IsSorted xs
IsSorted-init y [] h = tt
IsSorted-init y (x ∷ []) h = tt
IsSorted-init y (x ∷ z ∷ zs) h = (h.0, IsSorted-init y (z ∷ zs) h.1)

pub IsSorted-insert : (x : ℕ) (xs : List ℕ) → IsSorted xs → IsSorted (insert x xs)
IsSorted-insert x [] h = tt
IsSorted-insert x (y ∷ []) h = ground arith
IsSorted-insert x (y ∷ z ∷ zs) h = let rest = IsSorted-insert x (z ∷ zs) h.1 in ground arith

pub IsSorted-take : (k : ℕ) (xs : List ℕ) → IsSorted xs → IsSorted (take k xs)
IsSorted-take zero xs h = tt
IsSorted-take (suc k) [] h = tt
IsSorted-take (suc zero) (x ∷ []) h = tt
IsSorted-take (suc (suc k)) (x ∷ []) h = tt
IsSorted-take (suc zero) (x ∷ y ∷ ys) h = tt
IsSorted-take (suc (suc k)) (x ∷ y ∷ ys) h = (h.0, IsSorted-take (suc k) (y ∷ ys) h.1)

pub get_or-middle : (xs : List ℕ) (x : ℕ) (ys : List ℕ) → get_or (xs ++ x ∷ ys) (length xs) 0 ≡ x
get_or-middle [] x ys = refl
get_or-middle (z ∷ zs) x ys = get_or-middle zs x ys

pub set-middle :
    (xs : List ℕ) (x v : ℕ) (ys : List ℕ) → set (xs ++ x ∷ ys) (length xs) v ≡ xs ++ v ∷ ys
set-middle [] x v ys = refl
set-middle (z ∷ zs) x v ys = ap (λ t. z ∷ t) (set-middle zs x v ys)

pub get_or-next :
    (xs : List ℕ) (x y : ℕ) (ys : List ℕ) → get_or (xs ++ x ∷ y ∷ ys) (suc (length xs)) 0 ≡ y
get_or-next [] x y ys = refl
get_or-next (z ∷ zs) x y ys = get_or-next zs x y ys

pub set-next :
    (xs : List ℕ) (x y v : ℕ) (ys : List ℕ)
    → set (xs ++ x ∷ y ∷ ys) (suc (length xs)) v ≡ xs ++ x ∷ v ∷ ys
set-next [] x y v ys = refl
set-next (z ∷ zs) x y v ys = ap (λ t. z ∷ t) (set-next zs x y v ys)

pub snoc_view :
    (n : ℕ) (xs : List ℕ)
    → length xs ≡ suc n
    → (ys : List ℕ) × (y : ℕ) × ((xs ≡ ys ++ y ∷ []) × (length ys ≡ n))
snoc_view n [] h = absurd (omega arith)
snoc_view n (x ∷ []) h = ([], x, (refl, omega arith))
snoc_view zero (x ∷ z ∷ zs) h = absurd (omega arith)
snoc_view (suc n) (x ∷ z ∷ zs) h =
    let (ys, y, (e, len)) = snoc_view n (z ∷ zs) (omega arith) in
    (x ∷ ys, y, (ap (λ t. x ∷ t) e, omega arith))

pub AtMost-le : (k l : ℕ) (xs : List ℕ) → k ≤ l → AtMost k xs → AtMost l xs
AtMost-le k l [] le h = tt
AtMost-le k l (x ∷ xs) le h = (omega arith, AtMost-le k l xs le h.1)

pub take-cons : (k x : ℕ) (xs : List ℕ) → take k (x ∷ take k xs) ≡ take k (x ∷ xs)
take-cons zero x xs = refl
take-cons (suc k) x [] = refl
take-cons (suc k) x (y ∷ ys) = ap (λ t. x ∷ t) (take-cons k y ys)

pub take-insert : (k x : ℕ) (xs : List ℕ) → take k (insert x (take k xs)) ≡ take k (insert x xs)
take-insert zero x xs = refl
take-insert (suc k) x [] = refl
take-insert (suc k) x (y ∷ ys) = ground (arith, take-insert k x ys, take-cons k y ys)

pub take_all : (k : ℕ) (xs : List ℕ) → length xs ≤ k → take k xs ≡ xs
take_all zero [] h = refl
take_all zero (x ∷ xs) h = absurd (omega arith)
take_all (suc k) [] h = refl
take_all (suc k) (x ∷ xs) h = ap (λ t. x ∷ t) (take_all k xs (omega arith))

pub take-append : (k : ℕ) (xs ys : List ℕ) → length xs ≡ k → take k (xs ++ ys) ≡ xs
take-append zero [] ys h = refl
take-append zero (x ∷ xs) ys h = absurd (omega arith)
take-append (suc k) [] ys h = absurd (omega arith)
take-append (suc k) (x ∷ xs) ys h = ap (λ t. x ∷ t) (take-append k xs ys (omega arith))

pub IsSorted-sorted : (xs : List ℕ) → IsSorted (sorted xs)
IsSorted-sorted [] = tt
IsSorted-sorted (x ∷ xs) = IsSorted-insert x (sorted xs) (IsSorted-sorted xs)

pub length-sorted : (xs : List ℕ) → length (sorted xs) ≡ length xs
length-sorted [] = refl
length-sorted (x ∷ xs) = omega (arith, length-insert x (sorted xs), length-sorted xs)
