-- ===== src/Shell/Print/Reverse.antt =====
-- `sio_reverse` of LAB5_tshlab/tsh.c is reversal.
use mathlib.Core.List.{reverse, reverse-append, append_assoc, append-nil}
use cmu_15_213_intro_to_comp.Prelude.{
  ℕ, zero, suc, ◌+◌, ◌-◌, ◌≡◌, ◌≤◌, refl, sym, ap, ◌∙◌, true, List, [], ◌∷◌, ◌++◌, ltb, length,
  get_or, set, length-append, arith,
}
use cmu_15_213_intro_to_comp.Shell.Print.{reverse_from, sio_reverse}

get_or-append : (xs ys : List ℕ) (y d i : ℕ) → i ≡ length xs → get_or (xs ++ y ∷ ys) i d ≡ y
get_or-append [] ys y d zero h = refl
get_or-append [] ys y d (suc i) h = absurd (omega (arith, h))
get_or-append (x ∷ xs) ys y d zero h = absurd (omega (arith, h))
get_or-append (x ∷ xs) ys y d (suc i) h = get_or-append xs ys y d i (omega (arith, h))

set-append : (xs ys : List ℕ) (y v i : ℕ) → i ≡ length xs → set (xs ++ y ∷ ys) i v ≡ xs ++ v ∷ ys
set-append [] ys y v zero h = refl
set-append [] ys y v (suc i) h = absurd (omega (arith, h))
set-append (x ∷ xs) ys y v zero h = absurd (omega (arith, h))
set-append (x ∷ xs) ys y v (suc i) h =
    ap (λ (zs : List ℕ). x ∷ zs) (set-append xs ys y v i (omega (arith, h)))

-- A list of two or more has a first and a last element.
last_split : (x : ℕ) (xs : List ℕ) → (ys : List ℕ) × (y : ℕ) × (x ∷ xs ≡ ys ++ y ∷ [])
last_split x [] = ([], x, refl)
last_split x (z ∷ xs) =
    let (ys, y, e) = last_split z xs in (x ∷ ys, y, ap (λ (zs : List ℕ). x ∷ zs) e)

-- The element behind the middle part.
module _ (pre mid post : List ℕ) (x y j : ℕ) (hj : j ≡ length pre + length mid + 1) where
  bracket : (z : ℕ) → (pre ++ x ∷ mid) ++ z ∷ post ≡ pre ++ x ∷ (mid ++ z ∷ post)
  bracket z = append_assoc pre (x ∷ mid) (z ∷ post)

  position : j ≡ length (pre ++ x ∷ mid)
  position = omega (arith, hj, length-append pre (x ∷ mid))

  get_or-middle : get_or (pre ++ x ∷ (mid ++ y ∷ post)) j 0 ≡ y
  get_or-middle =
      ap (λ (s : List ℕ). get_or s j 0) (sym (bracket y))
      ∙ get_or-append (pre ++ x ∷ mid) post y 0 j position

  set-middle : (v : ℕ) → set (pre ++ x ∷ (mid ++ y ∷ post)) j v ≡ pre ++ x ∷ (mid ++ v ∷ post)
  set-middle v =
      ap (λ (s : List ℕ). set s j v) (sym (bracket y))
      ∙ set-append (pre ++ x ∷ mid) post y v j position
      ∙ bracket v

-- One swap.
swap_ends :
    (pre mid post : List ℕ) (x y i j : ℕ)
    → i ≡ length pre
    → j ≡ length pre + length mid + 1
    → (let s = pre ++ x ∷ (mid ++ y ∷ post) in
        set (set s i (get_or s j 0)) j (get_or s i 0) ≡ pre ++ y ∷ (mid ++ x ∷ post))
swap_ends pre mid post x y i j hi hj =
    rw
      (
        get_or-middle pre mid post x y j hj,
        get_or-append pre (mid ++ y ∷ post) x 0 i hi,
        set-append pre (mid ++ y ∷ post) x y i hi,
      )
      (set-middle pre mid post y y j hj x)

reverse_step :
    (n : ℕ) (pre mid post : List ℕ) (x y i j : ℕ)
    → i ≡ length pre
    → j ≡ length pre + length mid + 1
    → reverse_from (suc n) i j (pre ++ x ∷ (mid ++ y ∷ post))
      ≡ reverse_from n (i + 1) (j - 1) (pre ++ y ∷ (mid ++ x ∷ post))
unfolding reverse_from
reverse_step n pre mid post x y i j hi hj =
    let more : ltb i j ≡ true = ground (arith, hi, hj) in
    rw (more, swap_ends pre mid post x y i j hi hj)

reverse_from-nil : (n i j : ℕ) (s : List ℕ) → j ≤ i → reverse_from n i j s ≡ s
unfolding reverse_from
reverse_from-nil zero i j s h = refl
reverse_from-nil (suc n) i j s h = ground arith

-- The reversal of a list from its two ends.
reverse_ends :
    (x y : ℕ) (mid xs : List ℕ)
    → xs ≡ mid ++ y ∷ []
    → reverse (x ∷ xs) ≡ y ∷ (reverse mid ++ x ∷ [])
reverse_ends x y mid xs e =
    reverse-append (x ∷ []) xs
    ∙ ap (λ (zs : List ℕ). reverse zs ++ x ∷ []) e
    ∙ ap (λ (zs : List ℕ). zs ++ x ∷ []) (reverse-append mid (y ∷ []))

reverse_from-reverse :
    (n : ℕ) (pre mid post : List ℕ) (i j : ℕ)
    → i ≡ length pre
    → j + 1 ≡ length pre + length mid
    → length mid ≤ n
    → reverse_from n i j (pre ++ (mid ++ post)) ≡ pre ++ (reverse mid ++ post)
reverse_from-reverse n pre [] post i j hi hj l =
    reverse_from-nil n i j (pre ++ post) (omega (arith, hi, hj))
reverse_from-reverse n pre (x ∷ []) post i j hi hj l =
    reverse_from-nil n i j (pre ++ x ∷ post) (omega (arith, hi, hj))
reverse_from-reverse zero pre (x ∷ z ∷ rest) post i j hi hj l = absurd (omega (arith, l))
reverse_from-reverse (suc n) pre (x ∷ z ∷ rest) post i j hi hj l =
    let (mid, y, e) = last_split z rest in
    let size : length (z ∷ rest) ≡ length mid + 1 =
      ap length e ∙ length-append mid (y ∷ []) ∙ omega arith in
    ap (λ (t : List ℕ). reverse_from (suc n) i j (pre ++ x ∷ (t ++ post))) e
    ∙ ap (λ (t : List ℕ). reverse_from (suc n) i j (pre ++ x ∷ t)) (append_assoc mid (y ∷ []) post)
    ∙ reverse_step n pre mid post x y i j hi (omega (arith, hj, size))
    ∙ ap (reverse_from n (i + 1) (j - 1)) (sym (append_assoc pre (y ∷ []) (mid ++ x ∷ post)))
    ∙ reverse_from-reverse n (pre ++ y ∷ []) mid (x ∷ post) (i + 1) (j - 1)
        (omega (arith, hi, length-append pre (y ∷ [])))
        (omega (arith, hj, size, length-append pre (y ∷ []))) (omega (arith, l, size))
    ∙ append_assoc pre (y ∷ []) (reverse mid ++ x ∷ post)
    ∙ ap (λ (t : List ℕ). pre ++ y ∷ t) (sym (append_assoc (reverse mid) (x ∷ []) post))
    ∙ ap (λ (t : List ℕ). pre ++ (t ++ post)) (sym (reverse_ends x y mid (z ∷ rest) e))

-- sio_reverse of any text is its reversal.
pub sio_reverse-reverse : (s : List ℕ) → sio_reverse s ≡ reverse s
unfolding sio_reverse
sio_reverse-reverse [] = reverse_from-nil 0 0 0 [] (omega arith)
sio_reverse-reverse (x ∷ xs) =
    ap (reverse_from (suc (length xs)) 0 (suc (length xs) - 1)) (sym (append-nil (x ∷ xs)))
    ∙ reverse_from-reverse (suc (length xs)) [] (x ∷ xs) [] 0 (suc (length xs) - 1) refl
        (omega arith) (omega arith)
    ∙ append-nil (reverse (x ∷ xs))
