-- ===== src/Transpose/Simple.antt =====
-- `trans`, `is_transpose` and the branches of `transpose_submit` of LAB4_cachelab/trans.c.
use cmu_15_213_intro_to_comp.Prelude.{
  ℕ, ◌+◌, ◌%◌, ◌≡◌, ◌<◌, inl, inr, true, false, ◌==◌, arith, Bool-cases, ◌⊎◌, ◌↔◌, ◌≤◌, refl, ◌&&◌,
  zero, suc,
}
use cmu_15_213_intro_to_comp.Transpose.{
  Matrix, State, trans, row_equal, rows_equal, is_transpose, transpose_submit,
}
use cmu_15_213_intro_to_comp.Transpose.Loops.{
  loop-keeps, loop-reaches, assign_keeps, assign_hits, assign_in_range,
}
use cmu_15_213_intro_to_comp.Transpose.Square.{transpose_32-Transposed}
use cmu_15_213_intro_to_comp.Transpose.Other.{transpose_any-Transposed}
use cmu_15_213_intro_to_comp.Transpose.Narrow.{transpose_61-Transposed}

-- Row i of a, from column j on, is column i of b.
row_equal_lem :
    (left i j : ℕ)
    → (a b : Matrix)
    → (row_equal left i j a b ≡ true) ↔ ((r : ℕ) → j ≤ r → r < j + left → b r i ≡ a i r)
unfolding row_equal
row_equal_lem zero i j a b = ((λ _ r lo hi. absurd (omega (arith, lo, hi))), (λ _. refl))
row_equal_lem (suc left) i j a b =
    let rest = row_equal_lem left i (j + 1) a b in
    (
      (λ h r lo hi. elim (Bool-cases (r == j)) [
        | inl e ↦ let same : r ≡ j = ground arith in rw same (ground (arith, h))
        | inr e ↦ rest.0 (ground (arith, h)) r (ground (arith, lo)) (omega (arith, hi))
      ]),
      (λ all.
          let here : (a i j == b j i) ≡ true = ground (arith, all j (omega arith) (omega arith)) in
          rw here (rest.1 (λ r lo hi. all r (omega (arith, lo)) (omega (arith, hi))))),
    )

rows_equal_lem :
    (left m i : ℕ)
    → (a b : Matrix)
    → (rows_equal left m i a b ≡ true) ↔ ((r c : ℕ) → r < m → i ≤ c → c < i + left → b r c ≡ a c r)
unfolding rows_equal
rows_equal_lem zero m i a b = ((λ _ r c hr lo hi. absurd (omega (arith, lo, hi))), (λ _. refl))
rows_equal_lem (suc left) m i a b =
    let rest = rows_equal_lem left m (i + 1) a b in
    let row = row_equal_lem m i 0 a b in
    (
      (λ h r c hr lo hi. elim (Bool-cases (c == i)) [
        | inl e ↦
            let same : c ≡ i = ground arith in
            rw same (row.0 (ground (arith, h)) r (omega arith) (omega (arith, hr)))
        | inr e ↦ rest.0 (ground (arith, h)) r c hr (ground (arith, lo)) (omega (arith, hi))
      ]),
      (λ all.
          let here : row_equal m i 0 a b ≡ true =
            row.1 (λ r lo hi. all r i (omega (arith, hi)) (omega arith) (omega arith)) in
          rw here (rest.1 (λ r c hr lo hi. all r c hr (omega (arith, lo)) (omega (arith, hi))))),
    )

-- is_transpose returns true exactly if every cell of B equals the mirrored cell of A.
pub is_transpose_iff :
    (m n : ℕ)
    → (a b : Matrix) → (is_transpose m n a b ≡ true) ↔ ((r c : ℕ) → r < m → c < n → b r c ≡ a c r)
unfolding is_transpose
is_transpose_iff m n a b =
    let rows = rows_equal_lem n m 0 a b in
    (
      (λ h r c hr hc. rows.0 h r c hr (omega arith) (omega (arith, hc))),
      (λ all. rows.1 (λ r c hr lo hi. all r c hr (omega (arith, hi)))),
    )

-- trans
trans-cell :
    (m n : ℕ)
    → (a : Matrix) → (s : State) → (r c : ℕ) → r < m
    → c < n
    → (trans m n a s).b r c ≡ a c r
unfolding trans
trans-cell m n a s r c hr hc =
    loop-reaches (λ (s : State). s.b r c ≡ a c r) n c hc _
      (λ i _ s p.
        loop-keeps (λ (s : State). s.b r c ≡ a c r) m _ (λ j _ s p. assign_keeps m n a r c j i s p)
          s p)
      (λ s.
        loop-reaches (λ (s : State). s.b r c ≡ a c r) m r hr _
          (λ j _ s p. assign_keeps m n a r c j c s p) (assign_hits m n a r c) s)
      s

pub trans-is_transpose :
    (m n : ℕ)
    → (a : Matrix) → (s : State) → s.in_range ≡ true
    → (is_transpose m n a (trans m n a s).b ≡ true) × ((trans m n a s).in_range ≡ true)
unfolding trans
trans-is_transpose m n a s h = (
  (is_transpose_iff m n a _).1 (unfold trans in trans-cell m n a s),
  loop-keeps (λ (s : State). s.in_range ≡ true) n _
      (λ i hi s p.
        loop-keeps (λ (s : State). s.in_range ≡ true) m _
          (λ j hj s p. assign_in_range m n a j i hj hi s p) s p)
      s h,
)

-- If both sizes are multiples of 4, or A has 67 rows and 61 columns, is_transpose accepts the
-- matrix that transpose_submit leaves in B, and transpose_submit accesses nothing out of range.
pub transpose_submit-is_transpose :
    (m n : ℕ)
    → (a : Matrix) → (s : State) → ((m % 4 ≡ 0) × (n % 4 ≡ 0)) ⊎ ((m ≡ 61) × (n ≡ 67))
    → s.in_range ≡ true
    → (is_transpose m n a (transpose_submit m n a s).b ≡ true)
      × ((transpose_submit m n a s).in_range ≡ true)
unfolding transpose_submit
transpose_submit-is_transpose m n a s (inr (hm, hn)) h =
    let (cells, inside) = transpose_61-Transposed 61 67 a s h in
    rw (hm, hn) (((is_transpose_iff 61 67 a _).1 cells, inside))
transpose_submit-is_transpose m n a s (inl (hm, hn)) h = elim (Bool-cases (m == 32 && n == 32)) [
  | inl e ↦
      let (cells, inside) = transpose_32-Transposed a s h in
      let em : m ≡ 32 = ground arith in
      let en : n ≡ 32 = ground arith in rw (em, en) (((is_transpose_iff 32 32 a _).1 cells, inside))
  | inr e ↦
      let (cells, inside) = transpose_any-Transposed m n a s hm hn h in
      let e' : (m == 61 && n == 67) ≡ false = ground arith in
      rw (e, e') (((is_transpose_iff m n a _).1 cells, inside))
]
