-- ===== src/Transpose/Square.antt =====
-- `transpose_submit` of LAB4_cachelab/trans.c for 32 rows and columns, in blocks of 8.
use cmu_15_213_intro_to_comp.Prelude.{
  ℕ, ◌+◌, ◌*◌, ◌/◌, ◌%◌, ◌≡◌, ◌≢◌, ◌<◌, inl, inr, sym, true, ◌==◌, arith, Bool-cases,
}
use cmu_15_213_intro_to_comp.Transpose.{Matrix, State, loop, assign, cell_32, row_32, transpose_32}
use cmu_15_213_intro_to_comp.Transpose.Loops.{
  loop-keeps, loop-reaches, assign_keeps, assign_hits, assign_diag, assign_in_range, blocks_reaches,
  blocks_keeps,
}

module _ (m n : ℕ) (a : Matrix) where
  cell_keeps :
      (r c i j k l : ℕ) → (s : State) → s.b r c ≡ a c r → (cell_32 m n a i j k l s).b r c ≡ a c r
  unfolding cell_32
  cell_keeps r c i j k l s h = ground (arith, assign_keeps m n a r c (j + l) (i + k) s h)

  row_32_keeps :
      (r c i j k : ℕ) → (s : State) → s.b r c ≡ a c r → (row_32 m n a i j k s).b r c ≡ a c r
  unfolding row_32
  row_32_keeps r c i j k s h =
      let s' = loop 8 (cell_32 m n a i j k) s in
      let all : s'.b r c ≡ a c r =
        loop-keeps (λ (s : State). s.b r c ≡ a c r) 8 (cell_32 m n a i j k)
          (λ l _ s. cell_keeps r c i j k l s) s h in
      ground (arith, all, assign_keeps m n a r c s'.diag s'.diag s' all)

  cell_hits :
      (i j k l : ℕ)
      → i + k ≢ j + l
      → (s : State) → (cell_32 m n a i j k l s).b (j + l) (i + k) ≡ a (i + k) (j + l)
  unfolding cell_32
  cell_hits i j k l h s = ground (arith, assign_hits m n a (j + l) (i + k) s)

  diag_keeps : (i j k l : ℕ) → (s : State) → s.diag ≡ i + k → (cell_32 m n a i j k l s).diag ≡ i + k
  unfolding cell_32 assign
  diag_keeps i j k l s h = ground arith

  diag_hits : (i k : ℕ) → (s : State) → (cell_32 m n a i i k k s).diag ≡ i + k
  unfolding cell_32
  diag_hits i k s = ground arith

  row_32_diag :
      (i k : ℕ) → k < 8 → (s : State) → (row_32 m n a i i k s).b (i + k) (i + k) ≡ a (i + k) (i + k)
  unfolding row_32
  row_32_diag i k hk s =
      let s' = loop 8 (cell_32 m n a i i k) s in
      let at : s'.diag ≡ i + k =
        loop-reaches (λ (s : State). s.diag ≡ i + k) 8 k hk (cell_32 m n a i i k)
          (λ l _ s. diag_keeps i i k l s) (diag_hits i k) s in
      let test : (i == i) ≡ true = ground arith in rw test (assign_diag m n a (i + k) s' at)

  row_32_hits :
      (i j k l : ℕ)
      → l < 8
      → k < 8
      → (i + k ≡ j + l → (i ≡ j) × (k ≡ l))
      → (s : State) → (row_32 m n a i j k s).b (j + l) (i + k) ≡ a (i + k) (j + l)
  unfolding row_32
  row_32_hits i j k l hl hk same s = elim (Bool-cases (i + k == j + l)) [
    | inl e ↦
        let i_j : i ≡ j = (same (ground arith)).0 in
        let k_l : k ≡ l = (same (ground arith)).1 in rw (sym i_j, sym k_l) (row_32_diag i k hk s)
    | inr e ↦
        let s' = loop 8 (cell_32 m n a i j k) s in
        let all : s'.b (j + l) (i + k) ≡ a (i + k) (j + l) =
          loop-reaches (λ (s : State). s.b (j + l) (i + k) ≡ a (i + k) (j + l)) 8 l hl
            (cell_32 m n a i j k) (λ l' _ s. cell_keeps (j + l) (i + k) i j k l' s)
            (cell_hits i j k l (ground arith)) s in
        ground (arith, all, assign_keeps m n a (j + l) (i + k) s'.diag s'.diag s' all)
  ]

  row_32_cell :
      (i j k l r c : ℕ)
      → l < 8
      → k < 8
      → (i + k ≡ j + l → (i ≡ j) × (k ≡ l))
      → i + k ≡ c
      → j + l ≡ r
      → (s : State) → (row_32 m n a i j k s).b r c ≡ a c r
  row_32_cell i j k l r c hl hk same p q s = rw (sym p, sym q) (row_32_hits i j k l hl hk same s)

  cell_32_in_range :
      (i j k l : ℕ)
      → i + k < n
      → j + l < m
      → (s : State) → s.in_range ≡ true
      → (cell_32 m n a i j k l s).in_range ≡ true
  unfolding cell_32
  cell_32_in_range i j k l hi hj s h =
      ground (arith, assign_in_range m n a (j + l) (i + k) hj hi s h)

  row_32_in_range :
      (i j k : ℕ)
      → k < 8
      → i + k < n
      → j + 7 < m
      → (s : State) → s.in_range ≡ true
      → (row_32 m n a i j k s).in_range ≡ true
  unfolding row_32
  row_32_in_range i j k hk hi hj s h =
      let s' = loop 8 (cell_32 m n a i j k) s in
      let all : s'.in_range ≡ true =
        loop-keeps (λ (s : State). s.in_range ≡ true) 8 (cell_32 m n a i j k)
          (λ l hl. cell_32_in_range i j k l hi (omega arith)) s h in
      elim (Bool-cases (i == j)) [
        | inl e ↦
            let same : i ≡ j = ground arith in
            let at : s'.diag ≡ i + k =
              loop-reaches (λ (s : State). s.diag ≡ i + k) 8 k hk (cell_32 m n a i j k)
                (λ l _ s. diag_keeps i j k l s) (rw (sym same) (diag_hits i k)) s in
            rw e (assign_in_range m n a s'.diag s'.diag (omega arith) (omega arith) s' all)
        | inr e ↦ rw e all
      ]

-- Every cell is the transposed one.
transpose_32-cell :
    (a : Matrix)
    → (s : State) → (r c : ℕ) → r < 32
    → c < 32
    → (transpose_32 32 32 a s).b r c ≡ a c r
unfolding transpose_32
transpose_32-cell a s r c hr hc =
    blocks_reaches 32 32 a (λ (s : State). s.b r c ≡ a c r) 8 r c (omega arith) (omega arith)
      (omega arith) (row_32 32 32 a) (λ i j k s. row_32_keeps 32 32 a r c i j k s)
      (row_32_cell 32 32 a (8 * (c / 8)) (8 * (r / 8)) (c % 8) (r % 8) r c (omega arith)
        (omega arith) (λ e. (omega (arith, e), omega (arith, e))) (omega arith) (omega arith))
      s

transpose_32_in_range :
    (a : Matrix) → (s : State) → s.in_range ≡ true → (transpose_32 32 32 a s).in_range ≡ true
unfolding transpose_32
transpose_32_in_range a s h =
    blocks_keeps 32 32 a (λ (s : State). s.in_range ≡ true) 8 (row_32 32 32 a)
      (λ i j k hi hj hk. row_32_in_range 32 32 a (8 * i) (8 * j) k hk (omega arith) (omega arith)) s
      h

-- For 32 rows and columns transpose_submit leaves the transposed matrix in B and accesses
-- nothing out of range.
pub transpose_32-Transposed :
    (a : Matrix)
    → (s : State) → s.in_range ≡ true
    → ((r c : ℕ) → r < 32 → c < 32 → (transpose_32 32 32 a s).b r c ≡ a c r)
      × ((transpose_32 32 32 a s).in_range ≡ true)
transpose_32-Transposed a s h = (transpose_32-cell a s, transpose_32_in_range a s h)
