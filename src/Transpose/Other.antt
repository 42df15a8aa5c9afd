-- ===== src/Transpose/Other.antt =====
-- `transpose_submit` of LAB4_cachelab/trans.c for sizes other than 32 by 32 and 61 by 67, in blocks of 4.
use cmu_15_213_intro_to_comp.Prelude.{
  ℕ, ◌+◌, ◌*◌, ◌/◌, ◌%◌, ◌≡◌, ◌≢◌, ◌<◌, inl, inr, sym, true, false, ◌==◌, if◌then◌else◌, arith,
  Bool-cases,
}
use cmu_15_213_intro_to_comp.Transpose.{
  Matrix, State, loop, assign, cell_any, row_any, transpose_any,
}
use cmu_15_213_intro_to_comp.Transpose.Loops.{
  loop-keeps, loop-reaches, assign_keeps, assign_hits, assign_in_range, blocks_reaches,
  blocks_keeps,
}

module _ (m n : ℕ) (a : Matrix) where
  cell_keeps :
      (r c i j k l : ℕ) → (s : State) → s.b r c ≡ a c r → (cell_any m n a i j k l s).b r c ≡ a c r
  unfolding cell_any
  cell_keeps r c i j k l s h = ground (arith, assign_keeps m n a r c (j + l) (i + k) s h)

  row_any_keeps :
      (r c i j k : ℕ) → (s : State) → s.b r c ≡ a c r → (row_any m n a i j k s).b r c ≡ a c r
  unfolding row_any
  row_any_keeps r c i j k s h =
      let s' = loop 4 (cell_any m n a i j k) (record s { is_diag = false }) in
      let all : s'.b r c ≡ a c r =
        loop-keeps (λ (s : State). s.b r c ≡ a c r) 4 (cell_any m n a i j k)
          (λ l _ s. cell_keeps r c i j k l s) (record s { is_diag = false }) h in
      ground (arith, all, assign_keeps m n a r c s'.diag s'.diag s' all)

  cell_hits :
      (i j k l : ℕ)
      → i + k ≢ j + l
      → (s : State) → (cell_any m n a i j k l s).b (j + l) (i + k) ≡ a (i + k) (j + l)
  unfolding cell_any
  cell_hits i j k l h s = ground (arith, assign_hits m n a (j + l) (i + k) s)

  -- The row has met the diagonal in column d.
  Met : ℕ → State → Type 0
  Met d s = (s.is_diag ≡ true) × (s.diag ≡ d)

  -- The write behind the loop over `l`.
  settle : State → State
  settle s = if s.is_diag then assign m n a s.diag s.diag s else s

  settle_hits : (d : ℕ) → (s : State) → Met d s → (settle s).b d d ≡ a d d
  unfolding settle Met assign
  settle_hits d s h = ground (arith, h.0, h.1)

  cell_any-Met :
      (i j k l : ℕ) → (s : State) → Met (i + k) s → Met (i + k) (cell_any m n a i j k l s)
  unfolding cell_any assign Met
  cell_any-Met i j k l s h = ground arith

  cell_meets : (i j k l : ℕ) → i + k ≡ j + l → (s : State) → Met (i + k) (cell_any m n a i j k l s)
  unfolding cell_any Met
  cell_meets i j k l h s = ground arith

  row_any_hits :
      (i j k l : ℕ)
      → l < 4
      → (s : State) → (row_any m n a i j k s).b (j + l) (i + k) ≡ a (i + k) (j + l)
  unfolding row_any settle
  row_any_hits i j k l hl s =
      let s₀ : State = record s { is_diag = false } in
      let s' = loop 4 (cell_any m n a i j k) s₀ in
      elim (Bool-cases (i + k == j + l)) [
        | inl e ↦
            let same : i + k ≡ j + l = ground arith in
            let at : Met (i + k) s' =
              loop-reaches (Met (i + k)) 4 l hl (cell_any m n a i j k)
                (λ l' _ s. cell_any-Met i j k l' s) (cell_meets i j k l same) s₀ in
            rw (sym same) (settle_hits (i + k) s' at)
        | inr e ↦
            let all : s'.b (j + l) (i + k) ≡ a (i + k) (j + l) =
              loop-reaches (λ (s : State). s.b (j + l) (i + k) ≡ a (i + k) (j + l)) 4 l hl
                (cell_any m n a i j k) (λ l' _ s. cell_keeps (j + l) (i + k) i j k l' s)
                (cell_hits i j k l (ground arith)) s₀ in
            ground (arith, all, assign_keeps m n a (j + l) (i + k) s'.diag s'.diag s' all)
      ]

  row_any_cell :
      (i j k l r c : ℕ)
      → l < 4
      → i + k ≡ c
      → j + l ≡ r
      → (s : State) → (row_any m n a i j k s).b r c ≡ a c r
  row_any_cell i j k l r c hl p q s = rw (sym p, sym q) (row_any_hits i j k l hl s)

  -- Every access so far is in range, and so is the diagonal cell that waits.
  Inside : State → Type 0
  Inside s = (s.in_range ≡ true) × (s.is_diag ≡ true → (s.diag < m) × (s.diag < n))

  cell_any-Inside :
      (i j k l : ℕ)
      → i + k < n
      → j + l < m
      → (s : State) → Inside s
      → Inside (cell_any m n a i j k l s)
  unfolding cell_any assign Inside
  cell_any-Inside i j k l hi hj s h = elim (Bool-cases (i + k == j + l)) [
    | inl e ↦ rw e ((h.0, (λ _. (ground arith, hi))))
    | inr e ↦ rw e ((assign_in_range m n a (j + l) (i + k) hj hi s h.0, h.1))
  ]

  settle_in_range : (s : State) → Inside s → (settle s).in_range ≡ true
  unfolding settle Inside assign
  settle_in_range s h = elim (Bool-cases s.is_diag) [
    | inl e ↦ rw e (assign_in_range m n a s.diag s.diag (h.1 e).0 (h.1 e).1 s h.0)
    | inr e ↦ rw e h.0
  ]

  row_any_in_range :
      (i j k : ℕ)
      → i + k < n
      → j + 3 < m
      → (s : State) → s.in_range ≡ true
      → (row_any m n a i j k s).in_range ≡ true
  unfolding row_any Inside settle
  row_any_in_range i j k hi hj s h =
      let s₀ : State = record s { is_diag = false } in
      let s' = loop 4 (cell_any m n a i j k) s₀ in
      let all : Inside s' =
        loop-keeps Inside 4 (cell_any m n a i j k)
          (λ l hl. cell_any-Inside i j k l hi (omega arith)) s₀ (h, (λ e. ground arith)) in
      settle_in_range s' all

  -- An access out of range is not forgotten.
  assign_stays :
      (r c : ℕ) → (s : State) → s.in_range ≡ false → (assign m n a r c s).in_range ≡ false
  unfolding assign
  assign_stays r c s h = ground arith

  cell_stays :
      (i j k l : ℕ) → (s : State) → s.in_range ≡ false → (cell_any m n a i j k l s).in_range ≡ false
  unfolding cell_any
  cell_stays i j k l s h = ground (arith, assign_stays (j + l) (i + k) s h)

  row_any_stays :
      (i j k : ℕ) → (s : State) → s.in_range ≡ false → (row_any m n a i j k s).in_range ≡ false
  unfolding row_any
  row_any_stays i j k s h =
      let s' = loop 4 (cell_any m n a i j k) (record s { is_diag = false }) in
      let all : s'.in_range ≡ false =
        loop-keeps (λ (s : State). s.in_range ≡ false) 4 (cell_any m n a i j k)
          (λ l _ s. cell_stays i j k l s) (record s { is_diag = false }) h in
      ground (arith, all, assign_stays s'.diag s'.diag s' all)

  cell_leaves :
      (k : ℕ) (s : State)
      → (i : ℕ) → i + k ≡ n
      → 0 < n
      → (cell_any m n a i 0 k 0 s).in_range ≡ false
  unfolding cell_any assign
  cell_leaves k s i h pos = ground arith

  row_any_leaves :
      (i k : ℕ) → i + k ≡ n → 0 < n → (s : State) → (row_any m n a i 0 k s).in_range ≡ false
  unfolding row_any
  row_any_leaves i k h pos s =
      let s₀ : State = record s { is_diag = false } in
      let s' = loop 4 (cell_any m n a i 0 k) s₀ in
      let all : s'.in_range ≡ false =
        loop-reaches (λ (s : State). s.in_range ≡ false) 4 0 (omega arith) (cell_any m n a i 0 k)
          (λ l _ s. cell_stays i 0 k l s) (λ s. cell_leaves k s i h pos) s₀ in
      ground (arith, all, assign_stays s'.diag s'.diag s' all)

-- For numbers of rows and columns that are multiples of 4 the last branch of transpose_submit
-- leaves the transposed matrix in B and accesses nothing out of range.
pub transpose_any-Transposed :
    (m n : ℕ)
    → (a : Matrix) → (s : State) → m % 4 ≡ 0
    → n % 4 ≡ 0
    → s.in_range ≡ true
    → ((r c : ℕ) → r < m → c < n → (transpose_any m n a s).b r c ≡ a c r)
      × ((transpose_any m n a s).in_range ≡ true)
unfolding transpose_any
transpose_any-Transposed m n a s hm hn h = (
  (λ r c hr hc.
      blocks_reaches m n a (λ (s : State). s.b r c ≡ a c r) 4 r c (omega arith) (omega arith)
        (omega arith) (row_any m n a) (row_any_keeps m n a r c)
        (row_any_cell m n a (4 * (c / 4)) (4 * (r / 4)) (c % 4) (r % 4) r c (omega arith)
          (omega arith) (omega arith))
        s),
  blocks_keeps m n a (λ (s : State). s.in_range ≡ true) 4 (row_any m n a)
      (λ i j k hi hj hk. row_any_in_range m n a (4 * i) (4 * j) k (omega arith) (omega arith)) s h,
)

-- If A has a column and a number of rows that is no multiple of 4, the last branch of
-- transpose_submit accesses the matrices out of range.
pub transpose_any_leaves :
    (m n : ℕ)
    → (a : Matrix) → (s : State) → 0 < m
    → n % 4 ≢ 0
    → (transpose_any m n a s).in_range ≡ false
unfolding transpose_any
transpose_any_leaves m n a s hm hn =
    blocks_reaches m n a (λ (s : State). s.in_range ≡ false) 4 0 n (omega (arith, hn)) (omega arith)
      (omega arith) (row_any m n a) (row_any_stays m n a)
      (row_any_leaves m n a (4 * (n / 4)) (n % 4) (omega arith) (omega (arith, hn))) s
