-- ===== src/Transpose/Narrow.antt =====
-- `transpose_submit` of LAB4_cachelab/trans.c in blocks of 16 that stop at the edges, for 61 by 67.
use cmu_15_213_intro_to_comp.Prelude.{
  ℕ, ◌+◌, ◌*◌, ◌/◌, ◌%◌, ◌≡◌, ◌≢◌, ◌<◌, inl, inr, sym, true, ◌==◌, arith, Bool-cases, ◌⊎◌, Option,
  none, some, ◌∙◌, refl, ◌-◌,
}
use Prim.Native.Nat.{min}
use cmu_15_213_intro_to_comp.Transpose.{
  Matrix, State, loop, assign_value, cell_61, write_temp, row_61, transpose_61, rounds,
}
use cmu_15_213_intro_to_comp.Transpose.Loops.{
  loop-keeps, loop-reaches, assign_keeps, assign_hits, assign_in_range,
}

module _ (m n : ℕ) (a : Matrix) where
  -- Nothing is held back, or the diagonal cell of the row.
  Holds : ℕ → State × Option (ℕ × ℕ) → Type 0
  Holds k s = (s.1 ≡ none) ⊎ ((s.1 ≡ some (k, a k k)) × (k < m))

  cell-Holds :
      (k l : ℕ) → l < m → (s : State × Option (ℕ × ℕ)) → Holds k s → Holds k (cell_61 m n a k l s)
  unfolding cell_61 Holds
  cell-Holds k l hl (s, temp) h = elim (Bool-cases (k == l)) [
    | inl e ↦ let same : k ≡ l = ground arith in rw (e, sym same) (inr (refl, omega arith))
    | inr e ↦ rw e h
  ]

  cell_keeps :
      (r c k l : ℕ)
      → (s : State × Option (ℕ × ℕ)) → s.0.b r c ≡ a c r
      → (cell_61 m n a k l s).0.b r c ≡ a c r
  unfolding cell_61
  cell_keeps r c k l (s, temp) h = ground (arith, assign_keeps m n a r c l k s h)

  write_keeps :
      (r c k : ℕ)
      → (s : State × Option (ℕ × ℕ)) → Holds k s
      → s.0.b r c ≡ a c r
      → (write_temp m n a s).b r c ≡ a c r
  unfolding write_temp Holds
  write_keeps r c k (s, temp) (inl e) h = rw e h
  write_keeps r c k (s, temp) (inr (e, lt)) h = rw e (unfold assign_value in ground arith)

  cell_hits :
      (k l : ℕ) → k ≢ l → (s : State × Option (ℕ × ℕ)) → (cell_61 m n a k l s).0.b l k ≡ a k l
  unfolding cell_61
  cell_hits k l ne (s, temp) = ground (arith, assign_hits m n a l k s)

  -- The row has met the diagonal.
  Met : ℕ → State × Option (ℕ × ℕ) → Type 0
  Met k s = s.1 ≡ some (k, a k k)

  cell-Met : (k l : ℕ) → (s : State × Option (ℕ × ℕ)) → Met k s → Met k (cell_61 m n a k l s)
  unfolding cell_61 Met
  cell-Met k l (s, temp) h = elim (Bool-cases (k == l)) [
    | inl e ↦ let same : k ≡ l = ground arith in rw (e, sym same)
    | inr e ↦ rw e h
  ]

  cell_meets : (k l : ℕ) → k ≡ l → (s : State × Option (ℕ × ℕ)) → Met k (cell_61 m n a k l s)
  unfolding cell_61 Met
  cell_meets k l h (s, temp) = let same : (k == k) ≡ true = ground arith in rw (sym h, same)

  write_hits : (k : ℕ) → (s : State × Option (ℕ × ℕ)) → Met k s → (write_temp m n a s).b k k ≡ a k k
  unfolding write_temp Met
  write_hits k (s, temp) h = rw h (unfold assign_value in ground arith)

  Row : ℕ → ℕ → State → State × Option (ℕ × ℕ)
  Row j k s = loop (min 16 (m - j)) (λ l. cell_61 m n a k (j + l)) (s, none)

  row-Holds : (j k : ℕ) → (s : State) → Holds k (Row j k s)
  unfolding Row
  row-Holds j k s =
      loop-keeps (Holds k) (min 16 (m - j)) (λ l. cell_61 m n a k (j + l))
        (λ l hl. cell-Holds k (j + l) (omega (arith, hl))) (s, none) (unfold Holds in inl refl)

  row_keeps : (r c j k : ℕ) → (s : State) → s.b r c ≡ a c r → (row_61 m n a j k s).b r c ≡ a c r
  unfolding row_61
  row_keeps r c j k s h = write_keeps r c k _ (unfold Row in row-Holds j k s) (
      loop-keeps (λ (s : State × Option (ℕ × ℕ)). s.0.b r c ≡ a c r) (min 16 (m - j))
        (λ l. cell_61 m n a k (j + l)) (λ l _ s. cell_keeps r c k (j + l) s) (s, none) h)

  row_diagonal :
      (c j l : ℕ)
      → l < min 16 (m - j)
      → j + l ≡ c
      → (s : State) → (row_61 m n a j c s).b c c ≡ a c c
  unfolding row_61
  row_diagonal c j l hl e s = write_hits c _ (
      loop-reaches (Met c) (min 16 (m - j)) l hl (λ l. cell_61 m n a c (j + l))
        (λ l _ s. cell-Met c (j + l) s) (cell_meets c (j + l) (sym e)) (s, none))

  row_hits :
      (r c j l : ℕ)
      → l < min 16 (m - j)
      → j + l ≡ r
      → (s : State) → (row_61 m n a j c s).b r c ≡ a c r
  unfolding row_61
  row_hits r c j l hl e s = elim (Bool-cases (c == r)) [
    | inl d ↦
        let same : c ≡ r = ground arith in rw (sym same) (row_diagonal c j l hl (e ∙ sym same) s)
    | inr ne ↦ write_keeps r c c _ (unfold Row in row-Holds j c s) (
        loop-reaches (λ (s : State × Option (ℕ × ℕ)). s.0.b r c ≡ a c r) (min 16 (m - j)) l hl
          (λ l. cell_61 m n a c (j + l)) (λ l _ s. cell_keeps r c c (j + l) s)
          (rw e (cell_hits c r (ground arith))) (s, none))
  ]

  cell_in_range :
      (k l : ℕ)
      → k < n
      → l < m
      → (s : State × Option (ℕ × ℕ)) → s.0.in_range ≡ true
      → (cell_61 m n a k l s).0.in_range ≡ true
  unfolding cell_61
  cell_in_range k l hk hl (s, temp) h = ground (arith, assign_in_range m n a l k hl hk s h)

  write_in_range :
      (k : ℕ)
      → k < n
      → (s : State × Option (ℕ × ℕ)) → Holds k s
      → s.0.in_range ≡ true
      → (write_temp m n a s).in_range ≡ true
  unfolding write_temp Holds
  write_in_range k hk (s, temp) (inl e) h = rw e h
  write_in_range k hk (s, temp) (inr (e, lt)) h = rw e (unfold assign_value in ground arith)

  row_in_range :
      (j k : ℕ) → k < n → (s : State) → s.in_range ≡ true → (row_61 m n a j k s).in_range ≡ true
  unfolding row_61
  row_in_range j k hk s h = write_in_range k hk _ (unfold Row in row-Holds j k s) (
      loop-keeps (λ (s : State × Option (ℕ × ℕ)). s.0.in_range ≡ true) (min 16 (m - j))
        (λ l. cell_61 m n a k (j + l)) (λ l hl s. cell_in_range k (j + l) hk (omega (arith, hl)) s)
        (s, none) h)

  -- A property of states that every row keeps.
  rows_keep :
      (P : State → Type 0)
      → ((j k : ℕ) → k < n → (s : State) → P s → P (row_61 m n a j k s))
      → (s : State) → P s
      → P (transpose_61 m n a s)
  unfolding transpose_61
  rows_keep P keeps = loop-keeps P (rounds n 16) _ (λ i _. loop-keeps P (rounds m 16) _ (λ j _.
      loop-keeps P (min 16 (n - 16 * i)) _
        (λ k hk. keeps (16 * j) (16 * i + k) (omega (arith, hk)))))

  rows_reach :
      (P : State → Type 0)
      → ((j k : ℕ) → (s : State) → P s → P (row_61 m n a j k s))
      → (r c : ℕ) → r < m
      → c < n
      → ((s : State) → P (row_61 m n a (16 * (r / 16)) (16 * (c / 16) + c % 16) s))
      → (s : State) → P (transpose_61 m n a s)
  unfolding transpose_61
  rows_reach P keeps r c hr hc here s =
      loop-reaches P (rounds n 16) (c / 16) (omega arith) _
        (λ i _ s p.
          loop-keeps P (rounds m 16) _
            (λ j _ s p.
              loop-keeps P (min 16 (n - 16 * i)) _ (λ k _ s p. keeps (16 * j) (16 * i + k) s p) s p)
            s p)
        (λ s.
          loop-reaches P (rounds m 16) (r / 16) (omega arith) _
            (λ j _ s p.
              loop-keeps P (min 16 (n - 16 * (c / 16))) _
                (λ k _ s p. keeps (16 * j) (16 * (c / 16) + k) s p) s p)
            (λ s.
              loop-reaches P (min 16 (n - 16 * (c / 16))) (c % 16) (omega arith) _
                (λ k _ s p. keeps (16 * (r / 16)) (16 * (c / 16) + k) s p) here s)
            s)
        s

-- All sizes
pub transpose_61-Transposed :
    (m n : ℕ)
    → (a : Matrix) → (s : State) → s.in_range ≡ true
    → ((r c : ℕ) → r < m → c < n → (transpose_61 m n a s).b r c ≡ a c r)
      × ((transpose_61 m n a s).in_range ≡ true)
transpose_61-Transposed m n a s h = (
  (λ r c hr hc.
      rows_reach m n a (λ (s : State). s.b r c ≡ a c r) (λ j k s p. row_keeps m n a r c j k s p) r c
        hr hc
        (λ s.
          let e : 16 * (c / 16) + c % 16 ≡ c = omega arith in
          rw e (row_hits m n a r c (16 * (r / 16)) (r % 16) (omega arith) (omega arith) s))
        s),
  rows_keep m n a (λ (s : State). s.in_range ≡ true) (λ j k hk s p. row_in_range m n a j k hk s p) s
      h,
)
