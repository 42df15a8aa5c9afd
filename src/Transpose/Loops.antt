-- ===== src/Transpose/Loops.antt =====
-- The transposes of LAB4_cachelab/trans.c in common.
use cmu_15_213_intro_to_comp.Prelude.{
  ℕ, zero, suc, ◌*◌, ◌/◌, ◌%◌, ◌≡◌, ◌<◌, inl, inr, sym, true, ◌==◌, arith, Bool-cases,
}
use cmu_15_213_intro_to_comp.Transpose.{Matrix, State, loop, rounds, assign, blocks}

-- A property that every round keeps.
pub loop-keeps {ℓ ℓ'} :
    {S : Type ℓ}
    → (P : S → Type ℓ') → (n : ℕ) → (body : ℕ → S → S)
    → ((k : ℕ) → k < n → (s : S) → P s → P (body k s))
    → (s : S) → P s
    → P (loop n body s)
unfolding loop
loop-keeps P zero body keeps s p = p
loop-keeps P (suc n) body keeps s p =
    keeps n (omega arith) (loop n body s) (loop-keeps P n body (λ k h. keeps k (omega arith)) s p)

-- A property that every round keeps and one brings about.
pub loop-reaches {ℓ ℓ'} :
    {S : Type ℓ}
    → (P : S → Type ℓ') → (n k : ℕ) → k < n
    → (body : ℕ → S → S) → ((k : ℕ) → k < n → (s : S) → P s → P (body k s))
    → ((s : S) → P (body k s))
    → (s : S) → P (loop n body s)
unfolding loop
loop-reaches P zero k h body keeps here s = absurd (omega arith)
loop-reaches P (suc n) k h body keeps here s = elim (Bool-cases (k == n)) [
  | inl e ↦ let same : k ≡ n = ground arith in rw (sym same) (here (loop k body s))
  | inr e ↦
      keeps n (omega arith) (loop n body s)
        (loop-reaches P n k (ground arith) body (λ k h. keeps k (omega arith)) here s)
]

module _ (m n : ℕ) (a : Matrix) where
  pub assign_keeps :
      (r c r' c' : ℕ) → (s : State) → s.b r c ≡ a c r → (assign m n a r' c' s).b r c ≡ a c r
  unfolding assign
  assign_keeps r c r' c' s h = ground arith

  pub assign_hits : (r c : ℕ) → (s : State) → (assign m n a r c s).b r c ≡ a c r
  unfolding assign
  assign_hits r c s = ground arith

  pub assign_diag :
      (d : ℕ) → (s : State) → s.diag ≡ d → (assign m n a s.diag s.diag s).b d d ≡ a d d
  unfolding assign
  assign_diag d s h = ground arith

  -- The cell in row r and column c is written in the round of its block and of its column.
  pub blocks_reaches {ℓ} :
      (P : State → Type ℓ)
      → (w r c : ℕ) → c / w < rounds n w
      → r / w < rounds m w
      → c % w < w
      → (row : (i j k : ℕ) → State → State) → ((i j k : ℕ) → (s : State) → P s → P (row i j k s))
      → ((s : State) → P (row (w * (c / w)) (w * (r / w)) (c % w) s))
      → (s : State) → P (blocks m n a w row s)
  unfolding blocks
  blocks_reaches P w r c hc hr hk row keeps here s =
      loop-reaches P (rounds n w) (c / w) hc _
        (λ i' _ s p.
          loop-keeps P (rounds m w) _
            (λ j' _ s p. loop-keeps P w _ (λ k _ s p. keeps (w * i') (w * j') k s p) s p) s p)
        (λ s.
          loop-reaches P (rounds m w) (r / w) hr _
            (λ j' _ s p. loop-keeps P w _ (λ k _ s p. keeps (w * (c / w)) (w * j') k s p) s p)
            (λ s.
              loop-reaches P w (c % w) hk _ (λ k _ s p. keeps (w * (c / w)) (w * (r / w)) k s p)
                here s)
            s)
        s

  pub assign_in_range :
      (r c : ℕ)
      → r < m
      → c < n
      → (s : State) → s.in_range ≡ true
      → (assign m n a r c s).in_range ≡ true
  unfolding assign
  assign_in_range r c hr hc s h = ground arith

  -- A property that every round inside the matrices keeps.
  pub blocks_keeps {ℓ} :
      (P : State → Type ℓ)
      → (w : ℕ) → (row : (i j k : ℕ) → State → State)
      → ((i j k : ℕ)
          → i < rounds n w
          → j < rounds m w
          → k < w
          → (s : State) → P s
          → P (row (w * i) (w * j) k s))
      → (s : State) → P s
      → P (blocks m n a w row s)
  unfolding blocks
  blocks_keeps P w row keeps = loop-keeps P (rounds n w) _ (λ i hi.
      loop-keeps P (rounds m w) _ (λ j hj. loop-keeps P w _ (λ k hk. keeps i j k hi hj hk)))
