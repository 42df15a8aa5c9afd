-- ===== src/Harness/Neighbours.antt =====
-- `link_next` and `link_prev` of LAB0_cprogramminglab/harness.c on the neighbours of an allocated block.
use cmu_15_213_intro_to_comp.Prelude.{
  ℕ, ◌≡◌, ◌≢◌, refl, sym, ◌∙◌, true, false, Option, none, some, ◌==◌, ◌⊎◌, inl, inr, if◌then◌else◌,
  arith, Bool-cases,
}
use cmu_15_213_intro_to_comp.Harness.{
  BlockEle, Memory, write_cell, Harness, done, ◌>>=◌, store_block, link_next, link_prev,
}
use cmu_15_213_intro_to_comp.Harness.Chain.{write_cell_self, write_cell_other, load_block_lem}

-- NULL, or the address of a block.
abbrev pub IsLink : Memory → ℕ → Type 0
IsLink m q = (q ≡ 0) ⊎ ((q ≢ 0) × ((e : BlockEle) × (m q ≡ some e)))

abbrev changed : Memory → ℕ → (BlockEle → BlockEle) → Option BlockEle → Memory
changed m q f none = m
changed m q f (some e) = write_cell m q (some (f e))

-- The memory after a write to the block at an address that is not NULL.
unfoldable pub rewritten : Memory → ℕ → (BlockEle → BlockEle) → Memory
rewritten m q f = if q == 0 then m else changed m q f (m q)

abbrev pub with_next : ℕ → BlockEle → BlockEle
with_next n e = record e { next = n }

abbrev pub with_prev : ℕ → BlockEle → BlockEle
with_prev q e = record e { prev = q }

module _ (m : Memory) (q : ℕ) (f : BlockEle → BlockEle) where
  pub rewritten_other : (x : ℕ) → x ≢ q → rewritten m q f x ≡ m x
  unfolding rewritten
  rewritten_other x ne = elim (Bool-cases (q == 0)) [ inl e ↦ rw e refl | inr e ↦ rw e (at (m q)) ]
    where
      at : (cell : Option BlockEle) → changed m q f cell x ≡ m x
      at none = refl
      at (some e) = write_cell_other m q x _ (λ s. ne (sym s))

  pub rewritten_self : (e : BlockEle) → q ≢ 0 → m q ≡ some e → rewritten m q f q ≡ some (f e)
  unfolding rewritten
  rewritten_self e ne here =
      let ok : (q == 0) ≡ false = ground arith in rw (ok, here) (write_cell_self m q _)

  pub rewritten_zero : rewritten m q f 0 ≡ m 0
  unfolding rewritten
  rewritten_zero = elim (Bool-cases (q == 0)) [
    | inl e ↦ rw e refl
    | inr e ↦ rw e (at (λ null. ground (arith, e, null)) (m q))
  ]
    where
      at : q ≢ 0 → (cell : Option BlockEle) → changed m q f cell 0 ≡ m 0
      at ne none = refl
      at ne (some e) = write_cell_other m q 0 _ ne

pub link_next-done :
    (q n : ℕ) (s : Harness)
    → IsLink s.memory q
    → link_next q n s
      ≡ done tt (record s {
        memory = rewritten s.memory q (with_next n);
        allocated = if q == 0 then n else s.allocated;
      })
unfolding link_next rewritten store_block
link_next-done q n s (inl null) = let here : (q == 0) ≡ true = ground arith in rw (here, ◌>>=◌) refl
link_next-done q n s (inr (ne, (e, here))) =
    let other : (q == 0) ≡ false = ground arith in
    rw (other, load_block_lem s q e ne here, ◌>>=◌, here) refl

pub link_prev-done :
    (n q : ℕ) (s : Harness)
    → IsLink s.memory n
    → link_prev n q s ≡ done tt (record s { memory = rewritten s.memory n (with_prev q) })
unfolding link_prev rewritten store_block
link_prev-done n q s (inl null) = let here : (n == 0) ≡ true = ground arith in rw (here, ◌>>=◌) refl
link_prev-done n q s (inr (ne, (e, here))) =
    let other : (n == 0) ≡ false = ground arith in
    rw (other, load_block_lem s n e ne here, ◌>>=◌, here) refl

pub IsLink-write_cell :
    (m : Memory) (a q : ℕ) (cell : Option BlockEle)
    → a ≢ q
    → IsLink m q
    → IsLink (write_cell m a cell) q
IsLink-write_cell m a q cell ne (inl null) = inl null
IsLink-write_cell m a q cell ne (inr (nonzero, (e, here))) =
    inr (nonzero, (e, write_cell_other m a q cell ne ∙ here))

pub IsLink-rewritten :
    (m : Memory) (q n : ℕ) (f : BlockEle → BlockEle)
    → (q ≡ n → q ≡ 0)
    → IsLink m n
    → IsLink (rewritten m q f) n
IsLink-rewritten m q n f qn (inl null) = inl null
IsLink-rewritten m q n f qn (inr (nonzero, (e, here))) =
    inr (nonzero, (e, rewritten_other m q f n (λ s. nonzero (s ∙ qn (sym s))) ∙ here))
