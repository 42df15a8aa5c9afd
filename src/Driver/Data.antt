-- ===== src/Driver/Data.antt =====
-- The check of the data that `mm_realloc` copies, in `eval_mm_valid` of LAB6_malloclab/mdriver.c.
use cmu_15_213_intro_to_comp.Prelude.{
  ℕ, zero, suc, ◌+◌, ◌%◌, ◌≤◌, ◌<◌, ◌≡◌, refl, ap, ◌∙◌, true, false, none, some, List, get_or, ltb,
  ◌==◌, if◌then◌else◌, arith,
}
use cmu_15_213_intro_to_comp.Driver.{
  Range, adds, data_lost, realloc, Package, Run, invalid, same_char, all_chars, remove_range,
  remember, written, check_range, check_op,
}

-- A low byte from 128 on is never found again.
all_chars-high : (byte_at : ℕ → ℕ) (n p c : ℕ) → 0 < n → 128 ≤ c → all_chars byte_at n p c ≡ false
unfolding all_chars same_char
all_chars-high byte_at zero p c pos high = absurd (omega arith)
all_chars-high byte_at (suc n) p c pos high = ground arith

-- A low byte below 128 is found where every byte of the block is it.
all_chars-low :
    (byte_at : ℕ → ℕ) (n p c : ℕ)
    → c < 128
    → ((i : ℕ) → i < n → byte_at (p + i) ≡ c)
    → all_chars byte_at n p c ≡ true
unfolding all_chars same_char
all_chars-low byte_at zero p c low same = refl
all_chars-low byte_at (suc n) p c low same =
    let shift : (i : ℕ) → p + 1 + i ≡ p + suc i = λ i. omega arith in
    let first : byte_at p ≡ c = ap byte_at (omega arith) ∙ same 0 (omega arith) in
    let rest =
      all_chars-low byte_at n (p + 1) c low
        (λ i h. ap byte_at (shift i) ∙ same (suc i) (omega arith)) in
    ground arith

module _ {H : Type 0} (m : Package H) (run : Run H) (index size oldp oldsize newp : ℕ) (heap : H)
    (ranges : List Range) (block : get_or run.blocks index none ≡ some oldp)
    (block_size : get_or run.block_sizes index none ≡ some oldsize)
    (moved : m.mm_realloc oldp size run.heap ≡ some (newp, heap)) (found : (newp == 0) ≡ false)
    (added : check_range m (remove_range run.ranges oldp) newp size heap ≡ adds ranges) where
  -- If mm_realloc moves a block of positive size to a valid place and the low byte of its index
  -- is 128 or more, eval_mm_valid says that the data is lost, whatever the block holds.
  pub check_op-data_lost :
      0 < size
      → 0 < oldsize
      → 128 ≤ index % 256
      → check_op m run (realloc index size) ≡ invalid data_lost
  unfolding check_op
  check_op-data_lost pos old_pos high =
      rw
        (
          block,
          moved,
          found,
          added,
          block_size,
          all_chars-high (m.byte_at heap) (if ltb size oldsize then size else oldsize) newp
              (index % 256) (ground arith) high,
        )
        refl

  -- A request to resize a block is accepted if the low byte of the index is below 128 and the block
  -- still holds that byte up to the smaller size.
  pub check_op-remember :
      index % 256 < 128
      → ((i : ℕ)
          → i < (if ltb size oldsize then size else oldsize)
          → m.byte_at heap (newp + i) ≡ index % 256)
      → check_op m run (realloc index size)
        ≡ remember index newp size (written m (record run { heap = heap }) index newp size ranges)
  unfolding check_op
  check_op-remember low same =
      rw
        (
          block,
          moved,
          found,
          added,
          block_size,
          all_chars-low (m.byte_at heap) (if ltb size oldsize then size else oldsize) newp
              (index % 256) low same,
        )
        refl
