-- ===== src/Driver/Tests.antt =====
-- A bump_package allocator for LAB6_malloclab/mdriver.c, and the theorems about the driver at it.
use cmu_15_213_intro_to_comp.Prelude.{
  ℕ, ◌+◌, ◌*◌, ◌/◌, ◌≡◌, refl, inl, inr, arith, true, none, some, List, [], ◌∷◌, ◌++◌, replicate,
}
use cmu_15_213_intro_to_comp.Driver.{
  data_lost, TraceOp, alloc, realloc, free, Package, Run, invalid, outside_heap, overlaps_one,
  overlaps_any, add_range, remove_range, remember, check_range, check_op, check_ops, eval_mm_valid,
}
use cmu_15_213_intro_to_comp.Driver.Ranges.{
  IsPlaced, PairwiseDisjoint, payload, add_range-PairwiseDisjoint,
}
use cmu_15_213_intro_to_comp.Driver.Outstanding.{Keeps, eval_mm_valid-Keeps}
use cmu_15_213_intro_to_comp.Driver.Data.{check_op-data_lost}
use cmu_15_213_intro_to_comp.Driver.Trace.{reads, read_trace}
use cmu_15_213_intro_to_comp.Driver.Trace.Print.{print_trace, read_trace-print_trace}

-- The heap is the number of its bytes, from address 8 on, and all of them read as 200.
abbrev bump_package : Package ℕ
bump_package = record {
  mem_reset_brk = λ h. 0;
  mm_init = λ h. some (true, h);
  mm_malloc = λ size h. some (8 + h, h + (size + 7) / 8 * 8);
  mm_realloc = λ ptr size h. some (8 + h, h + (size + 7) / 8 * 8);
  mm_free = λ ptr h. some h;
  mem_heap_lo = λ h. 8;
  mem_heap_hi = λ h. 7 + h;
  memset = λ p byte size h. h;
  byte_at = λ h p. 200;
}

add_range-PairwiseDisjoint_example :
    IsPlaced 8 100 (payload 32 8) × PairwiseDisjoint (payload 32 8 ∷ payload 16 8 ∷ [])
unfolding add_range outside_heap overlaps_any overlaps_one
add_range-PairwiseDisjoint_example =
    add_range-PairwiseDisjoint 8 100 (payload 16 8 ∷ []) 32 8 (tt, tt) (omega arith, tt)
      ((λ inside. omega arith), tt) refl

abbrev requests : List TraceOp
requests = alloc 0 10 ∷ alloc 1 3 ∷ free 0 ∷ alloc 2 8 ∷ []

abbrev last_run : Run ℕ
last_run = record {
  heap = 32;
  ranges = payload 32 8 ∷ payload 24 3 ∷ [];
  blocks = some 8 ∷ some 24 ∷ some 32 ∷ [];
  block_sizes = some 10 ∷ some 3 ∷ some 8 ∷ [];
}

eval_mm_valid-Keeps_example : Keeps last_run (2 ∷ 1 ∷ [])
unfolding eval_mm_valid check_ops check_op check_range add_range remove_range outside_heap
    overlaps_any overlaps_one remember
eval_mm_valid-Keeps_example =
    eval_mm_valid-Keeps bump_package 3 requests [] 5
      (tt, (((λ e. omega arith), tt), (inr (inl refl), (((λ e. omega arith), tt), tt)))) refl

abbrev old_run : Run ℕ
old_run = record {
  heap = 16;
  ranges = payload 8 10 ∷ [];
  blocks = replicate 128 none ++ some 8 ∷ [];
  block_sizes = replicate 128 none ++ some 10 ∷ [];
}

check_op-data_lost_example : check_op bump_package old_run (realloc 128 4) ≡ invalid data_lost
unfolding check_range add_range remove_range outside_heap overlaps_any
check_op-data_lost_example =
    check_op-data_lost bump_package old_run 128 4 8 10 24 24 (payload 24 4 ∷ []) refl refl refl refl
      refl (omega arith) (omega arith) (omega arith)

read_trace-print_trace_example : read_trace (print_trace 2000 3 4 1 requests) ≡ reads 3 requests
read_trace-print_trace_example = read_trace-print_trace 2000 3 1 requests refl refl
