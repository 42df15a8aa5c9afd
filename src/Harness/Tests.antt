-- ===== src/Harness/Tests.antt =====
-- Blocks for LAB0_cprogramminglab/harness.c, and the theorems about it at them.
use cmu_15_213_intro_to_comp.Prelude.{
  ℕ, ◌≡◌, refl, ◌∙◌, arith, true, false, ◌||◌, not, ◌==◌, none, some, [], ◌∷◌,
}
use cmu_15_213_intro_to_comp.Prelude.Int.{pos}
use cmu_15_213_intro_to_comp.Harness.{
  Body, write_cell, Harness, done, stray, init_harness, magic_footer, block_of, fill_char,
  test_free, allocation_check, allocate_memory,
}
use cmu_15_213_intro_to_comp.Harness.Chain.{Cells, block, IsHarness, write_cell_other}
use cmu_15_213_intro_to_comp.Harness.Alloc.{new_body, allocate_memory-IsHarness}
use cmu_15_213_intro_to_comp.Harness.Free.{test_free-IsHarness}
use cmu_15_213_intro_to_comp.Harness.Settles.{
  no_block, next_block, free_all, any_damaged, free_all-settles,
}
use cmu_15_213_intro_to_comp.Harness.Errors.{test_free-unallocated}

-- Two blocks of 3 bytes; the test wrote beyond the end of the one at 2000.
abbrev intact : Body
intact = new_body 3 fill_char

abbrev overrun : Body
overrun = record { payload_size = 3; payload = 1 ∷ 2 ∷ 3 ∷ []; footer = 4 }

abbrev two_blocks : Cells
two_blocks = (2000, overrun) ∷ (1000, intact) ∷ []

abbrev two_allocated : Harness
two_allocated = record (init_harness (pos 1)) {
  memory =
      write_cell (write_cell (λ a. none) 2000 (some (block 1000 0 overrun))) 1000
        (some (block 0 2000 intact));
  allocated = 2000;
  allocated_count = 2;
}

two_allocated-IsHarness : IsHarness two_allocated two_blocks
two_allocated-IsHarness = record {
  chain = (
    omega arith,
    omega arith,
    unfold write_cell in refl,
    (omega arith, tt),
    (omega arith, omega arith, unfold write_cell in refl, tt, tt),
  );
  only = λ x w. write_cell_other _ 1000 x _ w.1.0 ∙ write_cell_other _ 2000 x _ w.0;
  head = refl;
  count = refl;
}

abbrev at_3000 : ℕ → ℕ
at_3000 size = 3000

allocate_memory-IsHarness_example :
    (s' : Harness) × (allocate_memory false at_3000 2 true two_allocated ≡ done 3032 s')
    × IsHarness s' ((3000, new_body 2 0) ∷ two_blocks)
    × (s'.called_malloc ≡ true)
allocate_memory-IsHarness_example =
    allocate_memory-IsHarness at_3000 2 true two_allocated two_blocks two_allocated-IsHarness refl
      (omega arith) (omega arith) (omega arith, (omega arith, tt))

test_free-IsHarness_example :
    (s' : Harness) × (test_free 2032 two_allocated ≡ done tt s')
    × IsHarness s' ((1000, intact) ∷ [])
    × (s'.error_occurred ≡ (false || not (4 == magic_footer)))
    × (s'.noallocate_mode ≡ false)
test_free-IsHarness_example =
    test_free-IsHarness 2000 overrun [] ((1000, intact) ∷ []) two_allocated two_allocated-IsHarness
      refl

test_free-unallocated_example :
    (s' : Harness) × (test_free 5000 two_allocated ≡ stray s') × (s'.error_occurred ≡ true)
test_free-unallocated_example =
    test_free-unallocated 5000 two_allocated two_blocks two_allocated-IsHarness refl refl
      (omega arith) (unfold block_of in (omega arith, (omega arith, tt)))

-- The older block first.
free_all-settles_example :
    (s' : Harness) × (free_all (1032 ∷ 2032 ∷ []) two_allocated ≡ done tt s')
    × (allocation_check s' ≡ done 0 s')
    × IsHarness s' []
    × (s'.error_occurred ≡ (false || any_damaged two_blocks))
free_all-settles_example =
    free_all-settles two_blocks (1032 ∷ 2032 ∷ []) two_allocated
      (next_block ((2000, overrun) ∷ []) 1000 intact [] (2032 ∷ [])
        (next_block [] 2000 overrun [] [] no_block))
      two_allocated-IsHarness refl
