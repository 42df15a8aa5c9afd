-- ===== src/Transpose/Tests.antt =====
-- Runs of the transposes of LAB4_cachelab/trans.c, and the theorems about them at concrete sizes.
use cmu_15_213_intro_to_comp.Prelude.{inr, ◌+◌, ◌*◌, ◌≡◌, refl, false, true}
use cmu_15_213_intro_to_comp.Transpose.{
  Matrix, State, loop, assign, cell_any, row_any, blocks, transpose_any, is_transpose,
  transpose_submit,
}
use cmu_15_213_intro_to_comp.Transpose.Simple.{transpose_submit-is_transpose}

abbrev numbered : Matrix
numbered r c = 100 * r + c

abbrev zeros : State
zeros = record { b = λ r c. 0; diag = 0; is_diag = false; in_range = true }

transposed_8_by_4 : (transpose_any 8 4 numbered zeros).b 7 2 ≡ 207
unfolding transpose_any blocks loop row_any cell_any assign
transposed_8_by_4 = refl

transpose_submit-is_transpose_example :
    (is_transpose 61 67 numbered (transpose_submit 61 67 numbered zeros).b ≡ true)
    × ((transpose_submit 61 67 numbered zeros).in_range ≡ true)
transpose_submit-is_transpose_example =
    transpose_submit-is_transpose 61 67 numbered zeros (inr (refl, refl)) refl
