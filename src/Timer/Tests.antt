-- ===== src/Timer/Tests.antt =====
-- Measurements for LAB6_malloclab/fcyc.c, and the theorems about it at them.
use cmu_15_213_intro_to_comp.Prelude.{ℕ, ◌*◌, ◌≡◌, refl, arith, Bool, some, [], ◌∷◌, leb, get_or}
use cmu_15_213_intro_to_comp.Timer.{
  add_sample, sort_down, put_sample, fcyc, sample_loop, has_converged,
}
use cmu_15_213_intro_to_comp.Timer.Ends.{IsFirst, IsLeast, fcyc_ends}

-- Within one hundredth of the first.
abbrev close : ℕ → ℕ → Bool
close first last = leb (100 * last) (101 * first)

abbrev cycles : ℕ → ℕ
cycles i = get_or (700 ∷ 500 ∷ 900 ∷ 502 ∷ 501 ∷ []) i 600

fcyc_runs : fcyc close 3 20 21 cycles ≡ some 500
unfolding fcyc sample_loop has_converged add_sample put_sample sort_down
fcyc_runs = refl

fcyc_ends_example :
    (k : ℕ) × (r : ℕ) × ((fcyc close 3 20 21 cycles ≡ some r)
      × (IsFirst close 3 20 cycles 0 k × IsLeast cycles k r))
fcyc_ends_example = fcyc_ends close 3 20 21 cycles (omega arith) (omega arith)
