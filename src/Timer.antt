-- ===== src/Timer.antt =====
-- LAB6_malloclab/fcyc.c: the K-best scheme that estimates the running time of a function. A
-- measurement is a number of cycles, a natural number, which its `double` represents exactly.
pub mod Sort
pub mod Best
pub mod Ends
mod Tests
use cmu_15_213_intro_to_comp.Prelude.{
  ℕ, zero, suc, ◌+◌, ◌-◌, Bool, true, false, not, ◌&&◌, Option, none, some, List, [], ◌∷◌, ◌++◌,
  ltb, leb, if◌then◌else◌, length, get_or, set,
}

-- `values`, of which the cells that were never set are left out, and `samplecount`.
pub record Sampler : Type 0 where
  pub values : List ℕ
  pub samplecount : ℕ

abbrev pub init_sampler : Sampler
init_sampler = record { values = []; samplecount = 0 }

-- `while (pos > 0 && values[pos-1] > values[pos])`
unfoldable pub sort_down : (pos : ℕ) → List ℕ → List ℕ
sort_down zero values = values
sort_down (suc pos) values =
    let before : ℕ = get_or values pos 0 in
    let at : ℕ = get_or values (suc pos) 0 in
    let rest = sort_down pos (set (set values pos at) (suc pos) before) in
    if ltb at before then rest else values

-- The new values before the sort, and the position of the sample, 0 if it is dropped.
unfoldable pub put_sample : (kbest val : ℕ) → Sampler → List ℕ × ℕ
put_sample kbest val s =
    if ltb s.samplecount kbest
    then (s.values ++ val ∷ [], s.samplecount)
    else if ltb val (get_or s.values (kbest - 1) 0)
    then (set s.values (kbest - 1) val, kbest - 1)
    else (s.values, 0)

unfoldable pub add_sample : (kbest val : ℕ) → Sampler → Sampler
add_sample kbest val s =
    let (values, pos) = put_sample kbest val s in
    record { values = sort_down pos values; samplecount = s.samplecount + 1 }

-- `result = values[0];`
abbrev pub first_value : Option Sampler → Option ℕ
first_value none = none
first_value (some s) = some (get_or s.values 0 0)

-- `(1 + epsilon)*first >= last` in floating point is an argument, and so are the measurements.
module _ (within_epsilon : (first last : ℕ) → Bool) (kbest maxsamples : ℕ) where
  unfoldable pub has_converged : Sampler → Bool
  has_converged s =
      leb kbest s.samplecount
      && within_epsilon (get_or s.values 0 0) (get_or s.values (kbest - 1) 0)

  -- The loop, with its rounds; the measurement is that of the next run of the function.
  unfoldable pub sample_loop : ℕ → (cyc : ℕ → ℕ) → Sampler → Option Sampler
  sample_loop zero cyc s = none
  sample_loop (suc n) cyc s =
      let s' = add_sample kbest (cyc s.samplecount) s in
      let rest = sample_loop n cyc s' in
      if not (has_converged s') && ltb s'.samplecount maxsamples then rest else some s'

  unfoldable pub fcyc : ℕ → (cyc : ℕ → ℕ) → Option ℕ
  fcyc n cyc = first_value (sample_loop n cyc init_sampler)
