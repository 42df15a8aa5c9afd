-- ===== src/Timer/Ends.antt =====
-- `fcyc` of LAB6_malloclab/fcyc.c ends and returns its smallest measurement.
use mathlib.Core.Path.{subst}
use native.Mathlib.Decide.{dec_lt}
use cmu_15_213_intro_to_comp.Prelude.{
  ℕ, zero, suc, ◌+◌, ◌-◌, ◌≤◌, ◌<◌, ◌≡◌, refl, sym, ap, ◌∙◌, Bool, true, false, not, ◌&&◌, ◌||◌,
  some, List, [], ◌∷◌, ltb, leb, if◌then◌else◌, length, get_or, take, arith, Bool-cases, inl, inr,
  ltb→lt,
}
use cmu_15_213_intro_to_comp.Timer.{
  Sampler, init_sampler, add_sample, has_converged, sample_loop, first_value, fcyc,
}
use cmu_15_213_intro_to_comp.Timer.Sort.{insert, sorted, length-sorted}
use cmu_15_213_intro_to_comp.Timer.Best.{Keeps, add_sample-Keeps}

-- The first measurements, the last one first.
abbrev pub measured : (cyc : ℕ → ℕ) → (n : ℕ) → List ℕ
measured cyc zero = []
measured cyc (suc n) = cyc n ∷ measured cyc n

length-measured : (cyc : ℕ → ℕ) (n : ℕ) → length (measured cyc n) ≡ n
length-measured cyc zero = refl
length-measured cyc (suc n) = ap suc (length-measured cyc n)

-- The smallest of the first measurements.
pub record IsLeast (cyc : ℕ → ℕ) (n r : ℕ) : Type 0 where
  pub below : (i : ℕ) → i < n → r ≤ cyc i
  pub at : ℕ
  pub at_bound : at < n
  pub at_value : cyc at ≡ r

and_right : (a b : Bool) → (a && b) ≡ true → b ≡ true
and_right true b h = h
and_right false b h = absurd (cc h)

head-insert :
    (x : ℕ) (ys : List ℕ)
    → 0 < length ys
    → get_or (insert x ys) 0 0 ≡ (if ltb x (get_or ys 0 0) then x else get_or ys 0 0)
head-insert x [] h = absurd (omega arith)
head-insert x (y ∷ ys) h = ground arith

IsLeast-next :
    (cyc : ℕ → ℕ) (n r : ℕ)
    → IsLeast cyc n r
    → IsLeast cyc (suc n) (if ltb (cyc n) r then cyc n else r)
IsLeast-next cyc n r least = elim (Bool-cases (ltb (cyc n) r)) [
  | inl e ↦ rw e (record {
    below = λ i h. elim (dec_lt i n) [
      | yes p ↦ let b = least.below i p in ground arith
      | no p ↦ let same : i ≡ n = omega arith in rw same (omega arith)
    ];
    at = n;
    at_bound = omega arith;
    at_value = refl;
  })
  | inr e ↦ rw e (record {
    below = λ i h. elim (dec_lt i n) [
      | yes p ↦ least.below i p
      | no p ↦ let same : i ≡ n = omega arith in rw same (ground arith)
    ];
    at = least.at;
    at_bound = let b = least.at_bound in omega arith;
    at_value = least.at_value;
  })
]

head-IsLeast :
    (cyc : ℕ → ℕ) (n : ℕ) → IsLeast cyc (suc n) (get_or (sorted (measured cyc (suc n))) 0 0)
head-IsLeast cyc zero = record {
  below = λ i h. let same : i ≡ 0 = omega arith in rw same (omega arith);
  at = 0;
  at_bound = omega arith;
  at_value = refl;
}
head-IsLeast cyc (suc n) =
    rw
      (head-insert (cyc (suc n)) (sorted (measured cyc (suc n)))
        (omega (arith, length-sorted (measured cyc (suc n)))))
      (IsLeast-next cyc (suc n) _ (head-IsLeast cyc n))

get_or-take : (k i : ℕ) (xs : List ℕ) → i < k → get_or (take k xs) i 0 ≡ get_or xs i 0
get_or-take zero i xs h = absurd (omega arith)
get_or-take (suc k) i [] h = refl
get_or-take (suc k) zero (x ∷ xs) h = refl
get_or-take (suc k) (suc i) (x ∷ xs) h = get_or-take k i xs (omega arith)

module _ (within_epsilon : (first last : ℕ) → Bool) (kbest maxsamples : ℕ) where
  -- The smallest of the first n measurements is close enough to the kbest-th smallest of them.
  abbrev pub close_enough : (cyc : ℕ → ℕ) → (n : ℕ) → Bool
  close_enough cyc n =
      let best = sorted (measured cyc n) in
      leb kbest n && within_epsilon (get_or best 0 0) (get_or best (kbest - 1) 0)

  -- Enough measurements are taken.
  abbrev pub is_enough : (cyc : ℕ → ℕ) → (n : ℕ) → Bool
  is_enough cyc n = close_enough cyc n || leb maxsamples n

  -- The first number of measurements beyond the start that is enough.
  pub record IsFirst (cyc : ℕ → ℕ) (start n : ℕ) : Type 0 where
    pub more : start < n
    pub enough : is_enough cyc n ≡ true
    pub before : (j : ℕ) → start < j → j < n → is_enough cyc j ≡ false

  converged_lem :
      (cyc : ℕ → ℕ) (s : Sampler)
      → 0 < kbest
      → Keeps kbest (measured cyc s.samplecount) s
      → has_converged within_epsilon kbest maxsamples s ≡ close_enough cyc s.samplecount
  unfolding has_converged
  converged_lem cyc s pos keeps =
      let best = sorted (measured cyc s.samplecount) in
      rw
        (keeps.best, get_or-take kbest 0 best pos, get_or-take kbest (kbest - 1) best (omega arith))
        refl

  again_not_enough :
      (converged : Bool) (n : ℕ)
      → (not converged && ltb n maxsamples) ≡ true
      → (converged || leb maxsamples n) ≡ false
  again_not_enough true n h = absurd (cc h)
  again_not_enough false n h = ground arith

  stop_enough :
      (converged : Bool) (n : ℕ)
      → (not converged && ltb n maxsamples) ≡ false
      → (converged || leb maxsamples n) ≡ true
  stop_enough true n h = refl
  stop_enough false n h = ground arith

  IsFirst-later :
      (cyc : ℕ → ℕ) (start n : ℕ)
      → is_enough cyc (suc start) ≡ false
      → IsFirst cyc (suc start) n
      → IsFirst cyc start n
  IsFirst-later cyc start n not_yet first = record {
    more = let m = first.more in omega arith;
    enough = first.enough;
    before = λ j lo hi. elim (dec_lt (suc start) j) [
      | yes p ↦ first.before j p hi
      | no p ↦ let same : j ≡ suc start = omega arith in rw same not_yet
    ];
  }

  sample_loop-IsFirst :
      (n : ℕ) (cyc : ℕ → ℕ) (s : Sampler)
      → 0 < kbest
      → Keeps kbest (measured cyc s.samplecount) s
      → maxsamples < s.samplecount + n
      → 0 < n
      → (s' : Sampler) × ((sample_loop within_epsilon kbest maxsamples n cyc s ≡ some s')
          × Keeps kbest (measured cyc s'.samplecount) s'
          × IsFirst cyc s.samplecount s'.samplecount)
  unfolding sample_loop
  sample_loop-IsFirst zero cyc s pos keeps fuel some_round = absurd (omega arith)
  sample_loop-IsFirst (suc n) cyc s pos keeps fuel some_round =
      let s' = add_sample kbest (cyc s.samplecount) s in
      let count : s'.samplecount ≡ suc s.samplecount = unfold add_sample in omega arith in
      let keeps' : Keeps kbest (measured cyc s'.samplecount) s' =
        subst (λ k. Keeps kbest (measured cyc k) s') (sym count)
          (add_sample-Keeps kbest (cyc s.samplecount) (measured cyc s.samplecount) s pos keeps) in
      let converged = has_converged within_epsilon kbest maxsamples s' in
      let met : converged ≡ close_enough cyc s'.samplecount = converged_lem cyc s' pos keeps' in
      elim (Bool-cases (not converged && ltb s'.samplecount maxsamples)) [
        | inl again ↦
            let few : s'.samplecount < maxsamples =
              ltb→lt s'.samplecount maxsamples (and_right (not converged) _ again) in
            let (s'', (result, kept, first)) =
              sample_loop-IsFirst n cyc s' pos keeps' (omega arith) (omega arith) in
            let not_yet : is_enough cyc s'.samplecount ≡ false =
              subst (λ b. (b || leb maxsamples s'.samplecount) ≡ false) met
                (again_not_enough converged s'.samplecount again) in
            (
              s'',
              (
                rw again result,
                kept,
                IsFirst-later cyc s.samplecount s''.samplecount
                    (subst (λ k. is_enough cyc k ≡ false) count not_yet)
                    (subst (λ k. IsFirst cyc k s''.samplecount) count first),
              ),
            )
        | inr stop ↦ (
          s',
          (
            rw stop refl,
            keeps',
            record {
              more = omega arith;
              enough =
                  subst (λ b. (b || leb maxsamples s'.samplecount) ≡ true) met
                    (stop_enough converged s'.samplecount stop);
              before = λ j lo hi. absurd (omega arith);
            },
          ),
        )
      ]

  Keeps-IsLeast :
      (cyc : ℕ → ℕ) (n : ℕ) (s : Sampler)
      → 0 < kbest
      → 0 < n
      → Keeps kbest (measured cyc n) s
      → IsLeast cyc n (get_or s.values 0 0)
  Keeps-IsLeast cyc zero s pos some_run keeps = absurd (omega arith)
  Keeps-IsLeast cyc (suc n) s pos some_run keeps =
      subst (IsLeast cyc (suc n))
        (sym (
          ap (λ (t : List ℕ). get_or t 0 0) keeps.best
          ∙ get_or-take kbest 0 (sorted (measured cyc (suc n))) pos))
        (head-IsLeast cyc n)

  -- With at least one value to keep, fcyc ends within maxsamples rounds and one more and returns
  -- the smallest of the first k measurements, where k is the first number from 1 on for which
  -- there are kbest measurements with the smallest close enough to the kbest-th smallest, or
  -- maxsamples of them.
  pub fcyc_ends :
      (n : ℕ) (cyc : ℕ → ℕ)
      → 0 < kbest
      → maxsamples < n
      → (k : ℕ) × (r : ℕ) × ((fcyc within_epsilon kbest maxsamples n cyc ≡ some r)
          × (IsFirst cyc 0 k × IsLeast cyc k r))
  unfolding fcyc
  fcyc_ends n cyc pos fuel =
      let (s, (result, kept, first)) =
        sample_loop-IsFirst n cyc init_sampler pos (record { best = nothing kbest; count = refl })
          (omega arith) (omega arith) in
      (
        s.samplecount,
        get_or s.values 0 0,
        (
          ap first_value result,
          (first, Keeps-IsLeast cyc s.samplecount s pos (let m = first.more in omega arith) kept),
        ),
      )
    where
      nothing : (k : ℕ) → ◌≡◌ {A = List ℕ} [] (take k [])
      nothing zero = refl
      nothing (suc k) = refl
