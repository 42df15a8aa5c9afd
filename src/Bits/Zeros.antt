-- ===== src/Bits/Zeros.antt =====
-- The binary search of `howManyBits` in LAB1_datalab/bits.c, with `count_zeros` zeros on the left.
use mathlib.Core.Path.{subst}
use native.Mathlib.Decide.{dec_lt}
use native.Mathlib.Nat.{div-eq_of_lt, le-div_iff_mul-le}
use cmu_15_213_intro_to_comp.Prelude.{
  ℕ, ◌+◌, ◌-◌, ◌/◌, ◌^◌, ◌≤◌, ◌<◌, ◌≡◌, inl, inr, refl, Bool, true, false, List, [], ◌∷◌, ltb, ◌==◌,
  if◌then◌else◌, bit_and, arith, Bool-cases, two_pow-pos, two_pow-lt, ltb→lt,
}
use cmu_15_213_intro_to_comp.Bits.{sar, logical_not, spread_by, zero_above, count_zeros}

-- The lengths that are still possible, `n` of them, once `r` zeros are known.
pub record Left (y r n : ℕ) : Type 0 where
  pub below : y < 2 ^ (32 - r)
  pub above : 2 ^ (32 - r - n) ≤ y
  pub fits : r + n ≤ 32

two_pow-le31 : (k : ℕ) → k ≤ 31 → 2 ^ k ≤ 2 ^ 31
two_pow-le31 k h = elim (dec_lt k 31) [
  | yes p ↦ omega (arith, two_pow-lt k 31 p)
  | no p ↦ let same : k ≡ 31 = omega arith in rw same (omega arith)
]

-- The test `!(y >> k)`.
not_shifted : (y k : ℕ) → k ≤ 31 → logical_not (sar y k) ≡ (if ltb y (2 ^ k) then 1 else 0)
not_shifted y k hk = elim (Bool-cases (ltb y (2 ^ k))) [
  | inl small ↦
      let below : y < 2 ^ k = ltb→lt y (2 ^ k) small in
      let low : ltb y (2 ^ 31) ≡ true = ground (arith, two_pow-le31 k hk) in
      rw (small, low, div-eq_of_lt below)
  | inr large ↦
      let above : 2 ^ k ≤ y = ground (arith) in
      let one : 1 ≤ y / 2 ^ k = (le-div_iff_mul-le (two_pow-pos k)).1 (omega arith) in
      let other : (sar y k == 0) ≡ false = ground arith in rw (large, other)
]

-- One step of the search.
masked :
    (shifts : List ℕ) (y k c : ℕ)
    → k ≤ 31
    → bit_and (spread_by shifts 1) c ≡ c
    → bit_and (spread_by shifts 0) c ≡ 0
    → bit_and (zero_above shifts y k) c ≡ (if ltb y (2 ^ k) then c else 0)
unfolding zero_above
masked shifts y k c hk all none_left = rw (not_shifted y k hk) (by_test (ltb y (2 ^ k)))
  where
    by_test : (b : Bool) → bit_and (spread_by shifts (if b then 1 else 0)) c ≡ (if b then c else 0)
    by_test true = all
    by_test false = none_left

Left-step :
    (shifts : List ℕ) (y r k c : ℕ)
    → Left y r (c + c)
    → k + r + c ≡ 32
    → 0 < r + c
    → bit_and (spread_by shifts 1) c ≡ c
    → bit_and (spread_by shifts 0) c ≡ 0
    → Left y (r + bit_and (zero_above shifts y k) c) c
Left-step shifts y r k c left total pos all none_left =
    rw (masked shifts y k c (omega arith) all none_left) (by_test (ltb y (2 ^ k)) refl)
  where
    by_test : (b : Bool) → ltb y (2 ^ k) ≡ b → Left y (r + (if b then c else 0)) c
    by_test true e = record {
      below = let same : 32 - (r + c) ≡ k = omega arith in rw same (ltb→lt y (2 ^ k) e);
      above = let same : 32 - (r + c) - c ≡ 32 - r - (c + c) = omega arith in rw same left.above;
      fits = let f = left.fits in omega arith;
    }
    by_test false e = record {
      below = let same : r + 0 ≡ r = omega arith in rw same left.below;
      above =
          let same : 32 - (r + 0) - c ≡ k = omega arith in
          let le : 2 ^ k ≤ y = ground arith in rw same le;
      fits = let f = left.fits in omega arith;
    }

-- The search ends with the number of zeros on the left.
pub count_zeros-Left : (y : ℕ) → 0 < y → y < 2 ^ 32 → Left y (count_zeros y) 1
unfolding count_zeros
count_zeros-Left y pos h =
    let start : Left y 0 32 = record { below = h; above = omega arith; fits = omega arith } in
    let r1 = bit_and (zero_above (1 ∷ 2 ∷ 4 ∷ 8 ∷ []) y 16) 16 in
    let s1 : Left y r1 16 =
      let none_yet : 0 + r1 ≡ r1 = omega arith in
      subst (λ r. Left y r 16) none_yet
        (Left-step (1 ∷ 2 ∷ 4 ∷ 8 ∷ []) y 0 16 16 start refl (omega arith)
          (unfold spread_by in refl) (unfold spread_by in refl)) in
    let f1 = s1.fits in
    let r2 = r1 + bit_and (zero_above (1 ∷ 2 ∷ 4 ∷ []) y (24 - r1)) 8 in
    let s2 : Left y r2 8 =
      Left-step (1 ∷ 2 ∷ 4 ∷ []) y r1 (24 - r1) 8 s1 (omega arith) (omega arith)
        (unfold spread_by in refl) (unfold spread_by in refl) in
    let f2 = s2.fits in
    let r3 = r2 + bit_and (zero_above (1 ∷ 2 ∷ []) y (28 - r2)) 4 in
    let s3 : Left y r3 4 =
      Left-step (1 ∷ 2 ∷ []) y r2 (28 - r2) 4 s2 (omega arith) (omega arith)
        (unfold spread_by in refl) (unfold spread_by in refl) in
    let f3 = s3.fits in
    let r4 = r3 + bit_and (zero_above (1 ∷ []) y (30 - r3)) 2 in
    let s4 : Left y r4 2 =
      Left-step (1 ∷ []) y r3 (30 - r3) 2 s3 (omega arith) (omega arith) (unfold spread_by in refl)
        (unfold spread_by in refl) in
    let f4 = s4.fits in
    Left-step [] y r4 (31 - r4) 1 s4 (omega arith) (omega arith) (unfold spread_by in refl)
      (unfold spread_by in refl)
