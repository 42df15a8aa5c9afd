-- ===== src/Bits/Lengths.antt =====
-- `howManyBits` of LAB1_datalab/bits.c.
use mathlib.Core.Path.{subst}
use native.Mathlib.Decide.{dec_lt}
use cmu_15_213_intro_to_comp.Prelude.{
  ℕ, ◌-◌, ◌*◌, ◌^◌, ◌≤◌, ◌<◌, ◌≡◌, ◌⊎◌, ◌↔◌, inl, inr, refl, ◌∙◌, true, ltb, ◌==◌, if◌then◌else◌,
  arith, Bool-cases, two_pow-lt, ltb→lt, bit_and-zero, zero-bit_and, bit_or-zero, bit_and_ones,
  two_pow_split,
}
use cmu_15_213_intro_to_comp.Bits.{
  complement, spread, without_sign, count_zeros, select_length, how_many_bits,
}
use cmu_15_213_intro_to_comp.Bits.Puzzles.{ones-bit_and, sar_sign}
use cmu_15_213_intro_to_comp.Bits.Zeros.{Left, count_zeros-Left}

-- A non-negative word of the same length.
abbrev pub magnitude_bits : ℕ → ℕ
magnitude_bits x = if ltb x (2 ^ 31) then x else 2 ^ 32 - 1 - x

without_sign-double : (x : ℕ) → x < 2 ^ 32 → without_sign x ≡ 2 * magnitude_bits x
unfolding without_sign spread
without_sign-double x h = elim (Bool-cases (ltb x (2 ^ 31))) [
  | inl e ↦ rw (sar_sign x h, e) (ground (arith, ones-bit_and 32 x h, zero-bit_and (complement x)))
  | inr e ↦
      rw (sar_sign x h, e)
        (ground (arith, ones-bit_and 32 (complement x) (omega arith), zero-bit_and x))
]

-- The length is the least that the magnitude and a sign fit.
record IsLength (m n : ℕ) : Type 0 where
  some_bit : 1 ≤ n
  enough : m < 2 ^ (n - 1)
  least : (n ≡ 1) ⊎ ((2 ≤ n) × (2 ^ (n - 2) ≤ m))

-- The masks at the end choose one of the three results.
select_length-if :
    (r y : ℕ)
    → y < 2 ^ 32
    → select_length r y ≡ (if y == 0 then 1 else if ltb y (2 ^ 31) then 32 - r else 32)
unfolding select_length spread
select_length-if r y h = elim (Bool-cases (y == 0)) [
  | inl null ↦
      let low : ltb y (2 ^ 31) ≡ true = ground arith in
      rw (bit_or-zero y, sar_sign y h, null, low)
        (ground (arith, bit_and-zero (32 - r), bit_and_ones 32 (32 - r) (omega arith)))
  | inr other ↦ elim (Bool-cases (ltb y (2 ^ 31))) [
    | inl low ↦
        rw (bit_or-zero y, sar_sign y h, other, low)
          (ground (arith, bit_and_ones 32 (32 - r) (omega arith), bit_or-zero (32 - r)))
    | inr high ↦
        rw (bit_or-zero y, sar_sign y h, other, high)
          (ground (arith, bit_and-zero (32 - r), zero-bit_and 0xffff_ffff))
  ]
]

two_pow-le : (j k : ℕ) → j ≤ k → 2 ^ j ≤ 2 ^ k
two_pow-le j k h = elim (dec_lt j k) [
  | yes p ↦ omega (arith, two_pow-lt j k p)
  | no p ↦ let same : j ≡ k = omega arith in rw same (omega arith)
]

two_pow_double : (k : ℕ) → 1 ≤ k → 2 ^ k ≡ 2 * 2 ^ (k - 1)
two_pow_double k h =
    two_pow_split (k - 1) k (omega arith) ∙ (let one : k - (k - 1) ≡ 1 = omega arith in rw one refl)

Left-IsLength : (m r : ℕ) → 2 * m < 2 ^ 31 → Left (2 * m) r 1 → IsLength m (32 - r)
Left-IsLength m r low left =
    let f = left.fits in
    let below = left.below in
    let above = left.above in
    let d = two_pow_double (32 - r) (omega arith) in
    record {
      some_bit = omega arith;
      enough = omega arith;
      least = elim (dec_lt r 31) [
        | yes p ↦
            let e = two_pow_double (32 - r - 1) (omega arith) in
            let same : 32 - r - 1 - 1 ≡ 32 - r - 2 = omega arith in
            inr (omega arith, subst (λ k. 2 ^ k ≤ m) same (omega arith))
        | no p ↦ inl (omega arith)
      ];
    }

how_many_bits-IsLength : (x : ℕ) → x < 2 ^ 32 → IsLength (magnitude_bits x) (how_many_bits x)
unfolding how_many_bits
how_many_bits-IsLength x h =
    let m = magnitude_bits x in
    let small : m < 2 ^ 31 = ground arith in
    rw (without_sign-double x h, select_length-if (count_zeros (2 * m)) (2 * m) (omega arith))
      (by_tests m small)
  where
    by_tests :
        (m : ℕ)
        → m < 2 ^ 31
        → IsLength m (
            if 2 * m == 0 then 1 else if ltb (2 * m) (2 ^ 31) then 32 - count_zeros (2 * m) else 32)
    by_tests m small = elim (Bool-cases (2 * m == 0)) [
      | inl null ↦
          let zero_m : m ≡ 0 = ground arith in
          rw null (record { some_bit = omega arith; enough = omega arith; least = inl refl })
      | inr other ↦ elim (Bool-cases (ltb (2 * m) (2 ^ 31))) [
        | inl low ↦
            let pos : 0 < 2 * m = ground arith in
            rw (other, low)
              (Left-IsLength m (count_zeros (2 * m)) (ltb→lt (2 * m) (2 ^ 31) low)
                (count_zeros-Left (2 * m) pos (omega arith)))
        | inr high ↦
            let large : 2 ^ 30 ≤ m = ground arith in
            rw (other, high)
              (record {
                some_bit = omega arith;
                enough = omega arith;
                least = inr (omega arith, omega arith);
              })
      ]
    ]

-- HowManyBits of a word is at most k, for every k from 1 on, exactly if k bits hold the word in
-- two's complement, that is if the word, or its complement if it is negative, is below 2 ^ (k -
-- 1).
pub how_many_bits-least :
    (x k : ℕ) → x < 2 ^ 32 → 1 ≤ k → (how_many_bits x ≤ k) ↔ (magnitude_bits x < 2 ^ (k - 1))
how_many_bits-least x k h pos = let length = how_many_bits-IsLength x h in (to length, from length)
  where
    to :
        IsLength (magnitude_bits x) (how_many_bits x)
        → how_many_bits x ≤ k
        → magnitude_bits x < 2 ^ (k - 1)
    to length le =
        let e = length.enough in
        omega (arith, e, two_pow-le (how_many_bits x - 1) (k - 1) (omega arith))

    from :
        IsLength (magnitude_bits x) (how_many_bits x)
        → magnitude_bits x < 2 ^ (k - 1)
        → how_many_bits x ≤ k
    from length lt = elim length.least [
      | inl one ↦ omega arith
      | inr (two, le) ↦ elim (dec_lt k (how_many_bits x)) [
        | yes more ↦ absurd (omega (arith, two_pow-le (k - 1) (how_many_bits x - 2) (omega arith)))
        | no few ↦ omega arith
      ]
    ]
