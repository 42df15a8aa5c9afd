-- ===== src/Bits/Truncate.antt =====
-- `float_f2i` of LAB1_datalab/bits.c.
use cmu_15_213_intro_to_comp.Prelude.{
  ℕ, ◌+◌, ◌-◌, ◌*◌, ◌/◌, ◌%◌, ◌^◌, ◌≤◌, ◌<◌, ◌≡◌, inl, inr, false, bit_or, ltb, leb, ◌==◌,
  if◌then◌else◌, arith, none, some, Bool-cases, bit_or_fields, bit_and_mask, two_pow-pos,
  two_pow_split, bit_or-zero,
}
use native.Mathlib.Nat.{div-eq_of_lt, div-le_self, mul-div-mul_right}
use cmu_15_213_intro_to_comp.Bits.{float_f2i}
use cmu_15_213_intro_to_comp.Bits.Puzzles.{sign_bit}
use cmu_15_213_intro_to_comp.Bits.Floats.{sign_of, exp_of, frac_of, magnitude}

or_implicit_bit : (f : ℕ) → f < 2 ^ 23 → bit_or f (2 ^ 23) ≡ 2 ^ 23 + f
or_implicit_bit f h = ground (arith, bit_or_fields 23 0 f 1 0, bit_or-zero f)

magnitude_shift : (a e : ℕ) → 1 ≤ e → e ≤ 150 → a * 2 ^ (e - 1) / 2 ^ 149 ≡ a / 2 ^ (150 - e)
magnitude_shift a e h h' =
    let n : 149 - (e - 1) ≡ 150 - e = omega arith in
    rw (two_pow_split (e - 1) 149 (omega arith), n)
      (mul-div-mul_right a (2 ^ (150 - e)) (two_pow-pos (e - 1)))

-- Below 1.
magnitude_small : (w : ℕ) → exp_of w < 127 → magnitude w / 2 ^ 149 ≡ 0
magnitude_small w h = elim (Bool-cases (exp_of w == 0)) [
  | inl e ↦ rw e (div-eq_of_lt (omega arith))
  | inr e ↦
      rw (e, magnitude_shift (2 ^ 23 + frac_of w) (exp_of w) (ground arith) (omega arith))
        (div-eq_of_lt (
          omega (
            arith,
            two_pow_split 24 (150 - exp_of w) (omega arith),
            two_pow-pos (150 - exp_of w - 24),
          )))
]

float_f2i-trunc :
    (uf : ℕ)
    → uf < 2 ^ 32
    → exp_of uf ≤ 150
    → float_f2i uf
      ≡ some (
          if sign_of uf == 0
          then magnitude uf / 2 ^ 149
          else (2 ^ 32 - magnitude uf / 2 ^ 149) % 2 ^ 32)
unfolding float_f2i
float_f2i-trunc uf h he =
    rw (bit_and_mask 8 (uf / 2 ^ 23), bit_and_mask 23 uf, sign_bit uf h)
      (elim (Bool-cases (ltb (exp_of uf) 127)) [
        | inl lo ↦ rw (lo, magnitude_small uf (ground arith)) (ground arith)
        | inr lo ↦
            let nz : (exp_of uf == 0) ≡ false = ground arith in
            rw
              (
                lo,
                nz,
                magnitude_shift (2 ^ 23 + frac_of uf) (exp_of uf) (ground arith) (omega arith),
                or_implicit_bit (frac_of uf) (omega arith),
              )
              (ground (arith, div-le_self (2 ^ 23 + frac_of uf) (2 ^ (150 - exp_of uf))))
      ])

float_f2i_big :
    (uf : ℕ)
    → 151 ≤ exp_of uf
    → float_f2i uf ≡ (if leb 158 (exp_of uf) then some 0x8000_0000 else none)
unfolding float_f2i
float_f2i_big uf h = rw (bit_and_mask 8 (uf / 2 ^ 23)) (ground arith)

-- float_f2i of any float is 0x80000000 for an exponent field of at least 158, an undefined shift
-- for 151 to 157, and otherwise its magnitude truncated to an integer, with its sign in 32-bit
-- two's complement.
pub float_f2i-cases :
    (uf : ℕ)
    → uf < 2 ^ 32
    → float_f2i uf ≡ (
        if leb 158 (exp_of uf)
        then some 0x8000_0000
        else if leb 151 (exp_of uf)
        then none
        else some (
            if sign_of uf == 0
            then magnitude uf / 2 ^ 149
            else (2 ^ 32 - magnitude uf / 2 ^ 149) % 2 ^ 32))
float_f2i-cases uf h = elim (Bool-cases (leb 151 (exp_of uf))) [
  | inl big ↦ rw (big, float_f2i_big uf (ground arith)) (ground arith)
  | inr small ↦
      let below : leb 158 (exp_of uf) ≡ false = ground arith in
      rw (small, below) (float_f2i-trunc uf h (ground arith))
]
