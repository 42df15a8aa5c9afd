-- ===== src/Bits/Tests.antt =====
-- Runs of the puzzles of LAB1_datalab/bits.c, and the theorems about them at concrete words.
use cmu_15_213_intro_to_comp.Prelude.{◌≡◌, ◌↔◌, ◌≤◌, ◌<◌, ◌-◌, ◌^◌, refl, arith, some}
use cmu_15_213_intro_to_comp.Bits.{
  third_bits, any_odd_bit, bit_parity, pack, halve_frac, float_half, float_f2i, how_many_bits,
  select_length, without_sign, count_zeros, zero_above, spread_by, spread,
}
use cmu_15_213_intro_to_comp.Bits.Lengths.{magnitude_bits, how_many_bits-least}
use cmu_15_213_intro_to_comp.Bits.Floats.{
  magnitude, sign_of, float_half-magnitude, float_half-special,
}
use cmu_15_213_intro_to_comp.Bits.Truncate.{float_f2i-cases}

every_third : third_bits ≡ 0x4924_9249
unfolding third_bits
every_third = refl

odd_of_5_and_7 : (any_odd_bit 5 ≡ 0) × (any_odd_bit 7 ≡ 1)
unfolding any_odd_bit
odd_of_5_and_7 = (refl, refl)

parity_of_5_and_7 : (bit_parity 5 ≡ 0) × (bit_parity 7 ≡ 1)
unfolding bit_parity
parity_of_5_and_7 = (refl, refl)

-- 1.5 and -2.0, in words.
half_of_one_and_a_half : float_half 0x3fc0_0000 ≡ 0x3f40_0000
unfolding float_half pack halve_frac
half_of_one_and_a_half = refl

integer_of_minus_two : float_f2i 0xc000_0000 ≡ some 0xffff_fffe
unfolding float_f2i
integer_of_minus_two = refl

float_half-magnitude_example :
    (magnitude (float_half 0x80_0003) ≡ 0x40_0002) × (sign_of (float_half 0x80_0003) ≡ 0)
float_half-magnitude_example =
    float_half-magnitude 0x80_0003 (omega arith) (omega arith) (λ h. absurd (omega (arith, h)))

float_half-special_example : float_half 0x7fc0_0001 ≡ 0x7fc0_0001
float_half-special_example = float_half-special 0x7fc0_0001 (omega arith) refl

float_f2i-cases_example : float_f2i 0xc000_0000 ≡ some 0xffff_fffe
float_f2i-cases_example = float_f2i-cases 0xc000_0000 (omega arith)

-- The examples of the comment above howManyBits.
bits_of_positive : (how_many_bits 12 ≡ 5) × (how_many_bits 298 ≡ 10) × (how_many_bits 0 ≡ 1)
unfolding how_many_bits select_length without_sign count_zeros zero_above spread_by spread
bits_of_positive = (refl, refl, refl)

bits_of_negative :
    (how_many_bits 0xffff_fffb ≡ 4)
    × (how_many_bits 0xffff_ffff ≡ 1)
    × (how_many_bits 0x8000_0000 ≡ 32)
unfolding how_many_bits select_length without_sign count_zeros zero_above spread_by spread
bits_of_negative = (refl, refl, refl)

how_many_bits-least_example :
    (how_many_bits 0xffff_fffb ≤ 3) ↔ (magnitude_bits 0xffff_fffb < 2 ^ (3 - 1))
how_many_bits-least_example = how_many_bits-least 0xffff_fffb 3 (omega arith) (omega arith)
