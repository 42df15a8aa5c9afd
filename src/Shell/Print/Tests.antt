-- ===== src/Shell/Print/Tests.antt =====
-- Numbers that `sio_ltoa` of LAB5_tshlab/tsh.c prints, and the theorems about it at concrete texts.
use cmu_15_213_intro_to_comp.Prelude.{◌≡◌, refl, arith, length, [], ◌∷◌}
use cmu_15_213_intro_to_comp.Prelude.Int.{pos, negsuc}
use cmu_15_213_intro_to_comp.Shell.Print.{
  reverse_from, sio_reverse, digit_char, negative_char, ltoa_loop, sio_ltoa, sio_strlen,
}
use cmu_15_213_intro_to_comp.Shell.Print.Digits.{number_from, number-sio_ltoa}

prints_120 : sio_ltoa (pos 120) 10 ≡ b'1' ∷ b'2' ∷ b'0' ∷ []
unfolding sio_ltoa sio_reverse reverse_from ltoa_loop digit_char
prints_120 = refl

-- -5 comes out as a plus sign.
prints_minus_5 : sio_ltoa (negsuc 4) 10 ≡ b'+' ∷ []
unfolding sio_ltoa sio_reverse reverse_from negative_char
prints_minus_5 = refl

stops_at_nul : sio_strlen (b'a' ∷ b'b' ∷ 0 ∷ b'c' ∷ []) ≡ 2
unfolding sio_strlen
stops_at_nul = refl

number-sio_ltoa_example :
    (number_from 16 0 (sio_ltoa (pos 255) 16) ≡ 255) × (length (sio_ltoa (negsuc 255) 16) ≡ 1)
number-sio_ltoa_example = number-sio_ltoa 255 16 (omega arith) (omega arith)
