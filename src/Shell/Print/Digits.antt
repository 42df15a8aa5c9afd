-- ===== src/Shell/Print/Digits.antt =====
-- `sio_ltoa` of LAB5_tshlab/tsh.c prints a number in the base.
use mathlib.Core.List.{reverse, reverse-append}
use native.Mathlib.Nat.{div-add-mod, div-lt_self, mod-lt, mul_comm, zero-div}
use cmu_15_213_intro_to_comp.Prelude.{
  ℕ, zero, suc, ◌+◌, ◌-◌, ◌*◌, ◌/◌, ◌%◌, ◌≡◌, ◌≤◌, ◌<◌, refl, ap, ◌∙◌, false, List, [], ◌∷◌, ◌++◌,
  ltb, ◌==◌, if◌then◌else◌, arith, length, Bool-cases, inl, inr,
}
use cmu_15_213_intro_to_comp.Prelude.Int.{pos, negsuc}
use cmu_15_213_intro_to_comp.Shell.Print.{
  digit_char, ltoa_loop, sio_ltoa, sio_reverse, reverse_from,
}
use cmu_15_213_intro_to_comp.Shell.Print.Reverse.{sio_reverse-reverse}

-- The digit of a character.
unfoldable pub digit_of : ℕ → ℕ
digit_of c = if ltb c b'a' then c - b'0' else c - b'a' + 10

-- The number that the digits stand for, the first digit the highest.
unfoldable pub number_from : (b acc : ℕ) → List ℕ → ℕ
number_from b acc [] = acc
number_from b acc (c ∷ cs) = number_from b (acc * b + digit_of c) cs

digit_of-char : (d : ℕ) → d < 36 → digit_of (digit_char d) ≡ d
unfolding digit_of digit_char
digit_of-char d h = ground arith

number_from-snoc :
    (b acc c : ℕ) (cs : List ℕ)
    → number_from b acc (cs ++ c ∷ []) ≡ number_from b acc cs * b + digit_of c
unfolding number_from
number_from-snoc b acc c [] = refl
number_from-snoc b acc c (d ∷ cs) = number_from-snoc b (acc * b + digit_of d) c cs

number_from-reverse :
    (b c : ℕ) (cs : List ℕ)
    → number_from b 0 (reverse (c ∷ cs)) ≡ number_from b 0 (reverse cs) * b + digit_of c
number_from-reverse b c cs =
    ap (number_from b 0) (reverse-append (c ∷ []) cs) ∙ number_from-snoc b 0 c (reverse cs)

smaller : (n v b : ℕ) → 2 ≤ b → v < suc n → (v / b == 0) ≡ false → v / b < n
smaller n zero b lo h e = absurd (ground (arith, zero-div b))
smaller n (suc v) b lo h e = omega (arith, div-lt_self {n = suc v} {k = b} (omega arith) lo)

number-ltoa_loop :
    (n v b : ℕ) → 2 ≤ b → b ≤ 36 → v < n → number_from b 0 (reverse (ltoa_loop n v b)) ≡ v
unfolding ltoa_loop
number-ltoa_loop zero v b lo hi h = absurd (omega arith)
number-ltoa_loop (suc n) v b lo hi h =
    let rest : List ℕ = if v / b == 0 then [] else ltoa_loop n (v / b) b in
    let higher : number_from b 0 (reverse rest) ≡ v / b = elim (Bool-cases (v / b == 0)) [
      | inl e ↦ rw e (unfold number_from in ground arith)
      | inr e ↦ rw e (number-ltoa_loop n (v / b) b lo hi (smaller n v b lo h e))
    ] in
    number_from-reverse b (digit_char (v % b)) rest
    ∙ rw (higher, digit_of-char (v % b) (omega (arith, mod-lt v {m = b} (omega arith))))
        (ap (λ (t : ℕ). t + v % b) (mul_comm (v / b) b) ∙ div-add-mod v b)

-- In every base from 2 to 36 the digits that sio_ltoa writes for a number from 0 on stand for
-- that number; for a negative number it writes a single character.
pub number-sio_ltoa :
    (v b : ℕ)
    → 2 ≤ b
    → b ≤ 36
    → (number_from b 0 (sio_ltoa (pos v) b) ≡ v) × (length (sio_ltoa (negsuc v) b) ≡ 1)
unfolding sio_ltoa sio_reverse reverse_from
number-sio_ltoa v b lo hi = (
  ap (number_from b 0) (sio_reverse-reverse (ltoa_loop (suc v) v b))
      ∙ number-ltoa_loop (suc v) v b lo hi (omega arith),
  refl,
)
