-- ===== src/Bits/Floats.antt =====
-- `float_half` of LAB1_datalab/bits.c, on a `float` given by the fields of its bit pattern.
use cmu_15_213_intro_to_comp.Prelude.{
  ℕ, zero, suc, ◌+◌, ◌-◌, ◌*◌, ◌/◌, ◌%◌, ◌^◌, ◌≤◌, ◌<◌, ◌≡◌, ◌≢◌, inl, inr, refl, ap, sym, ◌∙◌,
  false, bit_and, bit_or, ◌==◌, if◌then◌else◌, arith, Bool-cases, bit_or_fields, bit_and_mask,
  two_pow-pos, mul-two_pow-suc, bit_or-zero, bit_and_low, zero-bit_or,
}
use native.Mathlib.Nat.{zero-mul}
use cmu_15_213_intro_to_comp.Bits.{pack, halve_frac, float_half}

-- The fields of a bit pattern and the pattern with given fields.
abbrev pub sign_of : ℕ → ℕ
sign_of w = w / 2 ^ 31

abbrev pub exp_of : ℕ → ℕ
exp_of w = w / 2 ^ 23 % 2 ^ 8

abbrev pub frac_of : ℕ → ℕ
frac_of w = w % 2 ^ 23

abbrev pub float : (sign exp frac : ℕ) → ℕ
float sign exp frac = sign * 2 ^ 31 + exp * 2 ^ 23 + frac

-- The magnitude of a finite float in units of 2 ^ -149.
abbrev pub magnitude : ℕ → ℕ
magnitude w = if exp_of w == 0 then frac_of w else (2 ^ 23 + frac_of w) * 2 ^ (exp_of w - 1)

-- Half of a number, rounded to the nearest, to the even one if both are as near.
abbrev pub half_even : ℕ → ℕ
half_even m = m / 2 + (if m % 4 == 3 then 1 else 0)

halve_frac-even : (m : ℕ) → halve_frac m ≡ half_even m
unfolding halve_frac
halve_frac-even m = rw (bit_and_mask 1 (bit_and m (m / 2))) (ground (arith, bit_and_low m (m / 2)))

bit_or_disjoint : (k q r : ℕ) → r < 2 ^ k → bit_or (q * 2 ^ k) r ≡ q * 2 ^ k + r
bit_or_disjoint k q r h =
    ground (
      arith,
      bit_or_fields k q 0 0 r,
      bit_or-zero q,
      zero-bit_or r,
      zero-mul (2 ^ k),
      two_pow-pos k,
    )

pack-float : (s e f : ℕ) → s < 2 → e < 2 ^ 8 → f < 2 ^ 23 → pack s e f ≡ float s e f
unfolding pack
pack-float s e f hs he hf = ground (
  arith,
  zero-bit_or (s * 2 ^ 31),
  bit_or_disjoint 31 s (e * 2 ^ 23),
  bit_or_disjoint 23 (s * 2 ^ 8 + e) f,
)

or_hidden_bit :
    (r : ℕ) → r ≤ 2 ^ 22 → bit_or r (2 ^ 22) ≡ (if r == 2 ^ 22 then 2 ^ 22 else r + 2 ^ 22)
or_hidden_bit r h = elim (Bool-cases (r == 2 ^ 22)) [
  | inl e ↦ let same : r ≡ 2 ^ 22 = ground arith in rw same
  | inr e ↦ rw e (ground (arith, bit_or_fields 22 0 r 1 0, bit_or-zero r))
]

-- `float_half` on the fields.
half_fields : (sign exp frac : ℕ) → ℕ
half_fields s e f =
    if e == 0
    then float s e (half_even f)
    else if e == 0xff
    then float s e f
    else if e == 1
    then float s 0 (if f == 0x7f_ffff then 2 ^ 22 else half_even f + 2 ^ 22)
    else float s (e - 1) f

half_fields-pack :
    (s e f : ℕ)
    → s < 2
    → e < 2 ^ 8
    → f < 2 ^ 23
    → (if e == 0
        then pack s e (halve_frac f)
        else if e == 0xff
        then pack s e f
        else if e - 1 == 0
        then pack s (e - 1) (bit_or (halve_frac f) (2 ^ 22))
        else pack s (e - 1) f)
      ≡ half_fields s e f
unfolding half_fields
half_fields-pack s e f hs he hf = rw (halve_frac-even f) (
    ground (
      arith,
      pack-float s e (half_even f),
      pack-float s e f,
      pack-float s (e - 1) f,
      or_hidden_bit (half_even f),
      pack-float s (e - 1) (bit_or (half_even f) (2 ^ 22)),
    ))

float_half-fields :
    (uf : ℕ) → uf < 2 ^ 32 → float_half uf ≡ half_fields (sign_of uf) (exp_of uf) (frac_of uf)
unfolding float_half
float_half-fields uf h =
    let small : sign_of uf % 2 ≡ sign_of uf = omega arith in
    rw (bit_and_mask 8 (uf / 2 ^ 23), bit_and_mask 1 (uf / 2 ^ 31), bit_and_mask 23 uf, small)
      (half_fields-pack (sign_of uf) (exp_of uf) (frac_of uf) (omega arith) (omega arith)
        (omega arith))

magnitude-float :
    (s e f : ℕ)
    → s < 2
    → e < 2 ^ 8
    → f < 2 ^ 23
    → magnitude (float s e f) ≡ (if e == 0 then f else (2 ^ 23 + f) * 2 ^ (e - 1))
magnitude-float s e f hs he hf =
    let exp : exp_of (float s e f) ≡ e = omega arith in
    let frac : frac_of (float s e f) ≡ f = omega arith in rw (exp, frac)

half_even-double : (q : ℕ) → half_even (2 * q) ≡ q
half_even-double q = ground arith

half_normal : (m e : ℕ) → 2 ≤ e → half_even (m * 2 ^ (e - 1)) ≡ m * 2 ^ (e - 2)
half_normal m e h =
    let e' : e - 1 ≡ suc (e - 2) = omega arith in
    rw (e', mul-two_pow-suc m (e - 2)) (half_even-double (m * 2 ^ (e - 2)))

normal_step :
    (e f : ℕ)
    → (if suc e == 0 then f else (2 ^ 23 + f) * 2 ^ (suc e - 1))
      ≡ half_even (if suc (suc e) == 0 then f else (2 ^ 23 + f) * 2 ^ (suc (suc e) - 1))
normal_step e f =
    let a : (suc e == 0) ≡ false = ground arith in
    let b : (suc (suc e) == 0) ≡ false = ground arith in
    let c : suc e - 1 ≡ suc (suc e) - 2 = omega arith in
    rw (a, b, c) (sym (half_normal (2 ^ 23 + f) (suc (suc e)) (omega arith)))

half_fields-magnitude :
    (s e f : ℕ)
    → s < 2
    → e < 0xff
    → f < 2 ^ 23
    → (e ≡ 1 → f ≢ 0x7f_ffff)
    → magnitude (half_fields s e f) ≡ half_even (if e == 0 then f else (2 ^ 23 + f) * 2 ^ (e - 1))
unfolding half_fields
half_fields-magnitude s zero f hs he hf ok =
    magnitude-float s 0 (half_even f) hs (omega arith) (ground arith)
half_fields-magnitude s (suc zero) f hs he hf ok =
    let odd : f ≢ 0x7f_ffff = ok refl in
    let test : (f == 0x7f_ffff) ≡ false = ground arith in
    rw test
      (magnitude-float s 0 (half_even f + 2 ^ 22) hs (omega arith) (ground arith) ∙ ground arith)
half_fields-magnitude s (suc (suc e)) f hs he hf ok =
    let fields : half_fields s (suc (suc e)) f ≡ float s (suc e) f = ground arith in
    rw fields (magnitude-float s (suc e) f hs (omega arith) hf ∙ normal_step e f)

half_fields-sign : (s e f : ℕ) → s < 2 → e < 2 ^ 8 → f < 2 ^ 23 → sign_of (half_fields s e f) ≡ s
unfolding half_fields
half_fields-sign s e f hs he hf = ground arith

-- For every finite float whose magnitude is not the pattern 0xffffff, float_half halves the
-- magnitude, rounded to the nearest with ties to even, and keeps the sign.
pub float_half-magnitude :
    (uf : ℕ)
    → uf < 2 ^ 32
    → exp_of uf < 0xff
    → uf % 2 ^ 31 ≢ 0xff_ffff
    → (magnitude (float_half uf) ≡ half_even (magnitude uf))
      × (sign_of (float_half uf) ≡ sign_of uf)
float_half-magnitude uf h he ok = rw (float_half-fields uf h) (
  half_fields-magnitude (sign_of uf) (exp_of uf) (frac_of uf) (omega arith) he (omega arith)
      (λ a b. ok (omega (arith, a, b))),
  half_fields-sign (sign_of uf) (exp_of uf) (frac_of uf) (omega arith) (omega arith) (omega arith),
)

pub float_half-special : (uf : ℕ) → uf < 2 ^ 32 → exp_of uf ≡ 0xff → float_half uf ≡ uf
unfolding half_fields
float_half-special uf h he = rw (float_half-fields uf h, he) (omega arith)

-- At the two floats of magnitude 0xffffff the magnitude of the result of float_half is one half
-- of the correctly rounded one.
pub float_half_bad :
    (uf : ℕ)
    → uf < 2 ^ 32
    → uf % 2 ^ 31 ≡ 0xff_ffff
    → 2 * magnitude (float_half uf) ≡ half_even (magnitude uf)
unfolding half_fields
float_half_bad uf h he =
    let a : exp_of uf ≡ 1 = omega arith in
    let b : frac_of uf ≡ 0x7f_ffff = omega arith in
    rw (float_half-fields uf h, a, b)
      (ap (λ (t : ℕ). 2 * t)
        (magnitude-float (sign_of uf) 0 (2 ^ 22) (omega arith) (omega arith) (omega arith)))
