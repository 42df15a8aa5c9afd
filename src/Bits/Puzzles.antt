-- ===== src/Bits/Puzzles.antt =====
-- The integer puzzles of LAB1_datalab/bits.c against the reference functions of LAB1_datalab/tests.c.
use cmu_15_213_intro_to_comp.Prelude.{
  ℕ, zero, suc, ◌+◌, ◌-◌, ◌*◌, ◌/◌, ◌%◌, ◌^◌, ◌<◌, ◌≡◌, inl, inr, ◌∙◌, Bool, false, bit_and,
  bit_xor, ltb, leb, ◌==◌, if◌then◌else◌, arith, Bool-cases, bit_or-eq-zero, bit_xor-eq-zero,
  bit_xor_self, bit_and_fields, bit_and-zero, bit_and_ones, bit_or-zero, bit_and_comm, zero-bit_and,
  zero-bit_or,
}
use cmu_15_213_intro_to_comp.Bits.{
  complement, add, sub, sar, logical_not, is_tmin, is_not_equal, negate, spread, conditional,
  sub_ok, is_greater,
}

-- is_tmin of a word is 1 if the word is 0x80000000 and 0 if not.
pub is_tmin-eq : (x : ℕ) → x < 2 ^ 32 → is_tmin x ≡ (if x == 0x8000_0000 then 1 else 0)
unfolding is_tmin
is_tmin-eq x h = elim (Bool-cases (x == 0x8000_0000)) [
  | inl e ↦ let same : x ≡ 0x8000_0000 = ground arith in rw same
  | inr ne ↦ ground (arith, bit_or-eq-zero (add x x) (logical_not x))
]

-- `test_is_not_equal`: x != y
is_not_equal-ne : (x y : ℕ) → is_not_equal x y ≡ (if x == y then 0 else 1)
unfolding is_not_equal
is_not_equal-ne x y = elim (Bool-cases (x == y)) [
  | inl e ↦ let same : x ≡ y = ground arith in rw (same, bit_xor_self y) (ground arith)
  | inr ne ↦ ground (arith, bit_xor-eq-zero x y)
]

-- `test_negate`
negate-add : (x : ℕ) → x < 2 ^ 32 → (add x (negate x) ≡ 0) × (negate x < 2 ^ 32)
unfolding negate
negate-add x h = omega arith

pub ones-bit_and : (k a : ℕ) → a < 2 ^ k → bit_and (2 ^ k - 1) a ≡ a
ones-bit_and k a h = bit_and_comm (2 ^ k - 1) a ∙ bit_and_ones k a h

-- conditional of three words is the third if the first is zero and the second if not.
pub conditional-if :
    (x y z : ℕ) → y < 2 ^ 32 → z < 2 ^ 32 → conditional x y z ≡ (if x == 0 then z else y)
unfolding conditional spread
conditional-if x y z hy hz = elim (Bool-cases (x == 0)) [
  | inl e ↦ rw e (ground (arith, ones-bit_and 32 z hz, zero-bit_and y, zero-bit_or z))
  | inr e ↦ rw e (ground (arith, ones-bit_and 32 y hy, zero-bit_and z, bit_or-zero y))
]

-- The sign bit of a word.
sign_digit : (s r : ℕ) → s < 2 → r < 2 ^ 31 → bit_and (s * 2 ^ 31 + r) 0x8000_0000 ≡ s * 2 ^ 31
sign_digit zero r p q = ground (arith, bit_and_fields 31 0 r 1 0, bit_and-zero r)
sign_digit (suc zero) r p q = ground (arith, bit_and_fields 31 1 r 1 0, bit_and-zero r)
sign_digit (suc (suc s)) r p q = absurd (omega arith)

pub sign_bit :
    (x : ℕ) → x < 2 ^ 32 → bit_and x 0x8000_0000 ≡ (if ltb x 0x8000_0000 then 0 else 0x8000_0000)
sign_bit x h = ground (arith, sign_digit (x / 2 ^ 31) (x % 2 ^ 31))

-- The signed order: x + 2 ^ 31 in place of the integer that the word x stands for.
abbrev pub biased : ℕ → ℕ
biased x = (x + 2 ^ 31) % 2 ^ 32

-- The difference of the integers is one of 32 bits.
abbrev pub fits : ℕ → ℕ → Bool
fits x y = if leb (biased y) (biased x + 2 ^ 31) then ltb (biased x) (biased y + 2 ^ 31) else false

sign_test : Bool → Bool → Bool → ℕ
sign_test a b c = logical_not (
    bit_and (bit_xor (if a then 0 else 0x8000_0000) (if b then 0 else 0x8000_0000))
      (bit_xor (if a then 0 else 0x8000_0000) (if c then 0 else 0x8000_0000)))

-- sub_ok of two words is 1 if the difference of their signed values is one of 32 bits and 0 if
-- not.
pub sub_ok-fits : (x y : ℕ) → x < 2 ^ 32 → y < 2 ^ 32 → sub_ok x y ≡ (if fits x y then 1 else 0)
unfolding sub_ok
sub_ok-fits x y hx hy =
    rw (sign_bit x hx, sign_bit y hy, sign_bit (sub x y) (omega arith))
      (elim (Bool-cases (ltb x 0x8000_0000)) [
        | inl a ↦ elim (Bool-cases (ltb y 0x8000_0000)) [
          | inl b ↦ rw (a, b) (ground arith)
          | inr b ↦ rw (a, b) (ground arith)
        ]
        | inr a ↦ elim (Bool-cases (ltb y 0x8000_0000)) [
          | inl b ↦ rw (a, b) (ground arith)
          | inr b ↦ rw (a, b) (ground arith)
        ]
      ])

-- `>> 31` spreads the sign bit.
pub sar_sign : (x : ℕ) → x < 2 ^ 32 → sar x 31 ≡ (if ltb x 0x8000_0000 then 0 else 0xffff_ffff)
sar_sign x h = ground arith

-- is_greater of two words is 1 if the first is greater as a signed integer and 0 if not.
pub is_greater-lt :
    (x y : ℕ)
    → x < 2 ^ 32
    → y < 2 ^ 32
    → is_greater x y ≡ (if ltb (biased y) (biased x) then 1 else 0)
unfolding is_greater
is_greater-lt x y hx hy =
    rw
      (
        bit_and_comm 0x8000_0000 x,
        bit_and_comm 0x8000_0000 y,
        sign_bit x hx,
        sign_bit y hy,
        sar_sign y hy,
        sar_sign (add (add (complement x) 1) y) (omega arith),
      )
      (elim (Bool-cases (ltb x 0x8000_0000)) [
        | inl a ↦ elim (Bool-cases (ltb y 0x8000_0000)) [
          | inl b ↦
              rw (a, b)
                (ground (
                  arith,
                  zero-bit_and
                      (if ltb (add (add (complement x) 1) y) 0x8000_0000 then 0 else 0xffff_ffff),
                ))
          | inr b ↦
              rw (a, b)
                (ground (
                  arith,
                  zero-bit_and
                      (if ltb (add (add (complement x) 1) y) 0x8000_0000 then 0 else 0xffff_ffff),
                ))
        ]
        | inr a ↦ elim (Bool-cases (ltb y 0x8000_0000)) [
          | inl b ↦
              rw (a, b)
                (ground (
                  arith,
                  zero-bit_and
                      (if ltb (add (add (complement x) 1) y) 0x8000_0000 then 0 else 0xffff_ffff),
                ))
          | inr b ↦
              rw (a, b)
                (ground (
                  arith,
                  zero-bit_and
                      (if ltb (add (add (complement x) 1) y) 0x8000_0000 then 0 else 0xffff_ffff),
                ))
        ]
      ])
