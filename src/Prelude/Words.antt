-- ===== src/Prelude/Words.antt =====
-- The bit operations of machine words at variables: masks and disjoint fields as arithmetic.
use Prim.Native.Nat.{
  ℕ, zero, suc, ◌+◌, ◌-◌, ◌*◌, ◌/◌, ◌%◌, ◌^◌, ◌≤◌, ◌<◌, min, max, bit_and, bit_or, bit_xor, digits,
  bitwise, bit_and-bitwise, bit_or-bitwise, bit_xor-bitwise, differ,
}
use mathlib.Core.Path.{◌≡◌, refl, sym, ap, subst}
use native.Mathlib.Nat.{pow-suc, pow-zero, one-le-pow, add-suc, add-zero, mul-one, mul_assoc}
use native.Mathlib.Omega.{arith}
use mathlib.Core.Logic.{inl, inr}
use mathlib.Core.Path.{◌∙◌}
use cmu_15_213_intro_to_comp.Prelude.Tests.{◌==◌, Bool-cases}

-- `bitwise` halves its first argument on fuel. One unit more than enough changes nothing, and so any
-- amount that is enough gives what `bitwise` gives.
module _ (rest : ℕ → ℕ) (digit : ℕ → ℕ → ℕ) where
  spare : (fuel x y : ℕ) → x ≤ fuel → digits rest digit (suc fuel) x y ≡ digits rest digit fuel x y
  spare zero zero y h = refl
  spare (suc fuel) zero y h = refl
  spare zero (suc x) y h = elim h [ ]
  spare (suc fuel) (suc x) y h = omega (arith, spare fuel (suc x / 2) (y / 2) (omega arith))

  enough : (fuel x y : ℕ) → x ≤ fuel → digits rest digit fuel x y ≡ bitwise rest digit x y
  enough zero zero y h = refl
  enough zero (suc x) y h = elim h [ ]
  enough (suc fuel) x y h = elim (Bool-cases (x == suc fuel)) [
    | inl all ↦ let e : x ≡ suc fuel = ground arith in rw e
    | inr less ↦ spare fuel x y (ground arith) ∙ enough fuel x y (ground arith)
  ]

  bitwise_halves :
      (x y : ℕ)
      → digit 0 0 ≡ 0
      → ((b : ℕ) → rest b ≡ rest (b / 2) * 2 + digit 0 (b % 2))
      → bitwise rest digit x y ≡ bitwise rest digit (x / 2) (y / 2) * 2 + digit (x % 2) (y % 2)
  bitwise_halves zero y none last = last y
  bitwise_halves (suc x) y none last = omega (arith, enough x (suc x / 2) (y / 2) (omega arith))

-- The lowest digit of each operation, and the rest.
pub bit_and_low : (x y : ℕ) → bit_and x y ≡ bit_and (x / 2) (y / 2) * 2 + min (x % 2) (y % 2)
bit_and_low x y = simp bit_and-bitwise (bitwise_halves (λ b. 0) min x y refl (λ b. omega arith))

pub bit_or_low : (x y : ℕ) → bit_or x y ≡ bit_or (x / 2) (y / 2) * 2 + max (x % 2) (y % 2)
bit_or_low x y = simp bit_or-bitwise (bitwise_halves (λ b. b) max x y refl (λ b. omega arith))

differ_digit : (a b : ℕ) → a < 2 → b < 2 → differ a b ≡ (a + b) % 2
differ_digit zero zero p q = refl
differ_digit zero (suc zero) p q = refl
differ_digit (suc zero) zero p q = refl
differ_digit (suc zero) (suc zero) p q = refl
differ_digit (suc (suc a)) b p q = absurd (omega arith)
differ_digit zero (suc (suc b)) p q = absurd (omega arith)
differ_digit (suc zero) (suc (suc b)) p q = absurd (omega arith)

pub bit_xor_low : (x y : ℕ) → bit_xor x y ≡ bit_xor (x / 2) (y / 2) * 2 + (x % 2 + y % 2) % 2
bit_xor_low x y = simp bit_xor-bitwise (
    bitwise_halves (λ b. b) differ x y refl (λ b. omega arith)
    ∙ omega (arith, differ_digit (x % 2) (y % 2) (omega arith) (omega arith)))

-- `q * 2 ^ suc k` in the form that the arithmetic tactics halve.
pub mul-two_pow-suc : (q k : ℕ) → q * 2 ^ suc k ≡ 2 * (q * 2 ^ k)
mul-two_pow-suc q k = omega (arith, ap (λ (t : ℕ). q * t) (pow-suc 2 k))

-- The laws that any operation on digits has: it works on the fields of its arguments separately.
module _ (op digit : ℕ → ℕ → ℕ)
    (low : (a b : ℕ) → op a b ≡ op (a / 2) (b / 2) * 2 + digit (a % 2) (b % 2))
    (none : op 0 0 ≡ 0) where
  op_fields :
      (k q r q' r' : ℕ)
      → r < 2 ^ k
      → r' < 2 ^ k
      → op (q * 2 ^ k + r) (q' * 2 ^ k + r') ≡ op q q' * 2 ^ k + op r r'
  op_fields zero q zero q' zero p p' = ground (arith, none)
  op_fields zero q (suc r) q' r' p p' = absurd (omega arith)
  op_fields zero q zero q' (suc r') p p' = absurd (omega arith)
  op_fields (suc k) q r q' r' p p' = ground (
    arith,
    pow-suc 2 k,
    low (q * 2 ^ suc k + r) (q' * 2 ^ suc k + r'),
    low r r',
    mul-two_pow-suc q k,
    mul-two_pow-suc q' k,
    mul-two_pow-suc (op q q') k,
    op_fields k q (r / 2) q' (r' / 2) (omega (arith, pow-suc 2 k)) (omega (arith, pow-suc 2 k)),
  )

  op-lt :
      ((x y : ℕ) → x < 2 → y < 2 → digit x y < 2)
      → (k a b : ℕ) → a < 2 ^ k
      → b < 2 ^ k
      → op a b < 2 ^ k
  op-lt small zero zero zero p q = ground (arith, none)
  op-lt small zero (suc a) b p q = absurd (omega arith)
  op-lt small zero zero (suc b) p q = absurd (omega arith)
  op-lt small (suc k) a b p q = omega (
    arith,
    pow-suc 2 k,
    low a b,
    small (a % 2) (b % 2) (omega arith) (omega arith),
    op-lt small k (a / 2) (b / 2) (omega (arith, pow-suc 2 k)) (omega (arith, pow-suc 2 k)),
  )

-- The three operations on the fields of two words.
pub bit_and_fields :
    (k q r q' r' : ℕ)
    → r < 2 ^ k
    → r' < 2 ^ k
    → bit_and (q * 2 ^ k + r) (q' * 2 ^ k + r') ≡ bit_and q q' * 2 ^ k + bit_and r r'
bit_and_fields = op_fields bit_and min bit_and_low refl

pub bit_or_fields :
    (k q r q' r' : ℕ)
    → r < 2 ^ k
    → r' < 2 ^ k
    → bit_or (q * 2 ^ k + r) (q' * 2 ^ k + r') ≡ bit_or q q' * 2 ^ k + bit_or r r'
bit_or_fields = op_fields bit_or max bit_or_low refl

pub bit_xor_fields :
    (k q r q' r' : ℕ)
    → r < 2 ^ k
    → r' < 2 ^ k
    → bit_xor (q * 2 ^ k + r) (q' * 2 ^ k + r') ≡ bit_xor q q' * 2 ^ k + bit_xor r r'
bit_xor_fields = op_fields bit_xor (λ x y. (x + y) % 2) bit_xor_low refl

pub bit_and-lt : (k a b : ℕ) → a < 2 ^ k → b < 2 ^ k → bit_and a b < 2 ^ k
bit_and-lt = op-lt bit_and min bit_and_low refl (λ x y p q. omega arith)

pub bit_or-lt : (k a b : ℕ) → a < 2 ^ k → b < 2 ^ k → bit_or a b < 2 ^ k
bit_or-lt = op-lt bit_or max bit_or_low refl (λ x y p q. omega arith)

pub bit_xor-lt : (k a b : ℕ) → a < 2 ^ k → b < 2 ^ k → bit_xor a b < 2 ^ k
bit_xor-lt = op-lt bit_xor (λ x y. (x + y) % 2) bit_xor_low refl (λ x y p q. omega arith)

-- Fuelled inductions on the digits: each law holds of `a` if it holds of `a / 2`.
bit_and-zero_below : (n a : ℕ) → a ≤ n → bit_and a 0 ≡ 0
bit_and-zero_below n zero h = refl
bit_and-zero_below zero (suc a) h = absurd (omega arith)
bit_and-zero_below (suc n) (suc a) h =
    omega (arith, bit_and_low (suc a) 0, bit_and-zero_below n (suc a / 2) (omega arith))

pub bit_and-zero : (a : ℕ) → bit_and a 0 ≡ 0
bit_and-zero a = bit_and-zero_below a a (omega arith)

bit_or-zero_below : (n a : ℕ) → a ≤ n → bit_or a 0 ≡ a
bit_or-zero_below n zero h = refl
bit_or-zero_below zero (suc a) h = absurd (omega arith)
bit_or-zero_below (suc n) (suc a) h =
    omega (arith, bit_or_low (suc a) 0, bit_or-zero_below n (suc a / 2) (omega arith))

pub bit_or-zero : (a : ℕ) → bit_or a 0 ≡ a
bit_or-zero a = bit_or-zero_below a a (omega arith)

-- An `or` is zero only if both arguments are, an `xor` only if they are equal.
bit_or-eq-zero_below : (n a b : ℕ) → a ≤ n → bit_or a b ≡ 0 → (a ≡ 0) × (b ≡ 0)
bit_or-eq-zero_below n zero b h e = ground (arith, bit_or-bitwise 0 b)
bit_or-eq-zero_below zero (suc a) b h e = absurd (omega arith)
bit_or-eq-zero_below (suc n) (suc a) b h e =
    let low = bit_or_low (suc a) b in
    omega
      (arith, low, bit_or-eq-zero_below n (suc a / 2) (b / 2) (omega arith) (omega (arith, low)))

pub bit_or-eq-zero : (a b : ℕ) → bit_or a b ≡ 0 → (a ≡ 0) × (b ≡ 0)
bit_or-eq-zero a b = bit_or-eq-zero_below a a b (omega arith)

bit_xor-eq-zero_below : (n a b : ℕ) → a ≤ n → bit_xor a b ≡ 0 → a ≡ b
bit_xor-eq-zero_below n zero b h e = ground (arith, bit_xor-bitwise 0 b)
bit_xor-eq-zero_below zero (suc a) b h e = absurd (omega arith)
bit_xor-eq-zero_below (suc n) (suc a) b h e =
    let low = bit_xor_low (suc a) b in
    omega
      (arith, low, bit_xor-eq-zero_below n (suc a / 2) (b / 2) (omega arith) (omega (arith, low)))

pub bit_xor-eq-zero : (a b : ℕ) → bit_xor a b ≡ 0 → a ≡ b
bit_xor-eq-zero a b = bit_xor-eq-zero_below a a b (omega arith)

bit_xor_self_below : (n a : ℕ) → a ≤ n → bit_xor a a ≡ 0
bit_xor_self_below n zero h = refl
bit_xor_self_below zero (suc a) h = absurd (omega arith)
bit_xor_self_below (suc n) (suc a) h =
    omega (arith, bit_xor_low (suc a) (suc a), bit_xor_self_below n (suc a / 2) (omega arith))

pub bit_xor_self : (a : ℕ) → bit_xor a a ≡ 0
bit_xor_self a = bit_xor_self_below a a (omega arith)

-- `a & (2 ^ k - 1)` keeps the low `k` bits.
pub bit_and_ones : (k a : ℕ) → a < 2 ^ k → bit_and a (2 ^ k - 1) ≡ a
bit_and_ones zero zero h = refl
bit_and_ones zero (suc a) h = absurd (omega arith)
bit_and_ones (suc k) a h = ground (
  arith,
  pow-suc 2 k,
  one-le-pow k 2,
  bit_and_low a (2 ^ suc k - 1),
  bit_and_ones k (a / 2) (omega (arith, pow-suc 2 k)),
)

pub bit_and_mask : (k a : ℕ) → bit_and a (2 ^ k - 1) ≡ a % 2 ^ k
bit_and_mask k a = ground (
  arith,
  one-le-pow k 2,
  bit_and-zero (a / 2 ^ k),
  bit_and_fields k (a / 2 ^ k) (a % 2 ^ k) 0 (2 ^ k - 1),
  bit_and_ones k (a % 2 ^ k),
)

pub two_pow-add : (a b : ℕ) → 2 ^ (a + b) ≡ 2 ^ a * 2 ^ b
two_pow-add a zero = simp (pow-zero, add-zero, mul-one)
two_pow-add a (suc b) = simp (add-suc, pow-suc, two_pow-add a b, mul_assoc)

pub two_pow-pos : (k : ℕ) → 0 < 2 ^ k
two_pow-pos k = one-le-pow k 2 (omega arith)

-- A power within the word is not cut off.
pub two_pow-lt : (k n : ℕ) → k < n → 2 ^ k < 2 ^ n
two_pow-lt k zero h = absurd (omega arith)
two_pow-lt zero (suc n) h = omega (arith, pow-suc 2 n, two_pow-pos n)
two_pow-lt (suc k) (suc n) h = omega (arith, pow-suc 2 n, pow-suc 2 k, two_pow-lt k n (omega arith))

bit_xor-zero_below : (n a : ℕ) → a ≤ n → bit_xor a 0 ≡ a
bit_xor-zero_below n zero h = refl
bit_xor-zero_below zero (suc a) h = absurd (omega arith)
bit_xor-zero_below (suc n) (suc a) h =
    omega (arith, bit_xor_low (suc a) 0, bit_xor-zero_below n (suc a / 2) (omega arith))

pub bit_xor-zero : (a : ℕ) → bit_xor a 0 ≡ a
bit_xor-zero a = bit_xor-zero_below a a (omega arith)

pub sub_one_mul : (p q : ℕ) → 0 < p → (p - 1) * q + q ≡ p * q
sub_one_mul zero q h = elim h [ ]
sub_one_mul (suc p) q h = let e : suc p - 1 ≡ p = omega arith in rw e (omega arith)

-- A run of `n` ones above `b` zeros.
pub ones_above : (b n : ℕ) → bit_xor (2 ^ (b + n) - 1) (2 ^ b - 1) ≡ (2 ^ n - 1) * 2 ^ b
ones_above b n = ground (
  arith,
  two_pow-pos b,
  two_pow-pos n,
  two_pow-add b n,
  sub_one_mul (2 ^ n) (2 ^ b),
  bit_xor_fields b (2 ^ n - 1) (2 ^ b - 1) 0 (2 ^ b - 1),
  bit_xor-zero (2 ^ n - 1),
  bit_xor_self (2 ^ b - 1),
)

pub two_pow_split : (k n : ℕ) → k ≤ n → 2 ^ n ≡ 2 ^ (n - k) * 2 ^ k
two_pow_split k n h =
    let e : n ≡ n - k + k = omega arith in
    subst (λ m. 2 ^ m ≡ 2 ^ (n - k) * 2 ^ k) (sym e) (two_pow-add (n - k) k)

pub zero-bit_and : (b : ℕ) → bit_and 0 b ≡ 0
zero-bit_and b = bit_and-bitwise 0 b

pub zero-bit_or : (b : ℕ) → bit_or 0 b ≡ b
zero-bit_or b = bit_or-bitwise 0 b

bit_and_comm_below : (n a b : ℕ) → a ≤ n → bit_and a b ≡ bit_and b a
bit_and_comm_below n zero b h = zero-bit_and b ∙ sym (bit_and-zero b)
bit_and_comm_below zero (suc a) b h = elim h [ ]
bit_and_comm_below (suc n) (suc a) b h = omega (
  arith,
  bit_and_low (suc a) b,
  bit_and_low b (suc a),
  bit_and_comm_below n (suc a / 2) (b / 2) (omega arith),
)

pub bit_and_comm : (a b : ℕ) → bit_and a b ≡ bit_and b a
bit_and_comm a b = bit_and_comm_below a a b (omega arith)
