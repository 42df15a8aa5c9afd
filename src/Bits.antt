-- ===== src/Bits.antt =====
-- LAB1_datalab/bits.c: an `int` or `unsigned` is its bit pattern, a number below 2 ^ 32. Sums wrap
-- around, and `>>` of an `int` is arithmetic, as the file says that it assumes.
pub mod Puzzles
pub mod Floats
pub mod Truncate
pub mod Zeros
pub mod Lengths
mod Tests
use cmu_15_213_intro_to_comp.Prelude.{
  ℕ, ◌+◌, ◌-◌, ◌*◌, ◌/◌, ◌%◌, ◌^◌, bit_and, bit_or, bit_xor, Option, none, some, List, [], ◌∷◌, ltb,
  leb, ◌==◌, if◌then◌else◌,
}

-- The operators of C on words: `~`, `+`, `-`, `<<`, `>>` and `!`.
abbrev pub complement : ℕ → ℕ
complement x = 0xffff_ffff - x

abbrev pub add : ℕ → ℕ → ℕ
add x y = (x + y) % 2 ^ 32

abbrev pub sub : ℕ → ℕ → ℕ
sub x y = (x + 2 ^ 32 - y) % 2 ^ 32

abbrev pub shl : ℕ → ℕ → ℕ
shl x k = x * 2 ^ k % 2 ^ 32

abbrev pub sar : ℕ → ℕ → ℕ
sar x k = x / 2 ^ k + (if ltb x (2 ^ 31) then 0 else 2 ^ 32 - 2 ^ (32 - k))

abbrev pub logical_not : ℕ → ℕ
logical_not x = if x == 0 then 1 else 0

unfoldable pub third_bits : ℕ
third_bits = let x : ℕ = 0x49 in let x' = bit_or x (shl x 9) in bit_or x' (shl x' 18)

unfoldable pub is_tmin : ℕ → ℕ
is_tmin x = logical_not (bit_or (add x x) (logical_not x))

unfoldable pub is_not_equal : ℕ → ℕ → ℕ
is_not_equal x y = logical_not (logical_not (bit_xor x y))

unfoldable pub any_odd_bit : ℕ → ℕ
any_odd_bit x =
    let y : ℕ = 0xaa in
    let y' = bit_or y (shl y 8) in
    let y'' = bit_or y' (shl y' 16) in logical_not (logical_not (bit_and x y''))

unfoldable pub negate : ℕ → ℕ
negate x = add (complement x) 1

-- `mask = mask | mask << 1` and so on, up to 16.
unfoldable pub spread : ℕ → ℕ
spread m =
    let a = bit_or m (shl m 1) in
    let b = bit_or a (shl a 2) in
    let c = bit_or b (shl b 4) in let d = bit_or c (shl c 8) in bit_or d (shl d 16)

unfoldable pub conditional : ℕ → ℕ → ℕ → ℕ
conditional x y z =
    let mask = spread (logical_not x) in bit_or (bit_and (complement mask) y) (bit_and mask z)

unfoldable pub sub_ok : ℕ → ℕ → ℕ
sub_ok x y =
    let z = sub x y in
    let mask = shl 1 31 in
    logical_not (
      bit_and (bit_xor (bit_and x mask) (bit_and y mask))
        (bit_xor (bit_and x mask) (bit_and z mask)))

unfoldable pub is_greater : ℕ → ℕ → ℕ
is_greater x y =
    let sign_mask = shl 1 31 in
    let same_sign = logical_not (bit_xor (bit_and sign_mask x) (bit_and sign_mask y)) in
    let neg_x = add (complement x) 1 in
    bit_or (bit_and same_sign (sar (add neg_x y) 31)) (bit_and (logical_not same_sign) (sar y 31))

unfoldable pub bit_parity : ℕ → ℕ
bit_parity x =
    let a = bit_xor x (shl x 16) in
    let b = bit_xor a (shl a 8) in
    let c = bit_xor b (shl b 4) in
    let d = bit_xor c (shl c 2) in let e = bit_xor d (shl d 1) in bit_and (sar e 31) 1

-- `m |= m << k` for each of the shifts.
unfoldable pub spread_by : List ℕ → ℕ → ℕ
spread_by [] m = m
spread_by (k ∷ ks) m = spread_by ks (bit_or m (shl m k))

-- `maybe_zero = !(x >> k)`, spread.
unfoldable pub zero_above : (shifts : List ℕ) → (x k : ℕ) → ℕ
zero_above shifts x k = spread_by shifts (logical_not (sar x k))

-- `x ^ (x >> 31)` by masks, one place to the left.
unfoldable pub without_sign : ℕ → ℕ
without_sign x =
    let sign_mask = spread (bit_and (sar x 31) 1) in
    shl (add (bit_and (complement sign_mask) x) (bit_and sign_mask (complement x))) 1

-- The zeros on the left, by binary search.
unfoldable pub count_zeros : ℕ → ℕ
count_zeros x =
    let r1 = bit_and (zero_above (1 ∷ 2 ∷ 4 ∷ 8 ∷ []) x 16) 16 in
    let r2 = r1 + bit_and (zero_above (1 ∷ 2 ∷ 4 ∷ []) x (24 - r1)) 8 in
    let r3 = r2 + bit_and (zero_above (1 ∷ 2 ∷ []) x (28 - r2)) 4 in
    let r4 = r3 + bit_and (zero_above (1 ∷ []) x (30 - r3)) 2 in
    r4 + bit_and (zero_above [] x (31 - r4)) 1

-- The choice of the result by masks.
unfoldable pub select_length : (result x : ℕ) → ℕ
select_length result x =
    let first_zero = spread (bit_and (sar x 31) 1) in
    let is_zero = spread (logical_not (bit_or x 0)) in
    bit_or
      (bit_or (bit_and (bit_and (32 - result) (complement first_zero)) (complement is_zero))
        (bit_and (bit_and 32 first_zero) (complement is_zero)))
      (bit_and is_zero 1)

unfoldable pub how_many_bits : ℕ → ℕ
how_many_bits x = let y = without_sign x in select_length (count_zeros y) y

-- `frac += (frac & (frac >> 1) & 1); frac >>= 1;`
unfoldable pub halve_frac : ℕ → ℕ
halve_frac frac = (frac + bit_and (bit_and frac (frac / 2)) 1) / 2

-- `0 | (sign << 31) | (exp << 23) | frac`
unfoldable pub pack : (sign exp frac : ℕ) → ℕ
pack sign exp frac = bit_or (bit_or (bit_or 0 (shl sign 31)) (shl exp 23)) frac

unfoldable pub float_half : ℕ → ℕ
float_half uf =
    let exp = bit_and (uf / 2 ^ 23) 0xff in
    let sign = bit_and (uf / 2 ^ 31) 1 in
    let frac = bit_and uf (complement (shl 0x1ff 23)) in
    if exp == 0
    then pack sign exp (halve_frac frac)
    else if exp == 0xff
    then pack sign exp frac
    else if exp - 1 == 0
    then pack sign (exp - 1) (bit_or (halve_frac frac) (shl 1 22))
    else pack sign (exp - 1) frac

unfoldable pub float_i2f : ℕ → ℕ
float_i2f x = 1

-- `none` is a shift by a negative amount, which C leaves undefined.
unfoldable pub float_f2i : ℕ → Option ℕ
float_f2i uf =
    let sign = bit_and uf 0x8000_0000 in
    let exp = bit_and (uf / 2 ^ 23) 255 in
    let frac = bit_or (bit_and uf 0x7f_ffff) 0x80_0000 in
    if ltb exp 127
    then some 0
    else if leb 158 exp
    then some 0x8000_0000
    else if ltb 150 exp
    then none
    else let result = frac / 2 ^ (150 - exp) in
      some (if sign == 0 then result else add (complement result) 1)
