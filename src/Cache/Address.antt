-- ===== src/Cache/Address.antt =====
-- The masks of csim.c: how an address splits into tag, set index and block offset.
use mathlib.Core.Path.{subst}
use native.Mathlib.Nat.{
  add_comm, mod-lt, mod-eq_of_lt, div-lt_iff_lt-mul, mul-div_cancel, mul-le-mul_left,
  mul-le-mul_right, div-div-eq-div-mul, div-add-mod',
}
use cmu_15_213_intro_to_comp.Prelude.{
  ℕ, ◌+◌, ◌-◌, ◌*◌, ◌/◌, ◌%◌, ◌^◌, ◌<◌, ◌≡◌, ap, arith, bit_and, bit_and_fields, bit_and_mask,
  bit_and-zero, sub_one_mul, ones_above, two_pow-add, two_pow_split, two_pow-pos, two_pow-lt,
}
use cmu_15_213_intro_to_comp.Cache.{
  Config, bit64, offset_mask, set_mask, tag_mask, get_tag, get_set, num_blocks,
}

-- The three parts of an address fit into a 64-bit word.
abbrev pub Fits : Config → Type 0
Fits g = g.b + g.s < 64

bit64_lem : (k : ℕ) → k < 64 → bit64 k ≡ 2 ^ k
bit64_lem k h = ground (arith, two_pow-lt k 64 h)

-- `a & m` for a mask `m` of `n` ones above `b` zeros.
bit_and_ones_above : (b n a : ℕ) → bit_and a ((2 ^ n - 1) * 2 ^ b) ≡ a / 2 ^ b % 2 ^ n * 2 ^ b
bit_and_ones_above b n a = ground (
  arith,
  two_pow-pos b,
  bit_and_fields b (a / 2 ^ b) (a % 2 ^ b) (2 ^ n - 1) 0,
  bit_and_mask n (a / 2 ^ b),
  bit_and-zero (a % 2 ^ b),
)

split_parts : (addr q p : ℕ) → addr / q / p * (q * p) + addr / q % p * q + addr % q ≡ addr
split_parts addr q p =
    omega (arith, div-add-mod' addr q, ap (λ (t : ℕ). t * q) (div-add-mod' (addr / q) p))

line_below :
    {set i sets lines block : ℕ}
    → set < sets
    → i < lines
    → 0 < block
    → set * lines + i < sets * lines * block
line_below {set} {sets} {lines} {block} p q r =
    omega (arith, mul-le-mul_right lines p, mul-le-mul_left (sets * lines) r)

module _ (g : Config) (fits : Fits g) where
  offset_mask_lem : offset_mask g ≡ 2 ^ g.b - 1
  unfolding offset_mask
  offset_mask_lem = omega (arith, bit64_lem g.b (omega arith))

  set_mask_lem : set_mask g ≡ (2 ^ g.s - 1) * 2 ^ g.b
  unfolding set_mask
  set_mask_lem = rw (bit64_lem g.b (omega arith), bit64_lem (g.b + g.s) fits) (ones_above g.b g.s)

  tag_mask_lem : tag_mask g ≡ 2 ^ 64 - 2 ^ (g.b + g.s)
  unfolding tag_mask
  tag_mask_lem = ground (
    arith,
    offset_mask_lem,
    set_mask_lem,
    two_pow-pos g.b,
    two_pow-pos g.s,
    two_pow-add g.b g.s,
    sub_one_mul (2 ^ g.s) (2 ^ g.b),
  )

  -- The tag mask is ones above `b + s` zeros.
  tag_mask-ones : tag_mask g ≡ (2 ^ (64 - (g.b + g.s)) - 1) * 2 ^ (g.b + g.s)
  tag_mask-ones = ground (
    arith,
    tag_mask_lem,
    two_pow-pos (64 - (g.b + g.s)),
    two_pow_split (g.b + g.s) 64,
    sub_one_mul (2 ^ (64 - (g.b + g.s))) (2 ^ (g.b + g.s)),
  )

  tag-lt : (addr : ℕ) → addr < 2 ^ 64 → addr / 2 ^ (g.b + g.s) < 2 ^ (64 - (g.b + g.s))
  tag-lt addr h =
      (div-lt_iff_lt-mul (two_pow-pos (g.b + g.s))).1
        (subst (λ n. addr < n) (two_pow_split (g.b + g.s) 64 (omega arith)) h)

  pub get_tag-div : (addr : ℕ) → addr < 2 ^ 64 → get_tag g addr ≡ addr / 2 ^ (g.b + g.s)
  unfolding get_tag
  get_tag-div addr h =
      rw
        (
          add_comm g.s g.b,
          tag_mask-ones,
          bit_and_ones_above (g.b + g.s) (64 - (g.b + g.s)) addr,
          mul-div_cancel _ (two_pow-pos (g.b + g.s)),
        )
        (mod-eq_of_lt (tag-lt addr h))

  pub get_set-div : (addr : ℕ) → get_set g addr ≡ addr / 2 ^ g.b % 2 ^ g.s
  unfolding get_set
  get_set-div addr =
      rw (set_mask_lem, bit_and_ones_above g.b g.s addr) (mul-div_cancel _ (two_pow-pos g.b))

  pub get_set-lt : (addr : ℕ) → get_set g addr < 2 ^ g.s
  get_set-lt addr = rw (get_set-div addr) (mod-lt _ (two_pow-pos g.s))

  -- If the masks fit 64 bits, tag, set index and offset make up a 64-bit address again, and the
  -- set index is below the number of sets.
  pub split_address :
      (addr : ℕ)
      → addr < 2 ^ 64
      → (get_tag g addr * 2 ^ (g.b + g.s) + get_set g addr * 2 ^ g.b + addr % 2 ^ g.b ≡ addr)
        × (get_set g addr < 2 ^ g.s)
  split_address addr h = (
    rw
        (
          get_tag-div addr h,
          get_set-div addr,
          two_pow-add g.b g.s,
          ← div-div-eq-div-mul addr (2 ^ g.b) (2 ^ g.s),
        )
        (split_parts addr (2 ^ g.b) (2 ^ g.s)),
    get_set-lt addr,
  )

  -- If the masks fit 64 bits, every index that the loop over a set uses is below the number of
  -- allocated blocks.
  pub line_in_bounds : (addr i : ℕ) → i < g.lines → get_set g addr * g.lines + i < num_blocks g
  unfolding num_blocks
  line_in_bounds addr i h = line_below (get_set-lt addr) h (two_pow-pos g.b)
