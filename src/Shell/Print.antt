-- ===== src/Shell/Print.antt =====
-- The signal-safe printing of LAB5_tshlab/tsh.c: `sio_reverse`, `sio_ltoa` and `sio_strlen`. A `char`
-- array is a list; a position beyond its end reads as 0 and a write there is lost.
pub mod Reverse
pub mod Digits
mod Tests
use cmu_15_213_intro_to_comp.Prelude.{
  ℕ, zero, suc, ◌+◌, ◌-◌, ◌/◌, ◌%◌, Bool, List, [], ◌∷◌, ltb, leb, ◌==◌, if◌then◌else◌, length,
  get_or, set,
}
use cmu_15_213_intro_to_comp.Prelude.Int.{ℤ, pos, negsuc}

-- `for (i = 0, j = strlen(s)-1; i < j; i++, j--)`, with its rounds and with j as a number.
unfoldable pub reverse_from : ℕ → (i j : ℕ) → List ℕ → List ℕ
reverse_from zero i j s = s
reverse_from (suc n) i j s =
    let rest = reverse_from n (i + 1) (j - 1) (set (set s i (get_or s j 0)) j (get_or s i 0)) in
    if ltb i j then rest else s

unfoldable pub sio_reverse : List ℕ → List ℕ
sio_reverse s = reverse_from (length s) 0 (length s - 1) s

-- `c < 10 ? c + '0' : c - 10 + 'a'`, where c is the remainder of C, negative for a negative v.
unfoldable pub digit_char : ℕ → ℕ
digit_char c = if ltb c 10 then c + b'0' else c - 10 + b'a'

unfoldable pub negative_char : ℕ → ℕ
negative_char c = (256 + b'0' - c) % 256

-- The `do` loop: `while ((v /= b) > 0)`.
unfoldable pub ltoa_loop : ℕ → (v b : ℕ) → List ℕ
ltoa_loop zero v b = []
ltoa_loop (suc n) v b =
    let rest = ltoa_loop n (v / b) b in digit_char (v % b) ∷ (if v / b == 0 then [] else rest)

unfoldable pub sio_ltoa : ℤ → (b : ℕ) → List ℕ
sio_ltoa (pos v) b = sio_reverse (ltoa_loop (suc v) v b)
sio_ltoa (negsuc v) b = sio_reverse (negative_char (suc v % b) ∷ [])

-- `while (s[i] != '\0') ++i;` on an array that holds a text, a NUL and more.
unfoldable pub sio_strlen : List ℕ → ℕ
sio_strlen [] = 0
sio_strlen (c ∷ cs) = if c == 0 then 0 else suc (sio_strlen cs)
