-- ===== src/Cache/Tests.antt =====
-- The cache simulator of LAB4_cachelab/csim.c on small traces, and its theorems at concrete inputs.
use cmu_15_213_intro_to_comp.Prelude.{
  ℕ, ◌+◌, ◌-◌, ◌*◌, ◌≡◌, ◌≢◌, refl, Option, none, some, List, [], ◌∷◌, map, arith, ltb,
  if◌then◌else◌,
}
use cmu_15_213_intro_to_comp.Cache.{
  Config, scan, get_tag, get_set, set_mask, tag_mask, offset_mask, access_mem, cache_init, Line,
  access, instruction, parse_line, find_comma, c_string, State, start, run, run_from, reference,
  count_access,
}
use cmu_15_213_intro_to_comp.Cache.Access.{Serves, access_mem-Serves}
use cmu_15_213_intro_to_comp.Cache.Invariant.{IsCache, access_mem-IsCache}
use cmu_15_213_intro_to_comp.Cache.Run.{Counted, run-Counted, accesses, modifies}

-- Two sets of two lines, blocks of four bytes.
abbrev small : Config
small = record { s = 1; lines = 2; b = 2 }

abbrev hex_digit : ℕ → ℕ
hex_digit c = if ltb c b'a' then c - b'0' else c - b'a' + 10

abbrev read_hex : ℕ → List ℕ → ℕ
read_hex acc [] = acc
read_hex acc (c ∷ cs) = read_hex (acc * 16 + hex_digit c) cs

abbrev strtol : List ℕ → ℕ
strtol = read_hex 0

-- ` L 10,1`, ` M 20,1`, `I 4,1`, ` S 30,1`, ` L 10,1`
abbrev trace : List (List ℕ)
trace =
    (b' ' ∷ b'L' ∷ b' ' ∷ b'1' ∷ b'0' ∷ b',' ∷ b'1' ∷ [])
    ∷ (b' ' ∷ b'M' ∷ b' ' ∷ b'2' ∷ b'0' ∷ b',' ∷ b'1' ∷ [])
    ∷ (b'I' ∷ b' ' ∷ b' ' ∷ b'4' ∷ b',' ∷ b'1' ∷ [])
    ∷ (b' ' ∷ b'S' ∷ b' ' ∷ b'3' ∷ b'0' ∷ b',' ∷ b'1' ∷ [])
    ∷ (b' ' ∷ b'L' ∷ b' ' ∷ b'1' ∷ b'0' ∷ b',' ∷ b'1' ∷ [])
    ∷ []

abbrev lines : List Line
lines = access b'L' 0x10 ∷ access b'M' 0x20 ∷ instruction ∷ access b'S' 0x30 ∷ access b'L' 0x10 ∷ []

trace_lines : map (parse_line strtol) trace ≡ lines
unfolding parse_line find_comma c_string
trace_lines = refl

empty-IsCache : IsCache 2 cache_init 0
unfolding cache_init
empty-IsCache = record { before = λ i v. cc; unique = λ s i j tag p q h k. ground arith }

access_mem-Serves_example :
    Serves cache_init
      (get_set small 0x3d * 2)
      2
      (get_tag small 0x3d)
      0
      (access_mem small cache_init 0x3d 0).0
      (access_mem small cache_init 0x3d 0).1
access_mem-Serves_example =
    access_mem-Serves small cache_init 0x3d 0 0 (omega arith) empty-IsCache.before (omega arith)

access_mem-IsCache_example : IsCache 2 (access_mem small cache_init 0x3d 0).1 1
access_mem-IsCache_example = access_mem-IsCache small 0x3d (omega arith) empty-IsCache (omega arith)

other_set : get_set small 0x3d ≢ 0
unfolding get_set set_mask offset_mask
other_set = omega arith

same_block : (get_set small 0x3e ≡ get_set small 0x3d) × (get_tag small 0x3e ≡ get_tag small 0x3d)
unfolding get_set get_tag set_mask tag_mask offset_mask
same_block = (refl, refl)

run-Counted_example :
    (st : State) × (run strtol small trace ≡ some st)
    × Counted small
        (accesses (map (parse_line strtol) trace))
        (modifies (map (parse_line strtol) trace))
        start
        st
run-Counted_example =
    run-Counted small (omega arith) strtol trace (rw trace_lines tt) (rw trace_lines (omega arith))

abbrev counts : Option State → ℕ × ℕ × ℕ
counts none = (9, 9, 9)
counts (some st) = (st.dest.hits, st.dest.misses, st.dest.evictions)

-- All four data accesses fall into set 0, which has two lines. Two of them evict, and the only hit
-- is the second reference of the `M`.
two_evictions : counts (run strtol small trace) ≡ (1, 4, 2)
unfolding run run_from reference count_access access_mem scan get_set get_tag set_mask tag_mask
    offset_mask parse_line find_comma c_string start cache_init
two_evictions = refl
