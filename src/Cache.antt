-- ===== src/Cache.antt =====
-- LAB4_cachelab/csim.c: the cache simulator. The global `cache` array is a function from indices to
-- blocks, and `time`, an `int` in the source, is a number. What `-v` prints is left out.
pub mod Address
pub mod Search
pub mod Access
pub mod Invariant
pub mod Run
mod Tests
use cmu_15_213_intro_to_comp.Prelude.{
  ℕ, zero, suc, ◌+◌, ◌-◌, ◌*◌, ◌/◌, ◌%◌, ◌^◌, bit_and, bit_xor, Bool, true, false, not, ◌&&◌,
  Option, none, some, List, [], ◌∷◌, ltb, ◌==◌, if◌then◌else◌, drop, set, map,
}

-- `globalArgs` after `main` has checked that all three are positive.
pub record Config : Type 0 where
  pub s : ℕ
  pub lines : ℕ
  pub b : ℕ

pub record Block : Type 0 where
  pub valid : Bool
  pub tag : ℕ
  pub time_updated : ℕ

abbrev pub Blocks : Type 0
Blocks = ℕ → Block

abbrev pub write : Blocks → ℕ → Block → Blocks
write c i x j = if i == j then x else c j

-- `1ULL << k`, for `k` below 64.
abbrev pub bit64 : ℕ → ℕ
bit64 k = 2 ^ k % 2 ^ 64

unfoldable pub offset_mask : Config → ℕ
offset_mask g = bit64 g.b - 1

unfoldable pub set_mask : Config → ℕ
unfolding offset_mask
set_mask g = bit_xor (bit64 (g.b + g.s) - 1) (offset_mask g)

unfoldable pub tag_mask : Config → ℕ
unfolding offset_mask set_mask
tag_mask g = 0xffff_ffff_ffff_ffff - offset_mask g - set_mask g

unfoldable pub get_tag : Config → ℕ → ℕ
get_tag g addr = bit_and addr (tag_mask g) / 2 ^ (g.s + g.b)

unfoldable pub get_set : Config → ℕ → ℕ
get_set g addr = bit_and addr (set_mask g) / 2 ^ g.b

-- The number of blocks that `cache_init` asks `calloc` for, and the zeroed array.
pub num_blocks : Config → ℕ
num_blocks g = 2 ^ g.s * g.lines * 2 ^ g.b

abbrev pub zeroed : Block
zeroed = record { valid = false; tag = 0; time_updated = 0 }

unfoldable pub cache_init : Blocks
cache_init i = zeroed

-- How the loop over a set leaves: at a hit, or with `first_empty` and `lru_pos` (`none` for -1).
pub data Scan : Type 0 where
  found : ℕ → Scan
  passed : Option ℕ → Option ℕ → Scan

abbrev pub lru_start : ℕ
lru_start = 0x7fff_ffff

abbrev pub holds : Block → ℕ → Bool
holds x tag = (x.tag == tag) && x.valid

-- The loop from line `i` of the set at `base`, with `left` lines to go.
unfoldable pub scan : Blocks → ℕ → ℕ → (left i : ℕ) → Option ℕ → ℕ → Option ℕ → Scan
scan c base tag zero i first_empty lru_time lru_pos = passed first_empty lru_pos
scan c base tag (suc left) i first_empty lru_time lru_pos =
    let x = c (base + i) in
    let at_empty = scan c base tag left (i + 1) (some i) lru_time lru_pos in
    let at_older = scan c base tag left (i + 1) first_empty x.time_updated (some i) in
    let at_newer = scan c base tag left (i + 1) first_empty lru_time lru_pos in
    if holds x tag
    then found i
    else if not x.valid
    then at_empty
    else if ltb x.time_updated lru_time
    then at_older
    else at_newer

-- hit -> 0, cold miss -> 1, miss with eviction -> 2
pub data Outcome : Type 0 where
  hit cold_miss eviction : Outcome

-- `set * E + lru_pos` in unsigned arithmetic, where -1 is the largest value.
abbrev pub victim : ℕ → Option ℕ → ℕ
victim base none = (base + (2 ^ 64 - 1)) % 2 ^ 64
victim base (some k) = base + k

abbrev pub retag : Block → ℕ → ℕ → Block
retag x tag time = record x { tag = tag; time_updated = time }

abbrev pub finish : Blocks → (base tag time : ℕ) → Scan → Outcome × Blocks
finish c base tag time (found i) =
    (hit, write c (base + i) (record (c (base + i)) { time_updated = time }))
finish c base tag time (passed (some k) lru_pos) =
    (cold_miss, write c (base + k) (record { valid = true; tag = tag; time_updated = time }))
finish c base tag time (passed none lru_pos) =
    let at = victim base lru_pos in (eviction, write c at (retag (c at) tag time))

unfoldable pub access_mem : Config → Blocks → (addr time : ℕ) → Outcome × Blocks
access_mem g c addr time =
    let tag = get_tag g addr in
    let base = get_set g addr * g.lines in
    finish c base tag time (scan c base tag g.lines 0 none lru_start none)

-- `dest`: hits, misses and evictions.
pub record Counts : Type 0 where
  pub hits : ℕ
  pub misses : ℕ
  pub evictions : ℕ

-- The `switch` on the result, with its fall through.
unfoldable pub count_access : Outcome → Counts → Counts
count_access hit d = record d { hits = d.hits + 1 }
count_access cold_miss d = record d { misses = d.misses + 1 }
count_access eviction d = record d { misses = d.misses + 1; evictions = d.evictions + 1 }

-- The bytes of a C string, up to its terminator.
pub c_string : List ℕ → List ℕ
c_string [] = []
c_string (c ∷ cs) = if c == 0 then [] else c ∷ c_string cs

-- `while(buf[delimiter] != ',') delimiter++`; `none` where it runs off the buffer.
pub find_comma : List ℕ → Option ℕ
find_comma [] = none
find_comma (c ∷ cs) =
    let rest = find_comma cs in
    if c == b',' then some 0 else elim rest [ none ↦ none | some k ↦ some (suc k) ]

pub data Line : Type 0 where
  instruction : Line
  access : (type addr : ℕ) → Line
  overrun : Line

abbrev pub byte_at : List ℕ → ℕ → ℕ
byte_at [] i = 0
byte_at (c ∷ cs) zero = c
byte_at (c ∷ cs) (suc i) = byte_at cs i

-- One line as `fgets` leaves it. `strtol` reads a hexadecimal number; the size is not used.
module _ (strtol : List ℕ → ℕ) where
  unfoldable pub parse_line : List ℕ → Line
  unfolding find_comma c_string
  parse_line buf = if byte_at buf 0 == b'I' then instruction else elim (find_comma buf) [
    | none ↦ overrun
    | some k ↦ access (byte_at buf 1) (strtol (c_string (drop 3 (set buf k 0))))
  ]

-- The loop of `run` from a state; `none` where the source reads past its buffer.
pub record State : Type 0 where
  pub cache : Blocks
  pub time : ℕ
  pub dest : Counts

-- What `run` does with one data access: the access, the count, and the second reference of an `M`.
unfoldable pub reference : Config → (type addr : ℕ) → State → State
reference g type addr st =
    let (o, c) = access_mem g st.cache addr st.time in
    let d = count_access o st.dest in
    record {
      cache = c;
      time = st.time + 1;
      dest = if type == b'M' then record d { hits = d.hits + 1 } else d;
    }

abbrev pub run_line : Config → Line → State → Option State
run_line g instruction st = some st
run_line g (access type addr) st = some (reference g type addr st)
run_line g overrun st = none

unfoldable pub run_from : Config → List Line → State → Option State
run_from g [] st = some st
run_from g (l ∷ ls) st = elim (run_line g l st) [ none ↦ none | some st' ↦ run_from g ls st' ]

unfoldable pub start : State
unfolding cache_init
start = record {
  cache = cache_init;
  time = 0;
  dest = record { hits = 0; misses = 0; evictions = 0 };
}

module _ (strtol : List ℕ → ℕ) where
  unfoldable pub run : Config → List (List ℕ) → Option State
  unfolding run_from start
  run g bufs = run_from g (map (parse_line strtol) bufs) start
