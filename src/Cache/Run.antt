-- ===== src/Cache/Run.antt =====
-- `run` of LAB4_cachelab/csim.c: the counters over a whole trace, and how a line is read.
use cmu_15_213_intro_to_comp.Prelude.{
  ℕ, suc, ◌+◌, ◌≤◌, ◌<◌, ◌≡◌, refl, ◌≢◌, some, arith, ◌==◌, if◌then◌else◌, List, [], ◌∷◌, ◌++◌, map,
  set,
}
use cmu_15_213_intro_to_comp.Cache.{
  Config, lru_start, Outcome, hit, cold_miss, eviction, access_mem, Counts, count_access, Line,
  instruction, access, overrun, parse_line, find_comma, c_string, State, reference, run_from, run,
  start, cache_init,
}
use cmu_15_213_intro_to_comp.Cache.Invariant.{IsCache, access_mem-IsCache}

-- The data accesses of a trace, and the second references of its `M` lines.
abbrev pub accesses : List Line → ℕ
accesses [] = 0
accesses (instruction ∷ ls) = accesses ls
accesses (access type addr ∷ ls) = suc (accesses ls)
accesses (overrun ∷ ls) = accesses ls

abbrev pub modifies : List Line → ℕ
modifies [] = 0
modifies (instruction ∷ ls) = modifies ls
modifies (access type addr ∷ ls) = (if type == b'M' then 1 else 0) + modifies ls
modifies (overrun ∷ ls) = modifies ls

abbrev pub Readable : List Line → Type 0
Readable [] = Unit
Readable (instruction ∷ ls) = Readable ls
Readable (access type addr ∷ ls) = Readable ls
Readable (overrun ∷ ls) = ⊥

-- From `st` to `st'` over a trace with `n` accesses and `m` second references.
pub record Counted (g : Config) (n m : ℕ) (st st' : State) : Type 0 where
  pub times : st'.time ≡ st.time + n
  pub total : st'.dest.hits + st'.dest.misses ≡ st.dest.hits + st.dest.misses + n + m
  pub evicted : st'.dest.evictions + st.dest.misses ≤ st'.dest.misses + st.dest.evictions
  pub second : st.dest.hits + m ≤ st'.dest.hits
  pub kept : IsCache g.lines st'.cache st'.time

count_total :
    (o : Outcome) (d : Counts)
    → ((count_access o d).hits + (count_access o d).misses ≡ d.hits + d.misses + 1)
      × ((count_access o d).evictions + d.misses ≤ (count_access o d).misses + d.evictions)
      × (d.hits ≤ (count_access o d).hits)
unfolding count_access
count_total hit d = omega arith
count_total cold_miss d = omega arith
count_total eviction d = omega arith

module _ (g : Config) (pos : 0 < g.lines) where
  reference-Counted :
      (type addr : ℕ) (st : State)
      → IsCache g.lines st.cache st.time
      → st.time ≤ lru_start
      → Counted g 1 (if type == b'M' then 1 else 0) st (reference g type addr st)
  unfolding reference
  reference-Counted type addr st inv small = record {
    times = refl;
    total = ground (arith, counted);
    evicted = ground (arith, counted);
    second = ground (arith, counted);
    kept = access_mem-IsCache g addr pos inv small;
  }
    where
      counted :
          let o = (access_mem g st.cache addr st.time).0 in
          ((count_access o st.dest).hits + (count_access o st.dest).misses
            ≡ st.dest.hits + st.dest.misses + 1)
          × ((count_access o st.dest).evictions + st.dest.misses
              ≤ (count_access o st.dest).misses + st.dest.evictions)
          × (st.dest.hits ≤ (count_access o st.dest).hits)
      counted = count_total (access_mem g st.cache addr st.time).0 st.dest

  run_from-Counted :
      (ls : List Line) (st : State)
      → Readable ls
      → IsCache g.lines st.cache st.time
      → st.time + accesses ls ≤ lru_start
      → (st' : State) × (run_from g ls st ≡ some st') × Counted g (accesses ls) (modifies ls) st st'
  unfolding run_from
  run_from-Counted [] st ok inv small = (
    st,
    refl,
    record {
      times = omega arith;
      total = omega arith;
      evicted = omega arith;
      second = omega arith;
      kept = inv;
    },
  )
  run_from-Counted (instruction ∷ ls) st ok inv small = run_from-Counted ls st ok inv small
  run_from-Counted (access type addr ∷ ls) st ok inv small =
      let one = reference-Counted type addr st inv (omega arith) in
      let (st', e, rest) =
        run_from-Counted ls (reference g type addr st) ok one.kept (omega (arith, one.times)) in
      (
        st',
        e,
        record {
          times = omega (arith, one.times, rest.times);
          total = omega (arith, one.total, rest.total);
          evicted = omega (arith, one.evicted, rest.evicted);
          second = omega (arith, one.second, rest.second);
          kept = rest.kept;
        },
      )
  run_from-Counted (overrun ∷ ls) st ok inv small = elim ok [ ]

  start-IsCache : IsCache g.lines start.cache start.time
  unfolding start cache_init
  start-IsCache = record { before = λ i v. cc; unique = λ s i j tag p q h k. ground arith }

  -- On a readable trace with at most 0x7fffffff data accesses run ends normally; hits and misses
  -- together count the data accesses and the second references of M lines, which are all hits,
  -- evictions are at most the misses, and the cache invariant holds at the end.
  pub run-Counted :
      (strtol : List ℕ → ℕ) (bufs : List (List ℕ))
      → Readable (map (parse_line strtol) bufs)
      → accesses (map (parse_line strtol) bufs) ≤ lru_start
      → (st : State) × (run strtol g bufs ≡ some st)
        × Counted g
            (accesses (map (parse_line strtol) bufs))
            (modifies (map (parse_line strtol) bufs))
            start
            st
  unfolding run
  run-Counted strtol bufs ok small =
      run_from-Counted (map (parse_line strtol) bufs) start ok start-IsCache (omega arith)

-- The bytes of the text have no comma and no terminator.
abbrev pub IsField : List ℕ → Type 0
IsField [] = Unit
IsField (c ∷ cs) = (c ≢ b',') × (c ≢ 0) × IsField cs

abbrev count : List ℕ → ℕ
count [] = 0
count (x ∷ xs) = suc (count xs)

find_comma-field :
    (text rest : List ℕ) → IsField text → find_comma (text ++ b',' ∷ rest) ≡ some (count text)
unfolding find_comma
find_comma-field [] rest h = refl
find_comma-field (c ∷ cs) rest h = ground (arith, find_comma-field cs rest (h.2))

c_string-field :
    (text rest : List ℕ) → IsField text → c_string (set (text ++ b',' ∷ rest) (count text) 0) ≡ text
unfolding c_string
c_string-field [] rest h = refl
c_string-field (c ∷ cs) rest h = ground (arith, c_string-field cs rest (h.2))

-- A line of a space, a type, a space, the address, a comma and a rest is read as an access of
-- that type to the number that strtol reads from exactly the address.
pub parse_line-access :
    (strtol : List ℕ → ℕ) (type : ℕ) (hex rest : List ℕ)
    → type ≢ b','
    → IsField hex
    → parse_line strtol (b' ' ∷ type ∷ b' ' ∷ hex ++ b',' ∷ rest) ≡ access type (strtol hex)
unfolding parse_line
parse_line-access strtol type hex rest ne h =
    ground (arith, find_comma-field hex rest h, c_string-field hex rest h)
