-- ===== src/Cache/Access.antt =====
-- `access_mem` of LAB4_cachelab/csim.c against what a set-associative LRU cache has to do.
use cmu_15_213_intro_to_comp.Prelude.{
  ℕ, ◌+◌, ◌*◌, ◌≤◌, ◌<◌, ◌≡◌, refl, ◌⊎◌, inl, inr, true, false, none, some, arith,
}
use cmu_15_213_intro_to_comp.Cache.{
  Config, Block, Blocks, write, Scan, found, passed, lru_start, holds, Outcome, hit, cold_miss,
  eviction, finish, retag, access_mem, get_tag, get_set,
}
use cmu_15_213_intro_to_comp.Cache.Search.{Absent, Scanned, at_line, at_end, scan_set}

abbrev pub line : (tag time : ℕ) → Block
line tag time = record { valid = true; tag = tag; time_updated = time }

module _ (c : Blocks) (base n tag time : ℕ) where
  -- What one access to a set of `n` lines may do: refresh the line that holds the tag; fill an
  -- empty line, if none holds the tag; replace a line that was used least recently, if all the
  -- lines are in use for other tags.
  pub data Serves : Outcome → Blocks → Type 0 where
    refresh :
        {k : ℕ}
        → k < n
        → holds (c (base + k)) tag ≡ true
        → Serves hit (write c (base + k) (line tag time))
    fill :
        {k : ℕ}
        → Absent c base tag n
        → k < n
        → (c (base + k)).valid ≡ false
        → Serves cold_miss (write c (base + k) (line tag time))
    replace :
        {k : ℕ}
        → Absent c base tag n
        → ((j : ℕ) → j < n → (c (base + j)).valid ≡ true)
        → k < n
        → ((j : ℕ) → j < n → (c (base + k)).time_updated ≤ (c (base + j)).time_updated)
        → Serves eviction (write c (base + k) (line tag time))

  -- In each case one line of the set holds the tag afterwards, the one that held it if any did.
  pub record Stored (c' : Blocks) : Type 0 where
    pub place : ℕ
    pub inside : place < n
    pub after : c' ≡ write c (base + place) (line tag time)
    pub kept : (holds (c (base + place)) tag ≡ true) ⊎ Absent c base tag n

  pub Serves-Stored : {o : Outcome} {c' : Blocks} → Serves o c' → Stored c'
  Serves-Stored (refresh {k} h e) = record { place = k; inside = h; after = refl; kept = inl e }
  Serves-Stored (fill {k} a h e) = record { place = k; inside = h; after = refl; kept = inr a }
  Serves-Stored (replace {k} a v h o) = record { place = k; inside = h; after = refl; kept = inr a }

  touched : (x : Block) → holds x tag ≡ true → record x { time_updated = time } ≡ line tag time
  touched x e = ground arith

  retagged : (x : Block) → x.valid ≡ true → retag x tag time ≡ line tag time
  retagged x e = ground arith

  finish-Serves :
      0 < n
      → ((j : ℕ) → j < n → (c (base + j)).valid ≡ true → (c (base + j)).time_updated < lru_start)
      → (r : Scan) → Scanned c base tag n r
      → Serves (finish c base tag time r).0 (finish c base tag time r).1
  finish-Serves pos recent (found k) (at_line h e) = rw (touched (c (base + k)) e) (refresh h e)
  finish-Serves pos recent (passed (some k) lru_pos) (at_end t seen) =
      fill seen.absent seen.empty.0 seen.empty.1
  finish-Serves pos recent (passed none (some k)) (at_end t seen) =
      rw (retagged (c (base + k)) seen.time.1) (
        replace seen.absent seen.empty seen.time.0
          (λ j h. rw seen.time.2 (seen.oldest j h (seen.empty j h))))
  finish-Serves pos recent (passed none none) (at_end t seen) =
      absurd (omega (arith, seen.time, recent 0 pos v, seen.oldest 0 pos v))
    where
      v : (c (base + 0)).valid ≡ true
      v = seen.empty 0 pos

-- The times of valid lines lie before `now`.
abbrev pub Before : Blocks → ℕ → Type 0
Before c now = (i : ℕ) → (c i).valid ≡ true → (c i).time_updated < now

module _ (g : Config) (c : Blocks) (addr time now : ℕ) where
  -- If no time stored in a valid line has reached the present and the present time is at most
  -- 0x7fffffff, access_mem refreshes the line that holds the tag, or fills an empty line of the
  -- set if none holds it, or replaces a line of the set with the least time if all are in use,
  -- and reports hit, cold miss or eviction accordingly.
  pub access_mem-Serves :
      0 < g.lines
      → Before c now
      → now ≤ lru_start
      → Serves c
          (get_set g addr * g.lines)
          g.lines
          (get_tag g addr)
          time
          (access_mem g c addr time).0
          (access_mem g c addr time).1
  unfolding access_mem
  access_mem-Serves pos before small =
      finish-Serves c (get_set g addr * g.lines) g.lines (get_tag g addr) time pos
        (λ j h v. omega (arith, before (get_set g addr * g.lines + j) v)) _
        (scan_set c (get_set g addr * g.lines) (get_tag g addr) g.lines)
