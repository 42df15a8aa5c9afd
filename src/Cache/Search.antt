-- ===== src/Cache/Search.antt =====
-- The loop of `access_mem` over the lines of one set, in LAB4_cachelab/csim.c.
use cmu_15_213_intro_to_comp.Prelude.{
  ℕ, zero, suc, ◌+◌, ◌≤◌, ◌<◌, ◌≡◌, refl, ◌⊎◌, inl, inr, true, false, Option, none, some, ltb,
  arith, Bool-cases,
}
use cmu_15_213_intro_to_comp.Cache.{Blocks, Scan, found, passed, lru_start, holds, scan}

module _ (c : Blocks) (base tag : ℕ) where
  -- No line below `i` is valid with the tag.
  abbrev pub Absent : ℕ → Type 0
  Absent i = (j : ℕ) → j < i → holds (c (base + j)) tag ≡ false

  abbrev pub EmptyAt : ℕ → Option ℕ → Type 0
  EmptyAt i none = (j : ℕ) → j < i → (c (base + j)).valid ≡ true
  EmptyAt i (some k) = (k < i) × ((c (base + k)).valid ≡ false)

  -- `lru_time` is the time of the line `lru_pos`, or where it started.
  abbrev pub TimeOf : ℕ → ℕ → Option ℕ → Type 0
  TimeOf i t none = t ≡ lru_start
  TimeOf i t (some k) = (k < i) × ((c (base + k)).valid ≡ true) × ((c (base + k)).time_updated ≡ t)

  abbrev pub Oldest : ℕ → ℕ → Type 0
  Oldest i t = (j : ℕ) → j < i → (c (base + j)).valid ≡ true → t ≤ (c (base + j)).time_updated

  -- What the loop knows at line `i`.
  pub record Seen (i : ℕ) (first_empty : Option ℕ) (t : ℕ) (lru_pos : Option ℕ) : Type 0 where
    pub absent : Absent i
    pub empty : EmptyAt i first_empty
    pub time : TimeOf i t lru_pos
    pub oldest : Oldest i t

  -- What its result says of a set of `n` lines.
  pub data Scanned (n : ℕ) : Scan → Type 0 where
    at_line : {k : ℕ} → k < n → holds (c (base + k)) tag ≡ true → Scanned n (found k)
    at_end :
        {first_empty lru_pos : Option ℕ} (t : ℕ)
        → Seen n first_empty t lru_pos
        → Scanned n (passed first_empty lru_pos)

  below_suc : (j i : ℕ) → j < i + 1 → (j < i) ⊎ (j ≡ i)
  below_suc j i h = omega arith

  EmptyAt-next :
      (i : ℕ) (o : Option ℕ) → EmptyAt i o → (c (base + i)).valid ≡ true → EmptyAt (i + 1) o
  EmptyAt-next i none h v = λ j p. ground (arith, below_suc j i p, h j)
  EmptyAt-next i (some k) h v = (omega arith, h.1)

  TimeOf-next : (i t : ℕ) (o : Option ℕ) → TimeOf i t o → TimeOf (i + 1) t o
  TimeOf-next i t none h = h
  TimeOf-next i t (some k) h = (omega arith, h.1, h.2)

  module _ (i : ℕ) {first_empty : Option ℕ} {t : ℕ} {lru_pos : Option ℕ}
      (seen : Seen i first_empty t lru_pos) (miss : holds (c (base + i)) tag ≡ false) where
    Absent-next : Absent (i + 1)
    Absent-next j h = elim (below_suc j i h) [ inl p ↦ seen.absent j p | inr e ↦ rw e miss ]

    Seen-empty : (c (base + i)).valid ≡ false → Seen (i + 1) (some i) t lru_pos
    Seen-empty e = record {
      absent = Absent-next;
      empty = (omega arith, e);
      time = TimeOf-next i t lru_pos seen.time;
      oldest = λ j h v. ground (arith, below_suc j i h, seen.oldest j);
    }

    Seen-older :
        (c (base + i)).valid ≡ true
        → ltb (c (base + i)).time_updated t ≡ true
        → Seen (i + 1) first_empty (c (base + i)).time_updated (some i)
    Seen-older v e = record {
      absent = Absent-next;
      empty = EmptyAt-next i first_empty seen.empty v;
      time = (omega arith, v, refl);
      oldest = λ j h w. ground (arith, below_suc j i h, seen.oldest j);
    }

    Seen-newer :
        (c (base + i)).valid ≡ true
        → ltb (c (base + i)).time_updated t ≡ false
        → Seen (i + 1) first_empty t lru_pos
    Seen-newer v e = record {
      absent = Absent-next;
      empty = EmptyAt-next i first_empty seen.empty v;
      time = TimeOf-next i t lru_pos seen.time;
      oldest = λ j h w. ground (arith, below_suc j i h, seen.oldest j);
    }

  pub scan-Scanned :
      (left i n : ℕ) (first_empty : Option ℕ) (t : ℕ) (lru_pos : Option ℕ)
      → i + left ≡ n
      → Seen i first_empty t lru_pos
      → Scanned n (scan c base tag left i first_empty t lru_pos)
  unfolding scan
  scan-Scanned zero i n fe t lp e seen =
      at_end t (let same : i ≡ n = omega arith in rw same at seen)
  scan-Scanned (suc left) i n fe t lp e seen = elim (Bool-cases (holds (c (base + i)) tag)) [
    | inl got ↦ rw got (at_line (omega arith) got)
    | inr miss ↦ elim (Bool-cases (c (base + i)).valid) [
      | inr e' ↦
          rw (miss, e')
            (scan-Scanned left (i + 1) n (some i) t lp (omega arith) (Seen-empty i seen miss e'))
      | inl v ↦ elim (Bool-cases (ltb (c (base + i)).time_updated t)) [
        | inl o ↦
            rw (miss, v, o)
              (scan-Scanned left (i + 1) n fe (c (base + i)).time_updated (some i) (omega arith)
                (Seen-older i seen miss v o))
        | inr o ↦
            rw (miss, v, o)
              (scan-Scanned left (i + 1) n fe t lp (omega arith) (Seen-newer i seen miss v o))
      ]
    ]
  ]

  Seen-start : Seen 0 none lru_start none
  Seen-start = record {
    absent = λ j h. elim h [ ];
    empty = λ j h. elim h [ ];
    time = refl;
    oldest = λ j h v. elim h [ ];
  }

  -- The whole loop over a set of `n` lines.
  pub scan_set : (n : ℕ) → Scanned n (scan c base tag n 0 none lru_start none)
  scan_set n = scan-Scanned n 0 n none lru_start none (omega arith) Seen-start
