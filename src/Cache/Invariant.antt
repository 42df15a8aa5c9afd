-- ===== src/Cache/Invariant.antt =====
-- What every access of LAB4_cachelab/csim.c keeps true of the cache, and what it leaves alone.
use native.Mathlib.Nat.{div-eq_of_lt, mul-add-div_right, add-zero}
use cmu_15_213_intro_to_comp.Prelude.{
  ℕ, ◌+◌, ◌*◌, ◌/◌, ◌≤◌, ◌<◌, ◌≡◌, refl, sym, ap, ◌∙◌, ◌≢◌, ◌⊎◌, inl, inr, true, arith, Bool-cases,
  ◌==◌, ==_iff,
}
use cmu_15_213_intro_to_comp.Cache.{
  Config, Blocks, write, lru_start, holds, Outcome, hit, access_mem, get_tag, get_set,
}
use cmu_15_213_intro_to_comp.Cache.Search.{Absent}
use cmu_15_213_intro_to_comp.Cache.Access.{
  line, Before, Serves, refresh, fill, replace, Stored, Serves-Stored, access_mem-Serves,
}

-- The lines of two sets do not meet.
line_injective : (n i j s t : ℕ) → i < n → j < n → s * n + i ≡ t * n + j → (s ≡ t) × (i ≡ j)
line_injective n i j s t p q e = (same, omega (arith, ap (λ k. k * n) same))
  where
    quotient : (s i : ℕ) → i < n → (s * n + i) / n ≡ s
    quotient s i p =
        mul-add-div_right (omega arith) s i ∙ ap (λ k. s + k) (div-eq_of_lt p) ∙ add-zero s

    same : s ≡ t
    same = sym (quotient s i p) ∙ ap (λ k. k / n) e ∙ quotient t j q

-- At most one line of a set holds a tag.
abbrev pub Unique : Blocks → ℕ → Type 0
Unique c n =
    (s i j tag : ℕ)
    → i < n
    → j < n
    → holds (c (s * n + i)) tag ≡ true
    → holds (c (s * n + j)) tag ≡ true
    → i ≡ j

-- `now` is the time of the next access.
pub record IsCache (n : ℕ) (c : Blocks) (now : ℕ) : Type 0 where
  pub before : Before c now
  pub unique : Unique c n

module _ {n : ℕ} {c : Blocks} {now : ℕ} (inv : IsCache n c now) (s tag : ℕ) where
  write-Before : (a : ℕ) → Before (write c a (line tag now)) (now + 1)
  write-Before a i v = ground (arith, inv.before i)

  module _ (k : ℕ) (inside : k < n)
      (kept : (holds (c (s * n + k)) tag ≡ true) ⊎ Absent c (s * n) tag n) where
    -- A line of the set that held the tag is the one that holds it now.
    same_place : (j : ℕ) → j < n → holds (c (s * n + j)) tag ≡ true → k ≡ j
    same_place j q h = elim kept [
      | inl old ↦ inv.unique s k j tag inside q old h
      | inr away ↦ cc (away j q)
    ]

    beside :
        (t i j x : ℕ)
        → i < n
        → j < n
        → s * n + k ≡ t * n + i
        → holds (line tag now) x ≡ true
        → holds (c (t * n + j)) x ≡ true
        → i ≡ j
    beside t i j x p q e h h' =
        let place = line_injective n k i s t inside p e in
        let tags : tag ≡ x = ground arith in sym (place.1) ∙ same_place j q (rw (place.0, tags) h')

    write-Unique : Unique (write c (s * n + k) (line tag now)) n
    write-Unique t i j x p q h h' = elim (Bool-cases (s * n + k == t * n + i)) [
      | inl e ↦ elim (Bool-cases (s * n + k == t * n + j)) [
        | inl e' ↦
            sym (line_injective n k i s t inside p ((==_iff _ _).0 e)).1
            ∙ (line_injective n k j s t inside q ((==_iff _ _).0 e')).1
        | inr d' ↦ beside t i j x p q ((==_iff _ _).0 e) (rw e at h) (rw d' at h')
      ]
      | inr d ↦ elim (Bool-cases (s * n + k == t * n + j)) [
        | inl e' ↦ sym (beside t j i x q p ((==_iff _ _).0 e') (rw e' at h') (rw d at h))
        | inr d' ↦ inv.unique t i j x p q (rw d at h) (rw d' at h')
      ]
    ]

  Stored-IsCache : {c' : Blocks} → Stored c (s * n) n tag now c' → IsCache n c' (now + 1)
  Stored-IsCache st = record {
    before = rw st.after (write-Before (s * n + st.place));
    unique = rw st.after (write-Unique st.place st.inside st.kept);
  }

  -- The lines of the other sets stay as they are.
  Stored-elsewhere :
      {c' : Blocks}
      → Stored c (s * n) n tag now c'
      → (t i : ℕ) → i < n
      → s ≢ t
      → c' (t * n + i) ≡ c (t * n + i)
  Stored-elsewhere st t i p ne = rw st.after (elim (Bool-cases (s * n + st.place == t * n + i)) [
    | inl e ↦ absurd (ne (line_injective n st.place i s t st.inside p ((==_iff _ _).0 e)).0)
    | inr d ↦ rw d
  ])

  -- Afterwards a line of the set holds the tag.
  Stored-holds :
      {c' : Blocks} (st : Stored c (s * n) n tag now c') → holds (c' (s * n + st.place)) tag ≡ true
  Stored-holds st = rw st.after (ground arith)

module _ (g : Config) {c : Blocks} {now : ℕ} (addr : ℕ) (pos : 0 < g.lines)
    (inv : IsCache g.lines c now) (small : now ≤ lru_start) where
  stored :
      Stored c (get_set g addr * g.lines) g.lines (get_tag g addr) now (access_mem g c addr now).1
  stored =
      Serves-Stored c (get_set g addr * g.lines) g.lines (get_tag g addr) now
        (access_mem-Serves g c addr now now pos inv.before small)

  -- An access keeps the invariant that no two lines of a set hold one tag and that the stored
  -- times lie before the present.
  pub access_mem-IsCache : IsCache g.lines (access_mem g c addr now).1 (now + 1)
  access_mem-IsCache = Stored-IsCache inv (get_set g addr) (get_tag g addr) stored

  -- An access changes no line of another set.
  pub access_mem_elsewhere :
      (s i : ℕ)
      → i < g.lines
      → get_set g addr ≢ s
      → (access_mem g c addr now).1 (s * g.lines + i) ≡ c (s * g.lines + i)
  access_mem_elsewhere = Stored-elsewhere inv (get_set g addr) (get_tag g addr) stored

  hit_of_holds :
      (c' : Blocks) (base n tag time k : ℕ) {o : Outcome} {c'' : Blocks}
      → k < n
      → holds (c' (base + k)) tag ≡ true
      → Serves c' base n tag time o c''
      → o ≡ hit
  hit_of_holds c' base n tag time k p h (refresh q e) = refl
  hit_of_holds c' base n tag time k p h (fill away q e) = cc (away k p)
  hit_of_holds c' base n tag time k p h (replace away v q o) = cc (away k p)

  -- After an access the next access to an address of the same block is a hit.
  pub access_mem_again :
      (addr' : ℕ)
      → get_set g addr' ≡ get_set g addr
      → get_tag g addr' ≡ get_tag g addr
      → now + 1 ≤ lru_start
      → (access_mem g (access_mem g c addr now).1 addr' (now + 1)).0 ≡ hit
  access_mem_again addr' same_set same_tag small' =
      hit_of_holds c' (get_set g addr' * g.lines) g.lines (get_tag g addr') (now + 1) stored.place
        stored.inside
        (rw (same_set, same_tag) (Stored-holds inv (get_set g addr) (get_tag g addr) stored))
        (access_mem-Serves g c' addr' (now + 1) (now + 1) pos access_mem-IsCache.before small')
    where
      c' : Blocks
      c' = (access_mem g c addr now).1
