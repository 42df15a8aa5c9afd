-- ===== src/Harness/Free.antt =====
-- `test_free` of LAB0_cprogramminglab/harness.c, for a block that is allocated.
use native.Mathlib.Decide.{ℕ_discrete}
use cmu_15_213_intro_to_comp.Prelude.{
  ℕ, zero, suc, ◌+◌, ◌≡◌, ◌≢◌, refl, ap, sym, ◌∙◌, false, ◌||◌, not, Option, none, some, [], ◌∷◌,
  ◌++◌, ◌==◌, if◌then◌else◌, length, length-append, arith, inl, inr,
}
use cmu_15_213_intro_to_comp.Harness.{
  Body, BlockEle, Memory, Harness, done, ◌>>=◌, magic_footer, header_bytes, free_if, freeing,
  mark_free, count_down, test_free,
}
use cmu_15_213_intro_to_comp.Harness.Chain.{
  Cells, block, first, last, Away, Chain, IsHarness, write_cell_self, write_cell_other,
  load_block_lem, Chain-middle, Away-zero,
}
use cmu_15_213_intro_to_comp.Harness.Neighbours.{IsLink, rewritten_zero}
use cmu_15_213_intro_to_comp.Harness.Release.{unlinked, unlinked-Unlinks, release-middle}
use cmu_15_213_intro_to_comp.Harness.Search.{find_header-middle}
use cmu_15_213_intro_to_comp.Harness.Unlink.{
  Unlinks, first-Away, Chain-Unlinks, Chain-Unlinks_first,
}

-- The block before `a`, if there is one.
last_block :
    (m : Memory) (p f : ℕ) (c : Body) (a : ℕ) (b : Body) (front back : Cells)
    → Chain m p (((f, c) ∷ front) ++ (a, b) ∷ back)
    → (last f front ≢ 0)
      × ((e : BlockEle) × (m (last f front) ≡ some e))
      × Away (last f front) ((a, b) ∷ back)
last_block m p f c a b [] back ch = (ch.0, (_, ch.2), ch.3)
last_block m p f c a b ((g, d) ∷ front) back ch = last_block m f g d a b front back ch.4

-- What `release` needs of the neighbours.
record Neighbours (m : Memory) (a q n : ℕ) : Type 0 where
  link_before : IsLink m q
  link_after : IsLink m n
  not_before : a ≢ q
  not_after : a ≢ n
  apart : q ≡ n → q ≡ 0

IsLink-first : (m : Memory) (before : ℕ) (xs : Cells) → Chain m before xs → IsLink m (first xs)
IsLink-first m before [] c = inl refl
IsLink-first m before ((n, d) ∷ xs) c = inr (c.0, (_, c.2))

Neighbours-middle :
    (m : Memory) (a : ℕ) (b : Body) (front back : Cells)
    → Chain m 0 (front ++ (a, b) ∷ back)
    → Neighbours m a (last 0 front) (first back)
Neighbours-middle m a b [] back c = record {
  link_before = inl refl;
  link_after = IsLink-first m a back c.4;
  not_before = c.0;
  not_after = first-Away a back c.0 c.3;
  apart = λ e. refl;
}
Neighbours-middle m a b ((f, g) ∷ front) back c =
    let (ne, found, away) = last_block m 0 f g a b front back c in
    let here = Chain-middle m 0 a b ((f, g) ∷ front) back c in
    record {
      link_before = inr (ne, found);
      link_after = IsLink-first m a back here.4;
      not_before = away.0;
      not_after = first-Away a back here.0 here.3;
      apart = λ e. absurd (first-Away (last f front) back ne away.1 e);
    }

head_after :
    (a : ℕ) (b : Body) (allocated : ℕ) (m : Memory) (front back : Cells)
    → Chain m 0 (front ++ (a, b) ∷ back)
    → allocated ≡ first (front ++ (a, b) ∷ back)
    → (if last 0 front == 0 then first back else allocated) ≡ first (front ++ back)
head_after a b allocated m [] back c e = refl
head_after a b allocated m ((f, g) ∷ front) back c e =
    let (ne, _, _) = last_block m 0 f g a b front back c in
    let other : (last f front == 0) ≡ false = ground arith in rw other e

Chain-without :
    (m m' : Memory) (a : ℕ) (b : Body) (front back : Cells)
    → Chain m 0 (front ++ (a, b) ∷ back)
    → Unlinks m m' a (last 0 front) (first back)
    → Chain m' 0 (front ++ back)
Chain-without m m' a b [] back c u = Chain-Unlinks_first m m' a b back c (Away-zero m a back c.4) u
Chain-without m m' a b ((f, g) ∷ front) back c u = Chain-Unlinks m m' a b 0 f g front back c u

Away-last : (x p : ℕ) (front : Cells) → x ≢ p → Away x front → x ≢ last p front
Away-last x p [] ne w = ne
Away-last x p ((f, g) ∷ front) ne w = Away-last x f front (λ e. w.0 (sym e)) w.1

Away-append :
    (x a : ℕ) (b : Body) (front back : Cells)
    → x ≢ a
    → Away x (front ++ back)
    → Away x front × Away x back × Away x (front ++ (a, b) ∷ back)
Away-append x a b [] back ne w = (tt, w, (λ e. ne (sym e), w))
Away-append x a b ((f, g) ∷ front) back ne w =
    let (before, behind, all) = Away-append x a b front back ne w.1 in
    ((w.0, before), behind, (w.0, all))

-- Behind `release` no cell but those of the other blocks holds anything.
only_without :
    (m : Memory) (a : ℕ) (b : Body) (mark : Option BlockEle) (front back : Cells)
    → a ≢ 0
    → ((x : ℕ) → Away x (front ++ (a, b) ∷ back) → m x ≡ none)
    → m 0 ≡ none
    → Unlinks m (unlinked m a (last 0 front) (first back) mark) a (last 0 front) (first back)
    → (x : ℕ) → Away x (front ++ back)
    → unlinked m a (last 0 front) (first back) mark x ≡ none
only_without m a b mark front back nonzero only null u x w = elim (ℕ_discrete x a) [
  | yes here ↦ rw here (write_cell_self _ a none)
  | no other ↦ elim (ℕ_discrete x 0) [
    | yes zero_x ↦ rw zero_x (
        write_cell_other _ a 0 none nonzero
        ∙ rewritten_zero _ (first back) _
        ∙ rewritten_zero _ (last 0 front) _
        ∙ write_cell_other m a 0 mark nonzero
        ∙ null)
    | no nonzero_x ↦
        let (before, behind, all) = Away-append x a b front back other w in
        u.others x other (Away-last x 0 front nonzero_x before) (first-Away x back nonzero_x behind)
        ∙ only x all
  ]
]

-- test_free of a block of a well-formed harness that allows frees returns, the harness then
-- keeps exactly the other blocks, linked and with unchanged bodies, the error flag is raised if
-- the footer is damaged and is otherwise as before, and frees stay allowed.
pub test_free-IsHarness :
    (a : ℕ) (b : Body) (front back : Cells) (s : Harness)
    → IsHarness s (front ++ (a, b) ∷ back)
    → s.noallocate_mode ≡ false
    → (s' : Harness) × (test_free (a + header_bytes) s ≡ done tt s')
      × IsHarness s' (front ++ back)
      × (s'.error_occurred ≡ (s.error_occurred || not (b.footer == magic_footer)))
      × (s'.noallocate_mode ≡ s.noallocate_mode)
unfolding test_free freeing
test_free-IsHarness a b front back s inv allowed =
    let q = last 0 front in
    let n = first back in
    let here = Chain-middle s.memory 0 a b front back inv.chain in
    let near = Neighbours-middle s.memory a b front back inv.chain in
    let (messages, e) =
      release-middle s a q n b near.link_before near.link_after near.not_before near.not_after
        near.apart in
    let mark : Option BlockEle = some (mark_free (block n q b)) in
    let u = unlinked-Unlinks s.memory a q n mark near.not_before near.not_after near.apart in
    let some_p : (a + header_bytes == 0) ≡ false = ground arith in
    (
      record s {
        memory = unlinked s.memory a q n mark;
        allocated = if q == 0 then n else s.allocated;
        allocated_count = count_down s.allocated_count;
        error_occurred = s.error_occurred || not (b.footer == magic_footer);
        printed = messages;
      },
      ap (λ c. free_if c (freeing (a + header_bytes)) s) allowed
          ∙ rw
              (
                some_p,
                find_header-middle a b front back s inv,
                ◌>>=◌,
                load_block_lem s a _ here.0 here.2,
              )
              e,
      record {
        chain = Chain-without s.memory _ a b front back inv.chain u;
        only =
            only_without s.memory a b mark front back here.0 inv.only
              (inv.only 0 (Away-zero s.memory 0 (front ++ (a, b) ∷ back) inv.chain)) u;
        head = head_after a b s.allocated s.memory front back inv.chain inv.head;
        count = counted s.allocated_count inv.count;
      },
      refl,
      refl,
    )
  where
    counted : (n : ℕ) → n ≡ length (front ++ (a, b) ∷ back) → count_down n ≡ length (front ++ back)
    counted zero e = absurd (omega (arith, e, length-append front ((a, b) ∷ back)))
    counted (suc n) e =
        omega (arith, e, length-append front ((a, b) ∷ back), length-append front back)
