-- ===== src/Harness/Errors.antt =====
-- The errors that LAB0_cprogramminglab/harness.c notices or misses.
use cmu_15_213_intro_to_comp.Prelude.{
  ℕ, zero, suc, ◌≤◌, ◌≡◌, ◌≢◌, refl, ap, ◌∙◌, Bool, false, true, none, List, [], ◌∷◌, ◌==◌,
  if◌then◌else◌, length, arith,
}
use cmu_15_213_intro_to_comp.Harness.{
  Harness, done, stray, ◌>>=◌, >>=-done, load_block, block_of, find_allocated, check_allocated,
  check_if, when_found, find_header, free_if, freeing, test_free, unallocated, Report, from_cell,
}
use cmu_15_213_intro_to_comp.Harness.Chain.{Cells, first, Away, Chain, IsHarness, load_block_lem}
use cmu_15_213_intro_to_comp.Harness.Reports.{noted_lem}

-- The search reaches the end of the list.
find_allocated-false :
    (n b before : ℕ) (xs : Cells) (s : Harness)
    → Chain s.memory before xs
    → Away b xs
    → length xs ≤ n
    → find_allocated n b (first xs) s ≡ done false s
unfolding find_allocated
find_allocated-false zero b before [] s c w fuel = refl
find_allocated-false (suc n) b before [] s c w fuel = refl
find_allocated-false zero b before ((a, g) ∷ xs) s c w fuel = absurd (omega arith)
find_allocated-false (suc n) b before ((a, g) ∷ xs) s c w fuel =
    let ok : (a == 0) ≡ false = ground (arith, c.0) in
    let other : (a == b) ≡ false = ground (arith, w.0) in
    rw (ok, load_block_lem s a _ c.0 c.2, ◌>>=◌, other)
      (find_allocated-false n b a xs s c.4 w.1 (omega arith))

load_block-none : (s : Harness) (a : ℕ) → s.memory a ≡ none → load_block a s ≡ stray s
unfolding load_block
load_block-none s a e = at (a == 0)
  where
    at : (null : Bool) → (if null then stray s else from_cell (s.memory a) s) ≡ stray s
    at true = refl
    at false = rw e

-- In cautious mode find_header notes an error for a pointer to no allocated block, and then reads.
find_header-unallocated :
    (p : ℕ) (s : Harness) (xs : Cells)
    → IsHarness s xs
    → s.cautious_mode ≡ true
    → p ≢ 0
    → Away (block_of p) xs
    → (messages : List Report) × (find_header p s
        ≡ stray (record s { error_occurred = true; printed = messages }))
unfolding find_header
find_header-unallocated p s xs inv cautious nonzero away =
    let some_p : (p == 0) ≡ false = ground arith in
    let b = block_of p in
    let search : find_allocated s.allocated_count b s.allocated s ≡ done false s =
      ap (λ h. find_allocated s.allocated_count b h s) inv.head
      ∙ find_allocated-false s.allocated_count b 0 xs s inv.chain away (omega (arith, inv.count)) in
    let (messages, noted) = noted_lem unallocated s in
    let s' : Harness = record s { error_occurred = true; printed = messages } in
    let checked : check_allocated b s ≡ done tt s' =
      unfold check_allocated in
      ap (λ c. check_if c b s) cautious
      ∙ >>=-done (find_allocated s.allocated_count b s.allocated) when_found s s false search
      ∙ noted in
    (messages, rw (some_p, ◌>>=◌, checked, ◌>>=◌, load_block-none s' b (inv.only b away)) refl)

-- In cautious mode, on a well-formed harness that allows frees, test_free of a pointer other
-- than NULL at which no allocated block starts notes an error and then goes on to read a header
-- there.
pub test_free-unallocated :
    (p : ℕ) (s : Harness) (xs : Cells)
    → IsHarness s xs
    → s.noallocate_mode ≡ false
    → s.cautious_mode ≡ true
    → p ≢ 0
    → Away (block_of p) xs
    → (s' : Harness) × (test_free p s ≡ stray s') × (s'.error_occurred ≡ true)
unfolding test_free freeing
test_free-unallocated p s xs inv allowed cautious nonzero away =
    let some_p : (p == 0) ≡ false = ground arith in
    let (messages, e) = find_header-unallocated p s xs inv cautious nonzero away in
    (
      record s { error_occurred = true; printed = messages },
      ap (λ c. free_if c (freeing p) s) allowed ∙ rw (some_p, e, ◌>>=◌) refl,
      refl,
    )
