-- ===== src/Driver/Outstanding.antt =====
-- `eval_mm_valid` of LAB6_malloclab/mdriver.c keeps the payloads that are allocated, for any package.
use mathlib.Core.Path.{subst}
use cmu_15_213_intro_to_comp.Prelude.{
  ℕ, ◌%◌, ◌<◌, ◌≡◌, refl, sym, ◌≤◌, Bool, true, false, Option, none, some, List, [], ◌∷◌, get_or,
  set, ◌==◌, if◌then◌else◌, arith, length, length-set, ltb, ltb→lt,
}
use cmu_15_213_intro_to_comp.Driver.{
  Range, Added, adds, refuses, aborts, malloc_failed, realloc_failed, data_lost, TraceOp, alloc,
  realloc, free, Package, Run, Verdict, goes, invalid, faults, stops, overlaps_any, remove_range,
  remember, written, after_alloc, check_range, allocated, check_data, after_realloc, reallocated,
  realloc_block, freed, free_block, check_op, and_then, check_ops, initialised, eval_mm_valid,
}
use cmu_15_213_intro_to_comp.Driver.Ranges.{payload, add_range-adds}
use cmu_15_213_intro_to_comp.Driver.Live.{
  Absent, Present, without, Tied, IsBlock, get_or-set_self, Tied-set, Tied-remove,
}

-- The ids in use, the last one allocated or reallocated first.
abbrev pub live_after : List ℕ → List TraceOp → List ℕ
live_after live [] = live
live_after live (alloc i size ∷ ops) = live_after (i ∷ live) ops
live_after live (realloc i size ∷ ops) = live_after (i ∷ without i live) ops
live_after live (free i ∷ ops) = live_after (without i live) ops

-- A trace allocates only ids that are not in use, and reallocates and frees only ids that are.
abbrev pub IsTrace : List ℕ → List TraceOp → Type 0
IsTrace live [] = Unit
IsTrace live (alloc i size ∷ ops) = Absent i live × IsTrace (i ∷ live) ops
IsTrace live (realloc i size ∷ ops) = Present i live × IsTrace (i ∷ without i live) ops
IsTrace live (free i ∷ ops) = Present i live × IsTrace (without i live) ops

module _ {H : Type 0} where
  -- The ranges of the run are those of the ids in use.
  pub record Keeps (run : Run H) (live : List ℕ) : Type 0 where
    pub tied : Tied run.blocks run.block_sizes live run.ranges
    pub sizes : length run.block_sizes ≡ length run.blocks

  abbrev Kept : Verdict H → List ℕ → Type 0
  Kept (goes run) live = Keeps run live
  Kept (invalid c) live = Unit
  Kept faults live = Unit
  Kept stops live = Unit

  if-Kept :
      (b : Bool) (v w : Verdict H) (live : List ℕ)
      → (b ≡ true → Kept v live)
      → (b ≡ false → Kept w live)
      → Kept (if b then v else w) live
  if-Kept true v w live h k = h refl
  if-Kept false v w live h k = k refl

  remember-Kept :
      (i p size : ℕ) (run : Run H) (live : List ℕ) (ranges : List Range)
      → run.ranges ≡ payload p size ∷ ranges
      → (payload p size).lo ≤ (payload p size).hi
      → p % 8 ≡ 0
      → overlaps_any ranges (payload p size).lo (payload p size).hi ≡ false
      → Absent i live
      → Tied run.blocks run.block_sizes live ranges
      → length run.block_sizes ≡ length run.blocks
      → Kept (remember i p size run) (i ∷ live)
  unfolding remember
  remember-Kept i p size run live ranges e le aligned apart absent tied sizes =
      if-Kept (ltb i (length run.blocks)) _ faults (i ∷ live)
        (λ inside.
          let bound : i < length run.blocks = ltb→lt i (length run.blocks) inside in
          let blocks = set run.blocks i (some p) in
          let block_sizes = set run.block_sizes i (some size) in
          let block : IsBlock (get_or blocks i none) (get_or block_sizes i none) (payload p size) =
            rw
              (
                get_or-set_self run.blocks i (some p) bound,
                get_or-set_self run.block_sizes i (some size) (omega (arith, sizes)),
              )
              (refl, le, aligned) in
          record {
            tied = subst (Tied blocks block_sizes (i ∷ live)) (sym e) (
              block,
              absent,
              apart,
              Tied-set run.blocks run.block_sizes i (some p) (some size) live ranges absent tied,
            );
            sizes = omega (
              arith,
              sizes,
              length-set run.blocks i (some p),
              length-set run.block_sizes i (some size),
            );
          })
        (λ outside. tt)

module _ {H : Type 0} (m : Package H) where
  written-Kept :
      (i p size : ℕ) (run : Run H) (live : List ℕ) (ranges ranges' : List Range)
      → Absent i live
      → Tied run.blocks run.block_sizes live ranges
      → length run.block_sizes ≡ length run.blocks
      → check_range m ranges p size run.heap ≡ adds ranges'
      → Kept (remember i p size (written m run i p size ranges')) (i ∷ live)
  unfolding check_range
  written-Kept i p size run live ranges ranges' absent tied sizes e =
      let (e', (placed, apart)) =
        add_range-adds (m.mem_heap_lo run.heap) (m.mem_heap_hi run.heap) ranges p size e in
      remember-Kept i p size (written m run i p size ranges') live ranges e' placed.ordered
        placed.aligned apart absent tied sizes

  after_alloc-Kept :
      (i p size : ℕ) (run : Run H) (live : List ℕ) (added : Added)
      → Absent i live
      → Keeps run live
      → check_range m run.ranges p size run.heap ≡ added
      → Kept (after_alloc m i p size run added) (i ∷ live)
  after_alloc-Kept i p size run live (adds ranges') absent k e =
      written-Kept i p size run live run.ranges ranges' absent k.tied k.sizes e
  after_alloc-Kept i p size run live (refuses c) absent k e = tt
  after_alloc-Kept i p size run live aborts absent k e = tt

  allocated-Kept :
      (i size : ℕ) (run : Run H) (live : List ℕ) (got : Option (ℕ × H))
      → Absent i live
      → Keeps run live
      → Kept (allocated m i size run got) (i ∷ live)
  allocated-Kept i size run live none absent k = tt
  allocated-Kept i size run live (some (p, heap)) absent k =
      if-Kept (p == 0) (invalid malloc_failed) _ (i ∷ live) (λ null. tt)
        (λ other.
          after_alloc-Kept i p size (record run { heap = heap }) live _ absent
            (record { tied = k.tied; sizes = k.sizes }) refl)

  check_data-Kept :
      (i p size : ℕ) (run : Run H) (live : List ℕ) (ranges ranges' : List Range) (old : Option ℕ)
      → Absent i live
      → Tied run.blocks run.block_sizes live ranges
      → length run.block_sizes ≡ length run.blocks
      → check_range m ranges p size run.heap ≡ adds ranges'
      → Kept (check_data m i p size run ranges' old) (i ∷ live)
  check_data-Kept i p size run live ranges ranges' none absent tied sizes e = tt
  check_data-Kept i p size run live ranges ranges' (some oldsize) absent tied sizes e =
      if-Kept _ _ (invalid data_lost) (i ∷ live)
        (λ kept. written-Kept i p size run live ranges ranges' absent tied sizes e) (λ lost. tt)

  after_realloc-Kept :
      (i p size : ℕ) (run : Run H) (live : List ℕ) (ranges : List Range) (added : Added)
      → Absent i live
      → Tied run.blocks run.block_sizes live ranges
      → length run.block_sizes ≡ length run.blocks
      → check_range m ranges p size run.heap ≡ added
      → Kept (after_realloc m i p size run added) (i ∷ live)
  after_realloc-Kept i p size run live ranges (adds ranges') absent tied sizes e =
      check_data-Kept i p size run live ranges ranges' (get_or run.block_sizes i none) absent tied
        sizes e
  after_realloc-Kept i p size run live ranges (refuses c) absent tied sizes e = tt
  after_realloc-Kept i p size run live ranges aborts absent tied sizes e = tt

  reallocated-Kept :
      (i oldp size : ℕ) (run : Run H) (live : List ℕ) (got : Option (ℕ × H))
      → Present i live
      → get_or run.blocks i none ≡ some oldp
      → Keeps run live
      → Kept (reallocated m i oldp size run got) (i ∷ without i live)
  reallocated-Kept i oldp size run live none present at k = tt
  reallocated-Kept i oldp size run live (some (newp, heap)) present at k =
      let (gone, tied) =
        Tied-remove run.blocks run.block_sizes i oldp live run.ranges present at k.tied in
      if-Kept (newp == 0) (invalid realloc_failed) _ (i ∷ without i live) (λ null. tt)
        (λ other.
          after_realloc-Kept i newp size (record run { heap = heap }) (without i live)
            (remove_range run.ranges oldp) _ gone tied k.sizes refl)

  realloc_block-Kept :
      (i size : ℕ) (run : Run H) (live : List ℕ) (old : Option ℕ)
      → Present i live
      → get_or run.blocks i none ≡ old
      → Keeps run live
      → Kept (realloc_block m i size run old) (i ∷ without i live)
  realloc_block-Kept i size run live none present at k = tt
  realloc_block-Kept i size run live (some oldp) present at k =
      reallocated-Kept i oldp size run live (m.mm_realloc oldp size run.heap) present at k

  free_block-Kept :
      (i : ℕ) (run : Run H) (live : List ℕ) (block : Option ℕ)
      → Present i live
      → get_or run.blocks i none ≡ block
      → Keeps run live
      → Kept (free_block m run block) (without i live)
  free_block-Kept i run live none present at k = tt
  free_block-Kept i run live (some p) present at k =
      let (gone, tied) =
        Tied-remove run.blocks run.block_sizes i p live run.ranges present at k.tied in
      freed-Kept (m.mm_free p run.heap) tied
    where
      freed-Kept :
          (got : Option H)
          → Tied run.blocks run.block_sizes (without i live) (remove_range run.ranges p)
          → Kept (freed m run (remove_range run.ranges p) got) (without i live)
      freed-Kept none tied = tt
      freed-Kept (some heap) tied = record { tied = tied; sizes = k.sizes }

  and_then-Kept :
      (v : Verdict H) (rest : Run H → Verdict H) (live live' : List ℕ)
      → Kept v live
      → ((run : Run H) → Keeps run live → Kept (rest run) live')
      → Kept (and_then m v rest) live'
  and_then-Kept (goes run) rest live live' h k = k run h
  and_then-Kept (invalid c) rest live live' h k = tt
  and_then-Kept faults rest live live' h k = tt
  and_then-Kept stops rest live live' h k = tt

  check_ops-Kept :
      (ops : List TraceOp) (run : Run H) (live : List ℕ)
      → IsTrace live ops
      → Keeps run live
      → Kept (check_ops m ops run) (live_after live ops)
  unfolding check_ops check_op
  check_ops-Kept [] run live ok k = k
  check_ops-Kept (alloc i size ∷ ops) run live ok k =
      and_then-Kept (allocated m i size run (m.mm_malloc size run.heap)) (check_ops m ops)
        (i ∷ live) (live_after (i ∷ live) ops)
        (allocated-Kept i size run live (m.mm_malloc size run.heap) ok.0 k)
        (λ run' k'. check_ops-Kept ops run' (i ∷ live) ok.1 k')
  check_ops-Kept (realloc i size ∷ ops) run live ok k =
      and_then-Kept (realloc_block m i size run (get_or run.blocks i none)) (check_ops m ops)
        (i ∷ without i live) (live_after (i ∷ without i live) ops)
        (realloc_block-Kept i size run live (get_or run.blocks i none) ok.0 refl k)
        (λ run' k'. check_ops-Kept ops run' (i ∷ without i live) ok.1 k')
  check_ops-Kept (free i ∷ ops) run live ok k =
      and_then-Kept (free_block m run (get_or run.blocks i none)) (check_ops m ops) (without i live)
        (live_after (without i live) ops)
        (free_block-Kept i run live (get_or run.blocks i none) ok.0 refl k)
        (λ run' k'. check_ops-Kept ops run' (without i live) ok.1 k')

  initialised-Kept :
      (num_ids : ℕ) (ops : List TraceOp) (got : Option (Bool × H))
      → IsTrace [] ops
      → Kept (initialised m num_ids ops [] got) (live_after [] ops)
  initialised-Kept num_ids ops none ok = tt
  initialised-Kept num_ids ops (some (false, heap)) ok = tt
  initialised-Kept num_ids ops (some (true, heap)) ok =
      check_ops-Kept ops _ [] ok (record { tied = tt; sizes = refl })

  -- If eval_mm_valid accepts a trace that allocates only ids not in use and reallocates and
  -- frees only ids in use, then for any package its range list at the end has exactly one range
  -- for each id that is still in use, the last one allocated first, which is that of the address
  -- and the size stored for the id; each range is aligned, and none has its first or last byte
  -- in an older one.
  pub eval_mm_valid-Keeps :
      (num_ids : ℕ) (ops : List TraceOp) (ranges : List Range) (heap : H) {run : Run H}
      → IsTrace [] ops
      → eval_mm_valid m num_ids ops ranges heap ≡ goes run
      → Keeps run (live_after [] ops)
  unfolding eval_mm_valid
  eval_mm_valid-Keeps num_ids ops ranges heap {run} ok e =
      subst (λ v. Kept v (live_after [] ops)) e
        (initialised-Kept num_ids ops (m.mm_init (m.mem_reset_brk heap)) ok)
