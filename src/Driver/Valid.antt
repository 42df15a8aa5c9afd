-- ===== src/Driver/Valid.antt =====
-- `eval_mm_valid` of LAB6_malloclab/mdriver.c: what a trace that it accepts says of the package.
use mathlib.Core.Path.{subst}
use cmu_15_213_intro_to_comp.Prelude.{
  ℕ, ◌%◌, ◌≤◌, ◌≡◌, refl, sym, Bool, true, false, Option, none, some, List, [], ◌∷◌, get_or, ◌==◌,
  if◌then◌else◌, arith, length, ltb,
}
use cmu_15_213_intro_to_comp.Driver.{
  Range, Added, adds, refuses, aborts, malloc_failed, realloc_failed, data_lost, TraceOp, alloc,
  realloc, free, Package, Run, Verdict, goes, invalid, faults, stops, overlaps_any, remove_range,
  remember, written, after_alloc, check_range, allocated, check_data, after_realloc, reallocated,
  realloc_block, freed, free_block, check_op, and_then, check_ops, initialised, eval_mm_valid,
}
use cmu_15_213_intro_to_comp.Driver.Ranges.{IsPlaced, payload, add_range-adds}

-- Every payload is aligned and lies in the heap, and none has its first or last byte in an older
-- one.
abbrev pub AreChecked : (heap_lo heap_hi : ℕ) → List Range → Type 0
AreChecked heap_lo heap_hi [] = Unit
AreChecked heap_lo heap_hi (r ∷ rs) =
    IsPlaced heap_lo heap_hi r
    × ((overlaps_any rs r.lo r.hi ≡ false) × AreChecked heap_lo heap_hi rs)

-- What the driver relies on: the heap keeps its start and does not shrink below its end, except by
-- `mem_reset_brk`, and writing to a payload does not move it.
pub record Grows {H : Type 0} (m : Package H) : Type 0 where
  pub malloc_grows :
      (size : ℕ) (h h' : H) (p : ℕ)
      → m.mm_malloc size h ≡ some (p, h')
      → (m.mem_heap_lo h' ≡ m.mem_heap_lo h) × (m.mem_heap_hi h ≤ m.mem_heap_hi h')
  pub realloc_grows :
      (ptr size : ℕ) (h h' : H) (p : ℕ)
      → m.mm_realloc ptr size h ≡ some (p, h')
      → (m.mem_heap_lo h' ≡ m.mem_heap_lo h) × (m.mem_heap_hi h ≤ m.mem_heap_hi h')
  pub free_grows :
      (ptr : ℕ) (h h' : H)
      → m.mm_free ptr h ≡ some h'
      → (m.mem_heap_lo h' ≡ m.mem_heap_lo h) × (m.mem_heap_hi h ≤ m.mem_heap_hi h')
  pub memset_keeps :
      (p byte size : ℕ) (h : H)
      → (m.mem_heap_lo (m.memset p byte size h) ≡ m.mem_heap_lo h)
        × (m.mem_heap_hi (m.memset p byte size h) ≡ m.mem_heap_hi h)

AreChecked-grows :
    (lo lo' hi hi' : ℕ) (rs : List Range)
    → lo' ≡ lo
    → hi ≤ hi'
    → AreChecked lo hi rs
    → AreChecked lo' hi' rs
AreChecked-grows lo lo' hi hi' [] e le h = tt
AreChecked-grows lo lo' hi hi' (r ∷ rs) e le (placed, (apart, h)) =
    (omega arith, (apart, AreChecked-grows lo lo' hi hi' rs e le h))

pub overlaps_any-remove_range :
    (rs : List Range) (ptr lo hi : ℕ)
    → overlaps_any rs lo hi ≡ false
    → overlaps_any (remove_range rs ptr) lo hi ≡ false
unfolding overlaps_any remove_range
overlaps_any-remove_range [] ptr lo hi h = refl
overlaps_any-remove_range (r ∷ rs) ptr lo hi h =
    ground (arith, overlaps_any-remove_range rs ptr lo hi)

remove_range-AreChecked :
    (lo hi : ℕ) (rs : List Range) (ptr : ℕ)
    → AreChecked lo hi rs
    → AreChecked lo hi (remove_range rs ptr)
unfolding remove_range
remove_range-AreChecked lo hi [] ptr h = tt
remove_range-AreChecked lo hi (r ∷ rs) ptr (placed, (apart, h)) =
    elim (r.lo == ptr) as (λ b. AreChecked lo hi (if b then rs else r ∷ remove_range rs ptr)) [
      | true ↦ h
      | false ↦ (
        placed,
        (overlaps_any-remove_range rs ptr r.lo r.hi apart, remove_range-AreChecked lo hi rs ptr h),
      )
    ]

module _ {H : Type 0} (m : Package H) where
  abbrev pub IsRun : Run H → Type 0
  IsRun run = AreChecked (m.mem_heap_lo run.heap) (m.mem_heap_hi run.heap) run.ranges

  -- If the trace has been accepted so far, its payloads are checked.
  abbrev pub Sound : Verdict H → Type 0
  Sound (goes run) = IsRun run
  Sound (invalid c) = Unit
  Sound faults = Unit
  Sound stops = Unit

module _ {H : Type 0} (m : Package H) (grows : Grows m) where
  if-Sound : (b : Bool) (v w : Verdict H) → Sound m v → Sound m w → Sound m (if b then v else w)
  if-Sound true v w h k = h
  if-Sound false v w h k = k

  remember-Sound :
      (index p size : ℕ) (run : Run H) → IsRun m run → Sound m (remember index p size run)
  unfolding remember
  remember-Sound index p size run h = if-Sound (ltb index (length run.blocks)) _ faults h tt

  IsRun-written :
      (run : Run H) (index p size : ℕ) (ranges ranges' : List Range)
      → AreChecked (m.mem_heap_lo run.heap) (m.mem_heap_hi run.heap) ranges
      → check_range m ranges p size run.heap ≡ adds ranges'
      → IsRun m (written m run index p size ranges')
  unfolding check_range
  IsRun-written run index p size ranges ranges' h e =
      let (e', (placed, apart)) =
        add_range-adds (m.mem_heap_lo run.heap) (m.mem_heap_hi run.heap) ranges p size e in
      let (same_lo, same_hi) = grows.memset_keeps p (index % 256) size run.heap in
      subst (AreChecked _ _) (sym e') (
        AreChecked-grows _ _ _ _ (payload p size ∷ ranges) same_lo (omega arith)
          (placed, (apart, h)))

  after_alloc-Sound :
      (index p size : ℕ) (run : Run H) (ranges : List Range) (added : Added)
      → AreChecked (m.mem_heap_lo run.heap) (m.mem_heap_hi run.heap) ranges
      → check_range m ranges p size run.heap ≡ added
      → Sound m (after_alloc m index p size run added)
  after_alloc-Sound index p size run ranges (adds ranges') h e =
      remember-Sound index p size (written m run index p size ranges')
        (IsRun-written run index p size ranges ranges' h e)
  after_alloc-Sound index p size run ranges (refuses c) h e = tt
  after_alloc-Sound index p size run ranges aborts h e = tt

  allocated-Sound :
      (index size : ℕ) (run : Run H) (got : Option (ℕ × H))
      → IsRun m run
      → m.mm_malloc size run.heap ≡ got
      → Sound m (allocated m index size run got)
  allocated-Sound index size run none h e = tt
  allocated-Sound index size run (some (p, heap)) h e =
      let (same_lo, up) = grows.malloc_grows size run.heap heap p e in
      if-Sound (p == 0) (invalid malloc_failed) _ tt (
        after_alloc-Sound index p size (record run { heap = heap }) run.ranges _
          (AreChecked-grows _ _ _ _ run.ranges same_lo up h) refl)

  check_data-Sound :
      (index newp size : ℕ) (run : Run H) (ranges ranges' : List Range) (old : Option ℕ)
      → AreChecked (m.mem_heap_lo run.heap) (m.mem_heap_hi run.heap) ranges
      → check_range m ranges newp size run.heap ≡ adds ranges'
      → Sound m (check_data m index newp size run ranges' old)
  check_data-Sound index newp size run ranges ranges' none h e = tt
  check_data-Sound index newp size run ranges ranges' (some oldsize) h e =
      if-Sound _ _ (invalid data_lost)
        (remember-Sound index newp size (written m run index newp size ranges')
          (IsRun-written run index newp size ranges ranges' h e))
        tt

  after_realloc-Sound :
      (index newp size : ℕ) (run : Run H) (ranges : List Range) (added : Added)
      → AreChecked (m.mem_heap_lo run.heap) (m.mem_heap_hi run.heap) ranges
      → check_range m ranges newp size run.heap ≡ added
      → Sound m (after_realloc m index newp size run added)
  after_realloc-Sound index newp size run ranges (adds ranges') h e =
      check_data-Sound index newp size run ranges ranges' (get_or run.block_sizes index none) h e
  after_realloc-Sound index newp size run ranges (refuses c) h e = tt
  after_realloc-Sound index newp size run ranges aborts h e = tt

  reallocated-Sound :
      (index oldp size : ℕ) (run : Run H) (got : Option (ℕ × H))
      → IsRun m run
      → m.mm_realloc oldp size run.heap ≡ got
      → Sound m (reallocated m index oldp size run got)
  reallocated-Sound index oldp size run none h e = tt
  reallocated-Sound index oldp size run (some (newp, heap)) h e =
      let (same_lo, up) = grows.realloc_grows oldp size run.heap heap newp e in
      if-Sound (newp == 0) (invalid realloc_failed) _ tt (
        after_realloc-Sound index newp size (record run { heap = heap })
          (remove_range run.ranges oldp) _
          (AreChecked-grows _ _ _ _ (remove_range run.ranges oldp) same_lo up
            (remove_range-AreChecked _ _ run.ranges oldp h))
          refl)

  realloc_block-Sound :
      (index size : ℕ) (run : Run H) (old : Option ℕ)
      → IsRun m run
      → Sound m (realloc_block m index size run old)
  realloc_block-Sound index size run none h = tt
  realloc_block-Sound index size run (some oldp) h =
      reallocated-Sound index oldp size run (m.mm_realloc oldp size run.heap) h refl

  freed-Sound :
      (run : Run H) (p : ℕ) (got : Option H)
      → IsRun m run
      → m.mm_free p run.heap ≡ got
      → Sound m (freed m run (remove_range run.ranges p) got)
  freed-Sound run p none h e = tt
  freed-Sound run p (some heap) h e =
      let (same_lo, up) = grows.free_grows p run.heap heap e in
      AreChecked-grows _ _ _ _ (remove_range run.ranges p) same_lo up
        (remove_range-AreChecked _ _ run.ranges p h)

  free_block-Sound :
      (run : Run H) (block : Option ℕ) → IsRun m run → Sound m (free_block m run block)
  free_block-Sound run none h = tt
  free_block-Sound run (some p) h = freed-Sound run p (m.mm_free p run.heap) h refl

  check_op-Sound : (run : Run H) (op : TraceOp) → IsRun m run → Sound m (check_op m run op)
  unfolding check_op
  check_op-Sound run (alloc index size) h =
      allocated-Sound index size run (m.mm_malloc size run.heap) h refl
  check_op-Sound run (realloc index size) h =
      realloc_block-Sound index size run (get_or run.blocks index none) h
  check_op-Sound run (free index) h = free_block-Sound run (get_or run.blocks index none) h

  and_then-Sound :
      (v : Verdict H) (rest : Run H → Verdict H)
      → Sound m v
      → ((run : Run H) → IsRun m run → Sound m (rest run))
      → Sound m (and_then m v rest)
  and_then-Sound (goes run) rest h k = k run h
  and_then-Sound (invalid c) rest h k = tt
  and_then-Sound faults rest h k = tt
  and_then-Sound stops rest h k = tt

  check_ops-Sound : (ops : List TraceOp) (run : Run H) → IsRun m run → Sound m (check_ops m ops run)
  unfolding check_ops
  check_ops-Sound [] run h = h
  check_ops-Sound (op ∷ ops) run h =
      and_then-Sound (check_op m run op) (check_ops m ops) (check_op-Sound run op h)
        (check_ops-Sound ops)

  initialised-Sound :
      (num_ids : ℕ) (ops : List TraceOp) (got : Option (Bool × H))
      → Sound m (initialised m num_ids ops [] got)
  initialised-Sound num_ids ops none = tt
  initialised-Sound num_ids ops (some (false, heap)) = tt
  initialised-Sound num_ids ops (some (true, heap)) = check_ops-Sound ops _ tt

  -- If eval_mm_valid accepts a trace, every payload that is still allocated at its end is
  -- aligned and lies in the heap, and none has its first or last byte in an older one, for a
  -- package that keeps the start of its heap, never shrinks it, and whose payloads can be
  -- written without moving it.
  pub eval_mm_valid-IsRun :
      (num_ids : ℕ) (ops : List TraceOp) (ranges : List Range) (heap : H) {run : Run H}
      → eval_mm_valid m num_ids ops ranges heap ≡ goes run
      → IsRun m run
  unfolding eval_mm_valid
  eval_mm_valid-IsRun num_ids ops ranges heap {run} e =
      subst (Sound m) e (initialised-Sound num_ids ops (m.mm_init (m.mem_reset_brk heap)))
