-- ===== src/Driver.antt =====
-- LAB6_malloclab/mdriver.c: the list of the ranges of allocated payloads, and the check of a malloc
-- package on a trace. The package is an argument.
pub mod Ranges
pub mod Valid
pub mod Live
pub mod Outstanding
pub mod Data
pub mod Trace
mod Tests
use cmu_15_213_intro_to_comp.Prelude.{
  ℕ, zero, suc, ◌+◌, ◌-◌, ◌%◌, Bool, true, false, not, ◌&&◌, ◌||◌, Option, none, some, List, [],
  ◌∷◌, ltb, leb, ◌==◌, if◌then◌else◌, length, get_or, set, replicate,
}

-- The first and the last byte of a payload.
pub record Range : Type 0 where
  pub lo : ℕ
  pub hi : ℕ

-- The messages that `malloc_error` prints and counts.
pub data Complaint : Type 0 where
  init_failed malloc_failed realloc_failed : Complaint
  unaligned outside overlaps data_lost : Complaint

-- `aborts` is a failed assertion.
pub data Added : Type 0 where
  adds : List Range → Added
  refuses : Complaint → Added
  aborts : Added

unfoldable pub outside_heap : (heap_lo heap_hi lo hi : ℕ) → Bool
outside_heap heap_lo heap_hi lo hi =
    ltb lo heap_lo || ltb heap_hi lo || ltb hi heap_lo || ltb heap_hi hi

-- The test for an overlap: the first or the last byte stands in the other payload.
unfoldable pub overlaps_one : Range → (lo hi : ℕ) → Bool
overlaps_one p lo hi = (leb p.lo lo && leb lo p.hi) || (leb p.lo hi && leb hi p.hi)

unfoldable pub overlaps_any : List Range → (lo hi : ℕ) → Bool
overlaps_any [] lo hi = false
overlaps_any (p ∷ ps) lo hi = overlaps_one p lo hi || overlaps_any ps lo hi

unfoldable pub add_range : (heap_lo heap_hi : ℕ) → List Range → (lo size : ℕ) → Added
add_range heap_lo heap_hi ranges lo size =
    let hi = lo + size - 1 in
    if size == 0
    then aborts
    else if not (lo % 8 == 0)
    then refuses unaligned
    else if outside_heap heap_lo heap_hi lo hi
    then refuses outside
    else if overlaps_any ranges lo hi
    then refuses overlaps
    else adds (record { lo = lo; hi = hi } ∷ ranges)

unfoldable pub remove_range : List Range → (lo : ℕ) → List Range
remove_range [] lo = []
remove_range (p ∷ ps) lo = if p.lo == lo then ps else p ∷ remove_range ps lo

abbrev pub clear_ranges : List Range → List Range
clear_ranges ranges = []

-- A request of a trace.
pub data TraceOp : Type 0 where
  alloc : (index size : ℕ) → TraceOp
  realloc : (index size : ℕ) → TraceOp
  free : (index : ℕ) → TraceOp

-- What the driver uses of mm.c, memlib.c and the memory; `none` is a fault, the pointer 0 is NULL.
pub record Package (H : Type 0) : Type 0 where
  pub mem_reset_brk : H → H
  pub mm_init : H → Option (Bool × H)
  pub mm_malloc : (size : ℕ) → H → Option (ℕ × H)
  pub mm_realloc : (ptr size : ℕ) → H → Option (ℕ × H)
  pub mm_free : (ptr : ℕ) → H → Option H
  pub mem_heap_lo : H → ℕ
  pub mem_heap_hi : H → ℕ
  pub memset : (p byte size : ℕ) → H → H
  pub byte_at : H → ℕ → ℕ

-- The heap, the range list, and the arrays of the trace, whose cells are unset at first.
pub record Run (H : Type 0) : Type 0 where
  pub heap : H
  pub ranges : List Range
  pub blocks : List (Option ℕ)
  pub block_sizes : List (Option ℕ)

-- `goes` is no error so far, `invalid` the return of 0 after a complaint, `faults` an access outside
-- an array or to an unset cell, or a fault of the package.
pub data Verdict (H : Type 0) : Type 0 where
  goes : Run H → Verdict H
  invalid : Complaint → Verdict H
  faults stops : Verdict H

-- `newp[j] != (index & 0xFF)` compares a signed `char`, which is negative from 128 on.
unfoldable pub same_char : (byte c : ℕ) → Bool
same_char byte c = ltb byte 128 && byte == c

unfoldable pub all_chars : (byte_at : ℕ → ℕ) → (n p c : ℕ) → Bool
all_chars byte_at zero p c = true
all_chars byte_at (suc n) p c = same_char (byte_at p) c && all_chars byte_at n (p + 1) c

module _ {H : Type 0} where
  -- `trace->blocks[index] = p; trace->block_sizes[index] = size;`
  unfoldable pub remember : (index p size : ℕ) → Run H → Verdict H
  remember index p size run =
      if ltb index (length run.blocks)
      then goes (record run {
        blocks = set run.blocks index (some p);
        block_sizes = set run.block_sizes index (some size);
      })
      else faults

module _ {H : Type 0} (m : Package H) where
  abbrev pub written : (run : Run H) → (index p size : ℕ) → List Range → Run H
  written run index p size ranges = record run {
    heap = m.memset p (index % 256) size run.heap;
    ranges = ranges;
  }

  abbrev pub after_alloc : (index p size : ℕ) → Run H → Added → Verdict H
  after_alloc index p size run (adds ranges) =
      remember index p size (written run index p size ranges)
  after_alloc index p size run (refuses c) = invalid c
  after_alloc index p size run aborts = stops

  unfoldable pub check_range : List Range → (p size : ℕ) → H → Added
  check_range ranges p size heap = add_range (m.mem_heap_lo heap) (m.mem_heap_hi heap) ranges p size

  abbrev pub allocated : (index size : ℕ) → Run H → Option (ℕ × H) → Verdict H
  allocated index size run none = faults
  allocated index size run (some (p, heap)) =
      if p == 0
      then invalid malloc_failed
      else after_alloc index p size (record run { heap = heap })
          (check_range run.ranges p size heap)

  -- The data of the old block up to the smaller size.
  abbrev pub check_data : (index newp size : ℕ) → Run H → List Range → Option ℕ → Verdict H
  check_data index newp size run ranges none = faults
  check_data index newp size run ranges (some oldsize) =
      if all_chars (m.byte_at run.heap) (if ltb size oldsize then size else oldsize) newp
        (index % 256)
      then remember index newp size (written run index newp size ranges)
      else invalid data_lost

  abbrev pub after_realloc : (index newp size : ℕ) → Run H → Added → Verdict H
  after_realloc index newp size run (adds ranges) =
      check_data index newp size run ranges (get_or run.block_sizes index none)
  after_realloc index newp size run (refuses c) = invalid c
  after_realloc index newp size run aborts = stops

  abbrev pub reallocated : (index oldp size : ℕ) → Run H → Option (ℕ × H) → Verdict H
  reallocated index oldp size run none = faults
  reallocated index oldp size run (some (newp, heap)) =
      if newp == 0
      then invalid realloc_failed
      else after_realloc index newp size (record run { heap = heap })
          (check_range (remove_range run.ranges oldp) newp size heap)

  abbrev pub realloc_block : (index size : ℕ) → Run H → Option ℕ → Verdict H
  realloc_block index size run none = faults
  realloc_block index size run (some oldp) =
      reallocated index oldp size run (m.mm_realloc oldp size run.heap)

  abbrev pub freed : Run H → List Range → Option H → Verdict H
  freed run ranges none = faults
  freed run ranges (some heap) = goes (record run { heap = heap; ranges = ranges })

  abbrev pub free_block : Run H → Option ℕ → Verdict H
  free_block run none = faults
  free_block run (some p) = freed run (remove_range run.ranges p) (m.mm_free p run.heap)

  unfoldable pub check_op : Run H → TraceOp → Verdict H
  check_op run (alloc index size) = allocated index size run (m.mm_malloc size run.heap)
  check_op run (realloc index size) = realloc_block index size run (get_or run.blocks index none)
  check_op run (free index) = free_block run (get_or run.blocks index none)

  abbrev pub and_then : Verdict H → (Run H → Verdict H) → Verdict H
  and_then (goes run) rest = rest run
  and_then (invalid c) rest = invalid c
  and_then faults rest = faults
  and_then stops rest = stops

  unfoldable pub check_ops : List TraceOp → Run H → Verdict H
  check_ops [] run = goes run
  check_ops (op ∷ ops) run = and_then (check_op run op) (check_ops ops)

  abbrev pub initialised : (num_ids : ℕ) → List TraceOp → List Range → Option (Bool × H) → Verdict H
  initialised num_ids ops ranges none = faults
  initialised num_ids ops ranges (some (false, heap)) = invalid init_failed
  initialised num_ids ops ranges (some (true, heap)) = check_ops ops (record {
    heap = heap;
    ranges = ranges;
    blocks = replicate num_ids none;
    block_sizes = replicate num_ids none;
  })

  -- `goes` is the return of 1.
  unfoldable pub eval_mm_valid : (num_ids : ℕ) → List TraceOp → List Range → H → Verdict H
  eval_mm_valid num_ids ops ranges heap =
      initialised num_ids ops (clear_ranges ranges) (m.mm_init (m.mem_reset_brk heap))
