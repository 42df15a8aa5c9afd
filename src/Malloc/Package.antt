-- ===== src/Malloc/Package.antt =====
-- The functions that LAB6_malloclab/mm.c exports.
use cmu_15_213_intro_to_comp.Prelude.{
  ℕ, ◌+◌, ◌/◌, ltb, bit_or, ◌==◌, if◌then◌else◌, Bool, true, false, none, some,
}
use cmu_15_213_intro_to_comp.Bits.{add, sub}
use cmu_15_213_intro_to_comp.Malloc.{
  done, M, pure, ◌>>=◌, ◌>>◌, get_size, get_alloc, put, hdrp, ftrp, prev_blkp, mem_sbrk,
  mem_heap_hi, failed, align,
}
use cmu_15_213_intro_to_comp.Malloc.Lists.{find_fit, put_block}
use cmu_15_213_intro_to_comp.Malloc.Blocks.{coalesce, extend_heap, place}

abbrev pub set_listp : ℕ → M (Unit {0})
set_listp p h = done tt (record h { heap_listp = p })

-- `memset` of the roots
abbrev pub clear_roots : M (Unit {0})
clear_roots h = done tt (record h { roots = λ i. 0 })

-- The alignment word, the prologue and the epilogue.
unfoldable pub format_heap : (p : ℕ) → M Bool
format_heap p = do
  put p 0
  put (add p 4) (bit_or 8 1)
  put (add p 8) (bit_or 8 1)
  put (add p 12) (bit_or 0 1)
  set_listp (add p 8)
  clear_roots
  block ← extend_heap (64 / 4)
  pure (elim block [ none ↦ false | some bp ↦ true ])

-- The result is true for 0 and false for -1.
unfoldable pub mm_init : M Bool
mm_init = do p ← mem_sbrk 16; set_listp p; if p == failed then pure false else format_heap p

abbrev pub count_call : M (Unit {0})
count_call h = done tt (record h { malloc_index = h.malloc_index + 1 })

unfoldable pub adjusted : (size : ℕ) → ℕ
adjusted size = if ltb size 8 then 16 else align (add size 8)

abbrev pub heap_end : M ℕ
heap_end h = done (add (mem_heap_hi h) 1) h

-- No free block fits. The result of `extend_heap` is not tested: `place` is given NULL too.
unfoldable pub malloc_at_end : (asize : ℕ) → M ℕ
malloc_at_end asize = do
  prev_size ← get_size (hdrp (← prev_blkp (← heap_end)))
  prev_alloc ← get_alloc (hdrp (← prev_blkp (← heap_end)))
  let extendsize = sub asize (if prev_alloc == 0 then prev_size else 0)
  block ← extend_heap (extendsize / 4)
  let bp : ℕ = elim block [ none ↦ 0 | some b ↦ b ]
  place bp asize
  pure bp

unfoldable pub malloc_adjusted : (asize : ℕ) → M ℕ
malloc_adjusted asize = do
  fit ← find_fit asize
  if fit == 0 then malloc_at_end asize else place fit asize >> pure fit

unfoldable pub mm_malloc : (size : ℕ) → M ℕ
mm_malloc size = do count_call; if size == 0 then pure 0 else malloc_adjusted (adjusted size)

unfoldable pub mm_free : (ptr : ℕ) → M (Unit {0})
mm_free ptr = do
  put (hdrp ptr) (bit_or (← get_size (hdrp ptr)) 0)
  put (← ftrp ptr) (bit_or (← get_size (hdrp ptr)) 0)
  put_block ptr
  bp ← coalesce ptr
  pure tt

-- `memcpy(new, old, size)` is a parameter.
unfoldable pub mm_realloc : (memcpy : (new old size : ℕ) → M (Unit {0})) → (ptr size : ℕ) → M ℕ
mm_realloc memcpy ptr size = do
  newptr ← mm_malloc size
  old_size ← get_size (hdrp ptr)
  let room = sub old_size 8
  memcpy newptr ptr (if ltb size room then size else room)
  mm_free ptr
  pure newptr
