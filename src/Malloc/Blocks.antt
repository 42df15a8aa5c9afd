-- ===== src/Malloc/Blocks.antt =====
-- Splitting, coalescing and new blocks in LAB6_malloclab/mm.c.
use cmu_15_213_intro_to_comp.Prelude.{
  ℕ, ◌*◌, ◌%◌, ◌^◌, bit_or, ltb, ◌==◌, if◌then◌else◌, Option, none, some,
}
use cmu_15_213_intro_to_comp.Bits.{add, sub}
use cmu_15_213_intro_to_comp.Malloc.{
  M, pure, ◌>>=◌, ◌>>◌, get_size, get_alloc, put, hdrp, ftrp, next_blkp, prev_blkp, mem_sbrk,
  failed,
}
use cmu_15_213_intro_to_comp.Malloc.Lists.{put_block, remove_block}

-- `PUT(HDRP(bp), PACK(size, alloc)); PUT(FTRP(bp), PACK(size, alloc));`
unfoldable pub mark : (bp size alloc : ℕ) → M (Unit {0})
mark bp size alloc = do
  put (hdrp bp) (bit_or size alloc)
  footer ← ftrp bp
  put footer (bit_or size alloc)

-- `PUT(HDRP(NEXT_BLKP(ptr)), PACK(size, 0)); PUT(FTRP(NEXT_BLKP(ptr)), PACK(size, 0));`
unfoldable pub mark_rest : (ptr size : ℕ) → M (Unit {0})
mark_rest ptr size = do
  put (hdrp (← next_blkp ptr)) (bit_or size 0)
  put (← ftrp (← next_blkp ptr)) (bit_or size 0)

-- The pointers to the neighbours are read again wherever the code spells them out.
unfoldable pub merge_both : (bp size : ℕ) → M ℕ
merge_both bp size = do
  remove_block (← prev_blkp bp)
  remove_block bp
  remove_block (← next_blkp bp)
  prev_size ← get_size (hdrp (← prev_blkp bp))
  next_size ← get_size (hdrp (← next_blkp bp))
  let total = add size (add prev_size next_size)
  put (hdrp (← prev_blkp bp)) (bit_or total 0)
  put (← ftrp (← next_blkp bp)) (bit_or total 0)
  put_block (← prev_blkp bp)
  prev_blkp bp

unfoldable pub merge_prev : (bp size : ℕ) → M ℕ
merge_prev bp size = do
  remove_block (← prev_blkp bp)
  remove_block bp
  prev_size ← get_size (hdrp (← prev_blkp bp))
  let total = add size prev_size
  put (hdrp (← prev_blkp bp)) (bit_or total 0)
  put (← ftrp bp) (bit_or total 0)
  put_block (← prev_blkp bp)
  prev_blkp bp

unfoldable pub merge_next : (bp size : ℕ) → M ℕ
merge_next bp size = do
  remove_block bp
  remove_block (← next_blkp bp)
  next_size ← get_size (hdrp (← next_blkp bp))
  mark bp (add size next_size) 0
  put_block bp
  pure bp

unfoldable pub coalesce : ℕ → M ℕ
coalesce bp = do
  prev_alloc ← get_alloc (hdrp (← prev_blkp bp))
  next_alloc ← get_alloc (hdrp (← next_blkp bp))
  size ← get_size (hdrp bp)
  if prev_alloc == 0
      then if next_alloc == 0 then merge_both bp size else merge_prev bp size
      else if next_alloc == 0
      then merge_next bp size
      else pure bp

abbrev pub extended_size : (words : ℕ) → ℕ
extended_size words = if words % 2 == 0 then words * 4 % 2 ^ 32 else add words 1 * 4 % 2 ^ 32

-- The new block and the new epilogue header.
unfoldable pub format_block : (bp size : ℕ) → M (Option ℕ)
format_block bp size = do
  mark bp size 0
  put (hdrp (← next_blkp bp)) (bit_or 0 1)
  put_block bp
  block ← coalesce bp
  pure (some block)

-- `none` is NULL.
unfoldable pub extend_heap : (words : ℕ) → M (Option ℕ)
extend_heap words = do
  let size = if ltb (extended_size words) 16 then 16 else extended_size words
  bp ← mem_sbrk size
  if bp == failed then pure none else format_block bp size

unfoldable pub split : (ptr bsize size : ℕ) → M (Unit {0})
split ptr bsize size = do
  mark ptr size 1
  mark_rest ptr (sub bsize size)
  put_block (← next_blkp ptr)

unfoldable pub place : (ptr size : ℕ) → M (Unit {0})
place ptr size = do
  bsize ← get_size (hdrp ptr)
  remove_block ptr
  if ltb (sub bsize size) 16 then mark ptr bsize 1 else split ptr bsize size
