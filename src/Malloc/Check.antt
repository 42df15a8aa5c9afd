-- ===== src/Malloc/Check.antt =====
-- The consistency checker of LAB6_malloclab/mm.c.
use cmu_15_213_intro_to_comp.Prelude.{
  ℕ, zero, suc, ltb, ◌==◌, if◌then◌else◌, Bool, true, false, not, ◌&&◌,
}
use cmu_15_213_intro_to_comp.Bits.{add}
use cmu_15_213_intro_to_comp.Malloc.{
  done, unfinished, M, pure, ◌>>=◌, out_of_rounds, rounds, get, get_alloc, hdrp, ftrp, next_blkp,
  mem_heap_hi,
}

-- The blocks of one list are marked free, and none is its own successor.
unfoldable pub list_all_free : ℕ → (p : ℕ) → M Bool
list_all_free zero p = out_of_rounds
list_all_free (suc n) p =
    let rest = list_all_free n in
    if p == 0 then pure true else do
      header_alloc ← get_alloc (hdrp p)
      footer_alloc ← (if header_alloc == 0 then ftrp p >>= get_alloc else pure 1)
      next ← (if footer_alloc == 0 then get p else pure p)
      if footer_alloc == 0 && not (p == next) then rest next else pure false

unfoldable pub lists_all_free : (left root_index : ℕ) → M Bool
lists_all_free zero i h = done true h
lists_all_free (suc left) i h =
    let rest = lists_all_free left (suc i) in
    (do ok ← list_all_free (rounds h) (h.roots i); if ok then rest else pure false) h

unfoldable pub mm_check_all_free : M Bool
mm_check_all_free = lists_all_free 5 0

unfoldable pub no_contiguous : ℕ → (prev_free : Bool) → (ptr : ℕ) → M Bool
no_contiguous zero prev_free ptr h = unfinished
no_contiguous (suc n) prev_free ptr h =
    let rest = λ (free : Bool). next_blkp ptr >>= no_contiguous n free in
    let step : ℕ → M Bool =
      λ alloc. if alloc == 0 then if prev_free then pure false else rest true else rest false in
    if ltb ptr (mem_heap_hi h) then (get_alloc (hdrp ptr) >>= step) h else done true h

unfoldable pub mm_check_no_contiguous_free : M Bool
mm_check_no_contiguous_free h = no_contiguous (rounds h) false (add h.heap_listp 8) h

unfoldable pub list_points_to_free : ℕ → (p : ℕ) → M Bool
list_points_to_free zero p = out_of_rounds
list_points_to_free (suc n) p =
    let rest = list_points_to_free n in
    if p == 0 then pure true else do
      header_alloc ← get_alloc (hdrp p)
      footer_alloc ← (if header_alloc == 0 then ftrp p >>= get_alloc else pure 1)
      if footer_alloc == 0 then get p >>= rest else pure false

unfoldable pub lists_point_to_free : (left root_index : ℕ) → M Bool
lists_point_to_free zero i h = done true h
lists_point_to_free (suc left) i h =
    let rest = lists_point_to_free left (suc i) in
    (do ok ← list_points_to_free (rounds h) (h.roots i); if ok then rest else pure false) h

unfoldable pub mm_check_point_to_free : M Bool
mm_check_point_to_free = lists_point_to_free 5 0

-- `mm_check_free_in_list`, `mm_check_overlap` and `mm_check_valid_addr` return 1.
unfoldable pub mm_check : M Bool
mm_check = do
  all_free ← mm_check_all_free
  apart ← (if all_free then mm_check_no_contiguous_free else pure false)
  if apart then mm_check_point_to_free else pure false
