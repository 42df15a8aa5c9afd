-- ===== src/Malloc/Tests.antt =====
-- Runs of LAB6_malloclab/mm.c, and the theorems about it at concrete heaps.
use cmu_15_213_intro_to_comp.Prelude.{
  ℕ, ◌%◌, ◌≤◌, ◌≡◌, refl, arith, Option, none, some, List, [], ◌∷◌, ◌==◌, if◌then◌else◌, Bool-cases,
  inl, inr,
}
use cmu_15_213_intro_to_comp.Malloc.{
  Heap, Outcome, done, fault, unfinished, M, ◌>>=◌, ◌>>◌, mem_sbrk, get, put, get_size, get_alloc,
  ftrp, next_blkp, prev_blkp, align, mem_heap_hi,
}
use cmu_15_213_intro_to_comp.Malloc.Lists.{
  get_root_index, fit_in_list, fit_from, get_block, find_fit, set_prev, unlink_head, block_before,
  unlink_after, remove_block, place_before, insert_after, start_list, insert_first, put_block,
  lists_left,
}
use cmu_15_213_intro_to_comp.Malloc.Lists.Chain.{Listed, list_index, insert}
use cmu_15_213_intro_to_comp.Malloc.Lists.Put.{put_block-insert}
use cmu_15_213_intro_to_comp.Malloc.Lists.Remove.{remove_block-append}
use cmu_15_213_intro_to_comp.Malloc.Lists.Fit.{fitting, blocks_from, get_block-fitting}
use cmu_15_213_intro_to_comp.Malloc.Blocks.{
  mark, mark_rest, merge_both, merge_prev, merge_next, coalesce, format_block, extend_heap, split,
  place,
}
use cmu_15_213_intro_to_comp.Malloc.Package.{
  format_heap, mm_init, adjusted, malloc_at_end, malloc_adjusted, mm_malloc, mm_free,
}
use cmu_15_213_intro_to_comp.Malloc.Sizes.{adjusted_bounds, mm_malloc_full}

abbrev value : {A : Type 0} → Outcome A → Option A
value (done a h) = some a
value fault = none
value unfinished = none

abbrev blank : Heap
blank = record {
  start_brk = 4096;
  brk = 4096;
  max_addr = 8192;
  word = λ q. 0;
  roots = λ i. 0;
  heap_listp = 0;
  malloc_index = 0;
}

session : M ℕ
session = do
  ok ← mm_init
  a ← mm_malloc 20
  b ← mm_malloc 100
  c ← mm_malloc 8
  mm_free a
  mm_free b
  d ← mm_malloc 90
  mm_free c
  mm_free d
  mm_malloc 150

third_block : value (session blank) ≡ some 4112
unfolding session mm_init format_heap mm_malloc malloc_adjusted malloc_at_end mm_free adjusted align
    mem_sbrk get put get_size get_alloc ftrp next_blkp prev_blkp get_root_index fit_in_list fit_from
    get_block find_fit set_prev unlink_head block_before unlink_after remove_block place_before
    insert_after start_list insert_first put_block mark mark_rest merge_both merge_prev merge_next
    coalesce format_block extend_heap split place mem_heap_hi
third_block = refl

abbrev two_blocks : Heap
two_blocks = record {
  start_brk = 4096;
  brk = 4352;
  max_addr = 8192;
  word = λ q. if q == 4112 then 4176 else if q == 4180 then 4112 else if q == 4172 then 16 else 0;
  roots = λ i. 4112;
  heap_listp = 4104;
  malloc_index = 0;
}

abbrev one_block : Heap
one_block = record {
  start_brk = 4096;
  brk = 4352;
  max_addr = 4352;
  word = λ q. if q == 4172 then 16 else if q == 4108 then 32 else 0;
  roots = λ i. if i == 4 then 4112 else 0;
  heap_listp = 4104;
  malloc_index = 0;
}

in_order : Listed one_block (list_index one_block 4176) (4112 ∷ [])
unfolding get_root_index
in_order = (refl, (omega arith, refl, refl, tt, tt))

put_block-insert_example :
    (h' : Heap) × (put_block 4176 one_block ≡ done tt h')
    × Listed h' (list_index one_block 4176) (insert 4176 (4112 ∷ []))
put_block-insert_example =
    put_block-insert one_block 4176 (4112 ∷ []) (omega arith) (omega arith) (inr (omega arith), tt)
      in_order

remove_block-append_example :
    (h' : Heap) × (remove_block 4176 two_blocks ≡ done tt h')
    × Listed h' (list_index two_blocks 4176) (4112 ∷ [])
remove_block-append_example =
    remove_block-append two_blocks 4176 (4112 ∷ []) [] (omega arith)
      (refl, (omega arith, refl, refl, (omega arith, tt), (omega arith, refl, refl, tt, tt)))

abbrev lists_of_one : ℕ → List ℕ
lists_of_one i = if i == 4 then 4112 ∷ [] else []

lists_of_one-Listed : (i : ℕ) → Listed one_block i (lists_of_one i)
lists_of_one-Listed i = elim (Bool-cases (i == 4)) [
  | inl e ↦ rw e ((refl, (omega arith, refl, refl, tt, tt)))
  | inr e ↦ rw e ((refl, tt))
]

get_block-fitting_example :
    get_block 24 one_block
    ≡ done
        (fitting one_block 24
          (blocks_from lists_of_one (lists_left (get_root_index 24)) (get_root_index 24)))
        one_block
get_block-fitting_example =
    get_block-fitting one_block 24 lists_of_one (omega arith) lists_of_one-Listed

adjusted_bounds_example :
    (108 ≤ adjusted 100)
    × (adjusted 100 ≤ 116)
    × (adjusted 100 % 8 ≡ 0)
    × (get_root_index (adjusted 100) ≡ 4)
adjusted_bounds_example = adjusted_bounds 100 (omega arith)

nothing_fits :
    find_fit (adjusted 100) (record one_block { malloc_index = 1 })
    ≡ done 0 (record one_block { malloc_index = 1 })
unfolding find_fit adjusted align get_block get_root_index fit_from fit_in_list get get_size
nothing_fits = refl

mm_malloc_full_example : mm_malloc 100 one_block ≡ fault
mm_malloc_full_example = mm_malloc_full 100 one_block (omega arith) refl (omega arith) nothing_fits
