-- ===== src/Malloc/Lists.antt =====
-- The segregated lists of LAB6_malloclab/mm.c. A free block holds the address of the next block of its
-- list in its first word and that of the block before it in its second.
pub mod Chain
pub mod Fit
pub mod Insert
pub mod Put
pub mod Remove
use cmu_15_213_intro_to_comp.Prelude.{ℕ, zero, suc, ◌+◌, ltb, leb, ◌==◌, if◌then◌else◌}
use cmu_15_213_intro_to_comp.Bits.{add}
use cmu_15_213_intro_to_comp.Malloc.{
  Heap, Outcome, done, fault, unfinished, M, pure, ◌>>=◌, ◌>>◌, out_of_rounds, rounds, get, put,
  get_size, hdrp, set_root,
}

unfoldable pub get_root_index : ℕ → ℕ
get_root_index size =
    if leb size 2
    then 0
    else if leb size 3
    then 1
    else if leb size 4
    then 2
    else if leb size 8
    then 3
    else 4

-- `while (block && GET_SIZE(HDRP(block)) < size) block = *block;`
unfoldable pub fit_in_list : ℕ → (size block : ℕ) → M ℕ
fit_in_list zero size block = out_of_rounds
fit_in_list (suc n) size block =
    let rest : M ℕ = (do next ← get block; fit_in_list n size next) in
    if block == 0
    then pure 0
    else do s ← get_size (hdrp block); if ltb s size then rest else pure block

-- The loop over the lists, with the number of lists left.
unfoldable pub fit_from : ℕ → (root_index size : ℕ) → M ℕ
fit_from zero root_index size h = done 0 h
fit_from (suc left) root_index size h =
    let rest = fit_from left (suc root_index) size in
    (do
      block ← fit_in_list (rounds h) size (h.roots root_index)
      if block == 0 then rest else pure block)
      h

abbrev pub lists_left : ℕ → ℕ
lists_left zero = 5
lists_left (suc zero) = 4
lists_left (suc (suc zero)) = 3
lists_left (suc (suc (suc zero))) = 2
lists_left (suc (suc (suc (suc i)))) = 1

unfoldable pub get_block : ℕ → M ℕ
get_block size = fit_from (lists_left (get_root_index size)) (get_root_index size) size

unfoldable pub find_fit : ℕ → M ℕ
find_fit size = get_block size

-- `while (*p != bp) p = *p;`
unfoldable pub block_before : ℕ → (bp p : ℕ) → M ℕ
block_before zero bp p = out_of_rounds
block_before (suc n) bp p = do
  next ← get p
  let rest = block_before n bp next
  if next == bp then pure p else rest

-- `if (*bp) PUT(*bp + WSIZE, before);`
unfoldable pub set_prev : (next before : ℕ) → M (Unit {0})
set_prev next before = if next == 0 then pure tt else put (add next 4) before

unfoldable pub unlink_head : (bp i : ℕ) → M (Unit {0})
unlink_head bp i = do next ← get bp; set_root i next; set_prev next 0

unfoldable pub unlink_after : (bp before : ℕ) → M (Unit {0})
unlink_after bp before = do next ← get bp; put before next; set_prev next before

unfoldable pub remove_block : ℕ → M (Unit {0})
remove_block bp h =
    (do
      size ← get_size (hdrp bp)
      let i = get_root_index size
      if bp == h.roots i
          then unlink_head bp i
          else block_before (rounds h) bp (h.roots i) >>= unlink_after bp)
      h

-- `while (*p != NULL && bp > *p) p = *p;`
unfoldable pub place_before : ℕ → (bp p : ℕ) → M ℕ
place_before zero bp p = out_of_rounds
place_before (suc n) bp p = do
  next ← get p
  let rest = place_before n bp next
  if next == 0 then pure p else if ltb next bp then rest else pure p

-- The writes behind that loop.
unfoldable pub insert_after : (bp p : ℕ) → M (Unit {0})
insert_after bp p = do next ← get p; put bp next; put (add bp 4) p; set_prev next bp; put p bp

unfoldable pub start_list : (bp i : ℕ) → M (Unit {0})
start_list bp i = do set_root i bp; put bp 0; put (add bp 4) 0

unfoldable pub insert_first : (bp p i : ℕ) → M (Unit {0})
insert_first bp p i = do put bp p; put (add bp 4) 0; put (add p 4) bp; set_root i bp

unfoldable pub put_block : ℕ → M (Unit {0})
put_block bp h =
    (do
      size ← get_size (hdrp bp)
      let i = get_root_index size
      let p = h.roots i
      if p == 0
          then start_list bp i
          else if ltb bp p
          then insert_first bp p i
          else place_before (rounds h) bp p >>= insert_after bp)
      h
