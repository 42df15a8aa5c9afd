-- ===== src/Malloc/Sizes.antt =====
-- The sizes of blocks in LAB6_malloclab/mm.c, and a heap that cannot grow.
use cmu_15_213_intro_to_comp.Prelude.{
  ℕ, ◌+◌, ◌-◌, ◌*◌, ◌/◌, ◌%◌, ◌^◌, ◌≤◌, ◌<◌, ◌≡◌, ◌⊎◌, inl, inr, refl, ◌∙◌, bit_and, arith,
  bit_and_fields, bit_and_ones, bit_and-zero, ltb, ◌==◌, if◌then◌else◌, Bool-cases, false, none,
}
use cmu_15_213_intro_to_comp.Bits.{add, sub}
use cmu_15_213_intro_to_comp.Malloc.{
  Heap, done, fault, ◌>>=◌, accessible, get, get_size, get_alloc, hdrp, prev_blkp, align, mem_sbrk,
  failed, mem_heap_hi,
}
use cmu_15_213_intro_to_comp.Malloc.Lists.{get_root_index, find_fit}
use cmu_15_213_intro_to_comp.Malloc.Blocks.{extended_size, extend_heap, place}
use cmu_15_213_intro_to_comp.Malloc.Package.{adjusted, malloc_at_end, malloc_adjusted, mm_malloc}

-- `& ~0x7`
mask_low : (q r : ℕ) → q < 2 ^ 29 → r < 8 → bit_and (q * 8 + r) 0xffff_fff8 ≡ q * 8
mask_low q r hq hr =
    ground (arith, bit_and_fields 3 q r 0x1fff_ffff 0, bit_and_ones 29 q, bit_and-zero r)

mask_at : (x q r : ℕ) → x ≡ q * 8 + r → q < 2 ^ 29 → r < 8 → bit_and x 0xffff_fff8 ≡ q * 8
mask_at x q r e hq hr = rw e (mask_low q r hq hr)

pub mask-sub : (x : ℕ) → x < 2 ^ 32 → bit_and x 0xffff_fff8 ≡ x - x % 8
mask-sub x h = mask_at x (x / 8) (x % 8) (omega arith) (omega arith) (omega arith) ∙ omega arith

-- For a request below 2 ^ 32 - 15 the size of the block that mm_malloc looks for has room for
-- the request and 8 bytes more, exceeds it by at most 16, is a multiple of 8 and belongs to the
-- last list.
pub adjusted_bounds :
    (size : ℕ)
    → size < 2 ^ 32 - 15
    → (size + 8 ≤ adjusted size)
      × (adjusted size ≤ size + 16)
      × (adjusted size % 8 ≡ 0)
      × (get_root_index (adjusted size) ≡ 4)
unfolding adjusted align get_root_index
adjusted_bounds size h = ground (arith, mask-sub (size + 15))

-- For a request from 2 ^ 32 - 15 on the size of the block that mm_malloc looks for is at most 8.
pub adjusted_wraps : (size : ℕ) → 2 ^ 32 - 15 ≤ size → size < 2 ^ 32 → adjusted size ≤ 8
unfolding adjusted align
adjusted_wraps size h h' = ground (arith, mask-sub ((size + 15) % 2 ^ 32))

-- A read leaves the heap as it is, or faults.
get_cases : (p : ℕ) (h : Heap) → (get p h ≡ fault) ⊎ ((w : ℕ) × (get p h ≡ done w h))
unfolding get
get_cases p h = elim (Bool-cases (accessible h p)) [
  | inl inside ↦ rw inside (inr (h.word p, refl))
  | inr outside ↦ rw outside (inl refl)
]

get_size_cases : (p : ℕ) (h : Heap) → (get_size p h ≡ fault) ⊎ ((w : ℕ) × (get_size p h ≡ done w h))
unfolding get_size
get_size_cases p h = elim (get_cases p h) [
  | inl e ↦ inl (rw (e, ◌>>=◌))
  | inr (w, e) ↦ inr (bit_and w 0xffff_fff8, rw (e, ◌>>=◌))
]

get_alloc_cases :
    (p : ℕ) (h : Heap) → (get_alloc p h ≡ fault) ⊎ ((w : ℕ) × (get_alloc p h ≡ done w h))
unfolding get_alloc
get_alloc_cases p h = elim (get_cases p h) [
  | inl e ↦ inl (rw (e, ◌>>=◌))
  | inr (w, e) ↦ inr (bit_and w 1, rw (e, ◌>>=◌))
]

prev_blkp_cases :
    (p : ℕ) (h : Heap) → (prev_blkp p h ≡ fault) ⊎ ((w : ℕ) × (prev_blkp p h ≡ done w h))
unfolding prev_blkp
prev_blkp_cases p h = elim (get_size_cases (sub p 8) h) [
  | inl e ↦ inl (rw (e, ◌>>=◌))
  | inr (w, e) ↦ inr (sub p w, rw (e, ◌>>=◌))
]

-- The heap has reached its end.
IsFull : Heap → Type 0
IsFull h = (h.max_addr ≡ h.brk) × (h.brk < 2 ^ 31)

mem_sbrk_full :
    (size : ℕ) (h : Heap) → 16 ≤ size → size < 2 ^ 32 → IsFull h → mem_sbrk size h ≡ done failed h
unfolding mem_sbrk IsFull
mem_sbrk_full size h lo hi full = ground (arith, full.0, full.1)

extend_heap_full : (words : ℕ) (h : Heap) → IsFull h → extend_heap words h ≡ done none h
unfolding extend_heap
extend_heap_full words h full =
    let size : ℕ = if ltb (extended_size words) 16 then 16 else extended_size words in
    rw (mem_sbrk_full size h (ground arith) (ground arith) full, ◌>>=◌)

place_null : (size : ℕ) (h : Heap) → IsFull h → place 0 size h ≡ fault
unfolding place get_size get IsFull
place_null size h full = ground (arith, full.1)

malloc_at_end_full : (asize : ℕ) (h : Heap) → IsFull h → malloc_at_end asize h ≡ fault
unfolding malloc_at_end
malloc_at_end_full asize h full =
    let top = add (mem_heap_hi h) 1 in
    elim (prev_blkp_cases top h) [
      | inl e ↦ rw (e, ◌>>=◌)
      | inr (p, e) ↦ elim (get_size_cases (hdrp p) h) [
        | inl e' ↦ rw (e, ◌>>=◌, e', ◌>>=◌)
        | inr (s, e') ↦ elim (get_alloc_cases (hdrp p) h) [
          | inl e'' ↦ rw (e, ◌>>=◌, e', ◌>>=◌, e, ◌>>=◌, e'')
          | inr (a, e'') ↦ rw (
            e,
            ◌>>=◌,
            e',
            ◌>>=◌,
            e,
            ◌>>=◌,
            e'',
            ◌>>=◌,
            extend_heap_full (sub asize (if a == 0 then s else 0) / 4) h full,
            ◌>>=◌,
            place_null asize h full,
          )
        ]
      ]
    ]

-- If the heap has reached the end of its array below 2 ^ 31 and no free block fits, mm_malloc of
-- a positive size faults.
pub mm_malloc_full :
    (size : ℕ) (h : Heap)
    → 0 < size
    → h.max_addr ≡ h.brk
    → h.brk < 2 ^ 31
    → find_fit (adjusted size) (record h { malloc_index = h.malloc_index + 1 })
      ≡ done 0 (record h { malloc_index = h.malloc_index + 1 })
    → mm_malloc size h ≡ fault
unfolding mm_malloc malloc_adjusted IsFull
mm_malloc_full size h pos full small nothing =
    let positive : (size == 0) ≡ false = ground arith in
    rw (positive, nothing, ◌>>=◌)
      (malloc_at_end_full (adjusted size) (record h { malloc_index = h.malloc_index + 1 })
        (full, small))
