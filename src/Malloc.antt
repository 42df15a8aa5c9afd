-- ===== src/Malloc.antt =====
-- LAB6_malloclab: the heap of memlib.c, and the words, headers and footers of mm.c. The program is
-- built with -m32: an address, a `size_t` and a pointer in the heap are numbers below 2 ^ 32.
pub mod Lists
pub mod Blocks
pub mod Package
pub mod Check
pub mod Sizes
mod Tests
use cmu_15_213_intro_to_comp.Prelude.{
  ℕ, zero, suc, ◌+◌, ◌-◌, ◌*◌, ◌%◌, ◌^◌, Bool, true, false, ◌&&◌, bit_and, ltb, leb, ◌==◌, ◌≡◌,
  if◌then◌else◌,
}
use cmu_15_213_intro_to_comp.Bits.{add, sub}

-- The variables of memlib.c and mm.c, and the words in the memory between `start_brk` and `brk`.
pub record Heap : Type 0 where
  pub start_brk : ℕ
  pub brk : ℕ
  pub max_addr : ℕ
  pub word : ℕ → ℕ
  pub roots : ℕ → ℕ
  pub heap_listp : ℕ
  pub malloc_index : ℕ

-- `fault` is an access outside the heap or at an address that is no multiple of 4, `unfinished` a
-- loop that ran out of rounds.
pub data Outcome (A : Type 0) : Type 0 where
  done : A → Heap → Outcome A
  fault unfinished : Outcome A

abbrev pub M : Type 0 → Type 0
M A = Heap → Outcome A

abbrev pub pure : {A : Type 0} → A → M A
pure a h = done a h

infixl 5 ◌>>=◌ ◌>>◌
abbrev pub ◌>>=◌ : {A B : Type 0} → M A → (A → M B) → M B
◌>>=◌ m f h = elim (m h) [ done a h' ↦ f a h' | fault ↦ fault | unfinished ↦ unfinished ]

pub >>=-done :
    {A B : Type 0} (m : M A) (f : A → M B) (h h' : Heap) (a : A)
    → m h ≡ done a h'
    → (m >>= f) h ≡ f a h'
>>=-done m f h h' a e = rw (e, ◌>>=◌)

abbrev pub ◌>>◌ : {B : Type 0} → M (Unit {0}) → M B → M B
m >> k = m >>= λ _. k

abbrev pub out_of_rounds : {A : Type 0} → M A
out_of_rounds h = unfinished

-- The rounds that every loop over a list or over the blocks of a heap is given.
abbrev pub rounds : Heap → ℕ
rounds h = h.brk - h.start_brk

abbrev pub update : (ℕ → ℕ) → ℕ → ℕ → ℕ → ℕ
update f p v q = if p == q then v else f q

-- memlib.c. The address of the array that `malloc` returns is an argument.
abbrev pub max_heap : ℕ
max_heap = 20971520

unfoldable pub mem_init : (array : ℕ) → Heap → Heap
mem_init array h = record h { start_brk = array; max_addr = add array max_heap; brk = array }

unfoldable pub mem_reset_brk : Heap → Heap
mem_reset_brk h = record h { brk = h.start_brk }

-- `(void *)-1`
abbrev pub failed : ℕ
failed = 0xffff_ffff

unfoldable pub mem_sbrk : (incr : ℕ) → M ℕ
mem_sbrk incr h =
    if leb (2 ^ 31) incr
    then done failed h
    else if ltb h.max_addr (add h.brk incr)
    then done failed h
    else done h.brk (record h { brk = add h.brk incr })

unfoldable pub mem_heap_lo : Heap → ℕ
mem_heap_lo h = h.start_brk

unfoldable pub mem_heap_hi : Heap → ℕ
mem_heap_hi h = sub h.brk 1

unfoldable pub mem_heapsize : Heap → ℕ
mem_heapsize h = sub h.brk h.start_brk

-- `GET` and `PUT` of mm.c
abbrev pub accessible : Heap → ℕ → Bool
accessible h p = leb h.start_brk p && leb (p + 4) h.brk && p % 4 == 0

unfoldable pub get : ℕ → M ℕ
get p h = if accessible h p then done (h.word p) h else fault

unfoldable pub put : ℕ → ℕ → M (Unit {0})
put p v h = if accessible h p then done tt (record h { word = update h.word p v }) else fault

-- `GET_SIZE` and `GET_ALLOC`
unfoldable pub get_size : ℕ → M ℕ
get_size p = do w ← get p; pure (bit_and w 0xffff_fff8)

unfoldable pub get_alloc : ℕ → M ℕ
get_alloc p = do w ← get p; pure (bit_and w 1)

-- `HDRP`, `FTRP`, `NEXT_BLKP` and `PREV_BLKP`
abbrev pub hdrp : ℕ → ℕ
hdrp bp = sub bp 4

unfoldable pub ftrp : ℕ → M ℕ
ftrp bp = do size ← get_size (hdrp bp); pure (sub (add bp size) 8)

unfoldable pub next_blkp : ℕ → M ℕ
next_blkp bp = do size ← get_size (sub bp 4); pure (add bp size)

unfoldable pub prev_blkp : ℕ → M ℕ
prev_blkp bp = do size ← get_size (sub bp 8); pure (sub bp size)

-- `ALIGN`
unfoldable pub align : ℕ → ℕ
align size = bit_and (add size 7) 0xffff_fff8

abbrev pub set_root : ℕ → ℕ → M (Unit {0})
set_root i p h = done tt (record h { roots = update h.roots i p })
