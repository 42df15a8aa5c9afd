-- ===== src/Malloc/Lists/Chain.antt =====
-- What the memory of LAB6_malloclab/mm.c holds for a list of free blocks.
use cmu_15_213_intro_to_comp.Prelude.{
  ℕ, ◌+◌, ◌-◌, ◌%◌, ◌^◌, ◌≤◌, ◌<◌, ◌≡◌, ◌≢◌, ◌⊎◌, inl, inr, refl, ◌∙◌, false, List, [], ◌∷◌, ltb,
  ◌==◌, if◌then◌else◌, arith, bit_and, length, ◌*◌,
}
use cmu_15_213_intro_to_comp.Bits.{add}
use cmu_15_213_intro_to_comp.Malloc.{Heap, done, ◌>>=◌, update, get, put, get_size, hdrp, rounds}
use cmu_15_213_intro_to_comp.Malloc.Lists.{set_prev, get_root_index}

-- The address of the first block, or NULL.
abbrev pub first : List ℕ → ℕ
first [] = 0
first (b ∷ bs) = b

-- The bounds of the heap are addresses with room between them, and NULL lies outside.
abbrev pub IsHeap : Heap → Type 0
IsHeap h = (4 ≤ h.start_brk) × (h.start_brk < h.brk) × (h.brk < 2 ^ 32)

-- The first two words of a block lie in the heap, with its header before them.
abbrev pub IsBlock : Heap → ℕ → Type 0
IsBlock h b = (h.start_brk + 4 ≤ b) × (b + 8 ≤ h.brk) × (b % 4 ≡ 0)

-- The blocks lie behind the address.
abbrev pub Behind : ℕ → List ℕ → Type 0
Behind b [] = Unit
Behind b (c ∷ cs) = (b + 8 ≤ c) × Behind b cs

-- The blocks are linked in both directions, in the order of their addresses.
abbrev pub Chain : Heap → (before : ℕ) → List ℕ → Type 0
Chain h before [] = Unit
Chain h before (b ∷ bs) =
    IsBlock h b × (h.word b ≡ first bs) × (h.word (b + 4) ≡ before) × Behind b bs × Chain h b bs

-- The list with the root i holds the blocks.
abbrev pub Listed : Heap → ℕ → List ℕ → Type 0
Listed h i bs = (h.roots i ≡ first bs) × Chain h 0 bs

-- The block overlaps none of the others.
abbrev pub Apart : ℕ → List ℕ → Type 0
Apart b [] = Unit
Apart b (c ∷ cs) = ((b + 8 ≤ c) ⊎ (c + 8 ≤ b)) × Apart b cs

-- The address is no link of the blocks.
abbrev pub Outside : ℕ → List ℕ → Type 0
Outside x [] = Unit
Outside x (b ∷ bs) = (x ≢ b) × (x ≢ b + 4) × Outside x bs

-- The links of the blocks are the same.
abbrev pub Same : (v w : ℕ → ℕ) → List ℕ → Type 0
Same v w [] = Unit
Same v w (b ∷ bs) = (w b ≡ v b) × (w (b + 4) ≡ v (b + 4)) × Same v w bs

abbrev pub with_words : Heap → (ℕ → ℕ) → Heap
with_words h w = record h { word = w }

pub Chain-Same :
    (h : Heap) (w : ℕ → ℕ) (before : ℕ) (bs : List ℕ)
    → Same h.word w bs
    → Chain h before bs
    → Chain (with_words h w) before bs
Chain-Same h w before [] s c = tt
Chain-Same h w before (b ∷ bs) s c = (c.0, s.0 ∙ c.1, s.1 ∙ c.2, c.3, Chain-Same h w b bs s.2 c.4)

pub Same-update :
    (v w : ℕ → ℕ) (x a : ℕ) (bs : List ℕ) → Outside x bs → Same v w bs → Same v (update w x a) bs
Same-update v w x a [] o s = tt
Same-update v w x a (b ∷ bs) o s =
    (ground (arith, o.0, s.0), ground (arith, o.1, s.1), Same-update v w x a bs o.2 s.2)

pub Same-refl : (v : ℕ → ℕ) (bs : List ℕ) → Same v v bs
Same-refl v [] = tt
Same-refl v (b ∷ bs) = (refl, refl, Same-refl v bs)

pub Behind-Outside : (b x : ℕ) (bs : List ℕ) → x < b + 8 → Behind b bs → Outside x bs
Behind-Outside b x [] h f = tt
Behind-Outside b x (c ∷ cs) h f =
    ((λ e. omega (arith, e, f.0)), (λ e. omega (arith, e, f.0)), Behind-Outside b x cs h f.1)

pub Behind-le : (a b : ℕ) (bs : List ℕ) → a ≤ b → Behind b bs → Behind a bs
Behind-le a b [] h f = tt
Behind-le a b (c ∷ cs) h f = (omega (arith, f.0), Behind-le a b cs h f.1)

-- Reads and writes in range.
pub get_lem :
    (h : Heap) (p : ℕ) → h.start_brk ≤ p → p + 4 ≤ h.brk → p % 4 ≡ 0 → get p h ≡ done (h.word p) h
unfolding get
get_lem h p lo hi al = ground arith

pub put_lem :
    (h : Heap) (p v : ℕ)
    → h.start_brk ≤ p
    → p + 4 ≤ h.brk
    → p % 4 ≡ 0
    → put p v h ≡ done tt (with_words h (update h.word p v))
unfolding put
put_lem h p v lo hi al = ground arith

-- The size that the header of a block holds, and the list of that size.
abbrev pub header_size : Heap → ℕ → ℕ
header_size h bp = bit_and (h.word (bp - 4)) 0xffff_fff8

abbrev pub list_index : Heap → ℕ → ℕ
list_index h bp = get_root_index (header_size h bp)

abbrev pub with_root : Heap → (i p : ℕ) → Heap
with_root h i p = record h { roots = update h.roots i p }

pub hdrp_lem : (h : Heap) (bp : ℕ) → IsHeap h → IsBlock h bp → hdrp bp ≡ bp - 4
hdrp_lem h bp ok b = omega (arith, ok, b)

pub get_size_lem :
    (h : Heap) (p : ℕ)
    → h.start_brk ≤ p
    → p + 4 ≤ h.brk
    → p % 4 ≡ 0
    → get_size p h ≡ done (bit_and (h.word p) 0xffff_fff8) h
unfolding get_size
get_size_lem h p lo hi al = rw (get_lem h p lo hi al, ◌>>=◌)

pub add_4 : (h : Heap) (b : ℕ) → IsHeap h → IsBlock h b → add b 4 ≡ b + 4
add_4 h b ok d = omega (arith, ok, d)

-- A chain has fewer blocks than a loop has rounds.
Chain-room :
    (h : Heap) (before b : ℕ) (bs : List ℕ)
    → Chain h before (b ∷ bs)
    → b + 8 * length (b ∷ bs) ≤ h.brk
Chain-room h before b [] c = omega (arith, c.0)
Chain-room h before b (n ∷ bs) c = omega (arith, c.3.0, Chain-room h b n bs c.4)

pub Chain-length :
    (h : Heap) (before b : ℕ) (bs : List ℕ) → Chain h before (b ∷ bs) → length bs < rounds h
Chain-length h before b bs c = omega (arith, c.0, Chain-room h before b bs c)

pub Chain-rounds :
    (h : Heap) (before : ℕ) (bs : List ℕ)
    → h.start_brk < h.brk
    → Chain h before bs
    → length bs < rounds h
Chain-rounds h before [] nonempty c = omega arith
Chain-rounds h before (b ∷ bs) nonempty c = omega (arith, c.0, Chain-room h before b bs c)

abbrev pub IsNext : Heap → ℕ → Type 0
IsNext h next = (next ≡ 0) ⊎ IsBlock h next

-- The memory after `set_prev`.
abbrev pub prev_words : (ℕ → ℕ) → (next before : ℕ) → ℕ → ℕ
prev_words w next before = if next == 0 then w else update w (next + 4) before

pub set_prev_lem :
    (h : Heap) (next before : ℕ)
    → IsHeap h
    → IsNext h next
    → set_prev next before h ≡ done tt (with_words h (prev_words h.word next before))
unfolding set_prev
set_prev_lem h next before ok (inl e) = rw e
set_prev_lem h next before ok (inr d) =
    let other : (next == 0) ≡ false = ground (arith, ok, d) in
    rw (other, add_4 h next ok d)
      (put_lem h (next + 4) before (omega (arith, d)) (omega (arith, d)) (omega (arith, d)))

-- The list inserts by address.
unfoldable pub insert : ℕ → List ℕ → List ℕ
insert b [] = b ∷ []
insert b (c ∷ cs) = if ltb c b then c ∷ insert b cs else b ∷ c ∷ cs
