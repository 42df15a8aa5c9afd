-- ===== src/Harness/Chain.antt =====
-- The allocated blocks of LAB0_cprogramminglab/harness.c, as a list of addresses and bodies that is
-- linked in both directions.
use cmu_15_213_intro_to_comp.Prelude.{
  ℕ, ◌+◌, ◌≤◌, ◌^◌, ◌≡◌, ◌≢◌, ◌∙◌, false, Option, none, some, List, [], ◌∷◌, ◌++◌, ◌==◌, length,
  arith,
}
use cmu_15_213_intro_to_comp.Harness.{
  Body, BlockEle, Memory, write_cell, Harness, done, load_block, magic_header, overhead,
}

-- Address and body of each block, the last allocated first.
abbrev pub Cells : Type 0
Cells = List (ℕ × Body)

abbrev pub block : (next prev : ℕ) → Body → BlockEle
block next prev body = record { next = next; prev = prev; header = magic_header; body = body }

abbrev pub first : Cells → ℕ
first [] = 0
first ((a, b) ∷ xs) = a

-- The address of the last block, or `start`.
abbrev pub last : ℕ → Cells → ℕ
last start [] = start
last start ((a, b) ∷ xs) = last a xs

-- No block lies at the address.
abbrev pub Away : ℕ → Cells → Type 0
Away x [] = Unit
Away x ((a, b) ∷ xs) = (a ≢ x) × Away x xs

-- The blocks are linked, and the one before the first is `before`.
abbrev pub Chain : Memory → ℕ → Cells → Type 0
Chain m before [] = Unit
Chain m before ((a, b) ∷ xs) =
    (a ≢ 0)
    × (a + overhead ≤ 2 ^ 64)
    × (m a ≡ some (block (first xs) before b))
    × Away a xs
    × Chain m a xs

-- The harness keeps exactly the blocks of the list.
pub record IsHarness (s : Harness) (xs : Cells) : Type 0 where
  pub chain : Chain s.memory 0 xs
  pub only : (x : ℕ) → Away x xs → s.memory x ≡ none
  pub head : s.allocated ≡ first xs
  pub count : s.allocated_count ≡ length xs

-- The memories agree on the blocks.
abbrev pub Same : Memory → Memory → Cells → Type 0
Same m m' [] = Unit
Same m m' ((a, b) ∷ xs) = (m' a ≡ m a) × Same m m' xs

pub Chain-Same :
    (m m' : Memory) (before : ℕ) (xs : Cells)
    → Same m m' xs
    → Chain m before xs
    → Chain m' before xs
Chain-Same m m' before [] s c = tt
Chain-Same m m' before ((a, b) ∷ xs) s c = (c.0, c.1, s.0 ∙ c.2, c.3, Chain-Same m m' a xs s.1 c.4)

pub write_cell_self : (m : Memory) (a : ℕ) (cell : Option BlockEle) → write_cell m a cell a ≡ cell
unfolding write_cell
write_cell_self m a cell = ground arith

pub write_cell_other :
    (m : Memory) (a x : ℕ) (cell : Option BlockEle) → a ≢ x → write_cell m a cell x ≡ m x
unfolding write_cell
write_cell_other m a x cell ne = ground arith

pub load_block_lem :
    (s : Harness) (a : ℕ) (b : BlockEle) → a ≢ 0 → s.memory a ≡ some b → load_block a s ≡ done b s
unfolding load_block
load_block_lem s a b ne e = let ok : (a == 0) ≡ false = ground arith in rw (ok, e)

pub Away-zero : (m : Memory) (before : ℕ) (xs : Cells) → Chain m before xs → Away 0 xs
Away-zero m before [] c = tt
Away-zero m before ((a, b) ∷ xs) c = (c.0, Away-zero m a xs c.4)

-- A block in the middle of the list.
pub Chain-middle :
    (m : Memory) (before a : ℕ) (b : Body) (front back : Cells)
    → Chain m before (front ++ (a, b) ∷ back)
    → Chain m (last before front) ((a, b) ∷ back)
Chain-middle m before a b [] back c = c
Chain-middle m before a b ((f, g) ∷ front) back c = Chain-middle m f a b front back c.4

pub Away-middle :
    (x a : ℕ) (b : Body) (front back : Cells)
    → Away x (front ++ (a, b) ∷ back)
    → (a ≢ x) × Away x back × Away x (front ++ back)
Away-middle x a b [] back w = (w.0, w.1, w.1)
Away-middle x a b ((f, g) ∷ front) back w =
    let (ne, away, rest) = Away-middle x a b front back w.1 in (ne, away, (w.0, rest))
