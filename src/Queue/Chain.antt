-- ===== src/Queue/Chain.antt =====
-- What the heap of LAB0_cprogramminglab/queue.c holds for a queue: a chain of elements at distinct
-- addresses, and the fields of the structure.
use cmu_15_213_intro_to_comp.Prelude.{
  ℕ, ◌≡◌, ◌≢◌, refl, ap, sym, ◌∙◌, false, Option, none, some, List, [], ◌∷◌, ◌++◌, ◌==◌, length,
  arith, Bool-cases, inl, inr,
}
use cmu_15_213_intro_to_comp.Queue.{Element, Queue, Heap, put, Result, fault, load, set_next}

-- Address and value of each element, from the head on.
abbrev pub Cells : Type 0
Cells = List (ℕ × ℕ)

abbrev pub element : (v next : ℕ) → Element
element v next = record { value = v; next = next }

-- The address of the first cell, or `stop`.
abbrev pub first : ℕ → Cells → ℕ
first stop [] = stop
first stop ((a, v) ∷ xs) = a

-- The address of the last cell, or `start`.
abbrev pub last : ℕ → Cells → ℕ
last start [] = start
last start ((a, v) ∷ xs) = last a xs

-- No cell lies at the address.
abbrev pub Away : ℕ → Cells → Type 0
Away x [] = Unit
Away x ((a, v) ∷ xs) = (a ≢ x) × Away x xs

-- The elements of the cells are linked, and the last one points to `stop`.
abbrev pub Chain : Heap → ℕ → Cells → Type 0
Chain h stop [] = Unit
Chain h stop ((a, v) ∷ xs) =
    (a ≢ 0) × (h a ≡ some (element v (first stop xs))) × Away a xs × Chain h stop xs

pub record IsQueue (h : Heap) (q : Queue) (xs : Cells) : Type 0 where
  pub chain : Chain h 0 xs
  pub head : q.head ≡ first 0 xs
  pub size : q.size ≡ length xs
  -- Of an empty queue the tail may be anything.
  pub tail : xs ≢ [] → q.tail ≡ last 0 xs

-- The heaps agree on the cells.
abbrev pub Same : Heap → Heap → Cells → Type 0
Same g h [] = Unit
Same g h ((a, v) ∷ xs) = (g a ≡ h a) × Same g h xs

pub Chain-Same :
    (g h : Heap) (stop : ℕ) (xs : Cells) → Same g h xs → Chain h stop xs → Chain g stop xs
Chain-Same g h stop [] s c = tt
Chain-Same g h stop ((a, v) ∷ xs) s c = (c.0, s.0 ∙ c.1, c.2, Chain-Same g h stop xs s.1 c.3)

pub Same-put :
    (h : Heap) (x : ℕ) (cell : Option Element) (xs : Cells) → Away x xs → Same (put h x cell) h xs
unfolding put
Same-put h x cell [] w = tt
Same-put h x cell ((a, v) ∷ xs) w = (ground (arith, w.0), Same-put h x cell xs w.1)

-- A write outside the chain.
pub Chain-put :
    (h : Heap) (x : ℕ) (cell : Option Element) (stop : ℕ) (xs : Cells)
    → Away x xs
    → Chain h stop xs
    → Chain (put h x cell) stop xs
Chain-put h x cell stop xs w c = Chain-Same (put h x cell) h stop xs (Same-put h x cell xs w) c

pub put_self : (h : Heap) (x : ℕ) (cell : Option Element) → put h x cell x ≡ cell
unfolding put
put_self h x cell = ground arith

pub load-element :
    {A : Type 0} (h : Heap) (p v next : ℕ) (k : Element → Result A)
    → p ≢ 0
    → h p ≡ some (element v next)
    → load h p k ≡ k (element v next)
unfolding load
load-element h p v next k ne e = let ok : (p == 0) ≡ false = ground arith in rw (ok, e)

pub set_next-element :
    {A : Type 0} (h : Heap) (p v next q : ℕ) (k : Heap → Result A)
    → p ≢ 0
    → h p ≡ some (element v next)
    → set_next h p q k ≡ k (put h p (some (element v q)))
unfolding set_next
set_next-element h p v next q k ne e = load-element h p v next _ ne e

-- NULL and a cell that holds nothing are faults.
pub set_next-none :
    {A : Type 0} (h : Heap) (p q : ℕ) (k : Heap → Result A) → h p ≡ none → set_next h p q k ≡ fault
unfolding set_next load
set_next-none h p q k e = elim (Bool-cases (p == 0)) [
  | inl null ↦ rw null
  | inr other ↦ rw (other, e)
]

-- A cell that was never allocated or is free lies outside every chain.
pub Away-none : (h : Heap) (x stop : ℕ) (xs : Cells) → h x ≡ none → Chain h stop xs → Away x xs
Away-none h x stop [] e c = tt
Away-none h x stop ((a, v) ∷ xs) e c = (λ same. ground (arith, c.1), Away-none h x stop xs e c.3)

pub last-Away : (x start : ℕ) (xs : Cells) → start ≢ x → Away x xs → last start xs ≢ x
last-Away x start [] ne w = ne
last-Away x start ((a, v) ∷ xs) ne w = last-Away x a xs w.0 w.1

pub put_other : (h : Heap) (x y : ℕ) (cell : Option Element) → x ≢ y → put h x cell y ≡ h y
unfolding put
put_other h x y cell ne = ground arith

-- The last element is linked to another address.
pub Chain-relink :
    (h : Heap) (stop new : ℕ) (a v : ℕ) (xs : Cells)
    → Chain h stop ((a, v) ∷ xs)
    → (w : ℕ) × (h (last a xs) ≡ some (element w stop))
      × (last a xs ≢ 0)
      × Chain (put h (last a xs) (some (element w new))) new ((a, v) ∷ xs)
Chain-relink h stop new a v [] c = (v, c.1, c.0, (c.0, put_self h a _, tt, tt))
Chain-relink h stop new a v ((b, u) ∷ xs) c =
    let (w, e, ne, d) = Chain-relink h stop new b u xs c.3 in
    (w, e, ne, (c.0, put_other h (last b xs) a _ (last-Away a b xs c.2.0 c.2.1) ∙ c.1, c.2, d))

Away-snoc : (x a v : ℕ) (xs : Cells) → a ≢ x → Away x xs → Away x (xs ++ (a, v) ∷ [])
Away-snoc x a v [] ne w = (ne, tt)
Away-snoc x a v ((b, u) ∷ xs) ne w = (w.0, Away-snoc x a v xs ne w.1)

first-snoc : (stop a v : ℕ) (xs : Cells) → first stop (xs ++ (a, v) ∷ []) ≡ first a xs
first-snoc stop a v [] = refl
first-snoc stop a v ((b, u) ∷ xs) = refl

pub last-snoc : (start a v : ℕ) (xs : Cells) → last start (xs ++ (a, v) ∷ []) ≡ a
last-snoc start a v [] = refl
last-snoc start a v ((b, u) ∷ xs) = last-snoc b a v xs

-- A chain that stops at an element goes on with it.
pub Chain-snoc :
    (h : Heap) (stop a v : ℕ) (xs : Cells)
    → a ≢ 0
    → h a ≡ some (element v stop)
    → Away a xs
    → Chain h a xs
    → Chain h stop (xs ++ (a, v) ∷ [])
Chain-snoc h stop a v [] ne e w c = (ne, e, tt, tt)
Chain-snoc h stop a v ((b, u) ∷ xs) ne e w c = (
  c.0,
  c.1 ∙ ap (λ n. some (element u n)) (sym (first-snoc stop a v xs)),
  Away-snoc b a v xs (λ s. w.0 (sym s)) c.2,
  Chain-snoc h stop a v xs ne e w.1 c.3,
)
