-- ===== src/Queue/Free.antt =====
-- `q_free` of LAB0_cprogramminglab/queue.c.
use cmu_15_213_intro_to_comp.Prelude.{
  ℕ, zero, suc, ◌≤◌, ◌≡◌, refl, ◌∙◌, Bool, false, ◌||◌, none, some, [], ◌∷◌, ◌==◌, if◌then◌else◌,
  length, arith,
}
use cmu_15_213_intro_to_comp.Queue.{Queue, Heap, put, done, fault, free_elements, q_free}
use cmu_15_213_intro_to_comp.Queue.Chain.{Cells, first, Chain, IsQueue, Chain-put, load-element}
use cmu_15_213_intro_to_comp.Queue.Ends.{not_null}

abbrev pub has : ℕ → Cells → Bool
has x [] = false
has x ((a, v) ∷ xs) = (a == x) || has x xs

-- The heap less the elements of the cells.
abbrev pub Without : Cells → Heap → Heap → Type 0
Without xs h g = (x : ℕ) → g x ≡ (if has x xs then none else h x)

free_elements-Without :
    (n : ℕ) (h : Heap) (xs : Cells)
    → length xs ≤ n
    → Chain h 0 xs
    → (g : Heap) × (free_elements n (first 0 xs) h ≡ done tt g) × Without xs h g
unfolding free_elements put
free_elements-Without zero h [] fuel c = (h, refl, λ x. refl)
free_elements-Without (suc n) h [] fuel c = (h, refl, λ x. refl)
free_elements-Without zero h ((a, v) ∷ xs) fuel c = absurd (omega arith)
free_elements-Without (suc n) h ((a, v) ∷ xs) fuel c =
    let (g, e, gone) =
      free_elements-Without n (put h a none) xs (omega arith) (Chain-put h a none 0 xs c.2 c.3) in
    (
      g,
      rw (not_null a c.0) (load-element h a v (first 0 xs) _ c.0 c.1 ∙ e),
      λ x. ground (arith, gone x),
    )

-- On a well-formed queue the loop of q_free frees exactly the elements of the queue, and q_free
-- then faults at its write to the freed structure.
pub q_free-fault :
    (h : Heap) (q : Queue) (xs : Cells)
    → IsQueue h q xs
    → ((g : Heap) × (free_elements q.size q.head h ≡ done tt g) × Without xs h g)
      × (q_free (some q) h ≡ fault)
unfolding q_free
q_free-fault h q xs inv =
    let (g, e, gone) = free_elements-Without q.size h xs (omega (arith, inv.size)) inv.chain in
    let e' : free_elements q.size q.head h ≡ done tt g = rw inv.head e in ((g, e', gone), rw e')
