-- ===== src/Queue/Tests.antt =====
-- The queue of LAB0_cprogramminglab/queue.c on a small heap, and its theorems at concrete inputs.
use mathlib.Core.List.{reverse}
use cmu_15_213_intro_to_comp.Prelude.{
  ◌≡◌, refl, true, none, some, [], ◌∷◌, ◌++◌, arith, ◌==◌, if◌then◌else◌,
}
use cmu_15_213_intro_to_comp.Queue.{
  Queue, Heap, put, done, fault, q_insert_tail, q_remove_head, q_reverse, free_elements, q_free,
}
use cmu_15_213_intro_to_comp.Queue.Chain.{Cells, element, IsQueue}
use cmu_15_213_intro_to_comp.Queue.Ends.{
  Ends, Removed, q_insert_tail-snoc, q_remove_head-cons, q_insert_tail_dangling,
}
use cmu_15_213_intro_to_comp.Queue.Reverse.{q_reverse-reverse}
use cmu_15_213_intro_to_comp.Queue.Free.{Without, q_free-fault}

-- Elements 5 and 6 at addresses 3 and 4.
abbrev pair_heap : Heap
pair_heap x = if x == 3 then some (element 5 4) else if x == 4 then some (element 6 0) else none

abbrev pair : Queue
pair = record { head = 3; tail = 4; size = 2 }

abbrev cells : Cells
cells = (3, 5) ∷ (4, 6) ∷ []

pair-IsQueue : IsQueue pair_heap pair cells
pair-IsQueue = record {
  chain = (omega arith, refl, (omega arith, tt), (omega arith, refl, tt, tt));
  head = refl;
  size = refl;
  tail = λ n. refl;
}

abbrev single_heap : Heap
single_heap x = if x == 3 then some (element 5 0) else none

single-IsQueue : IsQueue single_heap (record { head = 3; tail = 3; size = 1 }) ((3, 5) ∷ [])
single-IsQueue = record {
  chain = (omega arith, refl, tt, tt);
  head = refl;
  size = refl;
  tail = λ n. refl;
}

q_insert_tail-snoc_example :
    Ends true (cells ++ (8, 1) ∷ []) (q_insert_tail (some pair) 8 1 pair_heap)
q_insert_tail-snoc_example =
    q_insert_tail-snoc pair_heap pair 8 1 (omega arith) refl cells pair-IsQueue (λ e. cc e)

q_remove_head-cons_example :
    Removed pair_heap 3 5 ((4, 6) ∷ []) 4 (q_remove_head (some pair) pair_heap)
q_remove_head-cons_example = q_remove_head-cons pair_heap pair 3 5 ((4, 6) ∷ []) pair-IsQueue

q_insert_tail_dangling_example :
    (emptied : Queue) × (q_remove_head (some (record { head = 3; tail = 3; size = 1 })) single_heap
      ≡ done (some 5, some emptied) (put single_heap 3 none))
    × (q_insert_tail (some emptied) 8 1 (put single_heap 3 none) ≡ fault)
q_insert_tail_dangling_example =
    q_insert_tail_dangling single_heap (record { head = 3; tail = 3; size = 1 }) 3 5 8 1
      single-IsQueue (omega arith) (omega arith)

q_reverse-reverse_example :
    (g : Heap) × (q' : Queue) × (q_reverse (some pair) pair_heap ≡ done (some q') g)
    × IsQueue g q' (reverse cells)
q_reverse-reverse_example = q_reverse-reverse pair_heap pair cells pair-IsQueue

q_free-fault_example :
    ((g : Heap) × (free_elements 2 3 pair_heap ≡ done tt g) × Without cells pair_heap g)
    × (q_free (some pair) pair_heap ≡ fault)
q_free-fault_example = q_free-fault pair_heap pair cells pair-IsQueue
