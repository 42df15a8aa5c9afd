-- ===== src/Queue.antt =====
-- LAB0_cprogramminglab/queue.c over an explicit heap of list elements. Address 0 is NULL; a cell that
-- holds nothing was never allocated or has been freed, and touching it is a fault. The queue structure
-- itself is a value: `none` is a NULL pointer. What `malloc` returns is an argument.
pub mod Chain
pub mod Ends
pub mod Reverse
pub mod Free
mod Tests
use cmu_15_213_intro_to_comp.Prelude.{
  ℕ, zero, suc, ◌+◌, ◌-◌, Bool, true, false, ◌||◌, Option, none, some, ◌==◌, if◌then◌else◌,
}

pub record Element : Type 0 where
  pub value : ℕ
  pub next : ℕ

pub record Queue : Type 0 where
  pub head : ℕ
  pub tail : ℕ
  pub size : ℕ

abbrev pub Heap : Type 0
Heap = ℕ → Option Element

unfoldable pub put : Heap → ℕ → Option Element → Heap
put h a cell x = if a == x then cell else h x

-- `unfinished` is a loop that ran out of rounds.
pub data Result (A : Type 0) : Type 0 where
  done : A → Heap → Result A
  fault unfinished : Result A

-- The element that `p` points to.
unfoldable pub load : {A : Type 0} → Heap → ℕ → (Element → Result A) → Result A
load h p k = if p == 0 then fault else elim (h p) [ none ↦ fault | some e ↦ k e ]

-- `p -> next = q`
unfoldable pub set_next : {A : Type 0} → Heap → (p q : ℕ) → (Heap → Result A) → Result A
set_next h p q k = load h p (λ e. k (put h p (some (record e { next = q }))))

unfoldable pub q_new : Bool → Option Queue
q_new failed = if failed then none else some (record { head = 0; tail = 0; size = 0 })

-- A queue after an operation, and its return value.
abbrev pub Changed : Type 0
Changed = Bool × Option Queue

unfoldable pub q_insert_head : Option Queue → (fresh v : ℕ) → Heap → Result Changed
q_insert_head none fresh v h = done (false, none) h
q_insert_head (some q) fresh v h =
    if fresh == 0
    then done (false, some q) h
    else done
        (
          true,
          some (record {
            head = fresh;
            tail = if q.size == 0 then fresh else q.tail;
            size = q.size + 1;
          }),
        )
        (put h fresh (some (record { value = v; next = q.head })))

unfoldable pub q_insert_tail : Option Queue → (fresh v : ℕ) → Heap → Result Changed
q_insert_tail none fresh v h = done (false, none) h
q_insert_tail (some q) fresh v h =
    if fresh == 0
    then done (false, some q) h
    else let h' = put h fresh (some (record { value = v; next = 0 })) in
      let size = q.size + 1 in
      if q.tail == 0
      then done (true, some (record { head = fresh; tail = fresh; size = size })) h'
      else set_next h' q.tail fresh
          λ h''. done (true, some (record { head = q.head; tail = fresh; size = size })) h''

-- The value is stored through `vp` where that is not NULL.
unfoldable pub q_remove_head : Option Queue → Heap → Result (Option ℕ × Option Queue)
q_remove_head none h = done (none, none) h
q_remove_head (some q) h =
    if q.head == 0
    then done (none, some q) h
    else load h q.head λ e.
      done (some e.value, some (record { head = e.next; tail = q.tail; size = q.size - 1 }))
        (put h q.head none)

unfoldable pub q_size : Option Queue → ℕ
q_size none = 0
q_size (some q) = q.size

-- `while(c != NULL) { a = b; b = c; c = c -> next; b -> next = a; }`
unfoldable pub reverse_loop : ℕ → (b c : ℕ) → Heap → Result (Unit {0})
reverse_loop zero b c h = if c == 0 then done tt h else unfinished
reverse_loop (suc n) b c h =
    if c == 0 then done tt h else load h c λ e. set_next h c b λ h'. reverse_loop n c e.next h'

-- `q -> head = old_tail; q -> tail = old_head;` after the loop.
abbrev pub swap_ends : (old_head old_tail size : ℕ) → Result (Unit {0}) → Result (Option Queue)
swap_ends old_head old_tail size (done u h) =
    done (some (record { head = old_tail; tail = old_head; size = size })) h
swap_ends old_head old_tail size fault = fault
swap_ends old_head old_tail size unfinished = unfinished

unfoldable pub q_reverse : Option Queue → Heap → Result (Option Queue)
q_reverse none h = done none h
q_reverse (some q) h =
    if q.head == 0
    then done (some q) h
    else load h q.head λ a.
      if a.next == 0
      then done (some q) h
      else load h a.next λ b. set_next h a.next q.head λ h1.
        set_next h1 q.head 0
          λ h2. swap_ends q.head q.tail q.size (reverse_loop q.size a.next b.next h2)

-- The loop of `q_free` over the elements.
unfoldable pub free_elements : ℕ → ℕ → Heap → Result (Unit {0})
free_elements zero p h = if p == 0 then done tt h else unfinished
free_elements (suc n) p h =
    if p == 0 then done tt h else load h p λ e. free_elements n e.next (put h p none)

-- `free(q); q -> tail = NULL;`: a write to the structure that was just freed.
abbrev pub write_after_free : Result (Unit {0}) → Result (Unit {0})
write_after_free (done u h) = fault
write_after_free fault = fault
write_after_free unfinished = unfinished

unfoldable pub q_free : Option Queue → Heap → Result (Unit {0})
q_free none h = done tt h
q_free (some q) h = write_after_free (free_elements q.size q.head h)
