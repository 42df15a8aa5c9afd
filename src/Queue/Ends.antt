-- ===== src/Queue/Ends.antt =====
-- Insertion and removal at the ends of the queue of LAB0_cprogramminglab/queue.c.
use cmu_15_213_intro_to_comp.Prelude.{
  ℕ, ◌+◌, ◌-◌, ◌≡◌, ◌≢◌, refl, ap, sym, ◌∙◌, Bool, true, false, Option, none, some, [], ◌∷◌, ◌++◌,
  ◌==◌, if◌then◌else◌, length, length-append, arith,
}
use cmu_15_213_intro_to_comp.Queue.{
  Queue, Heap, put, Result, done, fault, Changed, q_insert_head, q_insert_tail, q_remove_head,
}
use cmu_15_213_intro_to_comp.Queue.Chain.{
  Cells, element, first, last, IsQueue, Chain-put, put_self, load-element, set_next-element,
  Away-none, last-Away, Chain-relink, Chain-snoc, last-snoc, put_other, set_next-none,
}

-- The operation ends well, returns `b` and leaves a queue with the cells.
pub record Ends (b : Bool) (xs : Cells) (r : Result Changed) : Type 0 where
  pub heap : Heap
  pub queue : Queue
  pub returns : r ≡ done (b, some queue) heap
  pub well_formed : IsQueue heap queue xs

pub not_null : (p : ℕ) → p ≢ 0 → (p == 0) ≡ false
not_null p ne = ground arith

tail_cell :
    (size tail fresh : ℕ) (ys : Cells)
    → size ≡ length ys
    → (ys ≢ [] → tail ≡ last 0 ys)
    → (if size == 0 then fresh else tail) ≡ last fresh ys
tail_cell size tail fresh [] n t = rw n
tail_cell size tail fresh ((a, u) ∷ ys) n t = rw (not_null size (omega (arith, n))) (t (λ z. cc z))

module _ (h : Heap) (q : Queue) (fresh v : ℕ) (got : fresh ≢ 0) (unused : h fresh ≡ none) where
  allocated : (fresh == 0) ≡ false
  allocated = ground arith

  -- With an unused address other than NULL q_insert_head returns true and puts the value in
  -- front of any well-formed queue.
  pub q_insert_head-cons :
      (xs : Cells) → IsQueue h q xs → Ends true ((fresh, v) ∷ xs) (q_insert_head (some q) fresh v h)
  unfolding q_insert_head
  q_insert_head-cons xs inv = record {
    heap = put h fresh (some (element v q.head));
    queue = record {
      head = fresh;
      tail = if q.size == 0 then fresh else q.tail;
      size = q.size + 1;
    };
    returns = rw allocated;
    well_formed = record {
      chain = (
        got,
        put_self h fresh _ ∙ ap (λ n. some (element v n)) inv.head,
        Away-none h fresh 0 xs unused inv.chain,
        Chain-put h fresh _ 0 xs (Away-none h fresh 0 xs unused inv.chain) inv.chain,
      );
      head = refl;
      size = omega (arith, inv.size);
      tail = λ ne. tail_cell q.size q.tail fresh xs inv.size inv.tail;
    };
  }

  -- With an unused address other than NULL, and the tail NULL if the queue is empty,
  -- q_insert_tail returns true and puts the value behind all others of a well-formed queue.
  pub q_insert_tail-snoc :
      (xs : Cells)
      → IsQueue h q xs
      → (xs ≡ [] → q.tail ≡ 0)
      → Ends true (xs ++ (fresh, v) ∷ []) (q_insert_tail (some q) fresh v h)
  unfolding q_insert_tail
  q_insert_tail-snoc [] inv null = record {
    heap = put h fresh (some (element v 0));
    queue = record { head = fresh; tail = fresh; size = q.size + 1 };
    returns = let e : (q.tail == 0) ≡ true = ground (arith, null refl) in rw (allocated, e);
    well_formed = record {
      chain = (got, put_self h fresh _, tt, tt);
      head = refl;
      size = omega (arith, inv.size);
      tail = λ ne. refl;
    };
  }
  q_insert_tail-snoc ((a, u) ∷ xs) inv null =
      let h' = put h fresh (some (element v 0)) in
      let away = Away-none h fresh 0 ((a, u) ∷ xs) unused inv.chain in
      let (w, e, ne, linked) =
        Chain-relink h' 0 fresh a u xs (Chain-put h fresh _ 0 ((a, u) ∷ xs) away inv.chain) in
      let at_last : q.tail ≡ last a xs = inv.tail (λ z. cc z) in
      let some_tail : (q.tail == 0) ≡ false = rw at_last (not_null (last a xs) ne) in
      let apart : last a xs ≢ fresh = last-Away fresh a xs away.0 away.1 in
      record {
        heap = put h' (last a xs) (some (element w fresh));
        queue = record { head = q.head; tail = fresh; size = q.size + 1 };
        returns =
            rw (allocated, some_tail, at_last) (set_next-element h' (last a xs) w 0 fresh _ ne e);
        well_formed = record {
          chain =
              Chain-snoc _ 0 fresh v ((a, u) ∷ xs) got
                (put_other h' (last a xs) fresh _ apart ∙ put_self h fresh _) away linked;
          head = inv.head;
          size = omega (arith, inv.size, length-append ((a, u) ∷ xs) ((fresh, v) ∷ []));
          tail = λ z. sym (last-snoc a fresh v xs);
        };
      }

-- What a removal from a queue with a first cell does.
pub record Removed (h : Heap) (a v : ℕ) (xs : Cells) (tail : ℕ)
    (r : Result (Option ℕ × Option Queue)) : Type 0 where
  pub queue : Queue
  pub returns : r ≡ done (some v, some queue) (put h a none)
  pub well_formed : IsQueue (put h a none) queue xs
  pub same_tail : queue.tail ≡ tail

last_any : (s t : ℕ) (xs : Cells) → xs ≢ [] → last s xs ≡ last t xs
last_any s t [] ne = absurd (ne refl)
last_any s t ((a, v) ∷ xs) ne = refl

-- q_remove_head of a well-formed queue with a first element returns its value, frees exactly its
-- cell, leaves the rest as a well-formed queue and the tail as it was.
pub q_remove_head-cons :
    (h : Heap) (q : Queue) (a v : ℕ) (xs : Cells)
    → IsQueue h q ((a, v) ∷ xs)
    → Removed h a v xs q.tail (q_remove_head (some q) h)
unfolding q_remove_head
q_remove_head-cons h q a v xs inv =
    let some_head : (q.head == 0) ≡ false = rw inv.head (not_null a inv.chain.0) in
    record {
      queue = record { head = first 0 xs; tail = q.tail; size = q.size - 1 };
      returns =
          rw (some_head, inv.head) (load-element h a v (first 0 xs) _ inv.chain.0 inv.chain.1);
      well_formed = record {
        chain = Chain-put h a none 0 xs inv.chain.2 inv.chain.3;
        head = refl;
        size = omega (arith, inv.size);
        tail = λ ne. inv.tail (λ z. cc z) ∙ last_any a 0 xs ne;
      };
      same_tail = refl;
    }

-- After q_remove_head has emptied a one-element queue, q_insert_tail of an element at any other
-- address faults: it writes through the tail to the freed element.
pub q_insert_tail_dangling :
    (h : Heap) (q : Queue) (a v fresh w : ℕ)
    → IsQueue h q ((a, v) ∷ [])
    → fresh ≢ 0
    → fresh ≢ a
    → (emptied : Queue) × (q_remove_head (some q) h ≡ done (some v, some emptied) (put h a none))
      × (q_insert_tail (some emptied) fresh w (put h a none) ≡ fault)
unfolding q_insert_tail
q_insert_tail_dangling h q a v fresh w inv got apart =
    let out = q_remove_head-cons h q a v [] inv in
    let at : out.queue.tail ≡ a = out.same_tail ∙ inv.tail (λ z. cc z) in
    (
      out.queue,
      out.returns,
      rw (not_null fresh got, at, not_null a inv.chain.0)
          (set_next-none _ a fresh _
            (put_other (put h a none) fresh a _ apart ∙ put_self h a none)),
    )
