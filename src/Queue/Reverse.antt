-- ===== src/Queue/Reverse.antt =====
-- `q_reverse` of LAB0_cprogramminglab/queue.c.
use mathlib.Core.List.{reverse, reverse_aux}
use cmu_15_213_intro_to_comp.Prelude.{
  ℕ, zero, suc, ◌+◌, ◌≤◌, ◌≡◌, refl, ap, sym, ◌∙◌, some, [], ◌∷◌, length, arith,
}
use cmu_15_213_intro_to_comp.Queue.{Queue, Heap, put, done, reverse_loop, q_reverse, swap_ends}
use cmu_15_213_intro_to_comp.Queue.Chain.{
  Cells, element, first, last, Away, Chain, IsQueue, Chain-put, put_self, load-element,
  set_next-element, put_other,
}
use cmu_15_213_intro_to_comp.Queue.Ends.{not_null}

abbrev Disjoint : Cells → Cells → Type 0
Disjoint [] ys = Unit
Disjoint ((a, v) ∷ xs) ys = Away a ys × Disjoint xs ys

Disjoint-cons : (a v : ℕ) (xs ys : Cells) → Away a xs → Disjoint xs ys → Disjoint xs ((a, v) ∷ ys)
Disjoint-cons a v [] ys w d = tt
Disjoint-cons a v ((b, u) ∷ xs) ys w d = ((λ e. w.0 (sym e), d.0), Disjoint-cons a v xs ys w.1 d.1)

Disjoint-nil : (xs : Cells) → Disjoint xs []
Disjoint-nil [] = tt
Disjoint-nil ((a, v) ∷ xs) = (tt, Disjoint-nil xs)

-- The elements before `c` are turned round, and `b` is the first of them.
reverse_loop-Chain :
    (n : ℕ) (h : Heap) (xs ys : Cells)
    → length xs ≤ n
    → Chain h 0 xs
    → Chain h 0 ys
    → Disjoint xs ys
    → (g : Heap) × (reverse_loop n (first 0 ys) (first 0 xs) h ≡ done tt g)
      × Chain g 0 (reverse_aux xs ys)
unfolding reverse_loop
reverse_loop-Chain zero h [] ys fuel c d apart = (h, refl, d)
reverse_loop-Chain (suc n) h [] ys fuel c d apart = (h, refl, d)
reverse_loop-Chain zero h ((a, v) ∷ xs) ys fuel c d apart = absurd (omega arith)
reverse_loop-Chain (suc n) h ((a, v) ∷ xs) ys fuel c d apart =
    let h' = put h a (some (element v (first 0 ys))) in
    let (g, e, r) =
      reverse_loop-Chain n h' xs ((a, v) ∷ ys) (omega arith) (Chain-put h a _ 0 xs c.2 c.3)
        (c.0, put_self h a _, apart.0, Chain-put h a _ 0 ys apart.0 d)
        (Disjoint-cons a v xs ys c.2 apart.1) in
    (
      g,
      rw (not_null a c.0) (
          load-element h a v (first 0 xs) _ c.0 c.1
          ∙ set_next-element h a v (first 0 xs) (first 0 ys) _ c.0 c.1
          ∙ e),
      r,
    )

first-reverse_aux : (xs ys : Cells) → first 0 (reverse_aux xs ys) ≡ last (first 0 ys) xs
first-reverse_aux [] ys = refl
first-reverse_aux ((a, v) ∷ xs) ys = first-reverse_aux xs ((a, v) ∷ ys)

last-reverse_aux : (xs ys : Cells) (a v : ℕ) → last 0 (reverse_aux xs ((a, v) ∷ ys)) ≡ last a ys
last-reverse_aux [] ys a v = refl
last-reverse_aux ((b, u) ∷ xs) ys a v = last-reverse_aux xs ((a, v) ∷ ys) b u

length-reverse_aux : (xs ys : Cells) → length (reverse_aux xs ys) ≡ length xs + length ys
length-reverse_aux [] ys = omega arith
length-reverse_aux (x ∷ xs) ys = omega (arith, length-reverse_aux xs (x ∷ ys))

-- q_reverse of a well-formed queue ends without a fault, within as many rounds of its loop as
-- the size, and leaves the same elements linked in reverse order with head and tail to match.
pub q_reverse-reverse :
    (h : Heap) (q : Queue) (xs : Cells)
    → IsQueue h q xs
    → (g : Heap) × (q' : Queue) × (q_reverse (some q) h ≡ done (some q') g)
      × IsQueue g q' (reverse xs)
unfolding q_reverse
q_reverse-reverse h q [] inv = (h, q, rw inv.head, inv)
q_reverse-reverse h q ((a, v) ∷ []) inv = (
  h,
  q,
  rw (inv.head, not_null a inv.chain.0) (load-element h a v 0 _ inv.chain.0 inv.chain.1),
  inv,
)
q_reverse-reverse h q ((a, v) ∷ (b, u) ∷ xs) inv =
    let c = inv.chain in
    let h1 = put h b (some (element u a)) in
    let at_a : h1 a ≡ some (element v b) = put_other h b a _ c.2.0 ∙ c.1 in
    let h2 = put h1 a (some (element v 0)) in
    let (g, e, r) =
      reverse_loop-Chain q.size h2 xs ((b, u) ∷ (a, v) ∷ []) (omega (arith, inv.size))
        (Chain-put h1 a _ 0 xs c.2.1 (Chain-put h b _ 0 xs c.3.2 c.3.3))
        (
          c.3.0,
          put_other h1 a b _ (λ e. c.2.0 (sym e)) ∙ put_self h b _,
          (λ e. c.2.0 (sym e), tt),
          (c.0, put_self h1 a _, tt, tt),
        )
        (Disjoint-cons b u xs ((a, v) ∷ []) c.3.2
          (Disjoint-cons a v xs [] c.2.1 (Disjoint-nil xs))) in
    (
      g,
      record { head = q.tail; tail = q.head; size = q.size },
      rw (inv.head, not_null a c.0)
          (load-element h a v b _ c.0 c.1
            ∙ rw (not_null b c.3.0) (
                load-element h b u (first 0 xs) _ c.3.0 c.3.1
                ∙ set_next-element h b u (first 0 xs) a _ c.3.0 c.3.1
                ∙ set_next-element h1 a v b 0 _ c.0 at_a
                ∙ ap (swap_ends a q.tail q.size) e)),
      record {
        chain = r;
        head = inv.tail (λ n. cc n) ∙ sym (first-reverse_aux xs ((b, u) ∷ (a, v) ∷ []));
        size = omega (arith, inv.size, length-reverse_aux xs ((b, u) ∷ (a, v) ∷ []));
        tail = λ n. inv.head ∙ sym (last-reverse_aux xs ((a, v) ∷ []) b u);
      },
    )
