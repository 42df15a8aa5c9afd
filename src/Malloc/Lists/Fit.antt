-- ===== src/Malloc/Lists/Fit.antt =====
-- `get_block` of LAB6_malloclab/mm.c finds the first block that is large enough.
use cmu_15_213_intro_to_comp.Prelude.{
  ℕ, zero, suc, ◌-◌, ◌<◌, ◌≡◌, inl, inr, refl, sym, false, List, [], ◌∷◌, ◌++◌, ltb, ◌==◌,
  if◌then◌else◌, arith, Bool-cases, length,
}
use mathlib.Core.Path.{subst}
use cmu_15_213_intro_to_comp.Malloc.{Heap, done, ◌>>=◌, rounds}
use cmu_15_213_intro_to_comp.Malloc.Lists.{
  get_root_index, fit_in_list, fit_from, lists_left, get_block,
}
use cmu_15_213_intro_to_comp.Malloc.Lists.Chain.{
  first, IsHeap, Chain, Listed, get_lem, Chain-rounds, header_size, hdrp_lem, get_size_lem,
}

-- The first block of that size, or NULL.
unfoldable pub fitting : Heap → (size : ℕ) → List ℕ → ℕ
fitting h size [] = 0
fitting h size (b ∷ bs) = if ltb (header_size h b) size then fitting h size bs else b

fit_in_list-fitting :
    (n : ℕ) (h : Heap) (before size : ℕ) (bs : List ℕ)
    → IsHeap h
    → Chain h before bs
    → length bs < n
    → fit_in_list n size (first bs) h ≡ done (fitting h size bs) h
unfolding fit_in_list fitting
fit_in_list-fitting zero h before size bs ok c l = absurd (omega arith)
fit_in_list-fitting (suc n) h before size [] ok c l = refl
fit_in_list-fitting (suc n) h before size (b ∷ bs) ok c l =
    let some_block : (b == 0) ≡ false = ground (arith, c.0, ok) in
    elim (Bool-cases (ltb (header_size h b) size)) [
      | inl small ↦
          rw
            (
              some_block,
              hdrp_lem h b ok c.0,
              get_size_lem h (b - 4) (omega (arith, c.0)) (omega (arith, c.0)) (omega (arith, c.0)),
              ◌>>=◌,
              small,
              get_lem h b (omega (arith, c.0)) (omega (arith, c.0)) c.0.2,
              ◌>>=◌,
            )
            (subst (λ (x : ℕ). fit_in_list n size x h ≡ done (fitting h size bs) h) (sym c.1)
              (fit_in_list-fitting n h b size bs ok c.4 (omega arith)))
      | inr fits ↦ rw (
        some_block,
        hdrp_lem h b ok c.0,
        get_size_lem h (b - 4) (omega (arith, c.0)) (omega (arith, c.0)) (omega (arith, c.0)),
        ◌>>=◌,
        fits,
      )
    ]

fitting-append :
    (h : Heap) (before size : ℕ) (xs ys : List ℕ)
    → IsHeap h
    → Chain h before xs
    → fitting h size (xs ++ ys)
      ≡ (if fitting h size xs == 0 then fitting h size ys else fitting h size xs)
unfolding fitting
fitting-append h before size [] ys ok c = refl
fitting-append h before size (b ∷ xs) ys ok c =
    ground (arith, fitting-append h b size xs ys ok c.4, c.0, ok)

-- All blocks of the lists from one on.
abbrev pub blocks_from : (ℕ → List ℕ) → (left root_index : ℕ) → List ℕ
blocks_from lists zero i = []
blocks_from lists (suc left) i = lists i ++ blocks_from lists left (suc i)

fit_from-fitting :
    (left i : ℕ) (h : Heap) (size : ℕ) (lists : ℕ → List ℕ)
    → IsHeap h
    → ((j : ℕ) → Listed h j (lists j))
    → fit_from left i size h ≡ done (fitting h size (blocks_from lists left i)) h
unfolding fit_from
fit_from-fitting zero i h size lists ok l = unfold fitting in refl
fit_from-fitting (suc left) i h size lists ok l =
    let here : fit_in_list (rounds h) size (first (lists i)) h ≡ done (fitting h size (lists i)) h =
      fit_in_list-fitting (rounds h) h 0 size (lists i) ok (l i).1
        (Chain-rounds h 0 (lists i) ok.1 (l i).1) in
    rw
      (
        (l i).0,
        here,
        ◌>>=◌,
        fitting-append h 0 size (lists i) (blocks_from lists left (suc i)) ok (l i).1,
      )
      (elim (Bool-cases (fitting h size (lists i) == 0)) [
        | inl none_fits ↦ rw none_fits (fit_from-fitting left (suc i) h size lists ok l)
        | inr fits ↦ rw fits
      ])

-- If all lists are well formed get_block ends with the first block of at least the size in the
-- lists from the one of that size on, or with NULL if none is, and changes nothing.
pub get_block-fitting :
    (h : Heap) (size : ℕ) (lists : ℕ → List ℕ)
    → IsHeap h
    → ((j : ℕ) → Listed h j (lists j))
    → (let i = get_root_index size in
        get_block size h ≡ done (fitting h size (blocks_from lists (lists_left i) i)) h)
unfolding get_block
get_block-fitting h size lists ok l =
    fit_from-fitting (lists_left (get_root_index size)) (get_root_index size) h size lists ok l
