-- ===== src/Malloc/Lists/Put.antt =====
-- `put_block` of LAB6_malloclab/mm.c inserts by address.
use cmu_15_213_intro_to_comp.Prelude.{
  ℕ, ◌+◌, ◌-◌, ◌≤◌, ◌<◌, ◌≡◌, inl, inr, ◌∙◌, true, false, List, [], ◌∷◌, ltb, ◌==◌, arith,
  Bool-cases,
}
use cmu_15_213_intro_to_comp.Malloc.{Heap, done, ◌>>=◌, >>=-done, update, rounds}
use cmu_15_213_intro_to_comp.Malloc.Lists.{
  place_before, insert_after, start_list, insert_first, put_block,
}
use cmu_15_213_intro_to_comp.Malloc.Lists.Chain.{
  IsHeap, IsBlock, Chain, Listed, Apart, Same, with_words, Chain-Same, Same-update, Same-refl,
  Behind-Outside, Behind-le, put_lem, add_4, Chain-length, list_index, with_root, hdrp_lem,
  get_size_lem, insert,
}
use cmu_15_213_intro_to_comp.Malloc.Lists.Insert.{
  spot, place_before-spot, inserted_words, insert_after_lem, spot_bounds, insert_after_first,
  insert_before_first, insert_nil, Inserted, Inserted-spot,
}

put_block_nil :
    (h : Heap) (bp : ℕ)
    → IsHeap h
    → IsBlock h bp
    → h.roots (list_index h bp) ≡ 0
    → put_block bp h
      ≡ done tt
          (with_words (with_root h (list_index h bp) bp) (update (update h.word bp 0) (bp + 4) 0))
unfolding put_block start_list
put_block_nil h bp ok b e =
    let g = with_root h (list_index h bp) bp in
    rw (
      hdrp_lem h bp ok b,
      get_size_lem h (bp - 4) (omega (arith, b)) (omega (arith, b)) (omega (arith, b)),
      ◌>>=◌,
      e,
      put_lem g bp 0 (omega (arith, b)) (omega (arith, b)) b.2,
      ◌>>=◌,
      add_4 h bp ok b,
      put_lem (with_words g (update h.word bp 0)) (bp + 4) 0 (omega (arith, b)) (omega (arith, b))
          (omega (arith, b)),
    )

abbrev first_words : (ℕ → ℕ) → (bp n : ℕ) → ℕ → ℕ
first_words w bp n = update (update (update w bp n) (bp + 4) 0) (n + 4) bp

insert_first_lem :
    (h : Heap) (bp n i : ℕ)
    → IsHeap h
    → IsBlock h bp
    → IsBlock h n
    → insert_first bp n i h ≡ done tt (with_words (with_root h i bp) (first_words h.word bp n))
unfolding insert_first
insert_first_lem h bp n i ok b d =
    let w1 = update h.word bp n in
    let w2 = update w1 (bp + 4) 0 in
    rw (
      put_lem h bp n (omega (arith, b)) (omega (arith, b)) b.2,
      ◌>>=◌,
      add_4 h bp ok b,
      put_lem (with_words h w1) (bp + 4) 0 (omega (arith, b)) (omega (arith, b)) (omega (arith, b)),
      ◌>>=◌,
      add_4 h n ok d,
      put_lem (with_words h w2) (n + 4) bp (omega (arith, d)) (omega (arith, d)) (omega (arith, d)),
    )

put_block_first :
    (h : Heap) (bp n : ℕ)
    → IsHeap h
    → IsBlock h bp
    → IsBlock h n
    → h.roots (list_index h bp) ≡ n
    → bp < n
    → put_block bp h
      ≡ done tt (with_words (with_root h (list_index h bp) bp) (first_words h.word bp n))
unfolding put_block
put_block_first h bp n ok b d e lt =
    let some_block : (n == 0) ≡ false = ground (arith, ok, d) in
    let less : ltb bp n ≡ true = ground arith in
    rw
      (
        hdrp_lem h bp ok b,
        get_size_lem h (bp - 4) (omega (arith, b)) (omega (arith, b)) (omega (arith, b)),
        ◌>>=◌,
        e,
        some_block,
        less,
      )
      (insert_first_lem h bp n (list_index h bp) ok b d)

Chain-first :
    (h : Heap) (bp n : ℕ) (bs : List ℕ)
    → IsBlock h bp
    → Chain h 0 (n ∷ bs)
    → bp + 8 ≤ n
    → Chain (with_words h (first_words h.word bp n)) 0 (bp ∷ n ∷ bs)
Chain-first h bp n bs b c lt =
    let kept : Same h.word (first_words h.word bp n) bs =
      Same-update h.word _ (n + 4) bp bs (Behind-Outside n (n + 4) bs (omega arith) c.3) (
        Same-update h.word _ (bp + 4) 0 bs (Behind-Outside n (bp + 4) bs (omega arith) c.3) (
          Same-update h.word _ bp n bs (Behind-Outside n bp bs (omega arith) c.3)
            (Same-refl h.word bs))) in
    (
      b,
      ground arith,
      ground arith,
      (lt, Behind-le bp n bs (omega arith) c.3),
      (c.0, ground (arith, c.1), ground arith, c.3, Chain-Same h _ n bs kept c.4),
    )

put_block-spot :
    (h : Heap) (bp n : ℕ) (bs : List ℕ)
    → IsHeap h
    → IsBlock h bp
    → Chain h 0 (n ∷ bs)
    → h.roots (list_index h bp) ≡ n
    → n ≤ bp
    → (let q = spot n bp bs in
        put_block bp h ≡ done tt (with_words h (inserted_words h.word bp q (h.word q))))
unfolding put_block
put_block-spot h bp n bs ok b c e le =
    let some_block : (n == 0) ≡ false = ground (arith, ok, c.0) in
    let less : ltb bp n ≡ false = ground arith in
    let (d, _, next, _) = spot_bounds h 0 n bp bs ok c in
    rw
      (
        hdrp_lem h bp ok b,
        get_size_lem h (bp - 4) (omega (arith, b)) (omega (arith, b)) (omega (arith, b)),
        ◌>>=◌,
        e,
        some_block,
        less,
      )
      (>>=-done (place_before (rounds h) bp n) (insert_after bp) h h (spot n bp bs)
          (place_before-spot (rounds h) h 0 n bp bs ok c (Chain-length h 0 n bs c))
        ∙ insert_after_lem h bp (spot n bp bs) ok b d next)

-- put_block of a block of the heap that overlaps none of its list ends without a fault, and its
-- list is then the old one with the block inserted by address, linked in both directions.
pub put_block-insert :
    (h : Heap) (bp : ℕ) (bs : List ℕ)
    → IsHeap h
    → IsBlock h bp
    → Apart bp bs
    → Listed h (list_index h bp) bs
    → (h' : Heap) × (put_block bp h ≡ done tt h') × Listed h' (list_index h bp) (insert bp bs)
put_block-insert h bp [] ok b a l =
    let i = list_index h bp in
    let g = with_root h i bp in
    let w = update h.word bp 0 in
    (
      with_words g (update w (bp + 4) 0),
      put_block_nil h bp ok b l.0,
      rw (insert_nil bp) ((ground arith, (b, ground arith, ground arith, tt, tt))),
    )
put_block-insert h bp (n ∷ bs) ok b a l = elim (Bool-cases (ltb bp n)) [
  | inl less ↦
      let clear : bp + 8 ≤ n = elim a.0 [ inl k ↦ k | inr k ↦ absurd (ground arith) ] in
      let g = with_root h (list_index h bp) bp in
      let after : ltb n bp ≡ false = ground arith in
      (
        with_words g (first_words h.word bp n),
        put_block_first h bp n ok b l.1.0 l.0 (ground arith),
        rw (insert_before_first n bp bs after) ((ground arith, Chain-first g bp n bs b l.1 clear)),
      )
  | inr ge ↦
      let clear : n + 8 ≤ bp = elim a.0 [ inl k ↦ absurd (ground arith) | inr k ↦ k ] in
      let q = spot n bp bs in
      let before : ltb n bp ≡ true = ground arith in
      (
        with_words h (inserted_words h.word bp q (h.word q)),
        put_block-spot h bp n bs ok b l.1 l.0 (ground arith),
        rw (insert_after_first n bp bs before)
            ((l.0, unfold Inserted in Inserted-spot h 0 n bp bs ok b l.1 clear a.1)),
      )
]
