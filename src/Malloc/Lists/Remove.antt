-- ===== src/Malloc/Lists/Remove.antt =====
-- `remove_block` of LAB6_malloclab/mm.c takes a block out of its list.
use cmu_15_213_intro_to_comp.Prelude.{
  ℕ, zero, suc, ◌+◌, ◌-◌, ◌≤◌, ◌<◌, ◌≡◌, ◌⊎◌, inl, inr, refl, ap, sym, ◌∙◌, true, false, List, [],
  ◌∷◌, ◌++◌, ◌==◌, arith, length,
}
use mathlib.Core.Path.{subst}
use cmu_15_213_intro_to_comp.Malloc.{Heap, done, ◌>>=◌, >>=-done, update, rounds}
use cmu_15_213_intro_to_comp.Malloc.Lists.{
  set_prev, block_before, unlink_head, unlink_after, remove_block,
}
use cmu_15_213_intro_to_comp.Malloc.Lists.Chain.{
  first, IsHeap, IsBlock, Behind, Chain, Listed, Same, with_words, Chain-Same, Same-update,
  Same-refl, Behind-Outside, get_lem, put_lem, IsNext, Chain-length, prev_words, set_prev_lem,
  list_index, with_root, hdrp_lem, get_size_lem,
}

last : ℕ → List ℕ → ℕ
last p [] = p
last p (f ∷ fs) = last f fs

module _ (bp : ℕ) (back : List ℕ) where
  Behind-middle : (p : ℕ) (fs : List ℕ) → Behind p (fs ++ bp ∷ back) → p + 8 ≤ bp
  Behind-middle p [] f = f.0
  Behind-middle p (g ∷ fs) f = Behind-middle p fs f.1

  Behind-without : (p : ℕ) (fs : List ℕ) → Behind p (fs ++ bp ∷ back) → Behind p (fs ++ back)
  Behind-without p [] f = f.1
  Behind-without p (g ∷ fs) f = (f.0, Behind-without p fs f.1)

  Behind-first :
      (p : ℕ) (fs : List ℕ) → Behind p (fs ++ bp ∷ back) → (first back ≡ 0) ⊎ (p + 8 ≤ first back)
  Behind-first p (g ∷ fs) f = Behind-first p fs f.1
  Behind-first p [] f = next_of back f.1
    where
      next_of : (bs : List ℕ) → Behind p bs → (first bs ≡ 0) ⊎ (p + 8 ≤ first bs)
      next_of [] g = inl refl
      next_of (n ∷ bs) g = inr g.0

  last_bounds :
      (h : Heap) (before p : ℕ) (fs : List ℕ)
      → Chain h before (p ∷ fs ++ bp ∷ back)
      → IsBlock h (last p fs) × (p ≤ last p fs) × (h.word (last p fs) ≡ bp)
  unfolding last
  last_bounds h before p [] c = (c.0, omega arith, c.1)
  last_bounds h before p (f ∷ fs) c =
      let (d, le, e) = last_bounds h p f fs c.4 in (d, omega (arith, le, c.3.0), e)

  middle :
      (h : Heap) (before p : ℕ) (fs : List ℕ)
      → Chain h before (p ∷ fs ++ bp ∷ back)
      → Chain h (last p fs) (bp ∷ back)
  unfolding last
  middle h before p [] c = c.4
  middle h before p (f ∷ fs) c = middle h p f fs c.4

  block_before-last :
      (n : ℕ) (h : Heap) (before p : ℕ) (fs : List ℕ)
      → Chain h before (p ∷ fs ++ bp ∷ back)
      → length (fs ++ bp ∷ back) < suc n
      → block_before n bp p h ≡ done (last p fs) h
  unfolding block_before last
  block_before-last zero h before p [] c l = absurd (omega arith)
  block_before-last zero h before p (f ∷ fs) c l = absurd (omega arith)
  block_before-last (suc n) h before p [] c l =
      let same : (bp == bp) ≡ true = ground arith in
      rw (get_lem h p (omega (arith, c.0)) (omega (arith, c.0)) c.0.2, ◌>>=◌, c.1, same)
  block_before-last (suc n) h before p (f ∷ fs) c l =
      let other : (f == bp) ≡ false = ground (arith, Behind-middle f fs c.4.3) in
      rw (get_lem h p (omega (arith, c.0)) (omega (arith, c.0)) c.0.2, ◌>>=◌, c.1, other)
        (block_before-last n h p f fs c.4 (omega arith))

-- The memory after the writes of `unlink_after`.
abbrev removed_words : (ℕ → ℕ) → (q next : ℕ) → ℕ → ℕ
removed_words w q next = prev_words (update w q next) next q

Chain-IsNext : (h : Heap) (before : ℕ) (bs : List ℕ) → Chain h before bs → IsNext h (first bs)
Chain-IsNext h before [] c = inl refl
Chain-IsNext h before (b ∷ bs) c = inr c.0

unlink_after_lem :
    (h : Heap) (bp q before : ℕ) (back : List ℕ)
    → IsHeap h
    → Chain h before (bp ∷ back)
    → IsBlock h q
    → unlink_after bp q h ≡ done tt (with_words h (removed_words h.word q (h.word bp)))
unfolding unlink_after
unlink_after_lem h bp q before back ok c d =
    let next : IsNext h (h.word bp) = subst (IsNext h) (sym c.1) (Chain-IsNext h bp back c.4) in
    let w1 = update h.word q (h.word bp) in
    rw
      (
        get_lem h bp (omega (arith, c.0)) (omega (arith, c.0)) c.0.2,
        ◌>>=◌,
        put_lem h q (h.word bp) (omega (arith, d)) (omega (arith, d)) d.2,
        ◌>>=◌,
      )
      (set_prev_lem (with_words h w1) (h.word bp) q ok next)

-- The writes for the block after q make the chain.
Removed : Heap → (before q next : ℕ) → List ℕ → Type 0
Removed h before q next bs = Chain (with_words h (removed_words h.word q next)) before bs

removed_words_below :
    (w : ℕ → ℕ) (x p q next : ℕ)
    → x < p + 8
    → p + 8 ≤ q
    → (next ≡ 0) ⊎ (p + 8 ≤ next)
    → removed_words w q next x ≡ w x
removed_words_below w x p q next hx hq hn = ground arith

removed_words_at :
    (w : ℕ → ℕ) (p n : ℕ)
    → p + 8 ≤ n
    → (removed_words w p n p ≡ n)
      × (removed_words w p n (p + 4) ≡ w (p + 4))
      × (removed_words w p n n ≡ w n)
      × (removed_words w p n (n + 4) ≡ p)
removed_words_at w p n h = (ground arith, ground arith, ground arith, ground arith)

Removed-here :
    (h : Heap) (before p bp : ℕ) (back : List ℕ)
    → IsHeap h
    → Chain h before (p ∷ bp ∷ back)
    → Removed h before p (first back) (p ∷ back)
unfolding Removed
Removed-here h before p bp [] ok c = (c.0, ground arith, ground (arith, c.2), tt, tt)
Removed-here h before p bp (n ∷ back) ok c =
    let some_block : (n == 0) ≡ false = ground (arith, c.4.4.0, ok) in
    let kept : Same h.word (removed_words h.word p n) back = rw some_block (
      Same-update h.word _ (n + 4) p back (Behind-Outside n (n + 4) back (omega arith) c.4.4.3) (
        Same-update h.word _ p n back (Behind-Outside p p back (omega arith) c.3.1.1)
          (Same-refl h.word back))) in
    let at = removed_words_at h.word p n c.3.1.0 in
    (
      c.0,
      at.0,
      at.1 ∙ c.2,
      c.3.1,
      (c.4.4.0, at.2 ∙ c.4.4.1, at.3, c.4.4.3, Chain-Same h _ n back kept c.4.4.4),
    )

Removed-later :
    (h : Heap) (before p f q next : ℕ) (fs : List ℕ)
    → IsBlock h p
    → h.word p ≡ f
    → h.word (p + 4) ≡ before
    → Behind p (f ∷ fs)
    → p + 8 ≤ q
    → (next ≡ 0) ⊎ (p + 8 ≤ next)
    → Removed h p q next (f ∷ fs)
    → Removed h before q next (p ∷ f ∷ fs)
unfolding Removed
Removed-later h before p f q next fs b e e' behind le n rest = (
  b,
  removed_words_below h.word p p q next (omega arith) le n ∙ e,
  removed_words_below h.word (p + 4) p q next (omega arith) le n ∙ e',
  behind,
  rest,
)

Removed-last :
    (h : Heap) (before p bp : ℕ) (fs back : List ℕ)
    → IsHeap h
    → Chain h before (p ∷ fs ++ bp ∷ back)
    → Removed h before (last p fs) (first back) (p ∷ fs ++ back)
unfolding last
Removed-last h before p bp [] back ok c = Removed-here h before p bp back ok c
Removed-last h before p bp (f ∷ fs) back ok c =
    let (d, le, _) = last_bounds bp back h p f fs c.4 in
    Removed-later h before p f (last f fs) (first back) (fs ++ back) c.0 c.1 c.2
      (c.3.0, Behind-without bp back p fs c.3.1) (omega (arith, le, c.3.0))
      (Behind-first bp back p fs c.3.1) (Removed-last h p f bp fs back ok c.4)

last_at :
    (p bp : ℕ) (fs back : List ℕ) (h : Heap) (before : ℕ)
    → IsHeap h
    → Chain h before (p ∷ fs ++ bp ∷ back)
    → (block_before (rounds h) bp p >>= unlink_after bp) h
      ≡ done tt (with_words h (removed_words h.word (last p fs) (h.word bp)))
last_at p bp fs back h before ok c =
    let (d, _, _) = last_bounds bp back h before p fs c in
    >>=-done (block_before (rounds h) bp p) (unlink_after bp) h h (last p fs) (
      block_before-last bp back (rounds h) h before p fs c
        (omega (arith, Chain-length h before p (fs ++ bp ∷ back) c)))
    ∙ unlink_after_lem h bp (last p fs) (last p fs) back ok (middle bp back h before p fs c) d

unlink_head_lem :
    (h : Heap) (bp i : ℕ) (back : List ℕ)
    → IsHeap h
    → Chain h 0 (bp ∷ back)
    → unlink_head bp i h
      ≡ done tt (with_words (with_root h i (first back)) (prev_words h.word (first back) 0))
unfolding unlink_head
unlink_head_lem h bp i back ok c =
    rw (get_lem h bp (omega (arith, c.0)) (omega (arith, c.0)) c.0.2, ◌>>=◌)
      (subst
          (λ (n : ℕ).
            set_prev n 0 (with_root h i n)
            ≡ done tt (with_words (with_root h i n) (prev_words h.word n 0)))
          (sym c.1)
          (set_prev_lem (with_root h i (first back)) (first back) 0 ok (Chain-IsNext h bp back c.4))
        ∙ ap (λ (n : ℕ). done tt (with_words (with_root h i n) (prev_words h.word n 0))) c.1)

Chain-rest :
    (h : Heap) (bp : ℕ) (back : List ℕ)
    → IsHeap h
    → Chain h bp back
    → Chain (with_words h (prev_words h.word (first back) 0)) 0 back
Chain-rest h bp [] ok c = tt
Chain-rest h bp (n ∷ back) ok c =
    let some_block : (n == 0) ≡ false = ground (arith, c.0, ok) in
    let kept : Same h.word (prev_words h.word n 0) back = rw some_block (
      Same-update h.word _ (n + 4) 0 back (Behind-Outside n (n + 4) back (omega arith) c.3)
        (Same-refl h.word back)) in
    (c.0, ground (arith, c.1), rw some_block (ground arith), c.3, Chain-Same h _ n back kept c.4)

-- remove_block of a block that stands anywhere in its list ends without a fault, and the list is
-- then the old one without the block, linked in both directions.
pub remove_block-append :
    (h : Heap) (bp : ℕ) (front back : List ℕ)
    → IsHeap h
    → Listed h (list_index h bp) (front ++ bp ∷ back)
    → (h' : Heap) × (remove_block bp h ≡ done tt h') × Listed h' (list_index h bp) (front ++ back)
unfolding remove_block
remove_block-append h bp [] back ok l =
    let b = l.1.0 in
    let i = list_index h bp in
    let here : (bp == bp) ≡ true = ground arith in
    (
      with_words (with_root h i (first back)) (prev_words h.word (first back) 0),
      rw
          (
            hdrp_lem h bp ok b,
            get_size_lem h (bp - 4) (omega (arith, b)) (omega (arith, b)) (omega (arith, b)),
            ◌>>=◌,
            l.0,
            here,
          )
          (unlink_head_lem h bp i back ok l.1),
      (ground arith, Chain-rest (with_root h i (first back)) bp back ok l.1.4),
    )
remove_block-append h bp (p ∷ fs) back ok l =
    let (b, e, _, _, _) = middle bp back h 0 p fs l.1 in
    let other : (bp == p) ≡ false = ground (arith, Behind-middle bp back p fs l.1.3) in
    (
      with_words h (removed_words h.word (last p fs) (h.word bp)),
      rw
          (
            hdrp_lem h bp ok b,
            get_size_lem h (bp - 4) (omega (arith, b)) (omega (arith, b)) (omega (arith, b)),
            ◌>>=◌,
            l.0,
            other,
          )
          (last_at p bp fs back h 0 ok l.1),
      (
        l.0,
        unfold Removed in
            subst (λ (n : ℕ). Removed h 0 (last p fs) n (p ∷ fs ++ back)) (sym e)
              (Removed-last h 0 p bp fs back ok l.1),
      ),
    )
