-- ===== src/Malloc/Lists/Insert.antt =====
-- The insertion behind a block that `put_block` of LAB6_malloclab/mm.c makes.
use cmu_15_213_intro_to_comp.Prelude.{
  ℕ, zero, suc, ◌+◌, ◌≤◌, ◌<◌, ◌≡◌, ◌⊎◌, inl, inr, refl, sym, ◌∙◌, true, false, List, [], ◌∷◌, ltb,
  ◌==◌, if◌then◌else◌, arith, Bool-cases, length,
}
use mathlib.Core.Path.{subst}
use cmu_15_213_intro_to_comp.Malloc.{Heap, done, ◌>>=◌, update}
use cmu_15_213_intro_to_comp.Malloc.Lists.{place_before, insert_after}
use cmu_15_213_intro_to_comp.Malloc.Lists.Chain.{
  first, IsHeap, IsBlock, Behind, Chain, Apart, Same, with_words, Chain-Same, Same-update,
  Same-refl, Behind-Outside, Behind-le, get_lem, put_lem, add_4, IsNext, prev_words, set_prev_lem,
  insert,
}

-- Where the loop of `put_block` stops.
unfoldable pub spot : (p bp : ℕ) → List ℕ → ℕ
spot p bp [] = p
spot p bp (c ∷ cs) = if ltb c bp then spot c bp cs else p

pub place_before-spot :
    (n : ℕ) (h : Heap) (before p bp : ℕ) (bs : List ℕ)
    → IsHeap h
    → Chain h before (p ∷ bs)
    → length bs < n
    → place_before n bp p h ≡ done (spot p bp bs) h
unfolding place_before spot
place_before-spot zero h before p bp bs ok c l = absurd (omega arith)
place_before-spot (suc n) h before p bp [] ok c l =
    rw (get_lem h p (omega (arith, c.0)) (omega (arith, c.0)) c.0.2, ◌>>=◌, c.1)
place_before-spot (suc n) h before p bp (b ∷ bs) ok c l =
    let some_block : (b == 0) ≡ false = ground (arith, c.4.0, ok) in
    rw (get_lem h p (omega (arith, c.0)) (omega (arith, c.0)) c.0.2, ◌>>=◌, c.1, some_block)
      (elim (Bool-cases (ltb b bp)) [
        | inl lt ↦ rw lt (place_before-spot n h p b bp bs ok c.4 (omega arith))
        | inr ge ↦ rw ge
      ])

-- The memory after the writes of `insert_after`.
abbrev pub inserted_words : (ℕ → ℕ) → (bp p next : ℕ) → ℕ → ℕ
inserted_words w bp p next = update (prev_words (update (update w bp next) (bp + 4) p) next bp) p bp

pub insert_after_lem :
    (h : Heap) (bp p : ℕ)
    → IsHeap h
    → IsBlock h bp
    → IsBlock h p
    → IsNext h (h.word p)
    → insert_after bp p h ≡ done tt (with_words h (inserted_words h.word bp p (h.word p)))
unfolding insert_after
insert_after_lem h bp p ok b d n =
    let next = h.word p in
    let w1 = update h.word bp next in
    let w2 = update w1 (bp + 4) p in
    rw (
      get_lem h p (omega (arith, d)) (omega (arith, d)) d.2,
      ◌>>=◌,
      put_lem h bp next (omega (arith, b)) (omega (arith, b)) b.2,
      ◌>>=◌,
      add_4 h bp ok b,
      put_lem (with_words h w1) (bp + 4) p (omega (arith, b)) (omega (arith, b)) (omega (arith, b)),
      ◌>>=◌,
      set_prev_lem (with_words h w2) next bp ok n,
      ◌>>=◌,
      put_lem (with_words h (prev_words w2 next bp)) p bp (omega (arith, d)) (omega (arith, d)) d.2,
    )

higher : (a b n : ℕ) → a ≤ b → (n ≡ 0) ⊎ (b ≤ n) → (n ≡ 0) ⊎ (a ≤ n)
higher a b n h (inl e) = inl e
higher a b n h (inr k) = inr (omega arith)

-- The block at the spot and its successor stand no lower than the start of the search.
pub spot_bounds :
    (h : Heap) (before p bp : ℕ) (bs : List ℕ)
    → IsHeap h
    → Chain h before (p ∷ bs)
    → IsBlock h (spot p bp bs)
      × (p ≤ spot p bp bs)
      × IsNext h (h.word (spot p bp bs))
      × ((h.word (spot p bp bs) ≡ 0) ⊎ (p ≤ h.word (spot p bp bs)))
unfolding spot
spot_bounds h before p bp [] ok c = (c.0, omega arith, inl c.1, inl c.1)
spot_bounds h before p bp (b ∷ bs) ok c = elim (Bool-cases (ltb b bp)) [
  | inl lt ↦
      let (d, le, n, up) = spot_bounds h p b bp bs ok c.4 in
      rw lt (
        (
          d,
          omega (arith, le, c.3.0),
          n,
          higher p b (h.word (spot b bp bs)) (omega (arith, c.3.0)) up,
        ))
  | inr ge ↦ rw (ge, c.1) ((c.0, omega arith, inr c.4.0, inr (omega (arith, c.3.0))))
]

inserted_words_below :
    (w : ℕ → ℕ) (x bp p next : ℕ)
    → x < bp
    → x < p
    → (next ≡ 0) ⊎ (x < next)
    → inserted_words w bp p next x ≡ w x
inserted_words_below w x bp p next hb hp hn = ground arith

Chain-insert_here :
    (h : Heap) (before p bp : ℕ) (bs : List ℕ)
    → IsHeap h
    → IsBlock h bp
    → Chain h before (p ∷ bs)
    → p + 8 ≤ bp
    → Behind bp bs
    → Chain (with_words h (inserted_words h.word bp p (first bs))) before (p ∷ bp ∷ bs)
Chain-insert_here h before p bp [] ok b c lt f =
    (c.0, ground arith, ground (arith, c.2), (lt, tt), (b, ground arith, ground arith, tt, tt))
Chain-insert_here h before p bp (n ∷ bs) ok b c lt f =
    let some_block : (n == 0) ≡ false = ground (arith, c.4.0, ok) in
    let w = inserted_words h.word bp p n in
    let kept : Same h.word w bs = rw some_block (
      Same-update h.word _ p bp bs (Behind-Outside n p bs (omega (arith, c.3.0)) c.4.3) (
        Same-update h.word _ (n + 4) bp bs (Behind-Outside n (n + 4) bs (omega arith) c.4.3) (
          Same-update h.word _ (bp + 4) p bs (Behind-Outside bp (bp + 4) bs (omega arith) f.1) (
            Same-update h.word _ bp n bs (Behind-Outside bp bp bs (omega arith) f.1)
              (Same-refl h.word bs))))) in
    (
      c.0,
      ground arith,
      ground (arith, c.2, c.3.0, f.0),
      (lt, c.3),
      (
        b,
        ground (arith, f.0),
        ground (arith, f.0),
        f,
        (
          c.4.0,
          ground (arith, c.4.1, f.0, c.3.0),
          rw some_block (ground (arith, c.3.0)),
          c.4.3,
          Chain-Same h w n bs kept c.4.4,
        ),
      ),
    )

above : (a b n : ℕ) → a < b → (n ≡ 0) ⊎ (b ≤ n) → (n ≡ 0) ⊎ (a < n)
above a b n h (inl e) = inl e
above a b n h (inr k) = inr (omega arith)

Behind-insert : (a b : ℕ) (bs : List ℕ) → a + 8 ≤ b → Behind a bs → Behind a (insert b bs)
unfolding insert
Behind-insert a b [] h f = (h, tt)
Behind-insert a b (c ∷ cs) h f = elim (Bool-cases (ltb c b)) [
  | inl lt ↦ rw lt ((f.0, Behind-insert a b cs h f.1))
  | inr ge ↦ rw ge ((h, f))
]

spot_after : (p n bp : ℕ) (bs : List ℕ) → ltb n bp ≡ true → spot p bp (n ∷ bs) ≡ spot n bp bs
unfolding spot
spot_after p n bp bs e = rw e

spot_here : (p n bp : ℕ) (bs : List ℕ) → ltb n bp ≡ false → spot p bp (n ∷ bs) ≡ p
unfolding spot
spot_here p n bp bs e = rw e

pub insert_after_first :
    (n bp : ℕ) (bs : List ℕ) → ltb n bp ≡ true → insert bp (n ∷ bs) ≡ n ∷ insert bp bs
unfolding insert
insert_after_first n bp bs e = rw e

pub insert_before_first :
    (n bp : ℕ) (bs : List ℕ) → ltb n bp ≡ false → insert bp (n ∷ bs) ≡ bp ∷ n ∷ bs
unfolding insert
insert_before_first n bp bs e = rw e

pub insert_nil : (bp : ℕ) → insert bp [] ≡ bp ∷ []
unfolding insert
insert_nil bp = refl

spot_nil : (p bp : ℕ) → spot p bp [] ≡ p
unfolding spot
spot_nil p bp = refl

-- The writes after the block q make the chain.
unfoldable pub Inserted : Heap → (before bp q : ℕ) → List ℕ → Type 0
Inserted h before bp q bs = Chain (with_words h (inserted_words h.word bp q (h.word q))) before bs

Inserted-here :
    (h : Heap) (before p bp : ℕ) (bs : List ℕ)
    → IsHeap h
    → IsBlock h bp
    → Chain h before (p ∷ bs)
    → p + 8 ≤ bp
    → Behind bp bs
    → Inserted h before bp p (p ∷ bp ∷ bs)
unfolding Inserted
Inserted-here h before p bp bs ok b c lt f =
    subst (λ (x : ℕ). Chain (with_words h (inserted_words h.word bp p x)) before (p ∷ bp ∷ bs))
      (sym c.1) (Chain-insert_here h before p bp bs ok b c lt f)

Inserted-later :
    (h : Heap) (before p n bp q : ℕ) (bs : List ℕ)
    → Chain h before (p ∷ n ∷ bs)
    → p + 8 ≤ bp
    → p + 8 ≤ q
    → (h.word q ≡ 0) ⊎ (n ≤ h.word q)
    → Inserted h p bp q (n ∷ insert bp bs)
    → Inserted h before bp q (p ∷ n ∷ insert bp bs)
unfolding Inserted
Inserted-later h before p n bp q bs c lt le up rest =
    let below = λ (x : ℕ) (small : x < p + 8).
      inserted_words_below h.word x bp q (h.word q) (omega (arith, small))
        (omega (arith, small, le)) (above x n (h.word q) (omega (arith, small, c.3.0)) up) in
    (
      c.0,
      below p (omega arith) ∙ c.1,
      below (p + 4) (omega arith) ∙ c.2,
      (c.3.0, Behind-insert p bp bs lt c.3.1),
      rest,
    )

-- The chain with the new block, whatever stands before it.
pub Inserted-spot :
    (h : Heap) (before p bp : ℕ) (bs : List ℕ)
    → IsHeap h
    → IsBlock h bp
    → Chain h before (p ∷ bs)
    → p + 8 ≤ bp
    → Apart bp bs
    → Inserted h before bp (spot p bp bs) (p ∷ insert bp bs)
Inserted-spot h before p bp [] ok b c lt a =
    rw (spot_nil p bp, insert_nil bp) (Inserted-here h before p bp [] ok b c lt tt)
Inserted-spot h before p bp (n ∷ bs) ok b c lt a = elim (Bool-cases (ltb n bp)) [
  | inl less ↦
      let clear : n + 8 ≤ bp = elim a.0 [ inl k ↦ absurd (ground arith) | inr k ↦ k ] in
      let q = spot n bp bs in
      let (d, le, _, up) = spot_bounds h p n bp bs ok c.4 in
      rw (spot_after p n bp bs less, insert_after_first n bp bs less)
        (Inserted-later h before p n bp q bs c lt (omega (arith, le, c.3.0)) up
          (Inserted-spot h p n bp bs ok b c.4 clear a.1))
  | inr ge ↦
      let clear : bp + 8 ≤ n = elim a.0 [ inl k ↦ k | inr k ↦ absurd (ground arith) ] in
      rw (spot_here p n bp bs ge, insert_before_first n bp bs ge)
        (Inserted-here h before p bp (n ∷ bs) ok b c lt
          (clear, Behind-le bp n bs (omega (arith, clear)) c.4.3))
]
