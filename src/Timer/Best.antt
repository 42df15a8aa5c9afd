-- ===== src/Timer/Best.antt =====
-- `add_sample` of LAB6_malloclab/fcyc.c keeps the smallest measurements in order.
use Prim.Native.Nat.{min}
use mathlib.Core.Path.{subst}
use mathlib.Core.List.{append_assoc, append-nil}
use native.Mathlib.Decide.{dec_lt}
use cmu_15_213_intro_to_comp.Prelude.{
  ℕ, zero, suc, ◌-◌, ◌≤◌, ◌<◌, ◌≡◌, refl, sym, ap, ◌∙◌, false, List, [], ◌∷◌, ◌++◌, ltb,
  if◌then◌else◌, length, get_or, set, take, length-append, length-take, arith, lt→ltb, Bool-cases,
  inl, inr,
}
use cmu_15_213_intro_to_comp.Timer.{Sampler, sort_down, put_sample, add_sample}
use cmu_15_213_intro_to_comp.Timer.Sort.{
  insert, sorted, IsSorted, length-insert, insert-snoc, insert-AtMost, IsSorted-AtMost,
  IsSorted-init, IsSorted-take, get_or-middle, set-middle, get_or-next, set-next, snoc_view,
  AtMost-le, take-insert, take_all, take-append, IsSorted-sorted, length-sorted,
}

sort_down_step :
    (zs : List ℕ) (y x : ℕ) (ys : List ℕ)
    → sort_down (suc (length zs)) (zs ++ y ∷ x ∷ ys)
      ≡ (if ltb x y then sort_down (length zs) (zs ++ x ∷ y ∷ ys) else zs ++ y ∷ x ∷ ys)
unfolding sort_down
sort_down_step zs y x ys =
    rw
      (
        get_or-middle zs y (x ∷ ys),
        get_or-next zs y x ys,
        set-middle zs y x (x ∷ ys),
        set-next zs x x y ys,
      )
      refl

-- The loop inserts the sample that stands behind a sorted part.
sort_down-insert :
    (pos : ℕ) (xs : List ℕ) (x : ℕ) (ys : List ℕ)
    → length xs ≡ pos
    → IsSorted xs
    → sort_down pos (xs ++ x ∷ ys) ≡ insert x xs ++ ys
unfolding sort_down
sort_down-insert zero [] x ys len h = refl
sort_down-insert zero (z ∷ zs) x ys len h = absurd (omega arith)
sort_down-insert (suc pos) xs x ys len h =
    let (zs, y, (e, len')) = snoc_view pos xs len in
    let h' : IsSorted (zs ++ y ∷ []) = subst IsSorted e h in
    let step : sort_down (suc pos) (xs ++ x ∷ ys)
        ≡ (if ltb x y then sort_down pos (zs ++ x ∷ y ∷ ys) else zs ++ y ∷ x ∷ ys) =
      rw (e, ← len', append_assoc zs (y ∷ []) (x ∷ ys)) (sort_down_step zs y x ys) in
    step ∙ elim (Bool-cases (ltb x y)) [
      | inl less ↦
          rw (less, e, insert-snoc x y zs (ground arith))
            (sort_down-insert pos zs x (y ∷ ys) len' (IsSorted-init y zs h')
              ∙ sym (append_assoc (insert x zs) (y ∷ []) ys))
      | inr more ↦
          rw
            (
              more,
              e,
              insert-AtMost x (zs ++ y ∷ [])
                  (AtMost-le y x _ (ground arith) (IsSorted-AtMost y zs h')),
            )
            (simp (append_assoc))
    ]

-- The values are the smallest of the samples taken, the last one first, in order.
pub record Keeps (kbest : ℕ) (taken : List ℕ) (s : Sampler) : Type 0 where
  pub best : s.values ≡ take kbest (sorted taken)
  pub count : s.samplecount ≡ length taken

-- The values of a sampler that is not full, and of one that is.
put_few :
    (kbest x : ℕ) (s : Sampler)
    → length s.values ≡ s.samplecount
    → s.samplecount < kbest
    → IsSorted s.values
    → (add_sample kbest x s).values ≡ take kbest (insert x s.values)
unfolding add_sample put_sample
put_few kbest x s len few h = rw (lt→ltb s.samplecount kbest few) (
    sort_down-insert s.samplecount s.values x [] len h
    ∙ rw append-nil
        (sym (take_all kbest (insert x s.values) (omega (arith, length-insert x s.values)))))

last-get_or : (k y : ℕ) (zs : List ℕ) → length zs ≡ k → get_or (zs ++ y ∷ []) (suc k - 1) 0 ≡ y
last-get_or k y zs len =
    let at : suc k - 1 ≡ length zs = omega arith in rw at (get_or-middle zs y [])

last-set :
    (k y x : ℕ) (zs : List ℕ) → length zs ≡ k → set (zs ++ y ∷ []) (suc k - 1) x ≡ zs ++ x ∷ []
last-set k y x zs len = let at : suc k - 1 ≡ length zs = omega arith in rw at (set-middle zs y x [])

put_sample-full :
    (k x : ℕ) (s : Sampler) (zs : List ℕ) (y : ℕ)
    → s.values ≡ zs ++ y ∷ []
    → length zs ≡ k
    → suc k ≤ s.samplecount
    → put_sample (suc k) x s ≡ (if ltb x y then (zs ++ x ∷ [], suc k - 1) else (zs ++ y ∷ [], 0))
unfolding put_sample
put_sample-full k x s zs y e len full =
    let more : ltb s.samplecount (suc k) ≡ false = ground arith in
    rw (more, e, last-get_or k y zs len, last-set k y x zs len) refl

put_full :
    (k x : ℕ) (s : Sampler) (zs : List ℕ) (y : ℕ)
    → s.values ≡ zs ++ y ∷ []
    → length zs ≡ k
    → suc k ≤ s.samplecount
    → IsSorted (zs ++ y ∷ [])
    → (add_sample (suc k) x s).values ≡ take (suc k) (insert x (zs ++ y ∷ []))
unfolding add_sample
put_full k x s zs y e len full h =
    rw (put_sample-full k x s zs y e len full) (elim (Bool-cases (ltb x y)) [
      | inl less ↦ rw less (
          sort_down-insert (suc k - 1) zs x [] (omega arith) (IsSorted-init y zs h)
          ∙ rw (append-nil, insert-snoc x y zs (ground arith))
              (sym
                (take-append (suc k) (insert x zs) (y ∷ []) (omega (arith, length-insert x zs)))))
      | inr more ↦ rw more (
          unfold sort_down in
          rw
            (insert-AtMost x (zs ++ y ∷ [])
              (AtMost-le y x _ (ground arith) (IsSorted-AtMost y zs h)))
            (sym (
              take-append (suc k) (zs ++ y ∷ []) (x ∷ [])
                (omega (arith, length-append zs (y ∷ []))))))
    ])

Keeps-length :
    (kbest : ℕ) (taken : List ℕ) (s : Sampler)
    → Keeps kbest taken s
    → length s.values ≡ min kbest s.samplecount
Keeps-length kbest taken s keeps = omega (
  arith,
  ap length keeps.best,
  length-take kbest (sorted taken),
  length-sorted taken,
  keeps.count,
)

Keeps-IsSorted :
    (kbest : ℕ) (taken : List ℕ) (s : Sampler) → Keeps kbest taken s → IsSorted s.values
Keeps-IsSorted kbest taken s keeps =
    subst IsSorted (sym keeps.best) (IsSorted-take kbest (sorted taken) (IsSorted-sorted taken))

values_next :
    (kbest x : ℕ) (taken : List ℕ) (s : Sampler)
    → 0 < kbest
    → Keeps kbest taken s
    → (add_sample kbest x s).values ≡ take kbest (insert x s.values)
values_next zero x taken s pos keeps = absurd (omega arith)
values_next (suc k) x taken s pos keeps =
    let len = Keeps-length (suc k) taken s keeps in
    let h = Keeps-IsSorted (suc k) taken s keeps in
    elim (dec_lt s.samplecount (suc k)) [
      | yes few ↦ put_few (suc k) x s (omega arith) few h
      | no full ↦
          let (zs, y, (e, len')) = snoc_view k s.values (omega arith) in
          put_full k x s zs y e len' (omega arith) (subst IsSorted e h)
          ∙ ap (λ t. take (suc k) (insert x t)) (sym e)
    ]

-- If the values are the kbest smallest of the samples taken, in order, then after add_sample of
-- a further one they are the kbest smallest with it, for a positive kbest.
pub add_sample-Keeps :
    (kbest x : ℕ) (taken : List ℕ) (s : Sampler)
    → 0 < kbest
    → Keeps kbest taken s
    → Keeps kbest (x ∷ taken) (add_sample kbest x s)
add_sample-Keeps kbest x taken s pos keeps = record {
  best =
      values_next kbest x taken s pos keeps
      ∙ ap (λ t. take kbest (insert x t)) keeps.best
      ∙ take-insert kbest x (sorted taken);
  count = unfold add_sample in omega (arith, keeps.count);
}
