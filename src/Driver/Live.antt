-- ===== src/Driver/Live.antt =====
-- The range list of LAB6_malloclab/mdriver.c holds the payloads that a trace has allocated and not
-- freed.
use mathlib.Core.Path.{subst}
use cmu_15_213_intro_to_comp.Prelude.{
  ℕ, zero, suc, ◌%◌, ◌≤◌, ◌<◌, ◌≡◌, ◌≢◌, ◌⊎◌, inl, inr, refl, sym, ap, ◌∙◌, true, false, Option,
  none, some, List, [], ◌∷◌, get_or, set, ◌==◌, if◌then◌else◌, arith, length, Bool-cases,
}
use cmu_15_213_intro_to_comp.Driver.{Range, overlaps_one, overlaps_any, remove_range}
use cmu_15_213_intro_to_comp.Driver.Ranges.{payload}
use cmu_15_213_intro_to_comp.Driver.Valid.{overlaps_any-remove_range}

-- The id is not in use, and it is.
abbrev pub Absent : ℕ → List ℕ → Type 0
Absent i [] = Unit
Absent i (j ∷ js) = (j ≢ i) × Absent i js

abbrev pub Present : ℕ → List ℕ → Type 0
Present i [] = ⊥
Present i (j ∷ js) = (j ≡ i) ⊎ Present i js

abbrev pub without : ℕ → List ℕ → List ℕ
without i [] = []
without i (j ∷ js) = if j == i then js else j ∷ without i js

-- The range is that of the block with the address and the size, which is aligned.
abbrev pub IsBlock : Option ℕ → Option ℕ → Range → Type 0
IsBlock (some p) (some size) r = (r ≡ payload p size) × (r.lo ≤ r.hi) × (r.lo % 8 ≡ 0)
IsBlock (some p) none r = ⊥
IsBlock none size r = ⊥

-- The ranges are those of the blocks of the ids, in their order; no first or last byte of one lies
-- in an older one.
abbrev pub Tied : (blocks sizes : List (Option ℕ)) → List ℕ → List Range → Type 0
Tied blocks sizes [] [] = Unit
Tied blocks sizes [] (r ∷ rs) = ⊥
Tied blocks sizes (i ∷ is) [] = ⊥
Tied blocks sizes (i ∷ is) (r ∷ rs) =
    IsBlock (get_or blocks i none) (get_or sizes i none) r
    × Absent i is
    × (overlaps_any rs r.lo r.hi ≡ false)
    × Tied blocks sizes is rs

get_or-set_other :
    (xs : List (Option ℕ)) (i j : ℕ) (x : Option ℕ)
    → j ≢ i
    → get_or (set xs i x) j none ≡ get_or xs j none
get_or-set_other [] i j x ne = refl
get_or-set_other (y ∷ ys) zero zero x ne = absurd (ne refl)
get_or-set_other (y ∷ ys) zero (suc j) x ne = refl
get_or-set_other (y ∷ ys) (suc i) zero x ne = refl
get_or-set_other (y ∷ ys) (suc i) (suc j) x ne = get_or-set_other ys i j x (λ e. ne (ap suc e))

pub get_or-set_self :
    (xs : List (Option ℕ)) (i : ℕ) (x : Option ℕ) → i < length xs → get_or (set xs i x) i none ≡ x
get_or-set_self [] i x h = absurd (omega arith)
get_or-set_self (y ∷ ys) zero x h = refl
get_or-set_self (y ∷ ys) (suc i) x h = get_or-set_self ys i x (omega arith)

-- The cells of an id that is not in use may change.
pub Tied-set :
    (blocks sizes : List (Option ℕ)) (i : ℕ) (x y : Option ℕ) (is : List ℕ) (rs : List Range)
    → Absent i is
    → Tied blocks sizes is rs
    → Tied (set blocks i x) (set sizes i y) is rs
Tied-set blocks sizes i x y [] [] w t = tt
Tied-set blocks sizes i x y (j ∷ is) (r ∷ rs) w t = (
  rw (get_or-set_other blocks i j x w.0, get_or-set_other sizes i j y w.0) t.0,
  t.1,
  t.2,
  Tied-set blocks sizes i x y is rs w.1 t.3,
)
Tied-set blocks sizes i x y [] (r ∷ rs) w t = t
Tied-set blocks sizes i x y (j ∷ is) [] w t = t

IsBlock-lo :
    (p : ℕ) (block size : Option ℕ) (r : Range)
    → block ≡ some p
    → IsBlock block size r
    → (r.lo ≡ p) × (r.lo ≤ r.hi)
IsBlock-lo p none size r e b = absurd b
IsBlock-lo p (some q) none r e b = absurd b
IsBlock-lo p (some q) (some size) r e b = (rw b.0 (let same : q ≡ p = cc in same), b.1)

-- A payload with the address of a block in use overlaps the list.
Present-overlaps :
    (blocks sizes : List (Option ℕ)) (i p hi : ℕ) (is : List ℕ) (rs : List Range)
    → Present i is
    → get_or blocks i none ≡ some p
    → Tied blocks sizes is rs
    → overlaps_any rs p hi ≡ true
unfolding overlaps_any overlaps_one
Present-overlaps blocks sizes i p hi [] [] h e t = absurd h
Present-overlaps blocks sizes i p hi [] (r ∷ rs) h e t = absurd h
Present-overlaps blocks sizes i p hi (j ∷ is) [] h e t = absurd t
Present-overlaps blocks sizes i p hi (j ∷ is) (r ∷ rs) (inl same) e t =
    let (lo, le) =
      IsBlock-lo p (get_or blocks j none) (get_or sizes j none) r
        (ap (λ k. get_or blocks k none) same ∙ e) t.0 in
    ground arith
Present-overlaps blocks sizes i p hi (j ∷ is) (r ∷ rs) (inr later) e t =
    ground (arith, Present-overlaps blocks sizes i p hi is rs later e t.3)

pub Absent-without : (i j : ℕ) (is : List ℕ) → Absent j is → Absent j (without i is)
Absent-without i j [] w = tt
Absent-without i j (k ∷ is) w = elim (Bool-cases (k == i)) [
  | inl e ↦ rw e w.1
  | inr e ↦ rw e (w.0, Absent-without i j is w.1)
]

Absent-Present : (i : ℕ) (is : List ℕ) → Absent i is → Present i is → ⊥
Absent-Present i [] w h = h
Absent-Present i (j ∷ is) w (inl same) = w.0 same
Absent-Present i (j ∷ is) w (inr later) = Absent-Present i is w.1 later

-- remove_range takes the range of the id out.
pub Tied-remove :
    (blocks sizes : List (Option ℕ)) (i p : ℕ) (is : List ℕ) (rs : List Range)
    → Present i is
    → get_or blocks i none ≡ some p
    → Tied blocks sizes is rs
    → Absent i (without i is) × Tied blocks sizes (without i is) (remove_range rs p)
unfolding remove_range
Tied-remove blocks sizes i p [] [] h e t = absurd h
Tied-remove blocks sizes i p [] (r ∷ rs) h e t = absurd h
Tied-remove blocks sizes i p (j ∷ is) [] h e t = absurd t
Tied-remove blocks sizes i p (j ∷ is) (r ∷ rs) (inl same) e t =
    let (lo, le) =
      IsBlock-lo p (get_or blocks j none) (get_or sizes j none) r
        (ap (λ k. get_or blocks k none) same ∙ e) t.0 in
    let here : (j == i) ≡ true = ground arith in
    let first : (r.lo == p) ≡ true = ground arith in
    rw (here, first) (subst (λ k. Absent k is) same t.1, t.3)
Tied-remove blocks sizes i p (j ∷ is) (r ∷ rs) (inr later) e t =
    let (gone, rest) = Tied-remove blocks sizes i p is rs later e t.3 in
    let other : (j == i) ≡ false = elim (Bool-cases (j == i)) [
      | inr ne ↦ ne
      | inl hit ↦
          let same : j ≡ i = ground arith in
          absurd (Absent-Present i is (subst (λ k. Absent k is) same t.1) later)
    ] in
    let apart : (r.lo == p) ≡ false = elim (Bool-cases (r.lo == p)) [
      | inr ne ↦ ne
      | inl hit ↦
          let same : p ≡ r.lo = ground arith in
          let over = Present-overlaps blocks sizes i p r.hi is rs later e t.3 in
          let none_over : overlaps_any rs p r.hi ≡ false =
            subst (λ x. overlaps_any rs x r.hi ≡ false) (sym same) t.2 in
          cc (over, none_over)
    ] in
    rw (other, apart)
      (
        ((λ s. ground arith), gone),
        (t.0, Absent-without i j is t.1, overlaps_any-remove_range rs p r.lo r.hi t.2, rest),
      )
