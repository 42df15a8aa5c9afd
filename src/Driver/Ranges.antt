-- ===== src/Driver/Ranges.antt =====
-- `add_range` and `remove_range` of LAB6_malloclab/mdriver.c.
use cmu_15_213_intro_to_comp.Prelude.{
  ℕ, ◌+◌, ◌-◌, ◌%◌, ◌≤◌, ◌<◌, ◌≡◌, ◌⊎◌, refl, false, List, [], ◌∷◌, arith,
}
use cmu_15_213_intro_to_comp.Driver.{
  Range, adds, outside_heap, overlaps_one, overlaps_any, add_range,
}

-- No byte belongs to both payloads.
abbrev pub Disjoint : (p q : Range) → Type 0
Disjoint p q = (p.hi < q.lo) ⊎ (q.hi < p.lo)

abbrev pub AllDisjoint : Range → List Range → Type 0
AllDisjoint r [] = Unit
AllDisjoint r (p ∷ ps) = Disjoint r p × AllDisjoint r ps

abbrev pub PairwiseDisjoint : List Range → Type 0
PairwiseDisjoint [] = Unit
PairwiseDisjoint (p ∷ ps) = AllDisjoint p ps × PairwiseDisjoint ps

-- The second payload stands between the first and the last byte of the first one.
abbrev pub Inside : (r p : Range) → Type 0
Inside r p = (r.lo < p.lo) × (p.hi < r.hi)

abbrev pub NoneInside : Range → List Range → Type 0
NoneInside r [] = Unit
NoneInside r (p ∷ ps) = (¬ Inside r p) × NoneInside r ps

abbrev pub AreRanges : List Range → Type 0
AreRanges [] = Unit
AreRanges (p ∷ ps) = (p.lo ≤ p.hi) × AreRanges ps

-- The payload is aligned and lies in the heap.
pub record IsPlaced (heap_lo heap_hi : ℕ) (r : Range) : Type 0 where
  pub aligned : r.lo % 8 ≡ 0
  pub first : heap_lo ≤ r.lo
  pub ordered : r.lo ≤ r.hi
  pub last : r.hi ≤ heap_hi

abbrev pub payload : (lo size : ℕ) → Range
payload lo size = record { lo = lo; hi = lo + size - 1 }

-- What an accepted payload passed.
pub add_range-adds :
    (heap_lo heap_hi : ℕ) (ranges : List Range) (lo size : ℕ) {ranges' : List Range}
    → add_range heap_lo heap_hi ranges lo size ≡ adds ranges'
    → (ranges' ≡ payload lo size ∷ ranges)
      × (IsPlaced heap_lo heap_hi (payload lo size)
          × (overlaps_any ranges lo (lo + size - 1) ≡ false))
unfolding add_range outside_heap
add_range-adds heap_lo heap_hi ranges lo size h = ground arith

overlaps_any-AllDisjoint :
    (r : Range) (ranges : List Range)
    → r.lo ≤ r.hi
    → AreRanges ranges
    → NoneInside r ranges
    → overlaps_any ranges r.lo r.hi ≡ false
    → AllDisjoint r ranges
unfolding overlaps_any overlaps_one
overlaps_any-AllDisjoint r [] le are none h = tt
overlaps_any-AllDisjoint r (p ∷ ps) le (le', are) (out, none) h =
    ground (arith, overlaps_any-AllDisjoint r ps le are none)

-- If the recorded payloads are pairwise disjoint and none stands strictly between the first and
-- the last byte of the new one, add_range accepts it only if it is aligned and lies in the heap,
-- and the payloads are then pairwise disjoint.
pub add_range-PairwiseDisjoint :
    (heap_lo heap_hi : ℕ) (ranges : List Range) (lo size : ℕ) {ranges' : List Range}
    → PairwiseDisjoint ranges
    → AreRanges ranges
    → NoneInside (payload lo size) ranges
    → add_range heap_lo heap_hi ranges lo size ≡ adds ranges'
    → IsPlaced heap_lo heap_hi (payload lo size) × PairwiseDisjoint ranges'
add_range-PairwiseDisjoint heap_lo heap_hi ranges lo size apart are none h =
    let (e, (placed, free)) = add_range-adds heap_lo heap_hi ranges lo size h in
    (
      placed,
      rw e (overlaps_any-AllDisjoint (payload lo size) ranges placed.ordered are none free, apart),
    )

abbrev pub AllInside : Range → List Range → Type 0
AllInside r [] = Unit
AllInside r (p ∷ ps) = (Inside r p × (p.lo ≤ p.hi)) × AllInside r ps

overlaps_any-AllInside :
    (r : Range) (ranges : List Range) → AllInside r ranges → overlaps_any ranges r.lo r.hi ≡ false
unfolding overlaps_any overlaps_one
overlaps_any-AllInside r [] h = refl
overlaps_any-AllInside r (p ∷ ps) h = ground (arith, overlaps_any-AllInside r ps h.1)

-- add_range accepts an aligned payload of positive size in the heap that has every recorded
-- payload strictly between its first and its last byte.
pub add_range_misses :
    (heap_lo heap_hi : ℕ) (ranges : List Range) (lo size : ℕ)
    → IsPlaced heap_lo heap_hi (payload lo size)
    → 0 < size
    → AllInside (payload lo size) ranges
    → add_range heap_lo heap_hi ranges lo size ≡ adds (payload lo size ∷ ranges)
unfolding add_range outside_heap
add_range_misses heap_lo heap_hi ranges lo size placed pos inside =
    let free : overlaps_any ranges lo (lo + size - 1) ≡ false =
      overlaps_any-AllInside (payload lo size) ranges inside in
    ground arith
