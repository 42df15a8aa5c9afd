-- ===== src/Harness/Search.antt =====
-- `find_header` of LAB0_cprogramminglab/harness.c finds every allocated block.
use cmu_15_213_intro_to_comp.Prelude.{
  ℕ, zero, suc, ◌+◌, ◌≤◌, ◌^◌, ◌≡◌, refl, ap, ◌∙◌, Bool, false, true, [], ◌∷◌, ◌++◌, ◌==◌, length,
  arith,
}
use cmu_15_213_intro_to_comp.Harness.{
  Body, Harness, done, ◌>>=◌, header_bytes, overhead, block_of, find_allocated, check_allocated,
  check_if, when_found, >>=-done, find_header,
}
use cmu_15_213_intro_to_comp.Harness.Chain.{
  Cells, first, Chain, IsHarness, load_block_lem, Chain-middle, Away-middle,
}

-- The search finds an allocated block.
find_allocated-true :
    (n a before : ℕ) (b : Body) (front back : Cells) (s : Harness)
    → Chain s.memory before (front ++ (a, b) ∷ back)
    → length (front ++ (a, b) ∷ back) ≤ n
    → find_allocated n a (first (front ++ (a, b) ∷ back)) s ≡ done true s
unfolding find_allocated
find_allocated-true zero a before b [] back s c fuel = absurd (omega arith)
find_allocated-true zero a before b (f ∷ front) back s c fuel = absurd (omega arith)
find_allocated-true (suc n) a before b [] back s c fuel =
    let ok : (a == 0) ≡ false = ground (arith, c.0) in
    let same : (a == a) ≡ true = ground arith in rw (ok, load_block_lem s a _ c.0 c.2, ◌>>=◌, same)
find_allocated-true (suc n) a before b ((f, g) ∷ front) back s c fuel =
    let ok : (f == 0) ≡ false = ground (arith, c.0) in
    let other : (f == a) ≡ false = ground (arith, (Away-middle f a b front back c.3).0) in
    rw (ok, load_block_lem s f _ c.0 c.2, ◌>>=◌, other)
      (find_allocated-true n a f b front back s c.4 (omega arith))

pub block_of-payload : (a : ℕ) → a + overhead ≤ 2 ^ 64 → block_of (a + header_bytes) ≡ a
unfolding block_of
block_of-payload a bound = omega arith

pub find_header-middle :
    (a : ℕ) (b : Body) (front back : Cells) (s : Harness)
    → IsHarness s (front ++ (a, b) ∷ back)
    → find_header (a + header_bytes) s ≡ done a s
unfolding find_header check_allocated
find_header-middle a b front back s inv =
    let (ne, bound, here, _, _) = Chain-middle s.memory 0 a b front back inv.chain in
    let some_p : (a + header_bytes == 0) ≡ false = ground arith in
    rw
      (
        some_p,
        ◌>>=◌,
        block_of-payload a bound,
        checked s.cautious_mode,
        ◌>>=◌,
        block_of-payload a bound,
        load_block_lem s a _ ne here,
      )
      (ap (λ x. done x s) (block_of-payload a bound))
  where
    checked : (cautious : Bool) → check_if cautious a s ≡ done tt s
    checked true =
        let search : find_allocated s.allocated_count a s.allocated s ≡ done true s =
          ap (λ h. find_allocated s.allocated_count a h s) inv.head
          ∙ (find_allocated-true s.allocated_count a 0 b front back s inv.chain
              (omega (arith, inv.count))) in
        >>=-done (find_allocated s.allocated_count a s.allocated) when_found s s true search
    checked false = refl
