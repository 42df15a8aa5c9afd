-- ===== src/Harness/Unlink.antt =====
-- A block is taken out of the list of LAB0_cprogramminglab/harness.c: what the two writes of
-- `test_free` must leave for the other blocks to be linked.
use cmu_15_213_intro_to_comp.Prelude.{ℕ, ◌≡◌, ◌≢◌, sym, ◌∙◌, some, [], ◌∷◌, ◌++◌}
use cmu_15_213_intro_to_comp.Harness.{Body, Memory}
use cmu_15_213_intro_to_comp.Harness.Chain.{
  Cells, block, first, last, Away, Chain, Same, Chain-Same, Away-middle,
}

-- The memories differ at the block `a`, at its neighbours `q` and `n` and nowhere else; its
-- neighbours are linked to each other.
pub record Unlinks (m m' : Memory) (a q n : ℕ) : Type 0 where
  pub others : (x : ℕ) → x ≢ a → x ≢ q → x ≢ n → m' x ≡ m x
  pub before :
      (next prev : ℕ) (b : Body)
      → q ≢ 0
      → m q ≡ some (block next prev b)
      → m' q ≡ some (block n prev b)
  pub after :
      (next prev : ℕ) (b : Body)
      → n ≢ 0
      → m n ≡ some (block next prev b)
      → m' n ≡ some (block next q b)

-- The address of a block is not that of the first of the blocks behind it.
pub first-Away : (x : ℕ) (xs : Cells) → x ≢ 0 → Away x xs → x ≢ first xs
first-Away x [] ne w = ne
first-Away x ((n, d) ∷ xs) ne w = λ e. w.0 (sym e)

module _ (m m' : Memory) (a : ℕ) (b : Body) where
  Unlinks-Same :
      (q n : ℕ) (xs : Cells) → Unlinks m m' a q n → Away a xs → Away q xs → Away n xs → Same m m' xs
  Unlinks-Same q n [] u wa wq wn = tt
  Unlinks-Same q n ((x, c) ∷ xs) u wa wq wn =
      (u.others x wa.0 wq.0 wn.0, Unlinks-Same q n xs u wa.1 wq.1 wn.1)

  Unlinks-back :
      (q : ℕ) (back : Cells)
      → Unlinks m m' a q (first back)
      → Away a back
      → Away q back
      → Chain m a back
      → Chain m' q back
  Unlinks-back q [] u wa wq c = tt
  Unlinks-back q ((n, d) ∷ xs) u wa wq c = (
    c.0,
    c.1,
    u.after (first xs) a d c.0 c.2,
    c.3,
    Chain-Same m m' n xs (Unlinks-Same q n xs u wa.1 wq.1 c.3) c.4,
  )

  last-Away :
      (x g : ℕ) (c : Body) (front back : Cells)
      → Away x (((g, c) ∷ front) ++ (a, b) ∷ back)
      → x ≢ last g front
  last-Away x g c [] back w = λ e. w.0 (sym e)
  last-Away x g c ((h, d) ∷ front) back w = last-Away x h d front back w.1

  -- The other blocks stay linked.
  pub Chain-Unlinks :
      (p f : ℕ) (c : Body) (front back : Cells)
      → Chain m p (((f, c) ∷ front) ++ (a, b) ∷ back)
      → Unlinks m m' a (last f front) (first back)
      → Chain m' p (((f, c) ∷ front) ++ back)
  Chain-Unlinks p f c [] back ch u =
      (ch.0, ch.1, u.before a p c ch.0 ch.2, ch.3.1, Unlinks-back f back u ch.4.3 ch.3.1 ch.4.4)
  Chain-Unlinks p f c ((g, d) ∷ front) back ch u =
      let (ne, away, rest) = Away-middle f a b ((g, d) ∷ front) back ch.3 in
      (
        ch.0,
        ch.1,
        u.others f (λ e. ne (sym e)) (last-Away f g d front back ch.3) (first-Away f back ch.0 away)
            ∙ ch.2,
        rest,
        Chain-Unlinks f g d front back ch.4 u,
      )

  -- The first block is taken out.
  pub Chain-Unlinks_first :
      (back : Cells)
      → Chain m 0 ((a, b) ∷ back)
      → Away 0 back
      → Unlinks m m' a 0 (first back)
      → Chain m' 0 back
  Chain-Unlinks_first back ch away u = Unlinks-back 0 back u ch.3 away ch.4
