-- ===== src/Harness/Settles.antt =====
-- A program under test frees all its blocks through LAB0_cprogramminglab/harness.c.
use cmu_15_213_intro_to_comp.Prelude.{
  ℕ, ◌+◌, ◌≡◌, refl, ap, sym, ◌∙◌, Bool, true, false, ◌||◌, not, ◌==◌, List, [], ◌∷◌, ◌++◌,
}
use cmu_15_213_intro_to_comp.Harness.{
  Body, Harness, Act, done, pure, ◌>>◌, >>=-done, header_bytes, magic_footer, test_free,
  allocation_check,
}
use cmu_15_213_intro_to_comp.Harness.Chain.{Cells, IsHarness}
use cmu_15_213_intro_to_comp.Harness.Free.{test_free-IsHarness}

-- Calls of test_free, one after the other.
abbrev pub free_all : List ℕ → Act (Unit {0})
free_all [] = pure tt
free_all (p ∷ ps) = test_free p >> free_all ps

-- The payloads of the blocks, each once, in any order.
pub data IsOrder : Cells → List ℕ → Type 0 where
  no_block : IsOrder [] []
  next_block :
      (front : Cells) (a : ℕ) (b : Body) (back : Cells) (ps : List ℕ)
      → IsOrder (front ++ back) ps
      → IsOrder (front ++ (a, b) ∷ back) ((a + header_bytes) ∷ ps)

abbrev pub is_damaged : Body → Bool
is_damaged b = not (b.footer == magic_footer)

abbrev pub any_damaged : Cells → Bool
any_damaged [] = false
any_damaged ((a, b) ∷ xs) = is_damaged b || any_damaged xs

or_swap : (x y z : Bool) → ((x || (y || z))) ≡ (y || (x || z))
or_swap true true z = refl
or_swap true false z = refl
or_swap false y z = refl

or_assoc : (x y z : Bool) → ((x || y) || z) ≡ (x || (y || z))
or_assoc true y z = refl
or_assoc false y z = refl

any_damaged-middle :
    (front : Cells) (a : ℕ) (b : Body) (back : Cells)
    → any_damaged (front ++ (a, b) ∷ back) ≡ (is_damaged b || any_damaged (front ++ back))
any_damaged-middle [] a b back = refl
any_damaged-middle ((f, g) ∷ front) a b back =
    ap (λ x. is_damaged g || x) (any_damaged-middle front a b back)
    ∙ or_swap (is_damaged g) (is_damaged b) (any_damaged (front ++ back))

or_no : (b : Bool) → b ≡ (b || false)
or_no true = refl
or_no false = refl

-- from a well-formed harness that allows frees, calls of test_free for the payloads of all the
-- blocks, each once and in any order, all return, allocation_check is then 0, and the error flag
-- is raised exactly if it was before or the footer of some block is damaged.
pub free_all-settles :
    (xs : Cells) (ps : List ℕ) (s : Harness)
    → IsOrder xs ps
    → IsHarness s xs
    → s.noallocate_mode ≡ false
    → (s' : Harness) × (free_all ps s ≡ done tt s')
      × (allocation_check s' ≡ done 0 s')
      × IsHarness s' []
      × (s'.error_occurred ≡ (s.error_occurred || any_damaged xs))
unfolding allocation_check
free_all-settles _ _ s no_block inv allowed =
    (s, refl, ap (λ n. done n s) inv.count, inv, or_no s.error_occurred)
free_all-settles _ _ s (next_block front a b back ps order) inv allowed =
    let (s1, e1, inv1, noted1, allowed1) = test_free-IsHarness a b front back s inv allowed in
    let (s', e', count, inv', noted) =
      free_all-settles (front ++ back) ps s1 order inv1 (allowed1 ∙ allowed) in
    (
      s',
      >>=-done (test_free (a + header_bytes)) (λ _. free_all ps) s s1 tt e1 ∙ e',
      count,
      inv',
      noted
          ∙ ap (λ x. x || any_damaged (front ++ back)) noted1
          ∙ or_assoc s.error_occurred (is_damaged b) (any_damaged (front ++ back))
          ∙ ap (λ x. s.error_occurred || x) (sym (any_damaged-middle front a b back)),
    )
