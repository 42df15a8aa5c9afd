-- ===== src/Harness/Alloc.antt =====
-- `allocate_memory` of LAB0_cprogramminglab/harness.c, with test_malloc and test_calloc.
use mathlib.Core.Path.{subst}
use cmu_15_213_intro_to_comp.Prelude.{
  ℕ, ◌+◌, ◌%◌, ◌≤◌, ◌<◌, ◌^◌, ◌≡◌, ◌≢◌, refl, ap, sym, ◌∙◌, Bool, false, true, Option, none, some,
  [], ◌∷◌, ◌==◌, leb, if◌then◌else◌, replicate, arith,
}
use cmu_15_213_intro_to_comp.Harness.{
  Body, BlockEle, Memory, write_cell, Harness, done, ◌>>=◌, store_block, magic_footer, fill_char,
  header_bytes, overhead, push_block, place_new, allocate_memory, allocate_if, pure, >>=-done,
}
use cmu_15_213_intro_to_comp.Harness.Chain.{
  Cells, block, first, Away, Chain, IsHarness, Same, Chain-Same, write_cell_self, write_cell_other,
  load_block_lem,
}

abbrev pub new_body : (size fill : ℕ) → Body
new_body size fill = record {
  payload_size = size;
  payload = replicate size fill;
  footer = magic_footer;
}

Same-write_cell :
    (m : Memory) (a : ℕ) (cell : Option BlockEle) (xs : Cells)
    → Away a xs
    → Same m (write_cell m a cell) xs
Same-write_cell m a cell [] w = tt
Same-write_cell m a cell ((x, b) ∷ xs) w =
    (write_cell_other m a x cell (λ e. w.0 (sym e)), Same-write_cell m a cell xs w.1)

Same-write_cell_twice :
    (m : Memory) (a a' : ℕ) (cell cell' : Option BlockEle) (xs : Cells)
    → Away a xs
    → Away a' xs
    → Same m (write_cell (write_cell m a cell) a' cell') xs
Same-write_cell_twice m a a' cell cell' [] w w' = tt
Same-write_cell_twice m a a' cell cell' ((x, b) ∷ xs) w w' = (
  write_cell_other (write_cell m a cell) a' x cell' (λ e. w'.0 (sym e))
      ∙ write_cell_other m a x cell (λ e. w.0 (sym e)),
  Same-write_cell_twice m a a' cell cell' xs w.1 w'.1,
)

-- The block of push_block, and the variables behind it.
abbrev new_block : Harness → (size fill : ℕ) → Option BlockEle
new_block s size fill = some (block s.allocated 0 (new_body size fill))

abbrev after_push : Harness → Memory → ℕ → Harness
after_push s m b = record s { memory = m; allocated = b; allocated_count = s.allocated_count + 1 }

push_block-IsHarness :
    (s : Harness) (xs : Cells) (b size fill : ℕ)
    → IsHarness s xs
    → b ≢ 0
    → b + overhead ≤ 2 ^ 64
    → Away b xs
    → (s' : Harness) × (push_block b size fill s ≡ done tt s')
      × IsHarness s' ((b, new_body size fill) ∷ xs)
      × (s'.called_malloc ≡ s.called_malloc)
unfolding push_block store_block
push_block-IsHarness s [] b size fill inv ne bound away =
    let new = new_block s size fill in
    let null : (s.allocated == 0) ≡ true = ground (arith, inv.head) in
    (
      after_push s (write_cell s.memory b new) b,
      rw (null, ◌>>=◌) refl,
      record {
        chain = (
          ne,
          bound,
          write_cell_self s.memory b _ ∙ ap (λ n. some (block n 0 (new_body size fill))) inv.head,
          tt,
          tt,
        );
        only = λ x w. write_cell_other s.memory b x _ w.0 ∙ inv.only x tt;
        head = refl;
        count = omega (arith, inv.count);
      },
      refl,
    )
push_block-IsHarness s ((a, g) ∷ xs) b size fill inv ne bound away =
    let new : ℕ → Option BlockEle = λ n. some (block n 0 (new_body size fill)) in
    let old = block (first xs) 0 g in
    let linked = some (block (first xs) b g) in
    let m : ℕ → Memory = λ n. write_cell (write_cell s.memory b (new n)) n linked in
    let other : (s.allocated == 0) ≡ false = ground (arith, inv.head, inv.chain.0) in
    let found : write_cell s.memory b (new s.allocated) s.allocated ≡ some old =
      ap (write_cell s.memory b (new s.allocated)) inv.head
      ∙ write_cell_other s.memory b a _ (λ e. away.0 (sym e))
      ∙ inv.chain.2 in
    let s1 : Harness = record s { memory = write_cell s.memory b (new s.allocated) } in
    (
      after_push s (m s.allocated) b,
      rw
          (
            other,
            ◌>>=◌,
            load_block_lem s1 s.allocated old (λ e. inv.chain.0 (sym inv.head ∙ e)) found,
            ◌>>=◌,
          )
          refl,
      record {
        chain =
            subst (λ n. Chain (m n) 0 ((b, new_body size fill) ∷ (a, g) ∷ xs)) (sym inv.head)
              (
                ne,
                bound,
                write_cell_other (write_cell s.memory b (new a)) a b linked away.0
                    ∙ write_cell_self s.memory b (new a),
                away,
                (
                  inv.chain.0,
                  inv.chain.1,
                  write_cell_self _ a linked,
                  inv.chain.3,
                  Chain-Same s.memory _ a xs
                      (Same-write_cell_twice s.memory b a (new a) linked xs away.1 inv.chain.3)
                      inv.chain.4,
                ),
              );
        only = λ x w.
            subst (λ n. m n x ≡ none) (sym inv.head)
              (write_cell_other _ a x linked w.1.0
                ∙ write_cell_other s.memory b x (new a) w.0
                ∙ inv.only x w.1);
        head = refl;
        count = omega (arith, inv.count);
      },
      refl,
    )

-- If the harness is well formed and allows allocation, random lets it pass, and malloc returns
-- an unused address below 2 ^ 64 less the size of the block, allocate_memory returns the
-- payload, filled with 0x55 or 0, and the harness keeps the new block besides those of before.
pub allocate_memory-IsHarness :
    (malloc : ℕ → ℕ) (size : ℕ) (zero_memory : Bool) (s : Harness) (xs : Cells)
    → IsHarness s xs
    → s.noallocate_mode ≡ false
    → malloc (size + overhead) ≢ 0
    → malloc (size + overhead) + (size + overhead) < 2 ^ 64
    → Away (malloc (size + overhead)) xs
    → (s' : Harness) × (allocate_memory false malloc size zero_memory s
        ≡ done (malloc (size + overhead) + header_bytes) s')
      × IsHarness s'
          ((malloc (size + overhead), new_body size (if zero_memory then 0 else fill_char)) ∷ xs)
      × (s'.called_malloc ≡ true)
unfolding allocate_memory place_new
allocate_memory-IsHarness malloc size zero_memory s xs inv allowed ne bound away =
    let b = malloc (size + overhead) in
    let fill = if zero_memory then 0 else fill_char in
    let s1 : Harness = record s { called_malloc = true } in
    let inv1 : IsHarness s1 xs = record {
      chain = inv.chain;
      only = inv.only;
      head = inv.head;
      count = inv.count;
    } in
    let (s', e, inv', called) = push_block-IsHarness s1 xs b size fill inv1 ne (omega arith) away in
    let fits : (size + overhead) % 2 ^ 64 ≡ size + overhead = omega arith in
    let got : (b == 0) ≡ false = ground arith in
    let small : leb (2 ^ 64) (size + overhead) ≡ false = ground arith in
    (
      s',
      ap (λ c. allocate_if c false (place_new (malloc ((size + overhead) % 2 ^ 64)) size fill) s1)
            allowed
          ∙ rw (fits, got, small)
              (>>=-done (push_block b size fill) (λ _. pure (b + header_bytes)) s1 s' tt e),
      inv',
      called,
    )
