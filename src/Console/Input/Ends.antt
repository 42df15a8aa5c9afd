-- ===== src/Console/Input/Ends.antt =====
-- The loop of `run_console` in LAB0_cprogramminglab/console.c comes to an end.
use mathlib.Core.Path.{subst}
use cmu_15_213_intro_to_comp.Prelude.{
  ℕ, zero, suc, ◌+◌, ◌-◌, ◌≤◌, ◌<◌, ◌≡◌, ◌≢◌, refl, Bool, true, false, not, ◌&&◌, ◌||◌, Option,
  none, some, List, [], ◌∷◌, ◌==◌, if◌then◌else◌, arith, Bool-cases, inl, inr, ◌⊎◌,
}
use cmu_15_213_intro_to_comp.Console.{Buffer, Console, Outside}
use cmu_15_213_intro_to_comp.Console.Args.{parse_args}
use cmu_15_213_intro_to_comp.Console.Input.{
  readline, cmd_done, read_ready, Ran, ran, faults, unfinished, interpreted, interpret_cmd,
  run_read, run_next, and_then, run_ready, after_select, cmd_select, run_selects,
}
use cmu_15_213_intro_to_comp.Console.Input.Settled.{
  to_read, readline_falls, interpret_cmda-Settled, and_right,
}

module _ {W : Type 0} (o : Outside W) (closed : (fname : List ℕ) → o.open_file fname ≡ none) where
  -- The run ends, by a fault or with no more to read than the bound and with the console blocked only
  -- if it was.
  abbrev pub EndsBelow : (bound : ℕ) → (block : Bool) → Ran W → Type 0
  EndsBelow bound block (ran result c w) = (to_read c.buf_stack ≤ bound) × (c.block_flag ≡ block)
  EndsBelow bound block faults = Unit
  EndsBelow bound block unfinished = ⊥

  interpreted-Ends :
      (c : Console) (w : W) (argv : Option (List (List ℕ)))
      → EndsBelow (to_read c.buf_stack) c.block_flag (interpreted o c w argv)
  interpreted-Ends c w none = tt
  interpreted-Ends c w (some argv) =
      let s = interpret_cmda-Settled o closed argv c w in (s.no_more, s.no_block)

  interpret_cmd-Ends :
      (line : List ℕ) (c : Console) (w : W)
      → EndsBelow (to_read c.buf_stack) c.block_flag (interpret_cmd o line c w)
  unfolding interpret_cmd
  interpret_cmd-Ends line c w =
      elim c.quit_flag
        as (λ b.
          EndsBelow (to_read c.buf_stack) c.block_flag
            (if b then ran false c w else interpreted o c w (parse_args line))) [
              | true ↦ (omega arith, refl)
              | false ↦ interpreted-Ends c w (parse_args line)
            ]

  run_read-Ends :
      (c : Console) (w : W) (r : Option (List ℕ) × List Buffer)
      → EndsBelow (to_read r.1) c.block_flag (run_read o c w r)
  run_read-Ends c w (none, stack) = (omega arith, refl)
  run_read-Ends c w (some line, stack) = interpret_cmd-Ends line (record c { buf_stack = stack }) w

  EndsBelow-le :
      (bound bound' : ℕ) (block : Bool) (r : Ran W)
      → bound ≤ bound'
      → EndsBelow bound block r
      → EndsBelow bound' block r
  EndsBelow-le bound bound' block (ran result c w) le h = (omega arith, h.1)
  EndsBelow-le bound bound' block faults le h = tt
  EndsBelow-le bound bound' block unfinished le h = h

  readline_below :
      (stack : List Buffer) → stack ≢ [] → suc (to_read (readline stack).1) ≤ to_read stack
  readline_below [] some_file = absurd (some_file refl)
  readline_below (b ∷ below) some_file = omega (arith, readline_falls b below)

  -- A line takes something off an open file.
  run_next-Ends :
      (c : Console) (w : W) (k : ℕ)
      → c.buf_stack ≢ []
      → to_read c.buf_stack ≤ suc k
      → EndsBelow k c.block_flag (run_next o c w)
  unfolding run_next
  run_next-Ends c w k some_file le =
      EndsBelow-le (to_read (readline c.buf_stack).1) k c.block_flag _
        (omega (arith, readline_below c.buf_stack some_file))
        (run_read-Ends c w (readline c.buf_stack))

  and_then-Ends :
      (k k' : ℕ) (block : Bool) (r : Ran W) (rest : Console → W → Ran W)
      → EndsBelow k block r
      → ((c : Console) (w : W)
          → to_read c.buf_stack ≤ k
          → c.block_flag ≡ block
          → EndsBelow k' block (rest c w))
      → EndsBelow k' block (and_then o r rest)
  and_then-Ends k k' block (ran result c w) rest h next = next c w h.0 h.1
  and_then-Ends k k' block faults rest h next = tt
  and_then-Ends k k' block unfinished rest h next = h

  ready-ne-nil : (stack : List Buffer) → read_ready stack ≡ true → stack ≢ []
  unfolding read_ready
  ready-ne-nil [] h e = cc h
  ready-ne-nil (b ∷ below) h e = cc e

  nil-to_read : (stack : List Buffer) → stack ≢ [] → 0 < to_read stack
  nil-to_read [] h = absurd (h refl)
  nil-to_read (b ∷ below) h = omega arith

  run_ready-Ends :
      (n : ℕ) (c : Console) (w : W) (k : ℕ) (block : Bool)
      → to_read c.buf_stack ≤ k
      → k < n
      → c.block_flag ≡ block
      → EndsBelow k block (run_ready o n c w)
  unfolding run_ready
  run_ready-Ends zero c w k block le fuel e = absurd (omega arith)
  run_ready-Ends (suc n) c w k block le fuel e =
      elim (Bool-cases (not c.block_flag && read_ready c.buf_stack)) [
        | inl g ↦
            let some_file = ready-ne-nil c.buf_stack (and_right (not c.block_flag) _ g) in
            let some_left = nil-to_read c.buf_stack some_file in
            rw g (
              and_then-Ends (k - 1) k block (run_next o c w) (run_ready o n)
                (subst (λ b. EndsBelow (k - 1) b (run_next o c w)) e
                  (run_next-Ends c w (k - 1) some_file (omega arith)))
                (λ c' w' le' e'.
                  EndsBelow-le (k - 1) k block _ (omega arith)
                    (run_ready-Ends n c' w' (k - 1) block le' (omega arith) e')))
        | inr g ↦ rw g (le, e)
      ]

  -- The run ends below the bound or with the commands done, and the console is not blocked.
  abbrev pub Progresses : (bound : ℕ) → Ran W → Type 0
  Progresses bound (ran result c w) =
      ((to_read c.buf_stack ≤ bound) ⊎ (cmd_done c ≡ true)) × (c.block_flag ≡ false)
  Progresses bound faults = Unit
  Progresses bound unfinished = ⊥

  EndsBelow-Progresses : (k : ℕ) (r : Ran W) → EndsBelow k false r → Progresses k r
  EndsBelow-Progresses k (ran result c w) h = (inl h.0, h.1)
  EndsBelow-Progresses k faults h = tt
  EndsBelow-Progresses k unfinished h = h

  not_done : (c : Console) → cmd_done c ≡ false → c.buf_stack ≢ []
  unfolding cmd_done
  not_done c h e = cc (h, e)

  if-Progresses :
      (k : ℕ) (done block : Bool) (r r' : Ran W)
      → block ≡ false
      → (done ≡ true → Progresses k r)
      → (done ≡ false → Progresses k r')
      → Progresses k (if done || block then r else r')
  if-Progresses k true block r r' e h h' = h refl
  if-Progresses k false true r r' e h h' = absurd (cc e)
  if-Progresses k false false r r' e h h' = h' refl

  -- What a round is sure to take off.
  abbrev pub taken : Bool → ℕ
  taken true = 1
  taken false = 0

  after_select-Progresses :
      (readable : Bool) (c : Console) (w : W) (k : ℕ)
      → to_read c.buf_stack ≤ taken readable + k
      → c.block_flag ≡ false
      → cmd_done c ≡ false
      → Progresses k (after_select o readable c w)
  after_select-Progresses false c w k le e more = (inl (omega arith), e)
  after_select-Progresses true c w k le e more = EndsBelow-Progresses k (run_next o c w) (
      subst (λ b. EndsBelow k b (run_next o c w)) e
        (run_next-Ends c w k (not_done c more) (omega arith)))

  cmd_select_after :
      (readable : Bool) (c : Console) (w : W) (k : ℕ)
      → to_read c.buf_stack ≤ taken readable + k
      → c.block_flag ≡ false
      → Progresses k
          (if cmd_done c || c.block_flag then ran true c w else after_select o readable c w)
  cmd_select_after readable c w k le e =
      if-Progresses k (cmd_done c) c.block_flag (ran true c w) (after_select o readable c w) e
        (λ done. (inr done, e)) (after_select-Progresses readable c w k le e)

  and_then-Progresses :
      (k k' : ℕ) (r : Ran W) (rest : Console → W → Ran W)
      → EndsBelow k false r
      → ((c : Console) (w : W)
          → to_read c.buf_stack ≤ k
          → c.block_flag ≡ false
          → Progresses k' (rest c w))
      → Progresses k' (and_then o r rest)
  and_then-Progresses k k' (ran result c w) rest h next = next c w h.0 h.1
  and_then-Progresses k k' faults rest h next = tt
  and_then-Progresses k k' unfinished rest h next = h

  cmd_select-Progresses :
      (n : ℕ) (readable : Bool) (c : Console) (w : W) (k : ℕ)
      → to_read c.buf_stack ≤ taken readable + k
      → taken readable + k < n
      → c.block_flag ≡ false
      → Progresses k (cmd_select o n readable c w)
  unfolding cmd_select
  cmd_select-Progresses n readable c w k le fuel e =
      and_then-Progresses (taken readable + k) k (run_ready o n c w) _
        (run_ready-Ends n c w (taken readable + k) false le fuel e)
        (λ c' w' le' e'. cmd_select_after readable c' w' k le' e')

  -- The commands are done, or reading a command has faulted.
  abbrev pub IsDone : Ran W → Type 0
  IsDone (ran result c w) = (cmd_done c ≡ true) × (result ≡ (c.err_cnt == 0))
  IsDone faults = Unit
  IsDone unfinished = ⊥

  run_selects-IsDone_now :
      (n : ℕ) (selects : List Bool) (c : Console) (w : W)
      → cmd_done c ≡ true
      → IsDone (run_selects o n selects c w)
  unfolding run_selects
  run_selects-IsDone_now n [] c w h = rw h (h, refl)
  run_selects-IsDone_now n (readable ∷ selects) c w h = rw h (h, refl)

  run_selects_next :
      (n k : ℕ) (selects : List Bool) (r : Ran W)
      → Progresses k r
      → ((c : Console) (w : W)
          → to_read c.buf_stack ≤ k
          → c.block_flag ≡ false
          → IsDone (run_selects o n selects c w))
      → IsDone (and_then o r (run_selects o n selects))
  run_selects_next n k selects (ran result c w) (inl le, e) next = next c w le e
  run_selects_next n k selects (ran result c w) (inr done, e) next =
      run_selects-IsDone_now n selects c w done
  run_selects_next n k selects faults h next = tt
  run_selects_next n k selects unfinished h next = h

  -- The rounds in which `select` reports input.
  abbrev pub readable_rounds : List Bool → ℕ
  readable_rounds [] = 0
  readable_rounds (readable ∷ selects) = taken readable + readable_rounds selects

  run_selects-IsDone :
      (n : ℕ) (selects : List Bool) (c : Console) (w : W) (k : ℕ)
      → to_read c.buf_stack ≤ k
      → k ≤ readable_rounds selects
      → readable_rounds selects < n
      → c.block_flag ≡ false
      → IsDone (run_selects o n selects c w)
  unfolding run_selects
  run_selects-IsDone n [] c w k le rounds fuel e = elim (Bool-cases (cmd_done c)) [
    | inl done ↦ rw done (done, refl)
    | inr more ↦ let some_left = nil-to_read c.buf_stack (not_done c more) in absurd (omega arith)
  ]
  run_selects-IsDone n (readable ∷ selects) c w k le rounds fuel e =
      elim (Bool-cases (cmd_done c)) [
        | inl done ↦ rw done (done, refl)
        | inr more ↦ rw more (
            run_selects_next n (readable_rounds selects) selects (cmd_select o n readable c w)
              (cmd_select-Progresses n readable c w (readable_rounds selects) (omega arith)
                (omega arith) e)
              (λ c' w' le' e'.
                run_selects-IsDone n selects c' w' (readable_rounds selects) le' (omega arith)
                  (omega arith) e'))
      ]

  -- If no further file can be opened and the console is not blocked, the loop of run_console
  -- ends with the commands done, or by a fault of parse_args, once select has reported input in
  -- as many rounds as there are characters to read and open files, however many rounds lie
  -- between them in which select fails or is interrupted, if the inner loop has more rounds than
  -- select reports.
  pub run_selects_ends :
      (n : ℕ) (selects : List Bool) (c : Console) (w : W)
      → to_read c.buf_stack ≤ readable_rounds selects
      → readable_rounds selects < n
      → c.block_flag ≡ false
      → IsDone (run_selects o n selects c w)
  run_selects_ends n selects c w rounds fuel e =
      run_selects-IsDone n selects c w (to_read c.buf_stack) (omega arith) rounds fuel e
