-- ===== src/Console/Input.antt =====
-- The input of LAB0_cprogramminglab/console.c: the stack of files, lines, and the loop over commands.
pub mod Lines
pub mod Settled
pub mod Ends
use cmu_15_213_intro_to_comp.Prelude.{
  ℕ, zero, suc, ◌-◌, Bool, true, false, not, ◌&&◌, ◌||◌, Option, none, some, List, [], ◌∷◌, ◌++◌,
  ◌==◌, if◌then◌else◌,
}
use cmu_15_213_intro_to_comp.Console.{
  Buffer, Console, Outside, interpret_cmda, push_file, do_quit_cmd,
}
use cmu_15_213_intro_to_comp.Console.Args.{parse_args}

abbrev pub rio_bufsize : ℕ
rio_bufsize = 8192

abbrev pub end_of_file : (line : List ℕ) → Option (List ℕ)
end_of_file [] = none
end_of_file (c ∷ cs) = some (c ∷ cs ++ b'\n' ∷ [])

-- The loop of `readline`, with the rounds that are left and the line so far, over the top of the
-- stack, which is popped at the end of its file.
unfoldable pub read_line :
    ℕ
    → (line unread : List ℕ) → (input : List (List ℕ)) → (below : List Buffer)
    → Option (List ℕ) × List Buffer
read_line zero line unread input below =
    (some (line ++ b'\n' ∷ []), record { unread = unread; input = input } ∷ below)
read_line (suc n) line (c ∷ cs) input below =
    let rest = read_line n (line ++ c ∷ []) cs input below in
    if c == b'\n'
    then (some (line ++ c ∷ []), record { unread = cs; input = input } ∷ below)
    else rest
read_line (suc n) line [] ((c ∷ cs) ∷ input) below =
    let rest = read_line n (line ++ c ∷ []) cs input below in
    if c == b'\n'
    then (some (line ++ c ∷ []), record { unread = cs; input = input } ∷ below)
    else rest
read_line (suc n) line [] ([] ∷ input) below = (end_of_file line, below)
read_line (suc n) line [] [] below = (end_of_file line, below)

unfoldable pub readline : (buf_stack : List Buffer) → Option (List ℕ) × List Buffer
readline [] = (none, [])
readline (b ∷ below) = read_line (rio_bufsize - 2) [] b.unread b.input below

abbrev pub pop_file : List Buffer → List Buffer
pop_file [] = []
pop_file (b ∷ below) = below

abbrev pub has_newline : List ℕ → Bool
has_newline [] = false
has_newline (c ∷ cs) = c == b'\n' || has_newline cs

unfoldable pub read_ready : (buf_stack : List Buffer) → Bool
read_ready [] = false
read_ready (b ∷ below) = has_newline b.unread

unfoldable pub cmd_done : Console → Bool
cmd_done c = not (elim c.buf_stack [ [] ↦ false | _ ∷ _ ↦ true ]) || c.quit_flag

abbrev pub block_console : Console → Console
block_console c = record c { block_flag = true }

abbrev pub unblock_console : Console → Console
unblock_console c = record c { block_flag = false; block_timing = false }

-- `faults` is a read of what `parse_args` did not write, `unfinished` a loop without rounds left.
pub data Ran (W : Type 0) : Type 0 where
  ran : (result : Bool) → Console → W → Ran W
  faults unfinished : Ran W

module _ {W : Type 0} (o : Outside W) where
  abbrev pub interpreted : Console → W → Option (List (List ℕ)) → Ran W
  interpreted c w none = faults
  interpreted c w (some argv) = let (ok, (c', w')) = interpret_cmda o argv c w in ran ok c' w'

  unfoldable pub interpret_cmd : (cmdline : List ℕ) → Console → W → Ran W
  interpret_cmd cmdline c w =
      if c.quit_flag then ran false c w else interpreted c w (parse_args cmdline)

  abbrev pub run_read : Console → W → Option (List ℕ) × List Buffer → Ran W
  run_read c w (none, stack) = ran true (record c { buf_stack = stack }) w
  run_read c w (some cmdline, stack) = interpret_cmd cmdline (record c { buf_stack = stack }) w

  -- A line of the input is read, and interpreted if there is one.
  unfoldable pub run_next : Console → W → Ran W
  run_next c w = run_read c w (readline c.buf_stack)

  abbrev pub and_then : Ran W → (Console → W → Ran W) → Ran W
  and_then (ran result c w) rest = rest c w
  and_then faults rest = faults
  and_then unfinished rest = unfinished

  -- The lines that stand in the buffer whole.
  unfoldable pub run_ready : ℕ → Console → W → Ran W
  run_ready zero c w = unfinished
  run_ready (suc n) c w =
      let rest = and_then (run_next c w) (run_ready n) in
      if not c.block_flag && read_ready c.buf_stack then rest else ran true c w

  -- Behind `select`: whether it returned a positive number with the input in the set. It may also
  -- be interrupted or fail.
  abbrev pub after_select : (readable : Bool) → Console → W → Ran W
  after_select true c w = run_next c w
  after_select false c w = ran true c w

  -- `cmd_select` without network sockets.
  unfoldable pub cmd_select : ℕ → (readable : Bool) → Console → W → Ran W
  cmd_select n readable c w =
      and_then (run_ready n c w) λ c' w'.
        if cmd_done c' || c'.block_flag then ran true c' w' else after_select readable c' w'

  -- The loop, with what `select` reports in each of its rounds, and the rounds of the inner loop.
  unfoldable pub run_selects : ℕ → (selects : List Bool) → Console → W → Ran W
  run_selects n [] c w = if cmd_done c then ran (c.err_cnt == 0) c w else unfinished
  run_selects n (readable ∷ selects) c w =
      let rest = and_then (cmd_select n readable c w) (run_selects n selects) in
      if cmd_done c then ran (c.err_cnt == 0) c w else rest

  unfoldable pub run_console :
      ℕ → (selects : List Bool) → (infile_name : List ℕ) → Console → W → Ran W
  run_console n selects infile_name c w =
      let (ok, c') = push_file o infile_name c in
      if ok then run_selects n selects c' w else ran false c w

  unfoldable pub finish_cmd : Console → W → Ran W
  finish_cmd c w =
      let (ok, (c', w')) = do_quit_cmd o [] c w in
      if c.quit_flag then ran (c.err_cnt == 0) c w else ran (ok && c.err_cnt == 0) c' w'
