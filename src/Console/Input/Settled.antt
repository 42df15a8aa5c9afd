-- ===== src/Console/Input/Settled.antt =====
-- What reading a line and interpreting a command of LAB0_cprogramminglab/console.c leave to read.
use cmu_15_213_intro_to_comp.Prelude.{
  ℕ, zero, suc, ◌+◌, ◌-◌, ◌≤◌, ◌<◌, ◌≡◌, refl, Bool, true, false, ◌&&◌, Option, none, some, List,
  [], ◌∷◌, ◌++◌, length, arith,
}
use cmu_15_213_intro_to_comp.Prelude.Int.{ℤ}
use cmu_15_213_intro_to_comp.Console.{
  put_value, Operation, help, option, quit, source, log, time, comment, external, Buffer, Console,
  Outside, find_cmd, find_param, record_error, get_int, set_param, continued, set_options,
  push_file, do_quit_cmd, do_source_cmd, run_operation, count_error, interpret_cmda,
}
use cmu_15_213_intro_to_comp.Console.Input.{rio_bufsize, read_line, readline}

-- What is left to read, and the files that are open.
abbrev pub pieces : List (List ℕ) → ℕ
pieces [] = 0
pieces (piece ∷ input) = length piece + pieces input

abbrev pub to_read : List Buffer → ℕ
to_read [] = 0
to_read (b ∷ below) = suc (length b.unread + pieces b.input + to_read below)

read_line-to_read :
    (n : ℕ) (line unread : List ℕ) (input : List (List ℕ)) (below : List Buffer)
    → to_read (read_line n line unread input below).1
      ≤ suc (length unread + pieces input + to_read below)
unfolding read_line
read_line-to_read zero line unread input below = omega arith
read_line-to_read (suc n) line (c ∷ cs) input below =
    ground (arith, read_line-to_read n (line ++ c ∷ []) cs input below)
read_line-to_read (suc n) line [] ((c ∷ cs) ∷ input) below =
    ground (arith, read_line-to_read n (line ++ c ∷ []) cs input below)
read_line-to_read (suc n) line [] ([] ∷ input) below = omega arith
read_line-to_read (suc n) line [] [] below = omega arith

read_line_falls :
    (n : ℕ) (line unread : List ℕ) (input : List (List ℕ)) (below : List Buffer)
    → to_read (read_line (suc n) line unread input below).1
      < suc (length unread + pieces input + to_read below)
unfolding read_line
read_line_falls n line (c ∷ cs) input below =
    ground (arith, read_line-to_read n (line ++ c ∷ []) cs input below)
read_line_falls n line [] ((c ∷ cs) ∷ input) below =
    ground (arith, read_line-to_read n (line ++ c ∷ []) cs input below)
read_line_falls n line [] ([] ∷ input) below = omega arith
read_line_falls n line [] [] below = omega arith

pub readline_falls :
    (b : Buffer) (below : List Buffer) → to_read (readline (b ∷ below)).1 < to_read (b ∷ below)
unfolding readline
readline_falls b below = read_line_falls (rio_bufsize - 3) [] b.unread b.input below

pub and_right : (a b : Bool) → (a && b) ≡ true → b ≡ true
and_right true b h = h
and_right false b h = absurd (cc h)

-- No more to read than before, and the console is blocked only if it was.
pub record Settled (c c' : Console) : Type 0 where
  pub no_more : to_read c'.buf_stack ≤ to_read c.buf_stack
  pub no_block : c'.block_flag ≡ c.block_flag

Settled-refl : (c : Console) → Settled c c
Settled-refl c = record { no_more = omega arith; no_block = refl }

module _ {W : Type 0} (o : Outside W) (closed : (fname : List ℕ) → o.open_file fname ≡ none) where
  set_param-Settled :
      (value : Option ℤ) (valp : Option ℕ) (c : Console) (rest : Console → Bool × Console)
      → ((c' : Console) → Settled c' (rest c').1)
      → Settled c (continued o c rest (set_param o value valp c)).1
  set_param-Settled none valp c rest h = Settled-refl c
  set_param-Settled (some value) none c rest h = Settled-refl c
  set_param-Settled (some value) (some valp) c rest h =
      let k = h (record c { values = put_value c.values valp value }) in
      record { no_more = k.no_more; no_block = k.no_block }

  set_options-Settled : (args : List (List ℕ)) (c : Console) → Settled c (set_options o args c).1
  unfolding set_options
  set_options-Settled [] c = Settled-refl c
  set_options-Settled (name ∷ []) c = Settled-refl c
  set_options-Settled (name ∷ value ∷ args) c =
      set_param-Settled (get_int o value) (find_param name c.param_list) c (set_options o args)
        (set_options-Settled args)

  do_source_cmd-Settled :
      (argv : List (List ℕ)) (c : Console) → Settled c (do_source_cmd o argv c).1
  unfolding push_file
  do_source_cmd-Settled [] c = Settled-refl c
  do_source_cmd-Settled (cmd ∷ []) c = Settled-refl c
  do_source_cmd-Settled (cmd ∷ fname ∷ argv) c = rw (closed fname) (Settled-refl c)

  count_error-Settled :
      (c : Console) (r : Bool × (Console × W)) → Settled c r.1.0 → Settled c (count_error o r).1.0
  unfolding record_error
  count_error-Settled c (true, r) h = h
  count_error-Settled c (false, r) h = record { no_more = h.no_more; no_block = h.no_block }

  run_operation-Settled :
      (argv : List (List ℕ)) (c : Console) (w : W) (op : Option Operation)
      (nested : Bool × (Console × W))
      → Settled c nested.1.0
      → Settled c (run_operation o argv c w op nested).1.0
  unfolding do_quit_cmd
  run_operation-Settled argv c w none nested h = Settled-refl c
  run_operation-Settled argv c w (some help) nested h = Settled-refl c
  run_operation-Settled argv c w (some comment) nested h = Settled-refl c
  run_operation-Settled argv c w (some log) nested h = Settled-refl c
  run_operation-Settled [] c w (some option) nested h = Settled-refl c
  run_operation-Settled (cmd ∷ args) c w (some option) nested h = set_options-Settled args c
  run_operation-Settled argv c w (some source) nested h = do_source_cmd-Settled argv c
  run_operation-Settled argv c w (some quit) nested h = record {
    no_more = omega arith;
    no_block = refl;
  }
  run_operation-Settled argv c w (some (external n)) nested h = Settled-refl c
  run_operation-Settled [] c w (some time) nested h = Settled-refl c
  run_operation-Settled (cmd ∷ []) c w (some time) nested h = Settled-refl c
  run_operation-Settled (cmd ∷ arg ∷ args) c w (some time) nested h = record {
    no_more = h.no_more;
    no_block = h.no_block;
  }

  pub interpret_cmda-Settled :
      (argv : List (List ℕ)) (c : Console) (w : W) → Settled c (interpret_cmda o argv c w).1.0
  unfolding interpret_cmda
  interpret_cmda-Settled [] c w = Settled-refl c
  interpret_cmda-Settled (name ∷ args) c w = count_error-Settled c _ (
      run_operation-Settled (name ∷ args) c w (find_cmd name c.cmd_list) (interpret_cmda o args c w)
        (interpret_cmda-Settled args c w))
