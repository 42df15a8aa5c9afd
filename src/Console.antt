-- ===== src/Console.antt =====
-- LAB0_cprogramminglab/console.c: the lists of commands and options, and the interpreter of command
-- lines. What `report` prints is left out.
pub mod Args
pub mod Lists
pub mod Input
mod Tests
use cmu_15_213_intro_to_comp.Prelude.{
  ℕ, zero, suc, ◌+◌, ◌-◌, ◌%◌, ◌^◌, Bool, true, false, not, ◌&&◌, ◌||◌, Option, none, some, List,
  [], ◌∷◌, ◌++◌, ltb, leb, ◌==◌, if◌then◌else◌, length,
}
use cmu_15_213_intro_to_comp.Prelude.Int.{ℤ, pos, negsuc}
use cmu_15_213_intro_to_comp.Shell.Control.{same_text}
use cmu_15_213_intro_to_comp.Texts.{codes}

-- A pointer to a function: one of console.c, or another by its number.
pub data Operation : Type 0 where
  help option quit source log time comment : Operation
  external : ℕ → Operation

pub record Command : Type 0 where
  pub name : List ℕ
  pub operation : Operation

-- `valp` is the place of the option's value. Every option has a NULL setter.
pub record Param : Type 0 where
  pub name : List ℕ
  pub valp : ℕ

-- The characters that stand in the buffer, and what the next calls of `read` give; nothing, or an
-- empty piece, is the end of the file.
pub record Buffer : Type 0 where
  pub unread : List ℕ
  pub input : List (List ℕ)

pub record Console : Type 0 where
  pub cmd_list : List Command
  pub param_list : List Param
  pub values : ℕ → ℤ
  pub err_cnt : ℕ
  pub quit_flag : Bool
  pub block_flag : Bool
  pub block_timing : Bool
  pub buf_stack : List Buffer
  pub quit_helpers : List ℕ

-- The places of `verblevel`, `err_limit` and `echo`.
abbrev pub verblevel : ℕ
verblevel = 0

abbrev pub err_limit : ℕ
err_limit = 1

abbrev pub echo : ℕ
echo = 2

-- `strcmp(s, t) < 0`
unfoldable pub text_lt : List ℕ → List ℕ → Bool
text_lt [] [] = false
text_lt [] (d ∷ ds) = true
text_lt (c ∷ cs) [] = false
text_lt (c ∷ cs) (d ∷ ds) = ltb c d || (c == d && text_lt cs ds)

unfoldable pub add_cmd : (name : List ℕ) → Operation → List Command → List Command
add_cmd name operation [] = record { name = name; operation = operation } ∷ []
add_cmd name operation (c ∷ cs) =
    if text_lt c.name name
    then c ∷ add_cmd name operation cs
    else record { name = name; operation = operation } ∷ c ∷ cs

unfoldable pub add_param : (name : List ℕ) → (valp : ℕ) → List Param → List Param
add_param name valp [] = record { name = name; valp = valp } ∷ []
add_param name valp (p ∷ ps) =
    if text_lt p.name name
    then p ∷ add_param name valp ps
    else record { name = name; valp = valp } ∷ p ∷ ps

unfoldable pub init_cmd : Console → Console
init_cmd c = record c {
  cmd_list = add_cmd (codes "#") comment (
      add_cmd (codes "time") time (
        add_cmd (codes "log") log (
          add_cmd (codes "source") source (
            add_cmd (codes "quit") quit
              (add_cmd (codes "option") option (add_cmd (codes "help") help []))))));
  param_list =
      add_param (codes "echo") echo
        (add_param (codes "error") err_limit (add_param (codes "verbose") verblevel []));
  err_cnt = 0;
  quit_flag = false;
  buf_stack = [];
}

-- `while (next_cmd && strcmp(argv[0], next_cmd->name) != 0)`
unfoldable pub find_cmd : (name : List ℕ) → List Command → Option Operation
find_cmd name [] = none
find_cmd name (c ∷ cs) = if same_text name c.name then some c.operation else find_cmd name cs

unfoldable pub find_param : (name : List ℕ) → List Param → Option ℕ
find_param name [] = none
find_param name (p ∷ ps) = if same_text p.name name then some p.valp else find_param name ps

-- `n >= limit`
unfoldable pub reaches : (n : ℕ) → (limit : ℤ) → Bool
reaches n (pos l) = leb l n
reaches n (negsuc l) = true

unfoldable pub record_error : Console → Console
record_error c = record c {
  err_cnt = c.err_cnt + 1;
  quit_flag = c.quit_flag || reaches (c.err_cnt + 1) (c.values err_limit);
}

abbrev pub max_quit : ℕ
max_quit = 10

unfoldable pub add_quit_helper : (qf : ℕ) → Console → Console
add_quit_helper qf c =
    if ltb (length c.quit_helpers) max_quit
    then record c { quit_helpers = c.quit_helpers ++ qf ∷ [] }
    else c

-- `(int) v` of a `long`.
unfoldable pub int_of : ℤ → ℤ
int_of v =
    let m : ℕ = elim v [ pos n ↦ n % 2 ^ 32 | negsuc n ↦ 2 ^ 32 - 1 - n % 2 ^ 32 ] in
    if ltb m (2 ^ 31) then pos m else negsuc (2 ^ 32 - 1 - m)

-- `LONG_MIN`
abbrev pub is_long_min : ℤ → Bool
is_long_min (pos n) = false
is_long_min (negsuc n) = n == 2 ^ 63 - 1

abbrev pub put_value : (ℕ → ℤ) → ℕ → ℤ → ℕ → ℤ
put_value values p v q = if p == q then v else values q

-- What the console calls: `strtol` in base 0 with the text that it leaves, the files, and the other
-- commands and the helpers at the end, which change the rest of the program.
pub record Outside (W : Type 0) : Type 0 where
  pub strtol : List ℕ → ℤ × List ℕ
  pub open_file : (fname : List ℕ) → Option (List (List ℕ))
  pub set_logfile : (fname : List ℕ) → Bool
  pub call : ℕ → (argv : List (List ℕ)) → W → Bool × W

module _ {W : Type 0} (o : Outside W) where
  abbrev pub int_value : ℤ × List ℕ → Option ℤ
  int_value (v, []) = if is_long_min v then none else some (int_of v)
  int_value (v, c ∷ cs) = none

  unfoldable pub get_int : (vname : List ℕ) → Option ℤ
  get_int vname = int_value (o.strtol vname)

  abbrev pub set_param : Option ℤ → Option ℕ → Console → Option Console
  set_param none valp c = none
  set_param (some value) none c = none
  set_param (some value) (some valp) c = some (record c { values = put_value c.values valp value })

  abbrev pub continued :
      Console → (rest : Console → Bool × Console) → Option Console → Bool × Console
  continued c rest none = (false, c)
  continued c rest (some c') = rest c'

  -- The loop over names and values, with what it has set where it stops.
  unfoldable pub set_options : (args : List (List ℕ)) → Console → Bool × Console
  set_options [] c = (true, c)
  set_options (name ∷ []) c = (false, c)
  set_options (name ∷ value ∷ args) c =
      continued c (set_options args) (set_param (get_int value) (find_param name c.param_list) c)

  abbrev pub pushed : Option (List (List ℕ)) → Console → Bool × Console
  pushed none c = (false, c)
  pushed (some input) c =
      (true, record c { buf_stack = record { unread = []; input = input } ∷ c.buf_stack })

  unfoldable pub push_file : (fname : List ℕ) → Console → Bool × Console
  push_file fname c = pushed (o.open_file fname) c

  -- `ok = ok && quit_helpers[i](argc, argv)`
  unfoldable pub call_helpers : (ok : Bool) → (argv : List (List ℕ)) → List ℕ → W → Bool × W
  call_helpers ok argv [] w = (ok, w)
  call_helpers false argv (qf ∷ qfs) w = call_helpers false argv qfs w
  call_helpers true argv (qf ∷ qfs) w =
      let (ok', w') = o.call qf argv w in call_helpers ok' argv qfs w'

  -- The freed lists are empty.
  unfoldable pub do_quit_cmd : (argv : List (List ℕ)) → Console → W → Bool × (Console × W)
  do_quit_cmd argv c w =
      let (ok, w') = call_helpers true argv c.quit_helpers w in
      (ok, (record c { cmd_list = []; param_list = []; buf_stack = []; quit_flag = true }, w'))

  abbrev pub do_source_cmd : (argv : List (List ℕ)) → Console → Bool × Console
  do_source_cmd [] c = (false, c)
  do_source_cmd (cmd ∷ []) c = (false, c)
  do_source_cmd (cmd ∷ fname ∷ argv) c = push_file fname c

  abbrev pub do_log_cmd : (argv : List (List ℕ)) → Bool
  do_log_cmd [] = false
  do_log_cmd (cmd ∷ []) = false
  do_log_cmd (cmd ∷ fname ∷ argv) = o.set_logfile fname

  abbrev pub do_option_cmd : (argv : List (List ℕ)) → Console → Bool × Console
  do_option_cmd [] c = (true, c)
  do_option_cmd (cmd ∷ args) c = set_options args c

  abbrev pub beside : W → Bool × Console → Bool × (Console × W)
  beside w (ok, c) = (ok, (c, w))

  -- A result that is false counts as an error.
  abbrev pub count_error : Bool × (Console × W) → Bool × (Console × W)
  count_error (true, (c, w)) = (true, (c, w))
  count_error (false, (c, w)) = (false, (record_error c, w))

  abbrev pub timed : Bool × (Console × W) → Bool × (Console × W)
  timed (ok, (c, w)) = (ok, (record c { block_timing = c.block_timing || c.block_flag }, w))

  -- One operation; the last argument is the interpreter on the words behind the name.
  abbrev pub run_operation :
      (argv : List (List ℕ))
      → Console
      → W
      → Option Operation
      → Bool × (Console × W)
      → Bool × (Console × W)
  run_operation argv c w none nested = (false, (c, w))
  run_operation argv c w (some help) nested = (true, (c, w))
  run_operation argv c w (some comment) nested = (true, (c, w))
  run_operation argv c w (some log) nested = (do_log_cmd argv, (c, w))
  run_operation argv c w (some option) nested = beside w (do_option_cmd argv c)
  run_operation argv c w (some source) nested = beside w (do_source_cmd argv c)
  run_operation argv c w (some quit) nested = do_quit_cmd argv c w
  run_operation argv c w (some (external n)) nested =
      let (ok, w') = o.call n argv w in (ok, (c, w'))
  run_operation [] c w (some time) nested = (true, (c, w))
  run_operation (cmd ∷ []) c w (some time) nested = (true, (c, w))
  run_operation (cmd ∷ arg ∷ args) c w (some time) nested = timed nested

  unfoldable pub interpret_cmda : (argv : List (List ℕ)) → Console → W → Bool × (Console × W)
  interpret_cmda [] c w = (true, (c, w))
  interpret_cmda (name ∷ args) c w =
      count_error
        (run_operation (name ∷ args) c w (find_cmd name c.cmd_list) (interpret_cmda args c w))
