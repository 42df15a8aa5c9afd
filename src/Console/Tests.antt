-- ===== src/Console/Tests.antt =====
-- A console on a small file, and the theorems about LAB0_cprogramminglab/console.c at it.
use cmu_15_213_intro_to_comp.Prelude.{
  ℕ, zero, suc, Bool, List, ◌+◌, ◌≡◌, refl, arith, true, false, none, some, [], ◌∷◌, ◌++◌,
}
use cmu_15_213_intro_to_comp.Prelude.Int.{pos}
use cmu_15_213_intro_to_comp.Texts.{codes, is_space, words, is, avoids-Avoids}
use cmu_15_213_intro_to_comp.Console.{external, time, Console, Outside}
use cmu_15_213_intro_to_comp.Console.Args.{parse_args, parse_args-words}
use cmu_15_213_intro_to_comp.Console.Input.{readline, run_selects}
use cmu_15_213_intro_to_comp.Console.Input.Lines.{Returns, readline-Returns}
use cmu_15_213_intro_to_comp.Console.Input.Ends.{IsDone, run_selects_ends}

-- No file can be opened, and a command of the rest of the program counts its calls.
abbrev counting : Outside ℕ
counting = record {
  strtol = λ vname. (pos 0, []);
  open_file = λ fname. none;
  set_logfile = λ fname. false;
  call = λ n argv w. (true, w + 1);
}

abbrev console : Console
console = record {
  cmd_list =
      record { name = codes "new"; operation = external 0 }
      ∷ record { name = codes "time"; operation = time }
      ∷ [];
  param_list = [];
  values = λ valp. pos 5;
  err_cnt = 0;
  quit_flag = false;
  block_flag = false;
  block_timing = false;
  buf_stack = record { unread = codes "ne"; input = codes "w\nn" ∷ codes "ew 3\n" ∷ [] } ∷ [];
  quit_helpers = [];
}

parse_args-words_example :
    parse_args (codes " ih 3  2" ++ b'\n' ∷ []) ≡ some (codes "ih" ∷ codes "3" ∷ codes "2" ∷ [])
unfolding words is_space
parse_args-words_example =
    parse_args-words (codes " ih 3  2") b'\n' (unfold is_space in refl)
      (avoids-Avoids (is 0) (codes " ih 3  2\n") refl)

readline-Returns_example : Returns (codes "new\n") (codes "new 3\n") [] (readline console.buf_stack)
readline-Returns_example =
    readline-Returns (codes "new") (codes "new 3\n")
      (record { unread = codes "ne"; input = codes "w\nn" ∷ codes "ew 3\n" ∷ [] }) []
      (avoids-Avoids (is b'\n') (codes "new") refl) (omega arith) tt refl

-- Every call of `select` is interrupted once.
abbrev selects : ℕ → List Bool
selects zero = []
selects (suc n) = false ∷ true ∷ selects n

run_selects_ends_example :
    IsDone counting (λ fname. refl) (run_selects counting 20 (selects 15) console 0)
run_selects_ends_example =
    run_selects_ends counting (λ fname. refl) 20 (selects 15) console 0 (omega arith) (omega arith)
      refl
