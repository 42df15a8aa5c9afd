-- ===== src/Shell/Line/Tests.antt =====
-- Lines for `parseline` of LAB5_tshlab/tsh.c, and the theorem about them at a line.
use cmu_15_213_intro_to_comp.Prelude.{◌≡◌, refl, arith, true, false, some, List, [], ◌∷◌, ◌++◌}
use cmu_15_213_intro_to_comp.Shell.Line.{
  set_last, skip_spaces, split_at, next_word, build_argv, starts_with_amp, take_background,
  parseline,
}
use cmu_15_213_intro_to_comp.Shell.Line.Words.{
  Arg, plain, quoted, with_amp, joined, parseline-words,
}

blank_line : parseline (b' ' ∷ b' ' ∷ b'\n' ∷ []) ≡ some (true, [])
unfolding parseline set_last build_argv next_word skip_spaces split_at take_background
blank_line = refl

lone_amp : parseline (b'&' ∷ b'\n' ∷ []) ≡ some (true, [])
unfolding parseline set_last build_argv next_word skip_spaces split_at take_background
    starts_with_amp
lone_amp = refl

open_quote : parseline (b'a' ∷ b' ' ∷ b'\'' ∷ b'b' ∷ b'\n' ∷ []) ≡ some (false, (b'a' ∷ []) ∷ [])
unfolding parseline set_last build_argv next_word skip_spaces split_at take_background
    starts_with_amp
open_quote = refl

abbrev arguments : List Arg
arguments = quoted (b'a' ∷ b' ' ∷ []) ∷ []

parseline-words_example :
    parseline (joined (with_amp true (plain (b'l' ∷ b's' ∷ []) ∷ arguments)) ++ b'\n' ∷ [])
    ≡ some (true, (b'l' ∷ b's' ∷ []) ∷ (b'a' ∷ b' ' ∷ []) ∷ [])
unfolding joined
parseline-words_example =
    parseline-words true (plain (b'l' ∷ b's' ∷ [])) arguments
      (((λ e. cc e), omega arith, omega arith), (omega arith, tt))
      (unfold starts_with_amp in (refl, (refl, tt))) (omega arith) (omega arith)
