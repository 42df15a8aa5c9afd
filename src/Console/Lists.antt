-- ===== src/Console/Lists.antt =====
-- The list of commands of LAB0_cprogramminglab/console.c, and the errors that the interpreter counts.
use cmu_15_213_intro_to_comp.Prelude.{
  ℕ, ◌+◌, ◌≡◌, refl, true, false, none, some, List, [], ◌∷◌, if◌then◌else◌, arith,
}
use cmu_15_213_intro_to_comp.Shell.Control.{same_text}
use cmu_15_213_intro_to_comp.Console.{
  Operation, time, Command, Console, Outside, text_lt, add_cmd, find_cmd, record_error,
  interpret_cmda,
}

-- Equal texts are not in order.
text_lt-same : (k s t : List ℕ) → same_text k s ≡ true → same_text k t ≡ true → text_lt s t ≡ false
unfolding text_lt
text_lt-same [] [] [] p q = refl
text_lt-same [] [] (d ∷ ds) p q = absurd (cc q)
text_lt-same [] (d ∷ ds) t p q = absurd (cc p)
text_lt-same (c ∷ cs) [] t p q = absurd (cc p)
text_lt-same (c ∷ cs) (d ∷ ds) [] p q = absurd (cc q)
text_lt-same (c ∷ cs) (d ∷ ds) (e ∷ es) p q = ground (arith, text_lt-same cs ds es)

-- The list of commands is a map: add_cmd gives a name its operation and changes that of no other
-- name.
pub find_cmd-add_cmd :
    (k name : List ℕ) (operation : Operation) (cs : List Command)
    → find_cmd k (add_cmd name operation cs)
      ≡ (if same_text k name then some operation else find_cmd k cs)
unfolding find_cmd add_cmd
find_cmd-add_cmd k name operation [] = refl
find_cmd-add_cmd k name operation (c ∷ cs) =
    ground (arith, text_lt-same k c.name name, find_cmd-add_cmd k name operation cs)

module _ {W : Type 0} (o : Outside W) where
  -- An unknown command under `time` counts as two errors.
  pub interpret_cmda-time :
      (cmd name : List ℕ) (args : List (List ℕ)) (c : Console) (w : W)
      → find_cmd cmd c.cmd_list ≡ some time
      → find_cmd name c.cmd_list ≡ none
      → (interpret_cmda o (name ∷ args) c w).1.0.err_cnt ≡ c.err_cnt + 1
        × ((interpret_cmda o (cmd ∷ name ∷ args) c w).1.0.err_cnt ≡ c.err_cnt + 2)
  unfolding interpret_cmda record_error
  interpret_cmda-time cmd name args c w known unknown =
      (rw unknown refl, rw (known, unknown) (omega arith))
