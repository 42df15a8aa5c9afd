-- ===== src/Shell/Line.antt =====
-- `parseline` and `builtin_cmd` of LAB5_tshlab/tsh.c. A text is the list of its characters, without
-- the NUL that ends it.
pub mod Words
mod Tests
use cmu_15_213_intro_to_comp.Prelude.{
  ℕ, zero, suc, ◌+◌, Bool, true, false, ◌||◌, Option, none, some, List, [], ◌∷◌, ◌++◌, ltb, ◌==◌,
  if◌then◌else◌, length,
}
use cmu_15_213_intro_to_comp.Prelude.Int.{ℤ}
use cmu_15_213_intro_to_comp.Shell.{Table, Job, listjobs}
use cmu_15_213_intro_to_comp.Shell.Control.{BgFg, do_bgfg, same_text}

abbrev pub max_args : ℕ
max_args = 128

-- `buf[strlen(buf)-1] = c;`, a write before the array if the text is empty.
unfoldable pub set_last : List ℕ → ℕ → Option (List ℕ)
set_last [] c = none
set_last (x ∷ []) c = some (c ∷ [])
set_last (x ∷ y ∷ xs) c = elim (set_last (y ∷ xs) c) [ none ↦ none | some zs ↦ some (x ∷ zs) ]

-- `while (*buf && (*buf == ' ')) buf++;`
unfoldable pub skip_spaces : List ℕ → List ℕ
skip_spaces [] = []
skip_spaces (c ∷ cs) = if c == b' ' then skip_spaces cs else c ∷ cs

-- `strchr`: what stands before the delimiter, and what stands behind it.
unfoldable pub split_at : (delim : ℕ) → List ℕ → Option (List ℕ × List ℕ)
split_at delim [] = none
split_at delim (c ∷ cs) =
    if c == delim
    then some ([], cs)
    else elim (split_at delim cs) [ none ↦ none | some (word, rest) ↦ some (c ∷ word, rest) ]

-- The next argument, in quotes or up to a space.
unfoldable pub next_word : List ℕ → Option (List ℕ × List ℕ)
next_word [] = none
next_word (c ∷ cs) = if c == b'\'' then split_at b'\'' cs else split_at b' ' (c ∷ cs)

-- The loop over the arguments; `none` if it runs out of rounds.
unfoldable pub build_argv : ℕ → (buf : List ℕ) → Option (List (List ℕ))
build_argv zero buf = none
build_argv (suc n) buf =
    let rest = λ (buf' : List ℕ). build_argv n buf' in
    elim (next_word (skip_spaces buf)) [
      | none ↦ some []
      | some (word, buf') ↦ elim (rest buf') [ none ↦ none | some argv ↦ some (word ∷ argv) ]
    ]

-- `*argv[argc-1] == '&'`
unfoldable pub starts_with_amp : List ℕ → Bool
starts_with_amp [] = false
starts_with_amp (c ∷ cs) = c == b'&'

-- The last argument is taken off if it asks for the background.
unfoldable pub take_background : List (List ℕ) → Bool × List (List ℕ)
take_background [] = (true, [])
take_background (w ∷ []) = if starts_with_amp w then (true, []) else (false, w ∷ [])
take_background (w ∷ v ∷ ws) = let (bg, argv) = take_background (v ∷ ws) in (bg, w ∷ argv)

-- The length of `array`.
abbrev pub max_line : ℕ
max_line = 1024

-- `buf` after its last character is replaced.
abbrev pub parse_buf : Option (List ℕ) → Option (Bool × List (List ℕ))
parse_buf none = none
parse_buf (some buf) = elim (build_argv (suc (length buf)) buf) [
  | none ↦ none
  | some argv ↦ if ltb (length argv) max_args then some (take_background argv) else none
]

-- `none` is a write outside an array: a line that `array` has no room for with its NUL, an empty
-- line, or more arguments than `argv` has room for.
unfoldable pub parseline : (cmdline : List ℕ) → Option (Bool × List (List ℕ))
parseline cmdline =
    if ltb (length cmdline) max_line then parse_buf (set_last cmdline b' ') else none

pub data Builtin : Type 0 where
  exits : Builtin
  switches : BgFg → Builtin
  lists : List Job → Builtin
  other : Builtin

abbrev pub quit_text : List ℕ
quit_text = b'q' ∷ b'u' ∷ b'i' ∷ b't' ∷ []

abbrev pub fg_name : List ℕ
fg_name = b'f' ∷ b'g' ∷ []

abbrev pub bg_name : List ℕ
bg_name = b'b' ∷ b'g' ∷ []

abbrev pub jobs_text : List ℕ
jobs_text = b'j' ∷ b'o' ∷ b'b' ∷ b's' ∷ []

-- `fault` of the source, an `argv[0]` that is NULL, does not occur: `eval` returns before.
module _ (atoi : List ℕ → ℤ) (isdigit : ℕ → Bool) (kill : ℕ → Bool) where
  unfoldable pub builtin_cmd : Table → List (List ℕ) → Builtin
  builtin_cmd t [] = other
  builtin_cmd t (name ∷ argv) =
      if same_text name quit_text
      then exits
      else if same_text name fg_name || same_text name bg_name
      then switches (do_bgfg atoi isdigit kill t (name ∷ argv))
      else if same_text name jobs_text
      then lists (listjobs t.jobs)
      else other
