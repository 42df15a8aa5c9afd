-- ===== src/Shell/Line/Words.antt =====
-- `parseline` of LAB5_tshlab/tsh.c reads back a line that is made of arguments.
use cmu_15_213_intro_to_comp.Prelude.{
  ℕ, zero, suc, ◌<◌, ◌≡◌, ◌≢◌, refl, ◌∙◌, ap, Bool, true, false, some, List, [], ◌∷◌, ◌++◌, ltb,
  ◌==◌, length, length-append, length-map, arith, map, lt→ltb,
}
use mathlib.Core.List.{append_assoc}
use cmu_15_213_intro_to_comp.Shell.Line.{
  max_args, max_line, parse_buf, set_last, skip_spaces, split_at, next_word, build_argv,
  starts_with_amp, take_background, parseline,
}

-- An argument as it is typed: plain, or between quotes.
pub data Arg : Type 0 where
  plain quoted : List ℕ → Arg

abbrev pub word : Arg → List ℕ
word (plain w) = w
word (quoted w) = w

abbrev pub typed : Arg → List ℕ
typed (plain w) = w
typed (quoted w) = b'\'' ∷ w ++ b'\'' ∷ []

-- The character does not occur.
abbrev pub Free : ℕ → List ℕ → Type 0
Free d [] = Unit
Free d (c ∷ cs) = (c ≢ d) × Free d cs

abbrev pub StartsOtherThan : ℕ → List ℕ → Type 0
StartsOtherThan d [] = Unit
StartsOtherThan d (c ∷ cs) = c ≢ d

-- A plain argument is not empty, has no space and starts with no quote.
abbrev pub IsArg : Arg → Type 0
IsArg (plain w) = (w ≢ []) × Free b' ' w × StartsOtherThan b'\'' w
IsArg (quoted w) = Free b'\'' w

abbrev pub AreArgs : List Arg → Type 0
AreArgs [] = Unit
AreArgs (a ∷ as_) = IsArg a × AreArgs as_

-- The arguments, each with a space behind it.
unfoldable pub spaced : List Arg → List ℕ
spaced [] = []
spaced (a ∷ as_) = typed a ++ b' ' ∷ spaced as_

split_at-append : (d : ℕ) (w rest : List ℕ) → Free d w → split_at d (w ++ d ∷ rest) ≡ some (w, rest)
unfolding split_at
split_at-append d [] rest f = let same : (d == d) ≡ true = ground arith in rw same
split_at-append d (c ∷ w) rest f =
    let other : (c == d) ≡ false = ground (arith, f.0) in rw (other, split_at-append d w rest f.1)

next_word-plain :
    (w rest : List ℕ)
    → IsArg (plain w)
    → next_word (skip_spaces (w ++ b' ' ∷ rest)) ≡ some (w, rest)
unfolding next_word skip_spaces
next_word-plain [] rest ok = absurd (ok.0 refl)
next_word-plain (c ∷ w) rest ok =
    let visible : (c == b' ') ≡ false = ground (arith, ok.1.0) in
    let unquoted : (c == b'\'') ≡ false = ground (arith, ok.2) in
    rw (visible, unquoted) (split_at-append b' ' (c ∷ w) rest ok.1)

next_word-quoted :
    (w rest : List ℕ)
    → Free b'\'' w
    → next_word (skip_spaces (b'\'' ∷ w ++ b'\'' ∷ rest)) ≡ some (w, rest)
unfolding next_word skip_spaces
next_word-quoted w rest f = split_at-append b'\'' w rest f

build_argv-spaces : (n : ℕ) (buf : List ℕ) → build_argv n (b' ' ∷ buf) ≡ build_argv n buf
unfolding build_argv skip_spaces
build_argv-spaces zero buf = refl
build_argv-spaces (suc n) buf = refl

build_argv-spaced :
    (n : ℕ) (args : List Arg)
    → AreArgs args
    → length (spaced args) < n
    → build_argv n (spaced args) ≡ some (map word args)
unfolding build_argv spaced
build_argv-spaced zero args ok l = absurd (omega arith)
build_argv-spaced (suc n) [] ok l = unfold next_word skip_spaces in refl
build_argv-spaced (suc n) (plain w ∷ args) ok l = rw (
  next_word-plain w (spaced args) ok.0,
  build_argv,
  build_argv-spaced n args ok.1 (omega (arith, l, length-append w (b' ' ∷ spaced args))),
)
build_argv-spaced (suc n) (quoted w ∷ args) ok l = rw (
  append_assoc w (b'\'' ∷ []) (b' ' ∷ spaced args),
  next_word-quoted w (b' ' ∷ spaced args) ok.0,
  build_argv,
  build_argv-spaces n (spaced args),
  build_argv-spaced n args ok.1
      (omega (arith, l, length-append (w ++ b'\'' ∷ []) (b' ' ∷ spaced args))),
)

set_last-append : (xs : List ℕ) (c d : ℕ) → set_last (xs ++ c ∷ []) d ≡ some (xs ++ d ∷ [])
unfolding set_last
set_last-append [] c d = refl
set_last-append (x ∷ []) c d = refl
set_last-append (x ∷ y ∷ xs) c d = rw (set_last-append (y ∷ xs) c d, set_last)

-- The arguments with a space between two of them.
unfoldable pub joined : List Arg → List ℕ
joined [] = []
joined (a ∷ []) = typed a
joined (a ∷ b ∷ args) = typed a ++ b' ' ∷ joined (b ∷ args)

joined-spaced : (a : Arg) (args : List Arg) → joined (a ∷ args) ++ b' ' ∷ [] ≡ spaced (a ∷ args)
unfolding joined spaced
joined-spaced a [] = refl
joined-spaced a (b ∷ args) =
    append_assoc (typed a) (b' ' ∷ joined (b ∷ args)) (b' ' ∷ [])
    ∙ ap (λ (xs : List ℕ). typed a ++ b' ' ∷ xs) (joined-spaced b args)

parseline-joined :
    (a : Arg) (args : List Arg)
    → AreArgs (a ∷ args)
    → length (a ∷ args) < max_args
    → length (joined (a ∷ args) ++ b'\n' ∷ []) < max_line
    → parseline (joined (a ∷ args) ++ b'\n' ∷ []) ≡ some (take_background (map word (a ∷ args)))
unfolding parseline
parseline-joined a args ok few fits =
    let room : ltb (length (map word (a ∷ args))) max_args ≡ true =
      ground (arith, length-map args word) in
    rw (
      lt→ltb _ max_line fits,
      set_last-append (joined (a ∷ args)) b'\n' b' ',
      parse_buf,
      joined-spaced a args,
      build_argv-spaced (suc (length (spaced (a ∷ args)))) (a ∷ args) ok (omega arith),
      room,
    )

-- No argument starts with `&`.
abbrev pub NoAmps : List Arg → Type 0
NoAmps [] = Unit
NoAmps (a ∷ args) = (starts_with_amp (word a) ≡ false) × NoAmps args

-- The arguments, and `&` behind them for a background job.
abbrev pub with_amp : Bool → List Arg → List Arg
with_amp true args = args ++ plain (b'&' ∷ []) ∷ []
with_amp false args = args

take_background-with_amp :
    (bg : Bool) (a : Arg) (args : List Arg)
    → NoAmps (a ∷ args)
    → take_background (map word (with_amp bg (a ∷ args))) ≡ (bg, map word (a ∷ args))
unfolding take_background starts_with_amp
take_background-with_amp true a [] n = refl
take_background-with_amp false a [] n = rw n.0
take_background-with_amp true a (b ∷ args) n = rw (take_background-with_amp true b args n.1)
take_background-with_amp false a (b ∷ args) n = rw (take_background-with_amp false b args n.1)

AreArgs-amp : (args : List Arg) → AreArgs args → AreArgs (args ++ plain (b'&' ∷ []) ∷ [])
AreArgs-amp [] ok = (((λ e. cc e), (omega arith, tt), omega arith), tt)
AreArgs-amp (a ∷ args) ok = (ok.0, AreArgs-amp args ok.1)

-- For up to 126 arguments, at least one and none starting with &, each without its delimiter and
-- the plain ones not empty nor starting with a quote, and a line of less than 1024 characters,
-- parseline of the line, with or without a last &, returns them, and whether the & was there.
pub parseline-words :
    (bg : Bool) (a : Arg) (args : List Arg)
    → AreArgs (a ∷ args)
    → NoAmps (a ∷ args)
    → length (a ∷ args) < 127
    → length (joined (with_amp bg (a ∷ args)) ++ b'\n' ∷ []) < 1024
    → parseline (joined (with_amp bg (a ∷ args)) ++ b'\n' ∷ []) ≡ some (bg, map word (a ∷ args))
parseline-words true a args ok n few fits =
    parseline-joined a (args ++ plain (b'&' ∷ []) ∷ []) (AreArgs-amp (a ∷ args) ok)
      (omega (arith, length-append args (plain (b'&' ∷ []) ∷ []))) fits
    ∙ ap some (take_background-with_amp true a args n)
parseline-words false a args ok n few fits =
    parseline-joined a args ok (omega arith) fits
    ∙ ap some (take_background-with_amp false a args n)
