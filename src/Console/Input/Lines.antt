-- ===== src/Console/Input/Lines.antt =====
-- `readline` of LAB0_cprogramminglab/console.c on a line, however `read` cuts the file.
use mathlib.Core.List.{append_assoc}
use cmu_15_213_intro_to_comp.Prelude.{
  ℕ, zero, suc, ◌-◌, ◌<◌, ◌≡◌, ap, ◌∙◌, Option, none, some, List, [], ◌∷◌, ◌++◌, ◌==◌,
  if◌then◌else◌, length, arith,
}
use cmu_15_213_intro_to_comp.Texts.{Avoids, is}
use cmu_15_213_intro_to_comp.Console.{Buffer}
use cmu_15_213_intro_to_comp.Console.Input.{rio_bufsize, read_line, readline}

-- What is left to read of a file.
abbrev pub joined_input : List (List ℕ) → List ℕ
joined_input [] = []
joined_input (piece ∷ input) = piece ++ joined_input input

abbrev pub content : Buffer → List ℕ
content b = b.unread ++ joined_input b.input

-- `read` gives nothing only at the end.
abbrev pub Gives : List (List ℕ) → Type 0
Gives [] = Unit
Gives ([] ∷ input) = ⊥
Gives ((c ∷ piece) ∷ input) = Gives input

-- The line is returned, and the rest of the file is left on the stack.
abbrev pub Returns :
    (line rest : List ℕ) → (below : List Buffer) → Option (List ℕ) × List Buffer → Type 0
Returns line rest below result =
    (b : Buffer) × ((result ≡ (some line, b ∷ below)) × ((content b ≡ rest) × Gives b.input))

-- The first character of a file and what is left behind it.
abbrev next_char :
    (unread : List ℕ) → (input : List (List ℕ)) → Option (ℕ × (List ℕ × List (List ℕ)))
next_char (c ∷ cs) input = some (c, (cs, input))
next_char [] ((c ∷ cs) ∷ input) = some (c, (cs, input))
next_char [] ([] ∷ input) = none
next_char [] [] = none

abbrev take_char :
    ℕ
    → (line : List ℕ) → (below : List Buffer) → ℕ × (List ℕ × List (List ℕ))
    → Option (List ℕ) × List Buffer
take_char n line below (c, (cs, input)) =
    if c == b'\n'
    then (some (line ++ c ∷ []), record { unread = cs; input = input } ∷ below)
    else read_line n (line ++ c ∷ []) cs input below

read_line-next_char :
    (n : ℕ) (line unread : List ℕ) (input : List (List ℕ)) (below : List Buffer)
    (next : ℕ × (List ℕ × List (List ℕ)))
    → next_char unread input ≡ some next
    → read_line (suc n) line unread input below ≡ take_char n line below next
unfolding read_line
read_line-next_char n line (c ∷ cs) input below next h =
    let e : (c, (cs, input)) ≡ next = cc in ap (take_char n line below) e
read_line-next_char n line [] ((c ∷ cs) ∷ input) below next h =
    let e : (c, (cs, input)) ≡ next = cc in ap (take_char n line below) e
read_line-next_char n line [] ([] ∷ input) below next h = cc
read_line-next_char n line [] [] below next h = cc

content-next_char :
    (unread : List ℕ) (input : List (List ℕ)) (c : ℕ) (rest : List ℕ)
    → Gives input
    → unread ++ joined_input input ≡ c ∷ rest
    → (cs : List ℕ) × (input' : List (List ℕ)) × ((next_char unread input ≡ some (c, (cs, input')))
        × ((cs ++ joined_input input' ≡ rest) × Gives input'))
content-next_char (d ∷ cs) input c rest gives h = (cs, input, (cc, (cc, gives)))
content-next_char [] ((d ∷ cs) ∷ input) c rest gives h = (cs, input, (cc, (cc, gives)))
content-next_char [] ([] ∷ input) c rest gives h = absurd gives
content-next_char [] [] c rest gives h = cc

read_line-Returns :
    (n : ℕ) (done line rest unread : List ℕ) (input : List (List ℕ)) (below : List Buffer)
    → Avoids (is b'\n') line
    → length line < n
    → Gives input
    → unread ++ joined_input input ≡ line ++ b'\n' ∷ rest
    → Returns (done ++ (line ++ b'\n' ∷ [])) rest below (read_line n done unread input below)
read_line-Returns zero done line rest unread input below plain short gives h = absurd (omega arith)
read_line-Returns (suc n) done [] rest unread input below plain short gives h =
    let (cs, input', (next, (left, gives'))) = content-next_char unread input b'\n' rest gives h in
    (
      record { unread = cs; input = input' },
      (read_line-next_char n done unread input below _ next, (left, gives')),
    )
read_line-Returns (suc n) done (c ∷ line) rest unread input below (hc, plain) short gives h =
    let (cs, input', (next, (left, gives'))) =
      content-next_char unread input c (line ++ b'\n' ∷ rest) gives h in
    let (b, (result, after)) =
      read_line-Returns n (done ++ c ∷ []) line rest cs input' below plain (omega arith) gives'
        left in
    (
      b,
      (
        read_line-next_char n done unread input below _ next
            ∙ rw hc (
                result
                ∙ ap (λ t. (some t, b ∷ below)) (append_assoc done (c ∷ []) (line ++ b'\n' ∷ []))),
        after,
      ),
    )

-- If a line of less than 8190 characters stands next in the file on top of the stack, readline
-- returns it and leaves the rest of the file, into whatever pieces read cuts it.
pub readline-Returns :
    (line rest : List ℕ) (b : Buffer) (below : List Buffer)
    → Avoids (is b'\n') line
    → length line < rio_bufsize - 2
    → Gives b.input
    → content b ≡ line ++ b'\n' ∷ rest
    → Returns (line ++ b'\n' ∷ []) rest below (readline (b ∷ below))
unfolding readline
readline-Returns line rest b below plain short gives h =
    read_line-Returns (rio_bufsize - 2) [] line rest b.unread b.input below plain short gives h
