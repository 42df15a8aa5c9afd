-- ===== src/Console/Args.antt =====
-- `parse_args` of LAB0_cprogramminglab/console.c.
use mathlib.Core.Option
use cmu_15_213_intro_to_comp.Prelude.{
  ℕ, zero, suc, ◌+◌, ◌<◌, ◌≡◌, Option-cases, refl, Bool, true, false, Option, none, some, List, [],
  ◌∷◌, ◌++◌, ◌==◌, if◌then◌else◌, length, arith, Bool-cases, inl, inr,
}
use cmu_15_213_intro_to_comp.Texts.{is_space, words, scan_words, push_word, Avoids, is}

-- The first loop: what it writes to the buffer, and the number of arguments.
unfoldable pub split_line : (skipping : Bool) → (line : List ℕ) → List ℕ × ℕ
split_line skipping [] = ([], 0)
split_line true (c ∷ cs) =
    let (buf, argc) = split_line (is_space c) cs in
    if is_space c then (buf, argc) else (c ∷ buf, argc + 1)
split_line false (c ∷ cs) =
    let (buf, argc) = split_line (is_space c) cs in
    if is_space c then (0 ∷ buf, argc) else (c ∷ buf, argc)

-- The text up to the next NUL and what stands behind it; `none` if no NUL was written.
unfoldable pub next_string : List ℕ → Option (List ℕ × List ℕ)
next_string [] = none
next_string (c ∷ cs) =
    if c == 0
    then some ([], cs)
    else elim (next_string cs) [ none ↦ none | some (s, rest) ↦ some (c ∷ s, rest) ]

abbrev pub collected :
    Option (List ℕ × List ℕ) → (rest : List ℕ → Option (List (List ℕ))) → Option (List (List ℕ))
collected none rest = none
collected (some (s, src)) rest = Option.map (λ argv. s ∷ argv) (rest src)

-- The second loop, over the arguments.
unfoldable pub collect : (argc : ℕ) → (src : List ℕ) → Option (List (List ℕ))
collect zero src = some []
collect (suc argc) src = collected (next_string src) (collect argc)

-- `none` is a read behind what was written to the buffer.
unfoldable pub parse_args : (line : List ℕ) → Option (List (List ℕ))
parse_args line = let (buf, argc) = split_line true line in collect argc buf

-- The words, each with a NUL.
abbrev encoded : List (List ℕ) → List ℕ
encoded [] = []
encoded (w ∷ ws) = w ++ 0 ∷ encoded ws

-- What the loop writes for the rest of a line that ends with a space, at the start of a word or
-- within one.
record IsSplit (line : List ℕ) : Type 0 where
  at_start : split_line true line ≡ (encoded (words line), length (words line))
  within :
      split_line false line
      ≡ ((scan_words line).0 ++ 0 ∷ encoded (scan_words line).1, length (scan_words line).1)

IsSplit-space : (c : ℕ) (line : List ℕ) → is_space c ≡ true → IsSplit line → IsSplit (c ∷ line)
unfolding split_line words
IsSplit-space c line sp s = record {
  at_start = rw sp (s.at_start);
  within = rw (sp, s.at_start) refl;
}

IsSplit-letter : (c : ℕ) (line : List ℕ) → is_space c ≡ false → IsSplit line → IsSplit (c ∷ line)
unfolding split_line words
IsSplit-letter c line letter s = record {
  at_start = rw (letter, s.within) (ground arith);
  within = rw (letter, s.within) refl;
}

IsSplit-snoc : (text : List ℕ) (c : ℕ) → is_space c ≡ true → IsSplit (text ++ c ∷ [])
unfolding split_line words
IsSplit-snoc [] c sp = record { at_start = rw sp refl; within = rw sp refl }
IsSplit-snoc (x ∷ text) c sp = elim (Bool-cases (is_space x)) [
  | inl e ↦ IsSplit-space x (text ++ c ∷ []) e (IsSplit-snoc text c sp)
  | inr e ↦ IsSplit-letter x (text ++ c ∷ []) e (IsSplit-snoc text c sp)
]

abbrev AllAvoid : List (List ℕ) → Type 0
AllAvoid [] = Unit
AllAvoid (w ∷ ws) = Avoids (is 0) w × AllAvoid ws

next_string-append :
    (s rest : List ℕ) → Avoids (is 0) s → next_string (s ++ 0 ∷ rest) ≡ some (s, rest)
unfolding next_string
next_string-append [] rest h = refl
next_string-append (c ∷ s) rest (hc, h) = rw (hc, next_string-append s rest h) refl

collect-encoded : (ws : List (List ℕ)) → AllAvoid ws → collect (length ws) (encoded ws) ≡ some ws
unfolding collect
collect-encoded [] h = refl
collect-encoded (w ∷ ws) (hw, h) =
    rw (next_string-append w (encoded ws) hw, collect-encoded ws h) refl

push_word-AllAvoid :
    (w : List ℕ) (ws : List (List ℕ)) → Avoids (is 0) w → AllAvoid ws → AllAvoid (push_word w ws)
push_word-AllAvoid [] ws hw h = h
push_word-AllAvoid (c ∷ w) ws hw h = (hw, h)

scan_words-AllAvoid :
    (line : List ℕ)
    → Avoids (is 0) line
    → Avoids (is 0) (scan_words line).0 × AllAvoid (scan_words line).1
scan_words-AllAvoid [] h = (tt, tt)
scan_words-AllAvoid (c ∷ line) (hc, h) =
    let (hw, hws) = scan_words-AllAvoid line h in
    elim (is_space c)
      as (λ b.
        let r : List ℕ × List (List ℕ) =
          if b
          then ([], push_word (scan_words line).0 (scan_words line).1)
          else (c ∷ (scan_words line).0, (scan_words line).1) in
        Avoids (is 0) r.0 × AllAvoid r.1) [
          | true ↦ (tt, push_word-AllAvoid (scan_words line).0 (scan_words line).1 hw hws)
          | false ↦ ((hc, hw), hws)
        ]

-- A line that ends with a space and holds no NUL is split by parse_args into the words of the
-- line.
pub parse_args-words :
    (text : List ℕ) (c : ℕ)
    → is_space c ≡ true
    → Avoids (is 0) (text ++ c ∷ [])
    → parse_args (text ++ c ∷ []) ≡ some (words (text ++ c ∷ []))
unfolding parse_args
parse_args-words text c sp h =
    let (hw, hws) = scan_words-AllAvoid (text ++ c ∷ []) h in
    rw ((IsSplit-snoc text c sp).at_start)
      (collect-encoded (words (text ++ c ∷ [])) (unfold words in push_word-AllAvoid _ _ hw hws))

abbrev nuls : List ℕ → ℕ
nuls [] = 0
nuls (c ∷ cs) = if c == 0 then suc (nuls cs) else nuls cs

nuls-next_string :
    (s : List ℕ) {w rest : List ℕ} → next_string s ≡ some (w, rest) → suc (nuls rest) ≡ nuls s
unfolding next_string
nuls-next_string [] h = cc
nuls-next_string (c ∷ s) h = elim (Option-cases (next_string s)) [
  | inl e ↦ ground arith
  | inr ((w', rest'), e) ↦ let step = nuls-next_string s e in ground arith
]

collect-none : (argc : ℕ) (src : List ℕ) → nuls src < argc → collect argc src ≡ none
unfolding collect
collect-none zero src h = absurd (omega arith)
collect-none (suc argc) src h = elim (Option-cases (next_string src)) [
  | inl e ↦ rw e refl
  | inr ((w, rest), e) ↦ rw (e, collect-none argc rest (omega (arith, nuls-next_string src e))) refl
]

-- A line that ends within a word has one NUL less than arguments.
nuls-split_line :
    (text : List ℕ) (c : ℕ)
    → is_space c ≡ false
    → Avoids (is 0) (text ++ c ∷ [])
    → (suc (nuls (split_line true (text ++ c ∷ [])).0) ≡ (split_line true (text ++ c ∷ [])).1)
      × (nuls (split_line false (text ++ c ∷ [])).0 ≡ (split_line false (text ++ c ∷ [])).1)
unfolding split_line
nuls-split_line [] c letter (hc, h) = (ground arith, ground arith)
nuls-split_line (x ∷ text) c letter (hx, h) =
    let (at_start, within) = nuls-split_line text c letter h in
    elim (Bool-cases (is_space x)) [
      | inl e ↦ (ground arith, ground arith)
      | inr e ↦ (ground arith, ground arith)
    ]

-- A line that does not end with a space makes parse_args read behind what it wrote.
pub parse_args-none :
    (text : List ℕ) (c : ℕ)
    → is_space c ≡ false
    → Avoids (is 0) (text ++ c ∷ [])
    → parse_args (text ++ c ∷ []) ≡ none
unfolding parse_args
parse_args-none text c letter h =
    collect-none (split_line true (text ++ c ∷ [])).1 (split_line true (text ++ c ∷ [])).0
      (omega (arith, (nuls-split_line text c letter h).0))
