-- ===== src/Texts.antt =====
-- What the programs use of the C library's functions on texts.
use Prim.Native.Char.{code}
use Prim.Native.String.{String}
use cmu_15_213_intro_to_comp.Prelude.{
  ℕ, zero, suc, ◌+◌, ◌/◌, ◌%◌, ◌≡◌, refl, ap, Bool, true, false, ◌&&◌, ◌||◌, Option, none, some,
  List, [], ◌∷◌, ◌++◌, leb, ◌==◌, if◌then◌else◌, arith, not, inl, inr, Bool-cases, sym, ◌∙◌,
}

-- The characters of a literal.
abbrev pub codes : String → List ℕ
codes String.[] = []
codes (String.◌∷◌ c s) = code c ∷ codes s

unfoldable pub is_space : ℕ → Bool
is_space c = (c == b' ') || (leb 9 c && leb c 13)

abbrev pub push_word : List ℕ → List (List ℕ) → List (List ℕ)
push_word [] ws = ws
push_word (c ∷ cs) ws = (c ∷ cs) ∷ ws

-- The word at the start of a text, and the words behind it.
abbrev pub scan_words : List ℕ → List ℕ × List (List ℕ)
scan_words [] = ([], [])
scan_words (c ∷ cs) =
    let (w, ws) = scan_words cs in if is_space c then ([], push_word w ws) else (c ∷ w, ws)

-- The words that `sscanf` assigns to `%s`, one after the other.
unfoldable pub words : List ℕ → List (List ℕ)
words text = let (w, ws) = scan_words text in push_word w ws

-- `strncmp` with a prefix: what stands behind it, if the text starts with it.
abbrev pub strip : (prefix : List ℕ) → List ℕ → Option (List ℕ)
strip [] text = some text
strip (p ∷ ps) [] = none
strip (p ∷ ps) (c ∷ cs) = let rest = strip ps cs in if p == c then rest else none

-- `strstr` finds the part.
abbrev pub contains : List ℕ → (part : List ℕ) → Bool
contains [] [] = true
contains [] (p ∷ ps) = false
contains (c ∷ cs) part =
    let rest = contains cs part in elim (strip part (c ∷ cs)) [ none ↦ rest | some t ↦ true ]

-- The text up to the first such character, and from it on; `from` is empty if there is none.
unfoldable pub before : ℕ → List ℕ → List ℕ
before d [] = []
before d (c ∷ cs) = let rest = before d cs in if c == d then [] else c ∷ rest

unfoldable pub from : ℕ → List ℕ → List ℕ
from d [] = []
from d (c ∷ cs) = let rest = from d cs in if c == d then c ∷ cs else rest

-- `%d` of a number that is not negative.
abbrev decimal_from : ℕ → ℕ → List ℕ → List ℕ
decimal_from zero n digits = digits
decimal_from (suc fuel) n digits =
    let rest = decimal_from fuel (n / 10) ((b'0' + n % 10) ∷ digits) in
    if n / 10 == 0 then (b'0' + n % 10) ∷ digits else rest

unfoldable pub decimal : ℕ → List ℕ
decimal n = decimal_from (suc n) n []

-- No character of the text passes the test.
abbrev pub Avoids : (ℕ → Bool) → List ℕ → Type 0
Avoids f [] = Unit
Avoids f (c ∷ cs) = (f c ≡ false) × Avoids f cs

abbrev pub is : ℕ → ℕ → Bool
is d c = c == d

-- `Avoids` as a test.
abbrev pub avoids : (ℕ → Bool) → List ℕ → Bool
avoids f [] = true
avoids f (c ∷ cs) = not (f c) && avoids f cs

pub avoids-Avoids : (f : ℕ → Bool) (text : List ℕ) → avoids f text ≡ true → Avoids f text
avoids-Avoids f [] h = tt
avoids-Avoids f (c ∷ cs) h = elim (Bool-cases (f c)) [
  | inl e ↦ absurd (cc (h, e))
  | inr e ↦ (e, avoids-Avoids f cs (sym (rw e refl) ∙ h))
]

pub Avoids-append :
    (f : ℕ → Bool) (xs ys : List ℕ) → Avoids f xs → Avoids f ys → Avoids f (xs ++ ys)
Avoids-append f [] ys h k = k
Avoids-append f (x ∷ xs) ys (hx, h) k = (hx, Avoids-append f xs ys h k)

pub before-append : (d : ℕ) (xs ys : List ℕ) → Avoids (is d) xs → before d (xs ++ d ∷ ys) ≡ xs
unfolding before
before-append d [] ys h = ground arith
before-append d (x ∷ xs) ys (hx, h) = rw (hx, before-append d xs ys h)

pub from-append : (d : ℕ) (xs ys : List ℕ) → Avoids (is d) xs → from d (xs ++ d ∷ ys) ≡ d ∷ ys
unfolding from
from-append d [] ys h = ground arith
from-append d (x ∷ xs) ys (hx, h) = rw (hx, from-append d xs ys h)

pub before_all : (d : ℕ) (xs : List ℕ) → Avoids (is d) xs → before d xs ≡ xs
unfolding before
before_all d [] h = refl
before_all d (x ∷ xs) (hx, h) = rw (hx, before_all d xs h)

pub from_all : (d : ℕ) (xs : List ℕ) → Avoids (is d) xs → from d xs ≡ []
unfolding from
from_all d [] h = refl
from_all d (x ∷ xs) (hx, h) = rw (hx, from_all d xs h)

scan_words-append :
    (c : ℕ) (w text : List ℕ)
    → is_space c ≡ true
    → Avoids is_space w
    → scan_words (w ++ c ∷ text) ≡ (w, words text)
unfolding words
scan_words-append c [] text sp h = rw sp refl
scan_words-append c (x ∷ w) text sp (hx, h) = rw (hx, scan_words-append c w text sp h)

pub words-append :
    (c x : ℕ) (w text : List ℕ)
    → is_space c ≡ true
    → Avoids is_space (x ∷ w)
    → words ((x ∷ w) ++ c ∷ text) ≡ (x ∷ w) ∷ words text
words-append c x w text sp h =
    unfold words in
    ap (λ (r : List ℕ × List (List ℕ)). push_word r.0 r.1) (scan_words-append c (x ∷ w) text sp h)
