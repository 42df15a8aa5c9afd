-- ===== src/Web.antt =====
-- The functions on texts and the answers that LAB7_proxylab/proxy.c and LAB7_proxylab/tiny/tiny.c
-- share. A text is the list of its characters, without the NUL that ends it.
pub mod Proxy
pub mod Tiny
mod Tests
unfoldable pub use cmu_15_213_intro_to_comp.Texts.{
  codes, is_space, words, strip, contains, before, from, decimal, Avoids, is,
}
pub use cmu_15_213_intro_to_comp.Texts.{
  Avoids-append, before-append, from-append, before_all, from_all, words-append,
}
use cmu_15_213_intro_to_comp.Prelude.{
  ℕ, ◌+◌, Bool, true, false, Option, none, some, List, [], ◌∷◌, ◌++◌, ltb, ◌==◌, if◌then◌else◌,
  length,
}
use cmu_15_213_intro_to_comp.Shell.Control.{same_text}

-- What a request makes the program do, in its order.
pub data Action : Type 0 where
  writes : List ℕ → Action
  connects : (hostname port : List ℕ) → Action
  sends : List ℕ → Action
  runs : (filename cgiargs : List ℕ) → Action
  closes_client : Action
  closes_server : Action

-- `faults` is an access outside an array or to what was never written.
pub data Result : Type 0 where
  returns : List Action → Result
  exits : List Action → Result
  faults : Result
  hangs : Result

abbrev pub max_line : ℕ
max_line = 8192

-- A text fits an array of that size with its NUL.
unfoldable pub filled : List ℕ → Option (List ℕ)
filled text = if ltb (length text) max_line then some text else none

-- `strcasecmp(method, "GET")` is 0.
unfoldable pub to_lower : ℕ → ℕ
to_lower c = if ltb c b'A' then c else if ltb b'Z' c then c else c + 32

unfoldable pub is_get : List ℕ → Bool
is_get (a ∷ b ∷ c ∷ []) = same_text (to_lower a ∷ to_lower b ∷ to_lower c ∷ []) (codes "get")
is_get text = false

-- The lines that the client still sends; the loop does not see the end of the input.
unfoldable pub read_requesthdrs : List (List ℕ) → Option (List (List ℕ))
read_requesthdrs [] = none
read_requesthdrs (buf ∷ lines) =
    let rest = read_requesthdrs lines in if same_text buf (codes "\r\n") then some lines else rest

unfoldable pub error_body : (cause errnum shortmsg longmsg : List ℕ) → List ℕ
error_body cause errnum shortmsg longmsg =
    codes "<html><title>Tiny Error</title>"
    ++ codes "<body bgcolor=ffffff>\r\n"
    ++ errnum
    ++ codes ": "
    ++ shortmsg
    ++ codes "\r\n"
    ++ codes "<p>"
    ++ longmsg
    ++ codes ": "
    ++ cause
    ++ codes "\r\n"
    ++ codes "<hr><em>The Tiny Web server</em>\r\n"

unfoldable pub error_answer : (body errnum shortmsg : List ℕ) → List Action
error_answer body errnum shortmsg =
    writes (codes "HTTP/1.0 " ++ errnum ++ codes " " ++ shortmsg ++ codes "\r\n")
    ∷ writes (codes "Content-type: text/html\r\n")
    ∷ writes (codes "Content-length: " ++ decimal (length body) ++ codes "\r\n\r\n")
    ∷ writes body
    ∷ []

abbrev pub answered : (body : Option (List ℕ)) → (errnum shortmsg : List ℕ) → Result
answered none errnum shortmsg = faults
answered (some body) errnum shortmsg = returns (error_answer body errnum shortmsg)

unfoldable pub clienterror : (cause errnum shortmsg longmsg : List ℕ) → Result
clienterror cause errnum shortmsg longmsg =
    answered (filled (error_body cause errnum shortmsg longmsg)) errnum shortmsg
