-- ===== src/Web/Tiny.antt =====
-- LAB7_proxylab/tiny/tiny.c: one request to the web server, from its first line to the answer.
pub mod Answers
use cmu_15_213_intro_to_comp.Prelude.{
  ℕ, ◌+◌, Bool, true, false, not, ◌||◌, Option, none, some, List, [], ◌∷◌, ◌++◌, ◌==◌,
  if◌then◌else◌,
}
use cmu_15_213_intro_to_comp.Web.{
  Action, writes, runs, Result, returns, exits, faults, hangs, codes, words, contains, before, from,
  decimal, filled, is_get, read_requesthdrs, clienterror,
}

-- `uri[strlen(uri)-1] == '/'`
unfoldable pub ends_with_slash : List ℕ → Bool
ends_with_slash [] = false
ends_with_slash (c ∷ []) = c == b'/'
ends_with_slash (c ∷ d ∷ cs) = ends_with_slash (d ∷ cs)

-- What stands behind the '?'.
abbrev pub behind : List ℕ → List ℕ
behind [] = []
behind (c ∷ cs) = cs

-- `is_static`, and `filename` and `cgiargs` as they are filled; `filename` may be too long for its
-- array.
unfoldable pub parse_uri : (uri : List ℕ) → Bool × (List ℕ × List ℕ)
parse_uri uri =
    if contains uri (codes "cgi-bin")
    then (false, (codes "." ++ before b'?' uri, behind (from b'?' uri)))
    else if ends_with_slash uri
    then (true, (codes "." ++ uri ++ codes "home.html", []))
    else (true, (codes "." ++ uri, []))

unfoldable pub get_filetype : (filename : List ℕ) → List ℕ
get_filetype filename =
    if contains filename (codes ".html")
    then codes "text/html"
    else if contains filename (codes ".gif")
    then codes "image/gif"
    else if contains filename (codes ".png")
    then codes "image/png"
    else if contains filename (codes ".jpg")
    then codes "image/jpeg"
    else codes "text/plain"

-- What `stat` says of a file: `S_ISREG`, `S_IRUSR`, `S_IXUSR` and `st_size`.
pub record Stat : Type 0 where
  pub is_regular : Bool
  pub user_reads : Bool
  pub user_runs : Bool
  pub st_size : ℕ

unfoldable pub static_headers : (filename : List ℕ) → (filesize : ℕ) → List ℕ
static_headers filename filesize =
    codes "HTTP/1.0 200 OK\r\n"
    ++ codes "Server: Tiny Web Server\r\n"
    ++ codes "Connection: close\r\n"
    ++ codes "Content-length: "
    ++ decimal filesize
    ++ codes "\r\n"
    ++ codes "Content-type: "
    ++ get_filetype filename
    ++ codes "\r\n\r\n"

abbrev pub send_file : (headers : Action) → (srcp : Option (List ℕ)) → Result
send_file headers none = exits (headers ∷ [])
send_file headers (some srcp) = returns (headers ∷ writes srcp ∷ [])

-- `stat` answers `none` if there is no such file. `mapped` gives what `Open` and `Mmap` show of the
-- file, or `none` if one of them fails, which ends the program.
module _ (stat : (filename : List ℕ) → Option Stat)
    (mapped : (filename : List ℕ) → (filesize : ℕ) → Option (List ℕ)) where
  unfoldable pub serve_static : (filename : List ℕ) → (filesize : ℕ) → Result
  serve_static filename filesize =
      send_file (writes (static_headers filename filesize)) (mapped filename filesize)

  abbrev pub serve_dynamic : (filename cgiargs : List ℕ) → Result
  serve_dynamic filename cgiargs = returns (
      writes (codes "HTTP/1.0 200 OK\r\n")
      ∷ writes (codes "Server: Tiny Web Server\r\n")
      ∷ runs filename cgiargs
      ∷ [])

  abbrev pub serve : (is_static : Bool) → (filename cgiargs : List ℕ) → Stat → Result
  serve true filename cgiargs sbuf =
      if not sbuf.is_regular || not sbuf.user_reads
      then clienterror filename (codes "403") (codes "Forbidden")
          (codes "Tiny couldn't read the file")
      else serve_static filename sbuf.st_size
  serve false filename cgiargs sbuf =
      if not sbuf.is_regular || not sbuf.user_runs
      then clienterror filename (codes "403") (codes "Forbidden")
          (codes "Tiny couldn't run the CGI program")
      else serve_dynamic filename cgiargs

  abbrev pub serve_file : (is_static : Bool) → (filename cgiargs : List ℕ) → Option Stat → Result
  serve_file is_static filename cgiargs none =
      clienterror filename (codes "404") (codes "Not found") (codes "Tiny couldn't find this file")
  serve_file is_static filename cgiargs (some sbuf) = serve is_static filename cgiargs sbuf

  abbrev pub serve_parsed : (is_static : Bool) → (filename : Option (List ℕ)) → List ℕ → Result
  serve_parsed is_static none cgiargs = faults
  serve_parsed is_static (some filename) cgiargs =
      serve_file is_static filename cgiargs (stat filename)

  unfoldable pub get_uri : (uri : List ℕ) → Result
  get_uri uri =
      let (is_static, (filename, cgiargs)) = parse_uri uri in
      serve_parsed is_static (filled filename) cgiargs

  abbrev pub do_get : (args : List (List ℕ)) → Option (List (List ℕ)) → Result
  do_get args none = hangs
  do_get [] (some rest) = faults
  do_get (uri ∷ ws) (some rest) = get_uri uri

  abbrev pub handle : List (List ℕ) → (lines : List (List ℕ)) → Result
  handle [] lines = faults
  handle (method ∷ args) lines =
      if is_get method
      then do_get args (read_requesthdrs lines)
      else clienterror method (codes "501") (codes "Not Implemented")
          (codes "Tiny does not implement this method")

  -- The lines are those that the client sends before it closes its side.
  unfoldable pub doit : (lines : List (List ℕ)) → Result
  doit [] = returns []
  doit (buf ∷ lines) = handle (words buf) lines
