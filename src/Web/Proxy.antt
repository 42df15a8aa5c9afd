-- ===== src/Web/Proxy.antt =====
-- LAB7_proxylab/proxy.c: one request of a client, from its first line to the answer of the server.
pub mod Forward
use cmu_15_213_intro_to_comp.Prelude.{
  ℕ, Bool, true, false, Option, none, some, List, [], ◌∷◌, ◌++◌, if◌then◌else◌, map, drop,
}
use cmu_15_213_intro_to_comp.Web.{
  Action, writes, connects, sends, closes_client, closes_server, Result, returns, exits, faults,
  hangs, codes, words, strip, before, from, filled, is_get, read_requesthdrs, clienterror,
}

pub data Parsed : Type 0 where
  no_scheme : Parsed
  off_the_end : Parsed
  host_port : (hostname port : List ℕ) → Parsed

-- `is_https`, and the text behind the scheme.
unfoldable pub after_scheme : List ℕ → Option (Bool × List ℕ)
after_scheme uri = elim (strip (codes "http://") uri) [
  | some cursor ↦ some (false, cursor)
  | none ↦ elim (strip (codes "https://") uri) [ some cursor ↦ some (true, cursor) | none ↦ none ]
]

abbrev pub default_port : (is_https : Bool) → List ℕ
default_port false = codes "80"
default_port true = codes "443"

abbrev pub port_of : (is_https : Bool) → (port_cursor : List ℕ) → List ℕ
port_of is_https [] = default_port is_https
port_of is_https (c ∷ cs) = cs

-- `for(p = hostname; *p != '/'; ++p); *p = 0;` looks for a '/' beyond the array if there is none in
-- the text, whose part from the first '/' on is the first argument.
abbrev pub cut_path : (slash hostname port : List ℕ) → Parsed
cut_path [] hostname port = off_the_end
cut_path (c ∷ cs) hostname port = host_port (before b'/' hostname) port

unfoldable pub parse_host : (is_https : Bool) → (hostname_cursor : List ℕ) → Parsed
parse_host is_https hostname_cursor =
    let hostname = before b':' hostname_cursor in
    cut_path (from b'/' hostname) hostname (port_of is_https (from b':' hostname_cursor))

unfoldable pub parse_uri : (uri : List ℕ) → Parsed
parse_uri uri = elim (after_scheme uri) [
  | none ↦ no_scheme
  | some (is_https, hostname_cursor) ↦ parse_host is_https hostname_cursor
]

abbrev pub user_agent_hdr : List ℕ
user_agent_hdr =
    codes "User-Agent: Mozilla/5.0 (X11; Linux x86_64; rv:10.0.3) Gecko/20120305 Firefox/10.0.3\r\n"

-- `host` is `uri + strlen("http://")` once the path is cut off.
unfoldable pub new_request : (method cursor host : List ℕ) → List ℕ
new_request method cursor host =
    method
    ++ codes " "
    ++ cursor
    ++ codes " HTTP/1.0\r\n"
    ++ codes "Host: "
    ++ host
    ++ codes "\r\n"
    ++ user_agent_hdr
    ++ codes "Connection: close\r\n"
    ++ codes "Proxy-Connection: close\r\n\r\n"

unfoldable pub host_text : (is_https : Bool) → (rest : List ℕ) → List ℕ
host_text false rest = before b'/' rest
host_text true rest = codes "/" ++ before b'/' rest

abbrev pub rebuild_at : (cursor method host : List ℕ) → Option (List ℕ)
rebuild_at [] method host = none
rebuild_at (c ∷ cs) method host = filled (new_request method (c ∷ cs) host)

abbrev pub rebuild_uri : (method result : List ℕ) → Option (Bool × List ℕ) → Option (List ℕ)
rebuild_uri method result none = some result
rebuild_uri method result (some (is_https, rest)) =
    rebuild_at (from b'/' rest) method (host_text is_https rest)

abbrev pub rebuild_words : List (List ℕ) → (result : List ℕ) → Option (List ℕ)
rebuild_words [] result = none
rebuild_words (method ∷ []) result = none
rebuild_words (method ∷ uri ∷ ws) result = rebuild_uri method result (after_scheme uri)

-- The new content of `result`, or `none` for a fault.
unfoldable pub rebuild_request : (buf result : List ℕ) → Option (List ℕ)
rebuild_request buf result = rebuild_words (words buf) result

-- `open_clientfd` gives the server's answer to what it is sent, in the pieces that `Rio_readnb`
-- reads, or `none` if there is no connection, which ends the program.
abbrev pub Servers : Type 0
Servers = (hostname port : List ℕ) → Option ((request : List ℕ) → List (List ℕ))

abbrev pub relay :
    (hostname port : List ℕ)
    → ((request : List ℕ) → List (List ℕ))
    → (rebuilt : Option (List ℕ)) → Result
relay hostname port server none = faults
relay hostname port server (some buf_new) = returns (
    connects hostname port ∷ sends buf_new ∷ map writes (server buf_new)
    ++ closes_client ∷ closes_server ∷ [])

abbrev pub connected :
    (hostname port buf_old : List ℕ) → Option ((request : List ℕ) → List (List ℕ)) → Result
connected hostname port buf_old none = exits []
connected hostname port buf_old (some server) =
    relay hostname port server (rebuild_request buf_old [])

module _ (open_clientfd : Servers) where
  abbrev pub forward : (buf_old : List ℕ) → Parsed → Result
  forward buf_old no_scheme = exits []
  forward buf_old off_the_end = faults
  forward buf_old (host_port hostname port) =
      connected hostname port buf_old (open_clientfd hostname port)

  abbrev pub get_request :
      (buf_old : List ℕ) → (args : List (List ℕ)) → Option (List (List ℕ)) → Result
  get_request buf_old args none = hangs
  get_request buf_old [] (some rest) = faults
  get_request buf_old (uri ∷ ws) (some rest) = forward buf_old (parse_uri uri)

  abbrev pub handle : (buf_old : List ℕ) → List (List ℕ) → (lines : List (List ℕ)) → Result
  handle buf_old [] lines = faults
  handle buf_old (method ∷ args) lines =
      if is_get method
      then get_request buf_old args (read_requesthdrs lines)
      else clienterror method (codes "501") (codes "Not Implemented")
          (codes "Tiny does not implement this method")

  -- The lines are those that the client sends before it closes its side.
  unfoldable pub process_request : (lines : List (List ℕ)) → Result
  process_request [] = returns []
  process_request (buf_old ∷ lines) = handle buf_old (words buf_old) lines
