-- ===== src/Web/Proxy/Forward.antt =====
-- `parse_uri`, `rebuild_request` and `process_request` of LAB7_proxylab/proxy.c on a well-formed
-- request.
use cmu_15_213_intro_to_comp.Prelude.{
  ℕ, ◌<◌, ◌≡◌, ◌↔◌, refl, sym, ap, ◌∙◌, Bool, true, false, some, List, [], ◌∷◌, ◌++◌, map, length,
  lt→ltb, if◌then◌else◌, Bool-cases, inl, inr, ◌==◌,
}
use mathlib.Core.Path.{subst}
use mathlib.Core.List.{append_assoc, cons≢nil}
use cmu_15_213_intro_to_comp.Shell.Control.{same_text}
use cmu_15_213_intro_to_comp.Web.{
  writes, connects, sends, closes_client, closes_server, returns, codes, words, before, from,
  filled, is_get, is_space, read_requesthdrs, Avoids, Avoids-append, is, before-append, from-append,
  before_all, from_all, words-append, to_lower, max_line,
}
use cmu_15_213_intro_to_comp.Web.Proxy.{
  off_the_end, host_port, after_scheme, cut_path, parse_host, parse_uri, default_port, Servers,
  new_request, host_text, rebuild_request, port_of, process_request,
}

abbrev pub scheme : (is_https : Bool) → List ℕ
scheme false = codes "http://"
scheme true = codes "https://"

spc : is_space b' ' ≡ true
unfolding is_space
spc = refl

parse_uri-scheme :
    (is_https : Bool) (rest : List ℕ)
    → parse_uri (scheme is_https ++ rest) ≡ parse_host is_https rest
unfolding parse_uri after_scheme
parse_uri-scheme false rest = refl
parse_uri-scheme true rest = refl

-- A name of a host stands before a '/' and is no part of a longer word.
abbrev pub IsHost : List ℕ → Type 0
IsHost host = Avoids (is b'/') host × (Avoids (is b':') host × Avoids is_space host)

abbrev pub IsPath : List ℕ → Type 0
IsPath path = Avoids (is b':') path × Avoids is_space path

pub parse_uri-host :
    (is_https : Bool) (host path : List ℕ)
    → IsHost host
    → IsPath path
    → parse_uri (scheme is_https ++ (host ++ b'/' ∷ path)) ≡ host_port host (default_port is_https)
unfolding parse_host
parse_uri-host is_https host path (hs, (hc, hw)) (pc, pw) =
    let no_colon = Avoids-append (is b':') host (b'/' ∷ path) hc (refl, pc) in
    parse_uri-scheme is_https (host ++ b'/' ∷ path)
    ∙ rw
        (
          before_all b':' (host ++ b'/' ∷ path) no_colon,
          from_all b':' (host ++ b'/' ∷ path) no_colon,
          from-append b'/' host path hs,
          before-append b'/' host path hs,
        )
        refl

from-none : (d : ℕ) (xs : List ℕ) → from d xs ≡ [] → Avoids (is d) xs
unfolding from
from-none d [] h = tt
from-none d (x ∷ xs) h = elim (Bool-cases (x == d)) [
  | inl e ↦ absurd (cons≢nil (subst (λ b. (if b then x ∷ xs else from d xs) ≡ []) e h))
  | inr e ↦ (e, from-none d xs (subst (λ b. (if b then x ∷ xs else from d xs) ≡ []) e h))
]

cut_path-none :
    (slash hostname port : List ℕ) → cut_path slash hostname port ≡ off_the_end → slash ≡ []
cut_path-none [] hostname port h = refl
cut_path-none (c ∷ cs) hostname port h = absurd (cc h)

-- With either scheme, parse_uri looks for the end of the host name beyond its array exactly if
-- no / stands before the first : of what follows the scheme.
pub parse_uri-off_the_end :
    (is_https : Bool) (rest : List ℕ)
    → (parse_uri (scheme is_https ++ rest) ≡ off_the_end) ↔ Avoids (is b'/') (before b':' rest)
unfolding parse_host
parse_uri-off_the_end is_https rest =
    let hostname = before b':' rest in
    let step = parse_uri-scheme is_https rest in
    (
      (λ h. from-none b'/' hostname (
          cut_path-none (from b'/' hostname) hostname (port_of is_https (from b':' rest))
            (sym step ∙ h))),
      λ h.
          step
          ∙ ap (λ slash. cut_path slash hostname (port_of is_https (from b':' rest)))
              (from_all b'/' hostname h),
    )

line_words :
    (uri version : List ℕ) (c : ℕ)
    → Avoids is_space (c ∷ uri)
    → words (codes "GET " ++ (c ∷ uri) ++ b' ' ∷ version) ≡ codes "GET" ∷ (c ∷ uri) ∷ words version
line_words uri version c h =
    words-append b' ' b'G' (codes "ET") ((c ∷ uri) ++ b' ' ∷ version) spc
      (unfold is_space in (refl, (refl, (refl, tt))))
    ∙ ap (λ ws. codes "GET" ∷ ws) (words-append b' ' c uri version spc h)

-- None of the lines is the empty one that ends the headers.
abbrev pub AreHeaders : List (List ℕ) → Type 0
AreHeaders [] = Unit
AreHeaders (line ∷ lines) = (same_text line (codes "\r\n") ≡ false) × AreHeaders lines

read_requesthdrs-append :
    (headers rest : List (List ℕ))
    → AreHeaders headers
    → read_requesthdrs (headers ++ codes "\r\n" ∷ rest) ≡ some rest
unfolding read_requesthdrs
read_requesthdrs-append [] rest h = refl
read_requesthdrs-append (line ∷ headers) rest (hl, h) =
    rw (hl, read_requesthdrs-append headers rest h) refl

abbrev pub request_uri : (host path : List ℕ) → List ℕ
request_uri host path = scheme false ++ (host ++ b'/' ∷ path)

abbrev pub request_line : (host path version : List ℕ) → List ℕ
request_line host path version = codes "GET " ++ request_uri host path ++ b' ' ∷ version

-- The request that the proxy should send for the path.
abbrev pub request_text : (host path : List ℕ) → List ℕ
request_text host path =
    codes "GET /"
    ++ path
    ++ codes " HTTP/1.0\r\nHost: "
    ++ host
    ++ codes
        "\r\nUser-Agent: Mozilla/5.0 (X11; Linux x86_64; rv:10.0.3) Gecko/20120305 Firefox/10.0.3\r\n"
    ++ codes "Connection: close\r\nProxy-Connection: close\r\n\r\n"

new_request-get :
    (host path : List ℕ) → new_request (codes "GET") (b'/' ∷ path) host ≡ request_text host path
unfolding new_request
new_request-get host path = simp (append_assoc)

request_uri-Avoids :
    (host path : List ℕ) → IsHost host → IsPath path → Avoids is_space (request_uri host path)
unfolding is_space
request_uri-Avoids host path (hs, (hc, hw)) (pc, pw) = (
  refl,
  (
    refl,
    (refl, (refl, (refl, (refl, (refl, Avoids-append is_space host (b'/' ∷ path) hw (refl, pw)))))),
  ),
)

request_line-words :
    (host path version : List ℕ)
    → IsHost host
    → IsPath path
    → words (request_line host path version) ≡ codes "GET" ∷ request_uri host path ∷ words version
request_line-words host path version hh hp =
    line_words (codes "ttp://" ++ (host ++ b'/' ∷ path)) version b'h'
      (request_uri-Avoids host path hh hp)

after_scheme-uri :
    (host path : List ℕ) → after_scheme (request_uri host path) ≡ some (false, host ++ b'/' ∷ path)
unfolding after_scheme
after_scheme-uri host path = refl

filled-fits : (text : List ℕ) → length text < max_line → filled text ≡ some text
unfolding filled
filled-fits text h = rw (lt→ltb (length text) max_line h) refl

rebuild_request-line :
    (host path version : List ℕ)
    → IsHost host
    → IsPath path
    → length (request_text host path) < max_line
    → rebuild_request (request_line host path version) [] ≡ some (request_text host path)
unfolding rebuild_request host_text
rebuild_request-line host path version hh hp fits =
    rw
      (
        request_line-words host path version hh hp,
        after_scheme-uri host path,
        from-append b'/' host path hh.0,
        before-append b'/' host path hh.0,
        new_request-get host path,
      )
      (filled-fits (request_text host path) fits)

get-is_get : is_get (codes "GET") ≡ true
unfolding is_get to_lower
get-is_get = refl

-- For a GET request for a path of an http host, with headers that end with an empty line,
-- process_request connects to port 80 of the host, sends it the request for the path and the
-- host, passes on every piece of its answer and closes both connections, if the host holds no /,
-- neither it nor the path holds a : or a space, the connection is made and the new request fits
-- its buffer.
pub process_request-get :
    (open_clientfd : Servers) (host path version : List ℕ) (headers rest : List (List ℕ))
    (server : List ℕ → List (List ℕ))
    → IsHost host
    → IsPath path
    → AreHeaders headers
    → length (request_text host path) < max_line
    → open_clientfd host (codes "80") ≡ some server
    → process_request open_clientfd
        (request_line host path version ∷ headers ++ codes "\r\n" ∷ rest)
      ≡ returns (
          connects host (codes "80")
            ∷ sends (request_text host path)
            ∷ map writes (server (request_text host path))
          ++ closes_client ∷ closes_server ∷ [])
unfolding process_request
process_request-get open_clientfd host path version headers rest server hh hp heads fits opens =
    rw
      (
        request_line-words host path version hh hp,
        get-is_get,
        read_requesthdrs-append headers rest heads,
        parse_uri-host false host path hh hp,
        opens,
        rebuild_request-line host path version hh hp fits,
      )
      refl
