-- ===== src/Web/Tests.antt =====
-- Requests to LAB7_proxylab/proxy.c and LAB7_proxylab/tiny/tiny.c, and the theorems about them at
-- concrete requests.
use cmu_15_213_intro_to_comp.Prelude.{
  ℕ, ◌≡◌, refl, arith, true, false, Option, none, some, List, [], ◌∷◌, ◌++◌, if◌then◌else◌, inl,
  ◌↔◌,
}
use cmu_15_213_intro_to_comp.Shell.Control.{same_text}
use cmu_15_213_intro_to_comp.Texts.{avoids-Avoids}
use cmu_15_213_intro_to_comp.Web.{
  writes, connects, sends, closes_client, closes_server, returns, codes, words, before, from,
  filled, is, is_space, is_get, to_lower, read_requesthdrs, Avoids,
}
use cmu_15_213_intro_to_comp.Web.Proxy.{
  Servers, off_the_end, after_scheme, parse_host, host_text, new_request, rebuild_request,
  process_request,
}
use cmu_15_213_intro_to_comp.Web.Proxy as Proxy
use cmu_15_213_intro_to_comp.Web.Proxy.Forward.{
  request_text, request_line, process_request-get, parse_uri-off_the_end,
}
use cmu_15_213_intro_to_comp.Web.Tiny.{Stat, get_uri, doit}
use cmu_15_213_intro_to_comp.Web.Tiny as Tiny
use cmu_15_213_intro_to_comp.Web.Tiny.Answers.{Asks, IsProgram, doit-Runs}

-- A server of one host, which answers every request in two pieces.
abbrev echo_server : List ℕ → List (List ℕ)
echo_server request = codes "got " ∷ request ∷ []

abbrev one_host : Servers
one_host hostname port = if same_text hostname (codes "cmu.edu") then some echo_server else none

abbrev header_lines : List (List ℕ)
header_lines = codes "Host: cmu.edu\r\n" ∷ codes "Accept: */*\r\n" ∷ []

process_request-get_example :
    process_request one_host (
      request_line (codes "cmu.edu") (codes "a/b") (codes "HTTP/1.1\r\n") ∷ header_lines
      ++ codes "\r\n" ∷ [])
    ≡ returns (
        connects (codes "cmu.edu") (codes "80")
        ∷ sends (request_text (codes "cmu.edu") (codes "a/b"))
        ∷ writes (codes "got ")
        ∷ writes (request_text (codes "cmu.edu") (codes "a/b"))
        ∷ closes_client
        ∷ closes_server
        ∷ [])
unfolding is_space
process_request-get_example =
    process_request-get one_host (codes "cmu.edu") (codes "a/b") (codes "HTTP/1.1\r\n") header_lines
      [] echo_server
      (
        avoids-Avoids (is b'/') (codes "cmu.edu") refl,
        (
          avoids-Avoids (is b':') (codes "cmu.edu") refl,
          avoids-Avoids is_space (codes "cmu.edu") refl,
        ),
      )
      (avoids-Avoids (is b':') (codes "a/b") refl, avoids-Avoids is_space (codes "a/b") refl)
      (refl, (refl, tt)) (omega arith) refl

parse_uri-off_the_end_example :
    (Proxy.parse_uri (codes "http://cmu.edu:8080/a") ≡ off_the_end)
    ↔ Avoids (is b'/') (before b':' (codes "cmu.edu:8080/a"))
parse_uri-off_the_end_example = parse_uri-off_the_end false (codes "cmu.edu:8080/a")

https_host :
    rebuild_request (codes "GET https://cmu.edu/a HTTP/1.1\r\n") []
    ≡ some (request_text (codes "/cmu.edu") (codes "a"))
unfolding rebuild_request words is_space after_scheme from before host_text new_request filled
https_host = refl

abbrev adder_stat : List ℕ → Option Stat
adder_stat filename =
    if same_text filename (codes "./cgi-bin/adder")
    then some (record { is_regular = true; user_reads = true; user_runs = true; st_size = 99 })
    else none

abbrev no_file : List ℕ → ℕ → Option (List ℕ)
no_file filename filesize = none

abbrev adder_line : List ℕ
adder_line = codes "GET /cgi-bin/adder?1&2 HTTP/1.0\r\n"

doit-Runs_example :
    Asks adder_stat no_file adder_line (codes "./cgi-bin/adder")
    × IsProgram adder_stat no_file (codes "./cgi-bin/adder")
unfolding doit words is_space is_get to_lower read_requesthdrs get_uri Tiny.parse_uri filled from
    before
doit-Runs_example =
    doit-Runs adder_stat no_file (codes "./cgi-bin/adder") (codes "1&2") adder_line
      (codes "\r\n" ∷ []) (inl (refl, refl))
