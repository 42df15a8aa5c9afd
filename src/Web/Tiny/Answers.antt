-- ===== src/Web/Tiny/Answers.antt =====
-- What `doit` of LAB7_proxylab/tiny/tiny.c runs.
use mathlib.Core.Path.{subst}
use cmu_15_213_intro_to_comp.Prelude.{
  ℕ, ◌≡◌, refl, Bool, true, false, not, ap, sym, ◌∙◌, ltb, length, ◌++◌, ◌||◌, ◌⊎◌, inl, inr,
  Bool-cases, Option, none, some, List, [], ◌∷◌, if◌then◌else◌,
}
use cmu_15_213_intro_to_comp.Web.{
  max_line, codes, contains, before, Action, writes, runs, Result, returns, exits, faults, hangs,
  filled, is_get, words, read_requesthdrs, clienterror, answered, error_body, error_answer,
}
use cmu_15_213_intro_to_comp.Web.Tiny.{
  Stat, ends_with_slash, parse_uri, send_file, serve_static, static_headers, serve, serve_file,
  serve_parsed, get_uri, do_get, handle, doit,
}

-- The program is among the actions.
abbrev pub RunsIn : (filename cgiargs : List ℕ) → List Action → Type 0
RunsIn f a [] = ⊥
RunsIn f a (writes t ∷ rest) = RunsIn f a rest
RunsIn f a (runs g b ∷ rest) = ((g ≡ f) × (b ≡ a)) ⊎ RunsIn f a rest
RunsIn f a (_ ∷ rest) = RunsIn f a rest

-- The answer runs the program with these arguments.
abbrev pub Runs : (filename cgiargs : List ℕ) → Result → Type 0
Runs f a (returns actions) = RunsIn f a actions
Runs f a (exits actions) = RunsIn f a actions
Runs f a faults = ⊥
Runs f a hangs = ⊥

answered-Runs :
    (f a : List ℕ) (body : Option (List ℕ)) (errnum shortmsg : List ℕ)
    → ¬ Runs f a (answered body errnum shortmsg)
unfolding error_answer
answered-Runs f a none errnum shortmsg r = r
answered-Runs f a (some body) errnum shortmsg r = r

clienterror-Runs :
    (f a cause errnum shortmsg longmsg : List ℕ)
    → ¬ Runs f a (clienterror cause errnum shortmsg longmsg)
unfolding clienterror
clienterror-Runs f a cause errnum shortmsg longmsg r =
    answered-Runs f a (filled (error_body cause errnum shortmsg longmsg)) errnum shortmsg r

send_file-Runs :
    (f a text : List ℕ) (srcp : Option (List ℕ)) → ¬ Runs f a (send_file (writes text) srcp)
send_file-Runs f a text none r = r
send_file-Runs f a text (some srcp) r = r

-- Where the branch of a test answers with no run, the other one was taken.
other_branch :
    (f a : List ℕ) (b : Bool) (m n : Result)
    → ¬ Runs f a m
    → Runs f a (if b then m else n)
    → (b ≡ false) × Runs f a n
other_branch f a true m n h r = absurd (h r)
other_branch f a false m n h r = (refl, r)

first_branch :
    (f a : List ℕ) (b : Bool) (m n : Result)
    → ¬ Runs f a n
    → Runs f a (if b then m else n)
    → (b ≡ true) × Runs f a m
first_branch f a true m n h r = (refl, r)
first_branch f a false m n h r = absurd (h r)

both_pass : (p q : Bool) → (not p || not q) ≡ false → (p ≡ true) × (q ≡ true)
both_pass true true h = (refl, refl)
both_pass true false h = absurd (cc h)
both_pass false q h = absurd (cc h)

abbrev picked : (b s : Bool) (d t u : List ℕ × List ℕ) → Bool × (List ℕ × List ℕ)
picked b s d t u = if b then (false, d) else if s then (true, t) else (true, u)

dynamic_branch :
    (b s : Bool) (d t u : List ℕ × List ℕ) (f : List ℕ)
    → (picked b s d t u).0 ≡ false
    → (picked b s d t u).1.0 ≡ f
    → (b ≡ true) × (d.0 ≡ f)
dynamic_branch true s d t u f h k = (refl, k)
dynamic_branch false true d t u f h k = absurd (cc h)
dynamic_branch false false d t u f h k = absurd (cc h)

module _ (stat : (filename : List ℕ) → Option Stat)
    (mapped : (filename : List ℕ) → (filesize : ℕ) → Option (List ℕ)) where
  -- `stat` says that it is a regular file that the user may execute.
  abbrev pub IsProgram : List ℕ → Type 0
  IsProgram f =
      (sbuf : Stat) × ((stat f ≡ some sbuf) × ((sbuf.is_regular ≡ true) × (sbuf.user_runs ≡ true)))

  serve-Runs :
      (f a filename cgiargs : List ℕ) (is_static : Bool) (sbuf : Stat)
      → stat filename ≡ some sbuf
      → Runs f a (serve stat mapped is_static filename cgiargs sbuf)
      → (is_static ≡ false) × ((filename ≡ f) × IsProgram f)
  unfolding serve_static static_headers
  serve-Runs f a filename cgiargs true sbuf found r =
      let (passed, sent) =
        other_branch f a (not sbuf.is_regular || not sbuf.user_reads) _ _
          (clienterror-Runs f a filename _ _ _) r in
      absurd (send_file-Runs f a _ (mapped filename sbuf.st_size) sent)
  serve-Runs f a filename cgiargs false sbuf found r =
      let (passed, ran) =
        other_branch f a (not sbuf.is_regular || not sbuf.user_runs) _ _
          (clienterror-Runs f a filename _ _ _) r in
      elim ran [
        | inl (same, _) ↦ (refl, (same, (sbuf, (ap stat (sym same) ∙ found, both_pass _ _ passed))))
        | inr none_left ↦ absurd none_left
      ]

  serve_file-Runs :
      (f a filename cgiargs : List ℕ) (is_static : Bool) (found : Option Stat)
      → stat filename ≡ found
      → Runs f a (serve_file stat mapped is_static filename cgiargs found)
      → (is_static ≡ false) × ((filename ≡ f) × IsProgram f)
  serve_file-Runs f a filename cgiargs is_static none e r =
      absurd (clienterror-Runs f a filename _ _ _ r)
  serve_file-Runs f a filename cgiargs is_static (some sbuf) e r =
      serve-Runs f a filename cgiargs is_static sbuf e r

  serve_parsed-Runs :
      (f a name cgiargs : List ℕ) (is_static : Bool)
      → Runs f a (serve_parsed stat mapped is_static (filled name) cgiargs)
      → (is_static ≡ false) × ((name ≡ f) × IsProgram f)
  unfolding filled
  serve_parsed-Runs f a name cgiargs is_static r = elim (Bool-cases (ltb (length name) max_line)) [
    | inl e ↦ serve_file-Runs f a name cgiargs is_static (stat name) refl (
        subst
          (λ b.
            Runs f a (serve_parsed stat mapped is_static (if b then some name else none) cgiargs))
          e r)
    | inr e ↦ absurd (
        subst
          (λ b.
            Runs f a (serve_parsed stat mapped is_static (if b then some name else none) cgiargs))
          e r)
  ]

  -- The URI names the program.
  abbrev pub Names : List ℕ → List ℕ → Type 0
  Names uri f = (contains uri (codes "cgi-bin") ≡ true) × (codes "." ++ before b'?' uri ≡ f)

  dynamic-Names :
      (uri f : List ℕ) → (parse_uri uri).0 ≡ false → (parse_uri uri).1.0 ≡ f → Names uri f
  unfolding parse_uri
  dynamic-Names uri f h k =
      dynamic_branch (contains uri (codes "cgi-bin")) (ends_with_slash uri) _ _ _ f h k

  get_uri-Runs : (f a uri : List ℕ) → Runs f a (get_uri stat mapped uri) → Names uri f × IsProgram f
  unfolding get_uri
  get_uri-Runs f a uri r =
      let (dynamic, (same, program)) =
        serve_parsed-Runs f a (parse_uri uri).1.0 (parse_uri uri).1.1 (parse_uri uri).0 r in
      (dynamic-Names uri f dynamic same, program)

  get-Runs :
      (f a : List ℕ) (args : List (List ℕ)) (rest : Option (List (List ℕ)))
      → Runs f a (do_get stat mapped args rest)
      → (uri : List ℕ) × (ws : List (List ℕ)) × ((args ≡ uri ∷ ws) × (Names uri f × IsProgram f))
  get-Runs f a args none r = absurd r
  get-Runs f a [] (some rest) r = absurd r
  get-Runs f a (uri ∷ ws) (some rest) r = (uri, ws, (refl, get_uri-Runs f a uri r))

  -- The line asks with GET for a URI that names the program.
  abbrev pub Asks : (line f : List ℕ) → Type 0
  Asks line f =
      (method : List ℕ) × (uri : List ℕ) × (ws : List (List ℕ)) × ((words line ≡ method ∷ uri ∷ ws)
        × ((is_get method ≡ true) × Names uri f))

  handle-Runs :
      (f a : List ℕ) (line : List ℕ) (ws lines : List (List ℕ))
      → words line ≡ ws
      → Runs f a (handle stat mapped ws lines)
      → Asks line f × IsProgram f
  handle-Runs f a line [] lines e r = absurd r
  handle-Runs f a line (method ∷ args) lines e r =
      let (g, got) = first_branch f a (is_get method) _ _ (clienterror-Runs f a method _ _ _) r in
      let (uri, ws, (same, (named, program))) = get-Runs f a args (read_requesthdrs lines) got in
      ((method, uri, ws, (e ∙ ap (λ t. method ∷ t) same, (g, named))), program)

  -- If doit runs a program for a request, the first line asks with GET for a URI that holds
  -- cgi-bin, the name of the program is a dot and the URI up to a ?, and stat says that it is a
  -- regular file that its user may execute.
  pub doit-Runs :
      (f a line : List ℕ) (lines : List (List ℕ))
      → Runs f a (doit stat mapped (line ∷ lines))
      → Asks line f × IsProgram f
  unfolding doit
  doit-Runs f a line lines r = handle-Runs f a line (words line) lines refl r
