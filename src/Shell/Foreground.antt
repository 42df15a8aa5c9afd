-- ===== src/Shell/Foreground.antt =====
-- What every step of the shell of LAB5_tshlab/tsh.c keeps true of its job list.
use mathlib.Core.Path.{subst}
use cmu_15_213_intro_to_comp.Prelude.{
  ℕ, ◌<◌, ◌≡◌, ◌≢◌, inl, inr, ◌⊎◌, refl, ◌∙◌, Bool, true, false, Option, none, some, List, [], ◌∷◌,
  ltb, ◌==◌, if◌then◌else◌, get_elem?, arith, Bool-cases, Option-cases,
}
use cmu_15_213_intro_to_comp.Prelude.Int.{ℤ, pos_part}
use cmu_15_213_intro_to_comp.Shell.{
  Job, fg, bg, st, Table, fill_slot, addjob, clear_slot, deletejob, fgpid, getjobpid, getjobjid,
  set_state,
}
use cmu_15_213_intro_to_comp.Shell.Slots.{
  NoFg, OnlyFg, NoFg-OnlyFg, OnlyFg-fgpid, NoFg-fill, OnlyFg-fill, NoFg-clear, OnlyFg-clear,
  NoFg-set_state, OnlyFg-set_state, OnlyFg-set_fg, pid_at-set_state,
}
use cmu_15_213_intro_to_comp.Shell.Control.{
  Status, exited, stopped, signaled, Message, reap, sigchld_handler, BgFg, killed_shell, same_text,
  fg_text, waits, resumes, refused, resume, resume_slot, do_bgfg,
}
use cmu_15_213_intro_to_comp.Shell.Steps.{
  pid_at, Phase, at_prompt, forked, resuming, waiting, Shell, Step, fork, fork_fails, register,
  wake, sigchld, bring_back, read_pid, send_back, Reach, here, next,
}

-- The slot has the only job in the foreground, with the pid, or no job is in the foreground.
pub record Waits (pid : ℕ) (js : List Job) : Type 0 where
  pub slot : ℕ
  pub only : OnlyFg slot js
  pub found : (pid_at js slot ≡ pid) ⊎ NoFg js

Waits-NoFg : (pid : ℕ) (js : List Job) → NoFg js → Waits pid js
Waits-NoFg pid js h = record { slot = 0; only = NoFg-OnlyFg 0 js h; found = inr h }

-- What the phase says of the job list.
abbrev pub PhaseOk : List Job → Phase → Type 0
PhaseOk js at_prompt = NoFg js
PhaseOk js (forked pid background cmdline) = NoFg js × (0 < pid)
PhaseOk js (resuming slot) = OnlyFg slot js
PhaseOk js (waiting pid) = Waits pid js

abbrev pub IsShell : Shell → Type 0
IsShell s = PhaseOk s.table.jobs s.phase

-- One report keeps what the phase says.
PhaseOk-clear :
    (phase : Phase) (pid : ℕ) (js js' : List Job)
    → PhaseOk js phase
    → clear_slot pid js ≡ some js'
    → PhaseOk js' phase
PhaseOk-clear at_prompt pid js js' h e = NoFg-clear pid js js' h e
PhaseOk-clear (forked q background cmdline) pid js js' h e = (NoFg-clear pid js js' h.0 e, h.1)
PhaseOk-clear (resuming slot) pid js js' h e = (OnlyFg-clear slot pid js js' h e).0
PhaseOk-clear (waiting q) pid js js' h e =
    let (only, kept) = OnlyFg-clear h.slot pid js js' h.only e in
    record {
      slot = h.slot;
      only = only;
      found = elim h.found [
        | inl found ↦ elim kept [ inl same ↦ inl (same ∙ found) | inr missing ↦ inr missing ]
        | inr missing ↦ inr (NoFg-clear pid js js' missing e)
      ];
    }

PhaseOk-stop :
    (phase : Phase) (js : List Job) (i : ℕ) → PhaseOk js phase → PhaseOk (set_state js i st) phase
PhaseOk-stop at_prompt js i h = NoFg-set_state js i st refl h
PhaseOk-stop (forked q background cmdline) js i h = (NoFg-set_state js i st refl h.0, h.1)
PhaseOk-stop (resuming slot) js i h = OnlyFg-set_state slot js i st refl h
PhaseOk-stop (waiting q) js i h = record {
  slot = h.slot;
  only = OnlyFg-set_state h.slot js i st refl h.only;
  found = elim h.found [
    | inl found ↦ inl (pid_at-set_state js i h.slot st ∙ found)
    | inr missing ↦ inr (NoFg-set_state js i st refl missing)
  ];
}

abbrev pub shell : Table → Phase → Shell
shell t phase = record { table = t; phase = phase }

deletejob-IsShell :
    (phase : Phase) (t : Table) (pid : ℕ)
    → IsShell (shell t phase)
    → IsShell (shell (deletejob t pid).1 phase)
unfolding deletejob
deletejob-IsShell phase t pid inv = elim (Bool-cases (ltb pid 1)) [
  | inl low ↦ rw low inv
  | inr ok ↦ elim (Option-cases (clear_slot pid t.jobs)) [
    | inl missing ↦ rw (ok, missing) inv
    | inr (js, got) ↦ rw (ok, got) (PhaseOk-clear phase pid t.jobs js inv got)
  ]
]

table_of :
    {a b : Table} {x y : List Message}
    → ◌≡◌ {A = Option (Table × List Message)} (some (a, x)) (some (b, y))
    → a ≡ b
table_of e = cc

reap-IsShell :
    (phase : Phase) (t t' : Table) (pid : ℕ) (status : Status) (out : List Message)
    → IsShell (shell t phase)
    → reap t pid status ≡ some (t', out)
    → IsShell (shell t' phase)
unfolding reap
reap-IsShell phase t t' pid exited out inv e = rw (← table_of e) (deletejob-IsShell phase t pid inv)
reap-IsShell phase t t' pid (signaled n) out inv e =
    rw (← table_of e) (deletejob-IsShell phase t pid inv)
reap-IsShell phase t t' pid stopped out inv e = elim (Option-cases (getjobpid t.jobs pid)) [
  | inl missing ↦ cc (rw (missing, reap) at e)
  | inr (i, got) ↦ rw (← table_of (rw (got, reap) at e)) (PhaseOk-stop phase t.jobs i inv)
]

sigchld-IsShell :
    (phase : Phase) (t t' : Table) (rs : List (ℕ × Status)) (out : List Message)
    → IsShell (shell t phase)
    → sigchld_handler t rs ≡ some (t', out)
    → IsShell (shell t' phase)
unfolding sigchld_handler
sigchld-IsShell phase t t' [] out inv e = rw (← table_of e) inv
sigchld-IsShell phase t t' ((pid, status) ∷ rs) out inv e =
    elim (Option-cases (reap t pid status)) [
      | inl fault ↦ cc (rw (fault, sigchld_handler) at e)
      | inr ((t1, out1), one) ↦ elim (Option-cases (sigchld_handler t1 rs)) [
        | inl fault ↦ cc (rw (one, fault, sigchld_handler) at e)
        | inr ((t2, out2), rest) ↦ rw (← table_of (rw (one, rest, sigchld_handler) at e)) (
            sigchld-IsShell phase t1 t2 rs out2 (reap-IsShell phase t t1 pid status out1 inv one)
              rest)
      ]
    ]

-- What `do_bgfg` may do to a shell at its prompt.
abbrev Resumed : BgFg → Type 0
Resumed (refused message) = Unit
Resumed killed_shell = Unit
Resumed (waits t slot) = IsShell (shell t (resuming slot))
Resumed (resumes t message) = IsShell (shell t at_prompt)

positive : (pid : ℕ) → 0 < pid → ltb pid 1 ≡ false
positive pid pos = ground arith

register-IsShell :
    (t : Table) (pid : ℕ) (background : Bool) (cmdline : List ℕ)
    → IsShell (shell t (forked pid background cmdline))
    → IsShell (
        shell
          (addjob t pid (if background then bg else fg) cmdline).1
          (if background then at_prompt else waiting pid))
unfolding addjob
register-IsShell t pid true cmdline inv =
    let new : Job = record { pid = pid; jid = t.nextjid; state = bg; cmdline = cmdline } in
    elim (Option-cases (fill_slot new t.jobs)) [
      | inl full ↦ rw (positive pid inv.1, full) inv.0
      | inr (js, got) ↦ rw (positive pid inv.1, got) (NoFg-fill new t.jobs js refl inv.0 got)
    ]
register-IsShell t pid false cmdline inv =
    let new : Job = record { pid = pid; jid = t.nextjid; state = fg; cmdline = cmdline } in
    elim (Option-cases (fill_slot new t.jobs)) [
      | inl full ↦ rw (positive pid inv.1, full) (Waits-NoFg pid t.jobs inv.0)
      | inr (js, got) ↦
          let (slot, only, found) = OnlyFg-fill new t.jobs js inv.0 got in
          rw (positive pid inv.1, got) (record { slot = slot; only = only; found = inl found })
    ]

-- `waitfg` stops at the right time.
wake-NoFg : (pid : ℕ) (js : List Job) → Waits pid js → fgpid js ≢ pid → NoFg js
wake-NoFg pid js w ne = elim w.found [
  | inr missing ↦ missing
  | inl found ↦ elim (OnlyFg-fgpid w.slot js w.only) [
    | inl same ↦ absurd (ne (same ∙ found))
    | inr missing ↦ missing
  ]
]

module _ (atoi : List ℕ → ℤ) (isdigit : ℕ → Bool) (kill : ℕ → Bool) where
  resume-Resumed :
      (t : Table) (name : List ℕ) (i : ℕ) (j : Job)
      → IsShell (shell t at_prompt)
      → Resumed (resume atoi isdigit kill t name i j)
  unfolding resume
  resume-Resumed t name i j inv = elim (Bool-cases (kill j.pid)) [
    | inr dead ↦ rw dead tt
    | inl sent ↦ elim (Bool-cases (same_text name fg_text)) [
      | inl front ↦ rw (sent, front) (OnlyFg-set_fg t.jobs i fg inv)
      | inr back ↦ rw (sent, back) (NoFg-set_state t.jobs i bg refl inv)
    ]
  ]

  slot-Resumed :
      (t : Table) (name : List ℕ) (o : Option ℕ) (missing : Message)
      → IsShell (shell t at_prompt)
      → Resumed (resume_slot atoi isdigit kill t name o missing)
  unfolding resume_slot
  slot-Resumed t name none missing inv = tt
  slot-Resumed t name (some i) missing inv = elim (Option-cases (get_elem? t.jobs i)) [
    | inl outside ↦ rw (outside, resume_slot) tt
    | inr (j, at) ↦ rw (at, resume_slot) (resume-Resumed t name i j inv)
  ]

  do_bgfg-Resumed :
      (t : Table) (argv : List (List ℕ))
      → IsShell (shell t at_prompt)
      → Resumed (do_bgfg atoi isdigit kill t argv)
  unfolding do_bgfg
  do_bgfg-Resumed t [] inv = tt
  do_bgfg-Resumed t (name ∷ []) inv = tt
  do_bgfg-Resumed t (name ∷ [] ∷ rest) inv = tt
  do_bgfg-Resumed t (name ∷ (c ∷ cs) ∷ rest) inv = elim (Bool-cases (c == b'%')) [
    | inl percent ↦ rw percent (slot-Resumed t name (getjobjid t.jobs (pos_part (atoi cs))) _ inv)
    | inr other ↦ elim (Bool-cases (isdigit c)) [
      | inl digit ↦
          rw (other, digit)
            (slot-Resumed t name (getjobpid t.jobs (pos_part (atoi (c ∷ cs)))) _ inv)
      | inr bad ↦ rw (other, bad) tt
    ]
  ]

  pub Step-IsShell : {s s' : Shell} → Step atoi isdigit kill s s' → IsShell s → IsShell s'
  Step-IsShell (fork t pid background cmdline pos) inv = (inv, pos)
  Step-IsShell (fork_fails s e) inv = inv
  Step-IsShell (register t pid background cmdline) inv =
      register-IsShell t pid background cmdline inv
  Step-IsShell (wake t pid ne) inv = wake-NoFg pid t.jobs inv ne
  Step-IsShell (sigchld t t' phase reports out e) inv = sigchld-IsShell phase t t' reports out inv e
  Step-IsShell (bring_back t t' argv slot e) inv = subst Resumed e (do_bgfg-Resumed t argv inv)
  Step-IsShell (read_pid t slot) inv = record { slot = slot; only = inv; found = inl refl }
  Step-IsShell (send_back t t' argv message e) inv = subst Resumed e (do_bgfg-Resumed t argv inv)

  pub Reach-IsShell : {s s' : Shell} → IsShell s → Reach atoi isdigit kill s s' → IsShell s'
  Reach-IsShell inv here = inv
  Reach-IsShell inv (next r step) = Step-IsShell step (Reach-IsShell inv r)
