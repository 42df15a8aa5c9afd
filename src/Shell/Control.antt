-- ===== src/Shell/Control.antt =====
-- LAB5_tshlab/tsh.c: the signal handlers, `do_bgfg`, and the steps of the shell's loop. Everything a
-- signal mask covers is one step. `waitpid` gives a list of reports.
use cmu_15_213_intro_to_comp.Prelude.{
  ℕ, Bool, true, false, not, Option, none, some, List, [], ◌∷◌, ◌++◌, ◌&&◌, ltb, ◌==◌,
  if◌then◌else◌, get_elem?,
}
use cmu_15_213_intro_to_comp.Prelude.Int.{ℤ, pos_part}
use cmu_15_213_intro_to_comp.Shell.{
  Job, fg, bg, st, Table, deletejob, fgpid, getjobpid, getjobjid, pid2jid, set_state,
}

-- What `waitpid` says of a child.
pub data Status : Type 0 where
  exited stopped : Status
  signaled : ℕ → Status

pub data Message : Type 0 where
  job_stopped : (jid pid : ℕ) → Message
  job_terminated : (jid pid signal : ℕ) → Message
  needs_argument bad_argument : List ℕ → Message
  no_such_job no_such_process : ℤ → Message
  job_line : (jid pid : ℕ) → List ℕ → Message

-- One round of `sigchld_handler`; `none` where it writes through a null pointer.
unfoldable pub reap : Table → (pid : ℕ) → Status → Option (Table × List Message)
reap t pid exited = some ((deletejob t pid).1, [])
reap t pid stopped = elim (getjobpid t.jobs pid) [
  | none ↦ none
  | some i ↦
      let js = set_state t.jobs i st in
      some (record t { jobs = js }, job_stopped (pid2jid js pid) pid ∷ [])
]
reap t pid (signaled n) = some ((deletejob t pid).1, job_terminated (pid2jid t.jobs pid) pid n ∷ [])

unfoldable pub sigchld_handler : Table → List (ℕ × Status) → Option (Table × List Message)
sigchld_handler t [] = some (t, [])
sigchld_handler t ((pid, status) ∷ rs) = elim (reap t pid status) [
  | none ↦ none
  | some (t', out) ↦ elim (sigchld_handler t' rs) [
    | none ↦ none
    | some (t'', out') ↦ some (t'', out ++ out')
  ]
]

-- `sigint_handler` and `sigtstp_handler`: the process group to which the signal is passed on.
unfoldable pub forward_signal : List Job → Option ℕ
forward_signal js = let pid = fgpid js in if ltb 0 pid then some pid else none

abbrev pub same_text : List ℕ → List ℕ → Bool
same_text [] [] = true
same_text [] (d ∷ ds) = false
same_text (c ∷ cs) [] = false
same_text (c ∷ cs) (d ∷ ds) = (c == d) && same_text cs ds

abbrev pub fg_text : List ℕ
fg_text = b'f' ∷ b'g' ∷ []

pub data BgFg : Type 0 where
  refused : Message → BgFg
  killed_shell : BgFg
  waits : Table → (slot : ℕ) → BgFg
  resumes : Table → Message → BgFg

module _ (atoi : List ℕ → ℤ) (isdigit : ℕ → Bool) (kill : ℕ → Bool) where
  -- From where the job is found: SIGCONT and the new state. For `fg` the pid to wait for is read
  -- from the slot after the signal mask is restored, so the result is the slot. A failed `kill`
  -- ends the shell.
  unfoldable pub resume : Table → (name : List ℕ) → ℕ → Job → BgFg
  resume t name i job =
      if not (kill job.pid)
      then killed_shell
      else if same_text name fg_text
      then waits (record t { jobs = set_state t.jobs i fg }) i
      else resumes (record t { jobs = set_state t.jobs i bg })
          (job_line job.jid job.pid job.cmdline)

  unfoldable pub resume_slot : Table → (name : List ℕ) → Option ℕ → Message → BgFg
  resume_slot t name none missing = refused missing
  resume_slot t name (some i) missing = elim (get_elem? t.jobs i) [
    | none ↦ refused missing
    | some job ↦ resume t name i job
  ]

  unfoldable pub do_bgfg : Table → List (List ℕ) → BgFg
  do_bgfg t [] = refused (needs_argument [])
  do_bgfg t (name ∷ []) = refused (needs_argument name)
  do_bgfg t (name ∷ [] ∷ rest) = refused (bad_argument name)
  do_bgfg t (name ∷ (c ∷ cs) ∷ rest) =
      if c == b'%'
      then (let n = atoi cs in resume_slot t name (getjobjid t.jobs (pos_part n)) (no_such_job n))
      else if isdigit c
      then (let n = atoi (c ∷ cs) in
          resume_slot t name (getjobpid t.jobs (pos_part n)) (no_such_process n))
      else refused (bad_argument name)
